-- ===== src/Agent/Answers.antt =====
-- What `handle_connection` of src/agent/main.rs sends for the lines that it reads.
use clawstainer.Agent.{
  Request, exec_request, health, shutdown, Response, exec_result, health_result, error_reply,
  acknowledged, ExecRequest, ExecReply, Guest, Connection, send, note_sent, answer, exec, invalid,
  handle_request, handle_connection, on_guest, finish,
}
use clawstainer.Base.{
  ℕ, String, Bool, true, false, ◌≡◌, refl, sym, ap, ◌∙◌, List, [], ◌∷◌, ◌++◌, inl, inr, arith,
  Bool-cases, subst, ◌⊎◌,
}
use clawstainer.Base.Text.{is_blank}
use clawstainer.Errors.{Failure, Result, ok, err, Result-cases, result_inj}
use clawstainer.Exec.{Exec, pure, lift, ignore, ◌>>=◌, ◌>>◌}
use clawstainer.Exec.Kept.{bind-eq-ok, bind_after}
use clawstainer.Runtime.Host.{Output}
use clawstainer.Runtime.Nspawn.Exec.{truncate}
use mathlib.Core.List.{append_assoc, append-nil}

-- A response of the kind that its request asks for.
pub data Fits : Result Request → Response → Type 0 where
  refused : {e : Failure} {message : String} → Fits (err e) (error_reply message)
  executed : {r : ExecRequest} {reply : ExecReply} → Fits (ok (exec_request r)) (exec_result reply)
  not_run : {r : ExecRequest} {message : String} → Fits (ok (exec_request r)) (error_reply message)
  healthy : Fits (ok health) (health_result "ok")

module _ {W : Type 0} (guest : Guest W) where
  -- One response for each line that is not blank, in the order of the lines, until a shutdown.
  pub data Answered : List (Result String) → List Response → Type 0 where
    done : Answered [] []
    blank :
        {line : String} {lines : List (Result String)} {rs : List Response}
        → is_blank line ≡ true
        → Answered lines rs
        → Answered (ok line ∷ lines) rs
    one :
        {line : String} {lines : List (Result String)} {r : Response} {rs : List Response}
        → is_blank line ≡ false
        → Fits (guest.parse line) r
        → Answered lines rs
        → Answered (ok line ∷ lines) (r ∷ rs)
    last :
        {line : String} {lines : List (Result String)}
        → is_blank line ≡ false
        → guest.parse line ≡ ok shutdown
        → Answered (ok line ∷ lines) (acknowledged ∷ [])

  Sends : Response → Connection guest → Connection guest → Type 0
  Sends r c c' = c'.sent ≡ c.sent ++ r ∷ []

  send-Sends :
      (r : Response) (c : Connection guest)
      → (send guest r c).0 ≡ ok tt
      → (send guest r c).1.sent ≡ c.sent ++ r ∷ []
  unfolding send note_sent lift ◌>>=◌
  send-Sends r c ends = elim (Result-cases (guest.print r)) [
    | inr (e, failed) ↦ absurd (ground arith)
    | inl (line, printed) ↦ elim (Result-cases (guest.write_line line c.world).0) [
      | inr (e, failed) ↦ absurd (ground arith)
      | inl (_, written) ↦ rw (printed, written) refl
    ]
  ]

  -- What an answered request leaves: one response, and whether the loop goes on.
  pub record Handled (request : Result Request) (goes_on : Bool) (c c' : Connection guest)
      : Type 0 where
    pub response : Response
    pub sends : c'.sent ≡ c.sent ++ response ∷ []
    pub fits :
        ((goes_on ≡ true) × Fits request response)
        ⊎ ((goes_on ≡ false) × (request ≡ ok shutdown) × (response ≡ acknowledged))

  finish-Fits :
      (r : ExecRequest) (d : ℕ) (o : Result Output) (w : W) (response : Response)
      → (finish guest d o w).0 ≡ ok response
      → Fits (ok (exec_request r)) response
  unfolding pure
  finish-Fits r d (err e) w response ends =
      subst (Fits (ok (exec_request r))) (result_inj ends) not_run
  finish-Fits r d (ok o) w response ends =
      let (stdout, _, rest) = bind-eq-ok (lift (truncate o.stdout)) _ w ends in
      let (stderr, _, replied) = bind-eq-ok (lift (truncate o.stderr)) _ _ rest in
      subst (Fits (ok (exec_request r))) (result_inj replied) executed

  exec-Fits :
      (r : ExecRequest) (w : W) (response : Response)
      → (exec guest r w).0 ≡ ok response
      → Fits (ok (exec_request r)) response
  unfolding exec
  exec-Fits r w response ends = finish-Fits r _ _ _ response ends

  -- The part of `handle_request` that answers anything but a shutdown.
  abbrev reply : Exec W Response → Exec (Connection guest) Bool
  reply m = do
    response ← on_guest guest m
    send guest response
    on_guest guest guest.flush
    pure true

  reply-Handled :
      (request : Result Request) (m : Exec W Response) (c : Connection guest) (goes_on : Bool)
      → ((response : Response) → (m c.world).0 ≡ ok response → Fits request response)
      → (reply m c).0 ≡ ok goes_on
      → Handled request goes_on c (reply m c).1
  unfolding pure
  reply-Handled request m c goes_on fits ends =
      let first = on_guest guest m in
      let (response, answered, rest) = bind-eq-ok first _ c ends in
      let c1 : Connection guest = (first c).1 in
      let (_, sent, later) = bind-eq-ok (send guest response) _ c1 rest in
      let c2 : Connection guest = (send guest response c1).1 in
      let third = on_guest guest guest.flush in
      let (_, flushed, stops) = bind-eq-ok third _ c2 later in
      rw
        (
          bind_after first _ c answered,
          bind_after (send guest response) _ c1 sent,
          bind_after third _ c2 flushed,
        )
        (record {
          response = response;
          sends = send-Sends response c1 sent;
          fits = inl (sym (result_inj stops), fits response answered);
        })

  handle_request-Handled :
      (request : Result Request) (c : Connection guest) (goes_on : Bool)
      → (handle_request guest request c).0 ≡ ok goes_on
      → Handled request goes_on c (handle_request guest request c).1
  unfolding handle_request answer pure ignore
  handle_request-Handled (err e) c goes_on ends =
      let first = send guest (invalid guest e) in
      let (_, sent, stops) = bind-eq-ok first _ c ends in
      rw (bind_after first _ c sent) (record {
        response = invalid guest e;
        sends = send-Sends _ c sent;
        fits = inl (sym (result_inj stops), refused);
      })
  handle_request-Handled (ok (exec_request r)) c goes_on ends =
      reply-Handled (ok (exec_request r)) (exec guest r) c goes_on (exec-Fits r c.world) ends
  handle_request-Handled (ok health) c goes_on ends =
      reply-Handled (ok health) (pure (health_result "ok")) c goes_on
        (λ response e. subst (Fits (ok health)) (result_inj e) healthy) ends
  handle_request-Handled (ok shutdown) c goes_on ends =
      let first = send guest acknowledged in
      let (_, sent, rest) = bind-eq-ok first _ c ends in
      let c1 : Connection guest = (first c).1 in
      let second = on_guest guest guest.flush in
      let (_, flushed, later) = bind-eq-ok second _ c1 rest in
      let c2 : Connection guest = (second c1).1 in
      let third = ignore (on_guest guest guest.poweroff) in
      let (_, off, stops) = bind-eq-ok third _ c2 later in
      rw (bind_after first _ c sent, bind_after second _ c1 flushed, bind_after third _ c2 off)
        (record {
          response = acknowledged;
          sends = send-Sends _ c sent;
          fits = inr (sym (result_inj stops), refl, refl);
        })

  -- What a connection has sent since `c`, for these lines.
  abbrev pub AnsweredSince : List (Result String) → Connection guest → Connection guest → Type 0
  AnsweredSince lines c c' = (rs : List Response) × (c'.sent ≡ c.sent ++ rs) × Answered lines rs

  more_sent :
      (sent later all : List Response) (r : Response) (rs : List Response)
      → later ≡ sent ++ r ∷ []
      → all ≡ later ++ rs
      → all ≡ sent ++ r ∷ rs
  more_sent sent later all r rs e f = f ∙ ap (λ x. x ++ rs) e ∙ append_assoc sent (r ∷ []) rs

  -- A connection that ends without an error has been sent one response for each line read that is
  -- not blank, in the order of the lines and of the kind that its request asks for (an error for a
  -- line that does not parse), up to the end of the input or to the first shutdown, which is
  -- acknowledged and ends it.
  pub handle_connection-Answered :
      (lines : List (Result String)) (c : Connection guest)
      → (handle_connection guest lines c).0 ≡ ok tt
      → AnsweredSince lines c (handle_connection guest lines c).1
  unfolding handle_connection pure lift
  handle_connection-Answered [] c ends = ([], sym (append-nil c.sent), done)
  handle_connection-Answered (err e ∷ lines) c ends = absurd (ground arith)
  handle_connection-Answered (ok line ∷ lines) c ends = elim (Bool-cases (is_blank line)) [
    | inl skipped ↦
        let (rs, sent, all) = handle_connection-Answered lines c (rw skipped at ends) in
        rw skipped (rs, sent, blank skipped all)
    | inr asked ↦
        let first = handle_request guest (guest.parse line) in
        let (goes_on, handled, rest) = bind-eq-ok first _ c (rw asked at ends) in
        let h = handle_request-Handled (guest.parse line) c goes_on handled in
        rw (asked, bind_after first _ c handled)
          (elim h.fits [
            | inl (on, fits) ↦
                let (rs, sent, all) =
                  handle_connection-Answered lines (first c).1 (rw on at rest) in
                rw on (h.response ∷ rs, more_sent _ _ _ _ _ h.sends sent, one asked fits all)
            | inr (off, is_shutdown, acknowledges) ↦ rw off (
              acknowledged ∷ [],
              h.sends ∙ ap (λ x. c.sent ++ x ∷ []) acknowledges,
              last asked is_shutdown,
            )
          ])
  ]
