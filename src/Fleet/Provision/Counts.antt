-- ===== src/Fleet/Provision/Counts.antt =====
-- What the second pass of a fleet's creation (src/commands/fleet.rs) leaves, for every outcome of
-- the threads.
use mathlib.Core.List.{◌++◌ as append, Perm}
use mathlib.Core.List.Perm
use clawstainer.Base.{
  ℕ, suc, ◌+◌, ◌^◌, ◌<◌, String, ◌≡◌, refl, ap, List, [], ◌∷◌, map, length, length-append, arith,
  subst,
}
use clawstainer.Errors.{Result, ok}
use clawstainer.Exec.{Exec, pure, attempt, after, ◌>>=◌}
use clawstainer.State.Store.{Sys}
use clawstainer.Runtime.{Runtime}
use clawstainer.Component.{ComponentsFile, ProvisionResult}
use clawstainer.Fleet.{FleetMachineResult, PendingProvision}
use clawstainer.Fleet.Provision.Ends.{
  machine_of, count_ok, count_err, count_all, Settled, Settled-both, settle-Settled, as_many,
}
use clawstainer.Fleet.Provision.Chunks.{concat, chunks_lem}
use clawstainer.Fleet.Provision.{
  Tally, settle, chunks, at_least_one, provision_thread, run_thread, run_chunk, run_chunks,
  provision_fleet_machines,
}

module _ {W : Type 0} (now_ms : W → ℕ) (load : Result ComponentsFile) (open_store : Exec W Unit)
    (make_runtime : String → Runtime W)
    (schedule : List PendingProvision → List PendingProvision) where
  -- How the threads end that run in this order from this state, and the state that they leave.
  unfoldable pub outcomes : List PendingProvision → Sys W → List (Result ProvisionResult)
  outcomes [] s = []
  outcomes (p ∷ ps) s =
      let ended = provision_thread now_ms load open_store make_runtime schedule p s in
      ended.0 ∷ outcomes ps ended.1

  unfoldable state_after : List PendingProvision → Sys W → Sys W
  state_after [] s = s
  state_after (p ∷ ps) s =
      state_after ps (provision_thread now_ms load open_store make_runtime schedule p s).1

  length-outcomes : (ps : List PendingProvision) (s : Sys W) → length (outcomes ps s) ≡ length ps
  unfolding outcomes
  length-outcomes [] s = refl
  length-outcomes (p ∷ ps) s = ap suc (length-outcomes ps _)

  outcomes-append :
      (ps qs : List PendingProvision) (s : Sys W)
      → outcomes (append ps qs) s ≡ append (outcomes ps s) (outcomes qs (state_after ps s))
  unfolding outcomes state_after
  outcomes-append [] qs s = refl
  outcomes-append (p ∷ ps) qs s =
      let ended = provision_thread now_ms load open_store make_runtime schedule p s in
      ap (λ os. ended.0 ∷ os) (outcomes-append ps qs ended.1)

  -- A program that returns a tally that has these threads in it.
  abbrev Returns : Exec (Sys W) Tally → List PendingProvision → Tally → Sys W → Type 0
  Returns m order tally s = (t : Tally) × ((m s).0 ≡ ok t) × Settled (outcomes order s) tally t

  run_chunk-Returns :
      (ps : List PendingProvision) (tally : Tally) (s : Sys W)
      → tally.provisioned + tally.prov_failed + length ps < 2 ^ 32
      → Returns (run_chunk now_ms load open_store make_runtime schedule ps tally) ps tally s
        × ((run_chunk now_ms load open_store make_runtime schedule ps tally s).1 ≡ state_after ps s)
  unfolding run_chunk run_thread ◌>>=◌ attempt pure outcomes state_after count_ok count_err
  run_chunk-Returns [] tally s small = (
    (tally, refl, record { provisioned = omega arith; failed = omega arith; machines = refl }),
    refl,
  )
  run_chunk-Returns (p ∷ ps) tally s small =
      let run = provision_thread now_ms load open_store make_runtime schedule p s in
      let next = settle p run.0 tally in
      let one = settle-Settled p run.0 tally (omega (arith, small)) in
      let sum = count_all (run.0 ∷ []) in
      let rest =
        run_chunk-Returns ps next run.1 (omega (arith, small, one.provisioned, one.failed, sum)) in
      (
        (
          rest.0.0,
          rest.0.1,
          Settled-both (run.0 ∷ []) (outcomes ps run.1) tally next rest.0.0 one rest.0.2,
        ),
        rest.1,
      )

  -- The order in which the threads of all chunks end.
  unfoldable order_of : List (List PendingProvision) → List PendingProvision
  order_of [] = []
  order_of (c ∷ cs) = append (schedule c) (order_of cs)

  order_of-Perm :
      (cs : List (List PendingProvision))
      → ((c : List PendingProvision) → Perm (schedule c) c)
      → Perm (order_of cs) (concat cs)
  unfolding order_of
  order_of-Perm [] fair = Perm.refl []
  order_of-Perm (c ∷ cs) fair = Perm.append (fair c) (order_of-Perm cs fair)

  run_chunks-Returns :
      (cs : List (List PendingProvision)) (tally : Tally) (s : Sys W)
      → tally.provisioned + tally.prov_failed + length (order_of cs) < 2 ^ 32
      → Returns
          (run_chunks now_ms load open_store make_runtime schedule cs tally)
          (order_of cs)
          tally
          s
  unfolding run_chunks order_of outcomes count_ok count_err ◌>>=◌ pure
  run_chunks-Returns [] tally s small =
      (tally, refl, record { provisioned = omega arith; failed = omega arith; machines = refl })
  run_chunks-Returns (c ∷ cs) tally s small =
      let ps = schedule c in
      let one =
        run_chunk-Returns ps tally s (omega (arith, small, length-append ps (order_of cs))) in
      let mid = state_after ps s in
      let two = run_chunks-Returns cs one.0.0 mid (
        omega (
          arith,
          small,
          one.0.2.provisioned,
          one.0.2.failed,
          count_all (outcomes ps s),
          length-outcomes ps s,
          length-append ps (order_of cs),
        )) in
      (
        two.0,
        rw (one.0.1, after, one.1) two.1,
        rw (outcomes-append ps (order_of cs) s) (
            Settled-both (outcomes ps s) (outcomes (order_of cs) mid) tally one.0.0 two.0 one.0.2
              two.2),
      )

  -- The tally of a whole pass over the machines of `pending`: in the order in which they ended, each
  -- thread is counted as it ended, and the results are about the machines that they were about.
  pub record AllSettled (pending : List PendingProvision) (results : List FleetMachineResult)
      (s : Sys W) (t : Tally) : Type 0 where
    pub order : List PendingProvision
    pub each_once : Perm order pending
    pub succeeded : t.provisioned ≡ count_ok (outcomes order s)
    pub failed : t.prov_failed ≡ count_err (outcomes order s)
    pub sum : t.provisioned + t.prov_failed ≡ length pending
    pub machines : map machine_of t.results ≡ map machine_of results

  -- If the threads of a chunk end in some order, each once, and the machines number less than 2^32,
  -- then whatever the threads return, panics included: `provision_fleet_machines` returns; the threads
  -- run in an order of all the machines; as many are counted as provisioned as returned a result and
  -- as many as failed as did not, one for each machine; and the results are about the machines that
  -- they were about, in the same order.
  pub provision_fleet_machines-Settled :
      (pending : List PendingProvision) (results : List FleetMachineResult) (parallel : ℕ)
      (s : Sys W)
      → ((c : List PendingProvision) → Perm (schedule c) c)
      → length pending < 2 ^ 32
      → (t : Tally) × ((provision_fleet_machines now_ms load open_store make_runtime schedule
            pending results parallel s).0
          ≡ ok t)
        × AllSettled pending results s t
  unfolding provision_fleet_machines at_least_one
  provision_fleet_machines-Settled pending results parallel s fair small =
      let n = at_least_one parallel in
      let start : Tally = record { results = results; provisioned = 0; prov_failed = 0 } in
      let cs = chunks n pending in
      let permuted : Perm (order_of cs) pending =
        subst (Perm (order_of cs)) ((chunks_lem n pending (ground arith)).0)
          (order_of-Perm cs fair) in
      let same = as_many permuted in
      let end = run_chunks-Returns cs start s (omega (arith, same, small)) in
      (
        end.0,
        end.1,
        record {
          order = order_of cs;
          each_once = permuted;
          succeeded = omega (arith, end.2.provisioned);
          failed = omega (arith, end.2.failed);
          sum = omega (
            arith,
            end.2.provisioned,
            end.2.failed,
            count_all (outcomes (order_of cs) s),
            length-outcomes (order_of cs) s,
            same,
          );
          machines = end.2.machines;
        },
      )
