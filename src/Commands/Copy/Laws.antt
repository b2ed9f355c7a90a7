-- ===== src/Commands/Copy/Laws.antt =====
-- The copies of src/commands/cp.rs and the ports of src/commands/port_forward.rs.
use clawstainer.Base.{
  ℕ, ◌<◌, String, ◌≡◌, refl, ap, ◌⊎◌, inl, inr, Option, none, some, List, [], ◌∷◌, zero, suc, true,
  arith, Option-cases, Bool-cases, subst,
}
use clawstainer.Base.Text.{split_once, parse_uint}
use clawstainer.Base.Text.Numbers.{parse_uint-lt}
use clawstainer.Commands.Copy.{
  Direction, pull, push, CpResult, parse_path, direction_of, parse_port, copy_live, cp_run,
  machinectl, verb,
}
use clawstainer.Errors.{ok, result_inj, Result-cases}
use clawstainer.Exec.{pure, fail, lift, map_err, after, ◌>>=◌}
use clawstainer.Base.Map.{get}
use clawstainer.Exec.Kept.{bind-eq-ok, bind_after}
use clawstainer.State.{Machine}
use clawstainer.State.Reconcile.Live.{get_running_machine_live-running}
use clawstainer.Main.{runtime_for_machine}
use clawstainer.Runtime.{Runtime}
use clawstainer.Runtime.Host.{Host, Output, exited_ok, success}
use clawstainer.Base.Int.{ℤ, pos, negsuc}
use clawstainer.State.Reconcile.{get_running_machine_live}
use clawstainer.State.Store.{Sys, on_host}

-- The ports of a mapping are `u16` values, whichever of its two forms it has.
parse_port-lt :
    (port : String) (host sandbox : ℕ)
    → parse_port port ≡ ok (host, sandbox)
    → (host < 65536) × (sandbox < 65536)
unfolding parse_port
parse_port-lt port host sandbox e = elim (Option-cases (split_once b':' port)) [
  | inl whole ↦ elim (Option-cases (parse_uint 65536 port)) [
    | inl bad ↦ absurd (ground arith)
    | inr (p, read) ↦ ground (arith, parse_uint-lt 65536 port p)
  ]
  | inr ((a, b), parts) ↦ elim (Option-cases (parse_uint 65536 a)) [
    | inl bad ↦ absurd (ground arith)
    | inr (p, read) ↦ elim (Option-cases (parse_uint 65536 b)) [
      | inl bad ↦ absurd (ground arith)
      | inr (q, read') ↦ ground (arith, parse_uint-lt 65536 a p, parse_uint-lt 65536 b q)
    ]
  ]
]

-- Which side of a copy is the machine's, by its direction.
pub data Sides (r : CpResult) (src dst : String) : Type 0 where
  pulled :
      r.direction ≡ pull
      → parse_path src ≡ (some r.machine_id, r.src)
      → parse_path dst ≡ (none, r.dst)
      → Sides r src dst
  pushed :
      r.direction ≡ push
      → parse_path src ≡ (none, r.src)
      → parse_path dst ≡ (some r.machine_id, r.dst)
      → Sides r src dst

sides_of :
    (src dst : Option String × String) (target : String × Direction)
    → direction_of src.0 dst.0 ≡ ok target
    → ((target.1 ≡ pull) × (src ≡ (some target.0, src.1)) × (dst ≡ (none, dst.1)))
      ⊎ ((target.1 ≡ push) × (src ≡ (none, src.1)) × (dst ≡ (some target.0, dst.1)))
unfolding direction_of
sides_of (some a, x) (none, y) target e = inl (ground arith, ground arith, refl)
sides_of (none, x) (some b, y) target e = inr (ground arith, refl, ground arith)
sides_of (some a, x) (some b, y) target e = cc
sides_of (none, x) (none, y) target e = cc

module _ {W : Type 0} (host : Host W) (nspawn firecracker : Runtime W) where
  -- The state, at the end of a copy, of the machine that was copied from or to.
  pub record LiveCopy (id : String) (s : Sys W) : Type 0 where
    pub machine : Machine
    pub stored : get id s.state.machines ≡ some machine
    pub running : machine.status ≡ "running"

  -- What `machinectl` has to be told for a copy.
  abbrev copy_verb : Direction → String
  copy_verb pull = "copy-from"
  copy_verb push = "copy-to"

  abbrev pub command_for : CpResult → List String
  command_for r = "machinectl" ∷ copy_verb r.direction ∷ r.machine_id ∷ r.src ∷ r.dst ∷ []

  -- The host has run the command of the copy, which exited with 0, and then nothing more.
  pub record Copied (r : CpResult) (w' : W) : Type 0 where
    pub before : W
    pub output : Output
    pub ran : (host.run (command_for r) before).0 ≡ ok output
    pub succeeded : output.code ≡ some (pos 0)
    pub ends : w' ≡ (host.run (command_for r) before).1

  exited_ok-zero : (code : Option ℤ) → exited_ok code ≡ true → code ≡ some (pos 0)
  exited_ok-zero none e = cc e
  exited_ok-zero (some (pos zero)) e = refl
  exited_ok-zero (some (pos (suc n))) e = cc e
  exited_ok-zero (some (negsuc n)) e = cc e

  verb_copy : (d : Direction) → verb d ≡ copy_verb d
  verb_copy pull = refl
  verb_copy push = refl

  machinectl-Copied :
      (print_status : Output → String) (r : CpResult) (w : W)
      → let done =
          machinectl host nspawn firecracker print_status r.direction r.machine_id r.src r.dst w in
        done.0 ≡ ok tt → Copied r done.1
  unfolding machinectl map_err pure fail ◌>>=◌
  machinectl-Copied print_status r w done =
      let e : "machinectl" ∷ verb r.direction ∷ r.machine_id ∷ r.src ∷ r.dst ∷ [] ≡ command_for r =
        rw (verb_copy r.direction) refl in
      elim (Result-cases (host.run (command_for r) w).0) [
        | inr (f, failed) ↦ absurd (cc (rw (e, failed) at done))
        | inl (o, ran) ↦ elim (Bool-cases (success o)) [
          | inr bad ↦ absurd (cc (rw (e, ran, after, bad) at done))
          | inl good ↦ record {
            before = w;
            output = o;
            ran = ran;
            succeeded = exited_ok-zero o.code good;
            ends = rw (e, ran, after, good) refl;
          }
        ]
      ]

  copy_live-LiveCopy :
      (print_status : Output → String) (id src dst : String) (d : Direction) (s : Sys W)
      (r : CpResult)
      → let done = copy_live host nspawn firecracker print_status id d src dst s in
        done.0 ≡ ok r
        → (record { machine_id = id; direction = d; src = src; dst = dst } ≡ r)
          × LiveCopy id done.1
          × Copied (record { machine_id = id; direction = d; src = src; dst = dst }) done.1.world
  unfolding copy_live pure on_host
  copy_live-LiveCopy print_status id src dst d s r done =
      let first = runtime_for_machine nspawn firecracker id in
      let (runtime, chosen, live) = bind-eq-ok first _ s done in
      let second = get_running_machine_live id runtime in
      let s1 : Sys W = (first s).1 in
      let (machine, ran, copied) = bind-eq-ok second _ s1 live in
      let third = on_host (machinectl host nspawn firecracker print_status d id src dst) in
      let s2 : Sys W = (second s1).1 in
      let (_, put, answered) = bind-eq-ok third _ s2 copied in
      let (running, stored) = get_running_machine_live-running id runtime s1 ran in
      let r0 : CpResult = record { machine_id = id; direction = d; src = src; dst = dst } in
      (
        result_inj answered,
        rw (bind_after first _ s chosen, bind_after second _ s1 ran, bind_after third _ s2 put)
            (record { machine = machine; stored = stored; running = running }),
        rw (bind_after first _ s chosen, bind_after second _ s1 ran, bind_after third _ s2 put)
            (machinectl-Copied print_status r0 s2.world put),
      )

  LiveCopy-same : (id id' : String) (s : Sys W) → id ≡ id' → LiveCopy id s → LiveCopy id' s
  LiveCopy-same id id' s e live = subst (λ x. LiveCopy x s) e live

  Copied-same : (r r' : CpResult) (w : W) → r ≡ r' → Copied r w → Copied r' w
  Copied-same r r' w e copied = subst (λ x. Copied x w) e copied

  target-Sides :
      (src dst : String) (target : String × Direction) (r : CpResult)
      → direction_of (parse_path src).0 (parse_path dst).0 ≡ ok target
      → record {
        machine_id = target.0;
        direction = target.1;
        src = (parse_path src).1;
        dst = (parse_path dst).1;
      }
        ≡ r
      → Sides r src dst
  target-Sides src dst target r found same =
      elim (sides_of (parse_path src) (parse_path dst) target found) [
        | inl (d, a, b) ↦ subst (λ x. Sides x src dst) same (pulled d a b)
        | inr (d, a, b) ↦ subst (λ x. Sides x src dst) same (pushed d a b)
      ]

  -- A copy that succeeds was between a path of the host and a path of one machine, in the direction
  -- that it reports; `machinectl` was run with the subcommand for that direction, the machine and
  -- the two paths that are reported, exited with 0, and was the last command; and the machine is
  -- stored as running when the copy ends.
  pub cp_run-Sides :
      (print_status : Output → String) (src dst : String) (s : Sys W) (r : CpResult)
      → (cp_run host nspawn firecracker print_status src dst s).0 ≡ ok r
      → let end = (cp_run host nspawn firecracker print_status src dst s).1 in
        Sides r src dst × Copied r end.world × LiveCopy r.machine_id end
  unfolding cp_run lift
  cp_run-Sides print_status src dst s r done =
      let sides = lift (direction_of (parse_path src).0 (parse_path dst).0) in
      let (target, found, copied) = bind-eq-ok sides _ s done in
      let (same, live, ran) =
        copy_live-LiveCopy print_status target.0 (parse_path src).1 (parse_path dst).1 target.1 s r
          copied in
      (
        target-Sides src dst target r found same,
        rw (bind_after sides _ s found) (Copied-same _ _ _ same ran),
        rw (bind_after sides _ s found)
            (LiveCopy-same _ _ _ (ap (λ (x : CpResult). x.machine_id) same) live),
      )
