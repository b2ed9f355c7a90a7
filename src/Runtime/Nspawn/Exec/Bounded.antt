-- ===== src/Runtime/Nspawn/Exec/Bounded.antt =====
-- The bound on the output of `NspawnRuntime::exec` (src/runtime/nspawn.rs).
use Prim.Native.String.{len}
use clawstainer.Base.{ℕ, ◌≤◌, String, ◌≡◌, Option, arith, ltb, Bool-cases, inl, inr}
use clawstainer.Base.Map.{is_some}
use clawstainer.Errors.{ok}
use clawstainer.Exec.{Exec, lift}
use clawstainer.Exec.Hoare.{Hoare, Hoare-bind, Hoare-pure, Hoare-given}
use clawstainer.Runtime.{ExecOpts, ExecResult}
use clawstainer.Runtime.Host.{Host, Output}
use text.Mathlib.Text.{is_char_boundary}
use clawstainer.Runtime.Nspawn.Exec.{max_output_bytes, truncate, exec_result, exec}

truncate_le : (s t : String) → truncate s ≡ ok t → len t ≤ max_output_bytes
unfolding truncate
truncate_le s t h = elim (Bool-cases (ltb max_output_bytes (len s))) [
  | inr short ↦ ground (arith, short, h)
  | inl long ↦ elim (Bool-cases (is_char_boundary s max_output_bytes)) [
    | inr inside ↦ absurd (ground (arith, long, inside, h))
    | inl boundary ↦ ground (arith, long, boundary, h)
  ]
]

-- At most 1 MB of each stream; `total_bytes` is there exactly if the output was cut.
pub record Bounded (r : ExecResult) : Type 0 where
  pub stdout_le : len r.stdout ≤ 1048576
  pub stderr_le : len r.stderr ≤ 1048576
  pub total : is_some r.total_bytes ≡ r.truncated

exec_result-Bounded :
    {W : Type 0} (host : Host W) (machine_id : String) (duration_ms : ℕ) (output : Output)
    (stats : Option ℕ × Option ℕ) (stdout stderr : String)
    → len stdout ≤ 1048576
    → len stderr ≤ 1048576
    → Bounded (exec_result host machine_id duration_ms output stats stdout stderr)
unfolding exec_result
exec_result-Bounded host machine_id duration_ms output stats stdout stderr so se = record {
  stdout_le = so;
  stderr_le = se;
  total = ground arith;
}

module _ {W : Type 0} (host : Host W) where
  abbrev Anything : W → Type 0
  Anything w = Unit {0}

  Hoare-Anything : {A : Type 0} (m : Exec W A) → Hoare Anything m (λ _. Anything) Anything
  Hoare-Anything m = record { on_ok = λ w p a e. tt; on_err = λ w p f e. tt }

  Hoare-truncate :
      (s : String) → Hoare Anything (lift (truncate s)) (λ t _. len t ≤ 1048576) Anything
  unfolding lift
  Hoare-truncate s = record { on_ok = λ w p t e. truncate_le s t e; on_err = λ w p f e. tt }

  Hoare-exec :
      (machine_id : String) (opts : ExecOpts)
      → Hoare Anything (exec host machine_id opts) (λ r _. Bounded r) Anything
  unfolding exec
  Hoare-exec machine_id opts = Hoare-bind _ _ (Hoare-Anything _) λ _.
      Hoare-bind _ _ (Hoare-Anything _) λ start. Hoare-bind _ _ (Hoare-Anything _) λ output.
        Hoare-bind _ _ (Hoare-Anything _) λ duration_ms.
          Hoare-bind _ _ (Hoare-truncate output.stdout) λ stdout. Hoare-given λ so.
            Hoare-bind _ _ (Hoare-truncate output.stderr) λ stderr. Hoare-given λ se.
              Hoare-bind _ _ (Hoare-Anything _) λ stats. Hoare-pure _ (λ w h.
                exec_result-Bounded host machine_id duration_ms output stats stdout stderr so se)

  -- Whatever the command prints: a result of `exec` has at most 1048576 bytes of standard output and
  -- of standard error each, and reports the total exactly if it says that the output was cut.
  pub exec-Bounded :
      (machine_id : String) (opts : ExecOpts) (w : W) {r : ExecResult}
      → (exec host machine_id opts w).0 ≡ ok r
      → Bounded r
  exec-Bounded machine_id opts w {r} h = (Hoare-exec machine_id opts).on_ok w tt r h
