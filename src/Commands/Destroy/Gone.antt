-- ===== src/Commands/Destroy/Gone.antt =====
-- What `destroy --all` (src/commands/destroy.rs) leaves.
use clawstainer.Base.{
  String, ◌≡◌, refl, true, ◌==◌, some, List, [], ◌∷◌, arith, contains, Bool-cases, inl, inr, eq_iff,
  subst,
}
use clawstainer.Base.Map.{Map, get, keys}
use clawstainer.Errors.{ok, Result-cases}
use clawstainer.Exec.{pure, ◌>>=◌}
use clawstainer.State.{Machine}
use clawstainer.State.Store.{Sys, with_read_lock}
use clawstainer.Runtime.{DestroyResult, Runtime}
use clawstainer.Main.Backends.{nspawn}
use clawstainer.Runtime.Host.{Host, Output}
use clawstainer.Runtime.Images.{Images}
use clawstainer.Runtime.Nspawn.Destroy.{destroy}
use clawstainer.Runtime.Nspawn.Destroy.Laws.{GoneOrFailed, destroy-GoneOrFailed, destroy-others}
use clawstainer.Commands.Destroy.{destroy_each, destroy_all}

module _ {W : Type 0} (host : Host W) (images : Images W) (print_status : Output → String) where
  -- The backend that `destroy --all` is given.
  abbrev backend : Runtime W
  backend = nspawn host images print_status

  -- A machine that is gone or failed stays so.
  stays_gone :
      (id j : String) (s : Sys W) (r : DestroyResult)
      → (backend.destroy id s).0 ≡ ok r
      → GoneOrFailed (get j s.state.machines)
      → GoneOrFailed (get j (backend.destroy id s).1.state.machines)
  unfolding nspawn
  stays_gone id j s r done before = elim (Bool-cases (id == j)) [
    | inl same ↦
        subst (λ x. GoneOrFailed (get x (destroy host images id s).1.state.machines))
          ((eq_iff id j).0 same) (destroy-GoneOrFailed host images id s r done)
    | inr other ↦ rw (destroy-others host images id s j (λ e. cc (other, (eq_iff id j).1 e))) before
  ]

  destroy_each_gone :
      (ids : List String) (j : String) (s : Sys W) (rs : List DestroyResult)
      → (destroy_each backend ids s).0 ≡ ok rs
      → GoneOrFailed (get j s.state.machines)
      → GoneOrFailed (get j (destroy_each backend ids s).1.state.machines)
  unfolding destroy_each pure ◌>>=◌
  destroy_each_gone [] j s rs h before = before
  destroy_each_gone (id ∷ ids) j s rs h before = elim (Result-cases (backend.destroy id s).0) [
    | inr (e, failed) ↦ absurd (ground (arith, failed, h))
    | inl (r, done) ↦
        let s' = (backend.destroy id s).1 in
        elim (Result-cases (destroy_each backend ids s').0) [
          | inr (e, failed) ↦ absurd (ground (arith, done, failed, h))
          | inl (rest, all_done) ↦
              rw (done, all_done)
                (destroy_each_gone ids j s' rest all_done (stays_gone id j s r done before))
        ]
  ]

  destroy_each_listed :
      (ids : List String) (j : String) (s : Sys W) (rs : List DestroyResult)
      → (destroy_each backend ids s).0 ≡ ok rs
      → contains j ids ≡ true
      → GoneOrFailed (get j (destroy_each backend ids s).1.state.machines)
  unfolding destroy_each pure ◌>>=◌ nspawn
  destroy_each_listed [] j s rs h listed = absurd (cc listed)
  destroy_each_listed (id ∷ ids) j s rs h listed = elim (Result-cases (backend.destroy id s).0) [
    | inr (e, failed) ↦ absurd (ground (arith, failed, h))
    | inl (r, done) ↦
        let s' = (backend.destroy id s).1 in
        elim (Result-cases (destroy_each backend ids s').0) [
          | inr (e, failed) ↦ absurd (ground (arith, done, failed, h))
          | inl (rest, all_done) ↦ elim (Bool-cases (id == j)) [
            | inl same ↦
                rw (done, all_done)
                  (destroy_each_gone ids j s' rest all_done (
                    subst (λ x. GoneOrFailed (get x (destroy host images id s).1.state.machines))
                      ((eq_iff id j).0 same) (destroy-GoneOrFailed host images id s r done)))
            | inr other ↦
                rw (done, all_done) (destroy_each_listed ids j s' rest all_done (ground arith))
          ]
        ]
  ]

  contains-keys :
      (j : String) (m : Machine) (machines : Map Machine)
      → get j machines ≡ some m
      → contains j (keys machines) ≡ true
  unfolding get keys
  contains-keys j m [] h = absurd (cc h)
  contains-keys j m ((k, n) ∷ machines) h = elim (Bool-cases (k == j)) [
    | inl same ↦ rw same refl
    | inr other ↦ ground (arith, contains-keys j m machines)
  ]

  -- After `destroy --all` succeeded, with the backend that it is given, every machine that the state
  -- had is gone, or is kept as failed.
  pub destroy_all_gone :
      (s : Sys W) {rs : List DestroyResult} (j : String) {m : Machine}
      → (destroy_all (nspawn host images print_status) s).0 ≡ ok rs
      → get j s.state.machines ≡ some m
      → GoneOrFailed (get j (destroy_all (nspawn host images print_status) s).1.state.machines)
  unfolding destroy_all ◌>>=◌ with_read_lock
  destroy_all_gone s {rs} j {m} h found =
      destroy_each_listed (keys s.state.machines) j s rs h
        (contains-keys j m s.state.machines found)
