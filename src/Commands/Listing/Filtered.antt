-- ===== src/Commands/Listing/Filtered.antt =====
-- What `list --status` of src/commands/list.rs shows.
use clawstainer.Base.{
  String, true, false, ◌≡◌, refl, ap, List, [], ◌∷◌, keep_if, ◌==◌, inl, inr, Bool-cases, eq_iff,
}
use clawstainer.Base.Map.{values}
use clawstainer.Commands.Listing.{retain_status, refresh, refresh_all, print_list}
use clawstainer.Errors.{ok}
use clawstainer.Exec.{pure, ◌>>=◌}
use clawstainer.Runtime.{Runtime}
use clawstainer.State.{Machine}
use clawstainer.State.Store.{Sys, with_read_lock}

abbrev pub HaveStatus : String → List Machine → Type 0
HaveStatus status [] = Unit {0}
HaveStatus status (m ∷ ms) = ((m.status == status) ≡ true) × HaveStatus status ms

keep_if-HaveStatus :
    (status : String) (ms : List Machine) → HaveStatus status (keep_if (λ m. m.status == status) ms)
keep_if-HaveStatus status [] = tt
keep_if-HaveStatus status (m ∷ ms) = elim (Bool-cases (m.status == status)) [
  | inl here ↦ rw here (here, keep_if-HaveStatus status ms)
  | inr other ↦ rw other (keep_if-HaveStatus status ms)
]

retain_status_one :
    (status : String) (ms : List Machine)
    → (status == "all") ≡ false
    → retain_status status ms ≡ keep_if (λ m. m.status == status) ms
unfolding retain_status
retain_status_one status ms one = rw one refl

-- Machines of a status that is filtered for pass a second filter.
retain_status_twice :
    (status : String) (ms : List Machine) → HaveStatus status ms → retain_status status ms ≡ ms
unfolding retain_status
retain_status_twice status [] h = elim (Bool-cases (status == "all")) [
  | inl all ↦ rw all refl
  | inr one ↦ rw one refl
]
retain_status_twice status (m ∷ ms) h = elim (Bool-cases (status == "all")) [
  | inl all ↦ rw all refl
  | inr one ↦ rw (one, h.0) (ap (λ rest. m ∷ rest) (rw one at (retain_status_twice status ms h.1)))
]

module _ {W : Type 0} (nspawn firecracker : Runtime W) where
  refresh_all_none :
      (status : String) (ms : List Machine) (s : Sys W)
      → (status == "running") ≡ false
      → HaveStatus status ms
      → refresh_all nspawn firecracker ms s ≡ (ok ms, s)
  unfolding refresh_all refresh pure ◌>>=◌
  refresh_all_none status [] s other h = refl
  refresh_all_none status (m ∷ ms) s other h =
      let stopped : (m.status == "running") ≡ false = rw ((eq_iff m.status status).0 h.0) other in
      rw (stopped, refresh_all_none status ms s other h.1) refl

  -- A list of any status but "all" and "running" asks no runtime: it is what the state has stored,
  -- so a machine that is stored as running and has stopped since is left out.
  pub print_list_stored :
      (status : String) (s : Sys W)
      → (status == "all") ≡ false
      → (status == "running") ≡ false
      → print_list nspawn firecracker status s
        ≡ (ok (keep_if (λ m. m.status == status) (values s.state.machines)), s)
  unfolding print_list pure ◌>>=◌ with_read_lock
  print_list_stored status s one other =
      let stored : List Machine = values s.state.machines in
      let kept = keep_if-HaveStatus status stored in
      rw
        (
          retain_status_one status stored one,
          refresh_all_none status _ s other kept,
          retain_status_twice status _ kept,
        )
        refl
