-- ===== src/State/Disk/Refinement.antt =====
-- The transactions of `StateStore` (src/state/mod.rs) on its files: they implement the transactions
-- of State/Store, and a call of the file system that fails never leaves half a state behind.
use clawstainer.Base.{String, ◌≡◌, refl, ◌⊎◌, inl, inr, Option, none, some, arith, Bool-cases, ◌&&◌}
use clawstainer.Errors.{Result, ok, Result-cases}
use clawstainer.Exec.{Exec}
use clawstainer.State.{State}
use clawstainer.State.Store.{Sys, with_lock, with_read_lock}
use clawstainer.State.Disk.{
  Codec, RoundTrips, Calls, all_succeed, Disk, read_text, on_disk_with_lock, on_disk_with_read_lock,
}

module _ {W : Type 0} (codec : Codec) where
  -- The files hold the state `s`.
  abbrev pub Holds : State → Disk W → Type 0
  Holds s d = read_text codec all_succeed d.state_json ≡ ok s

  abbrev pub Same : {A : Type 0} → Result A × Disk W → Result A × Sys W → Type 0
  Same (r, d) (r', sys) = (r ≡ r') × Holds sys.state d × (d.world ≡ sys.world)

  Holds-print :
      (s : State) (t : Option String) (w : W)
      → RoundTrips codec s
      → Holds s (record { state_json = some (codec.print s); state_tmp = t; world = w })
  unfolding read_text
  Holds-print s t w h = rw (h.1, h.0) refl

  -- With a file system that works, and if the text of the new state reads back as that state, a
  -- transaction on the files has the result of the transaction on the state that they hold, changes
  -- the host alike, and leaves files that hold the new state.
  pub on_disk_with_lock-Same :
      {A : Type 0} (f : Exec (Sys W) A) (s : State) (d : Disk W)
      → Holds s d
      → RoundTrips codec (f (record { state = s; world = d.world })).1.state
      → Same
          (on_disk_with_lock codec all_succeed f d)
          (with_lock f (record { state = s; world = d.world }))
  unfolding on_disk_with_lock with_lock
  on_disk_with_lock-Same f s d h round =
      let t = (f (record { state = s; world = d.world })).1 in
      ground (arith, Holds-print t.state none t.world round)

  pub on_disk_with_read_lock-Same :
      {A : Type 0} (f : State → Result A) (s : State) (d : Disk W)
      → Holds s d
      → Same
          (on_disk_with_read_lock codec all_succeed f d)
          (with_read_lock f (record { state = s; world = d.world }))
  unfolding on_disk_with_read_lock with_read_lock
  on_disk_with_read_lock-Same f s d h = ground arith

  -- The files hold what the closure made of the state that was read.
  abbrev pub Committed : {A : Type 0} → Calls → Exec (Sys W) A → Disk W → A → Disk W → Type 0
  Committed calls f d a d' =
      (s : State) × (t : Sys W) × (read_text codec calls d.state_json ≡ ok s)
      × (f (record { state = s; world = d.world }) ≡ (ok a, t))
      × (d'.state_json ≡ some (codec.print t.state))

  -- Whichever calls of the file system fail, and whether or not the closure does, `state.json`
  -- afterwards is what it was, or the whole text of the state that a successful closure made.
  pub on_disk_with_lock_atomic :
      {A : Type 0} (calls : Calls) (f : Exec (Sys W) A) (d : Disk W)
      → ((on_disk_with_lock codec calls f d).1.state_json ≡ d.state_json)
        ⊎ ((a : A) × Committed calls f d a (on_disk_with_lock codec calls f d).1)
  unfolding on_disk_with_lock
  on_disk_with_lock_atomic calls f d = elim (Result-cases (read_text codec calls d.state_json)) [
    | inr (e, unread) ↦ inl (ground arith)
    | inl (s, was_read) ↦ elim (Result-cases (f (record { state = s; world = d.world })).0) [
      | inr (e, failed) ↦ inl (ground arith)
      | inl (a, done) ↦
          elim (Bool-cases (calls.opened && calls.locked && calls.written && calls.renamed)) [
            | inr stopped ↦ inl (ground arith)
            | inl passed ↦ inr (
              a,
              (
                s,
                (f (record { state = s; world = d.world })).1,
                was_read,
                ground arith,
                ground arith,
              ),
            )
          ]
    ]
  ]

  -- A transaction that reports success has committed.
  pub on_disk_with_lock-Committed :
      {A : Type 0} (calls : Calls) (f : Exec (Sys W) A) (d : Disk W) {a : A}
      → (on_disk_with_lock codec calls f d).0 ≡ ok a
      → Committed calls f d a (on_disk_with_lock codec calls f d).1
  unfolding on_disk_with_lock
  on_disk_with_lock-Committed calls f d h =
      elim (Result-cases (read_text codec calls d.state_json)) [
        | inr (e, unread) ↦ absurd (ground arith)
        | inl (s, was_read) ↦
            (s, (f (record { state = s; world = d.world })).1, was_read, ground arith, ground arith)
      ]
