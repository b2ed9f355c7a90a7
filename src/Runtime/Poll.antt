-- ===== src/Runtime/Poll.antt =====
-- `poll_with_backoff` of src/runtime/mod.rs. Times are milliseconds. The clock, `sleep` and the
-- condition act on the world; that time passes at least as long as a sleep is a law of the clock.
use clawstainer.Base.{
  ℕ, zero, suc, ◌+◌, ◌-◌, ◌*◌, ◌≤◌, ◌<◌, min, String, ◌≡◌, refl, ◌⊎◌, inl, inr, Bool, true, false,
  false, arith, leb, if◌then◌else◌, Bool-cases, Option, none, some, leb→le, leb-false,
}
use clawstainer.Errors.{other, Result, ok, err}

pub record Clock (W : Type 0) : Type 0 where
  pub now : W → ℕ
  pub sleep : ℕ → W → W
  pub now-sleep : (d : ℕ) (w : W) → now w + d ≤ now (sleep d w)

-- A condition takes no negative time.
pub record Check (W : Type 0) (clock : Clock W) : Type 0 where
  pub test : W → Bool × W
  pub now-test : (w : W) → clock.now w ≤ clock.now (test w).1

module _ {W : Type 0} (clock : Clock W) (check : Check W clock) (max_delay timeout start : ℕ) where
  -- The `loop`; `none` means that the fuel ran out.
  unfoldable pub poll_loop : ℕ → String → ℕ → W → Option (Result (Unit {0}) × W)
  poll_loop zero timeout_msg delay w = none
  poll_loop (suc fuel) timeout_msg delay w =
      let (done, w') = check.test w in
      let elapsed = clock.now w' - start in
      let rest =
        poll_loop fuel timeout_msg (min (delay * 2) max_delay)
          (clock.sleep (min delay (timeout - elapsed)) w') in
      if done
      then some (ok tt, w')
      else if leb timeout elapsed
      then some (err (other timeout_msg), w')
      else rest

  -- How the polling may end: the condition held when it was last tested, or it did not and the
  -- timeout has passed.
  abbrev pub Ended : String → Result (Unit {0}) × W → Type 0
  Ended timeout_msg (r, w) =
      (before : W) × (((check.test before ≡ (true, w)) × (r ≡ ok tt))
        ⊎ ((check.test before ≡ (false, w))
            × (r ≡ err (other timeout_msg))
            × (timeout ≤ clock.now w - start)))

  pub poll_loop-Ended :
      (fuel : ℕ) (timeout_msg : String) (delay : ℕ) (w : W)
      → 1 ≤ max_delay
      → 1 ≤ delay
      → start ≤ clock.now w
      → timeout - (clock.now w - start) < fuel
      → (r : Result (Unit {0}) × W) × (poll_loop fuel timeout_msg delay w ≡ some r)
        × Ended timeout_msg r
  unfolding poll_loop
  poll_loop-Ended zero timeout_msg delay w m d s enough = absurd (omega arith)
  poll_loop-Ended (suc fuel) timeout_msg delay w m d s enough =
      let w' = (check.test w).1 in
      let elapsed = clock.now w' - start in
      let slept = clock.sleep (min delay (timeout - elapsed)) w' in
      let later = check.now-test w in
      let awake = clock.now-sleep (min delay (timeout - elapsed)) w' in
      elim (Bool-cases (check.test w).0) [
        | inl done ↦ rw done ((ok tt, w'), refl, (w, inl (ground arith, refl)))
        | inr not_yet ↦ elim (Bool-cases (leb timeout elapsed)) [
          | inl over ↦
              rw (not_yet, over)
                (
                  (err (other timeout_msg), w'),
                  refl,
                  (w, inr (ground arith, refl, leb→le timeout elapsed over)),
                )
          | inr going ↦
              let more = leb-false timeout elapsed going in
              rw (not_yet, going)
                (poll_loop-Ended fuel timeout_msg (min (delay * 2) max_delay) slept m (omega arith)
                  (omega (arith, later, awake)) (omega (arith, later, awake, more)))
        ]
      ]

module _ {W : Type 0} (clock : Clock W) (check : Check W clock) where
  -- One round for each millisecond of the timeout, and the last two.
  unfoldable pub poll_with_backoff : ℕ → ℕ → ℕ → String → W → Option (Result (Unit {0}) × W)
  unfolding poll_loop
  poll_with_backoff initial_delay max_delay timeout timeout_msg w =
      poll_loop clock check max_delay timeout (clock.now w) (timeout + 2) timeout_msg initial_delay
        w

  -- With delays of a millisecond at least, `poll_with_backoff` returns, however the condition
  -- behaves: `Ok` exactly after a test that held, or the timeout message after a test that failed
  -- when the timeout had passed.
  pub poll_with_backoff-Ended :
      (initial_delay max_delay timeout : ℕ) (timeout_msg : String) (w : W)
      → 1 ≤ initial_delay
      → 1 ≤ max_delay
      → (r : Result (Unit {0}) × W) × (poll_with_backoff initial_delay max_delay timeout timeout_msg
            w
          ≡ some r)
        × Ended clock check max_delay timeout (clock.now w) timeout_msg r
  unfolding poll_with_backoff
  poll_with_backoff-Ended initial_delay max_delay timeout timeout_msg w i m =
      poll_loop-Ended clock check max_delay timeout (clock.now w) (timeout + 2) timeout_msg
        initial_delay w m i (omega arith) (omega arith)
