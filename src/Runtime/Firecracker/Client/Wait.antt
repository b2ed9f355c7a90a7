-- ===== src/Runtime/Firecracker/Client/Wait.antt =====
-- The waits of src/firecracker/api.rs and vsock.rs end.
use clawstainer.Base.{
  ℕ, zero, suc, ◌+◌, ◌-◌, ◌≤◌, ◌<◌, String, Bool, true, false, ◌≡◌, Option, some, inl, inr, arith,
  ltb, Bool-cases, ltb→lt,
}
use clawstainer.Errors.{other, Result, ok, err}
use clawstainer.Runtime.Firecracker.Client.{ended, wait_loop, wait_until}
use clawstainer.Runtime.Poll.{Clock}

module _ {W : Type 0} (clock : Clock W) (test : W → Bool × W) (delay timeout : ℕ) (msg : String)
    (forward : (w : W) → clock.now w ≤ clock.now (test w).1) (positive : 0 < delay) where
  -- How a wait ends: by the test, or by an error once more time than the timeout has gone by.
  pub data WaitEnds (start : ℕ) : Option (Result (Unit {0}) × W) → Type 0 where
    in_time : (w : W) → (test w).0 ≡ true → WaitEnds start (some (ok tt, (test w).1))
    too_late :
        (w : W)
        → (test w).0 ≡ false
        → timeout < clock.now (test w).1 - start
        → WaitEnds start (some (err (other msg), (test w).1))

  round :
      (fuel start : ℕ) (w : W)
      → (ltb timeout (clock.now (test w).1 - start) ≡ false
          → WaitEnds start
              (wait_loop clock test delay timeout msg fuel start (clock.sleep delay (test w).1)))
      → WaitEnds start (wait_loop clock test delay timeout msg (suc fuel) start w)
  unfolding wait_loop
  round fuel start w again = elim (Bool-cases (test w).0) [
    | inl done ↦ rw done (in_time w done)
    | inr not_yet ↦ elim (Bool-cases (ltb timeout (clock.now (test w).1 - start))) [
      | inl late ↦ rw (not_yet, late) (too_late w not_yet (ltb→lt _ _ late))
      | inr time_left ↦ rw (not_yet, time_left) (again time_left)
    ]
  ]

  -- Each round but the last sleeps, so fuel for the time that is left is enough.
  wait_loop-WaitEnds :
      (fuel start : ℕ) (w : W)
      → timeout + start < clock.now w + fuel
      → WaitEnds start (wait_loop clock test delay timeout msg (suc fuel) start w)
  wait_loop-WaitEnds zero start w enough =
      round zero start w (λ time_left. absurd (ground (arith, forward w)))
  wait_loop-WaitEnds (suc fuel) start w enough = round (suc fuel) start w (λ time_left.
      wait_loop-WaitEnds fuel start (clock.sleep delay (test w).1)
        (omega (arith, forward w, clock.now-sleep delay (test w).1)))

  ended-WaitEnds :
      (start : ℕ) (w : W) (o : Option (Result (Unit {0}) × W))
      → WaitEnds start o
      → WaitEnds start (some (ended clock test delay timeout msg w o))
  ended-WaitEnds start w _ (in_time v e) = in_time v e
  ended-WaitEnds start w _ (too_late v e late) = too_late v e late

  -- A wait always ends: with success after a try that succeeded, or with the error after a try that
  -- did not and by which more than the timeout had passed since the wait began. It needs a clock
  -- that the tries do not set back and a pause that is not zero.
  pub wait_until-WaitEnds :
      (w : W) → WaitEnds (clock.now w) (some (wait_until clock test delay timeout msg w))
  unfolding wait_until
  wait_until-WaitEnds w =
      ended-WaitEnds (clock.now w) w _
        (wait_loop-WaitEnds (timeout + 1) (clock.now w) w (omega arith))
