-- ===== src/Harness/Loops.antt =====
-- The loops of the test harness (src/test_support/mod.rs) end.
use diynamo.Base.{
  ℕ, zero, suc, ◌+◌, ◌≤◌, ◌<◌, Bool, true, false, Error, Result, ok, err, Option, some, ◌≡◌, ◌⊎◌,
  inl, inr, refl, ap, arith, leb, leb→le, Bool-cases,
}
use diynamo.Harness.{Time, IsTime, poll_loop, poll_until}

module _ {W : Type 0} (time : Time W) where
  -- The condition held when it was tried last, and the loop returned there.
  abbrev pub Met : (W → Bool × W) → W → Type 0
  Met condition w' = (w : W) × (condition w ≡ (true, w'))

  -- How a loop with a deadline ends: with success where the condition holds, or with an error at or
  -- behind the deadline where it does not.
  abbrev pub Ends : ℕ → (W → Bool × W) → Option (Result (Unit {0}) × W) → Type 0
  Ends deadline condition r =
      (w' : W) × (((r ≡ some (ok tt, w')) × Met condition w')
        ⊎ ((e : Error) × (r ≡ some (err e, w'))
            × (deadline ≤ time.now w')
            × ((w : W) × (condition w ≡ (false, w')))))

  module _ (law : IsTime time) (deadline interval : ℕ) (condition : W → Bool × W)
      (positive : 0 < interval) (onward : (w : W) → time.now w ≤ time.now (condition w).1) where
    poll_loop-step :
        (fuel : ℕ) (w : W)
        → ((leb deadline (time.now (condition w).1) ≡ false)
            → Ends deadline condition (
                poll_loop time fuel deadline interval condition
                  (time.sleep interval (condition w).1)))
        → Ends deadline condition (poll_loop time (suc fuel) deadline interval condition w)
    unfolding poll_loop
    poll_loop-step fuel w next = elim (Bool-cases (condition w).0) [
      | inl done ↦ rw done ((condition w).1, inl (refl, (w, ap (λ b. (b, (condition w).1)) done)))
      | inr again ↦ elim (Bool-cases (leb deadline (time.now (condition w).1))) [
        | inl late ↦
            rw (again, late)
              (
                (condition w).1,
                inr (_, refl, leb→le _ _ late, (w, ap (λ b. (b, (condition w).1)) again)),
              )
        | inr early ↦ rw (again, early) (next early)
      ]
    ]

    pub poll_loop-Ends :
        (fuel : ℕ) (w : W)
        → deadline ≤ time.now w + fuel
        → Ends deadline condition (poll_loop time (suc fuel) deadline interval condition w)
    poll_loop-Ends zero w enough =
        poll_loop-step zero w (λ early. absurd (ground (arith, early, enough, onward w)))
    poll_loop-Ends (suc fuel) w enough = poll_loop-step (suc fuel) w (λ early.
        poll_loop-Ends fuel (time.sleep interval (condition w).1)
          (omega (arith, enough, positive, onward w, law.sleep_lem interval (condition w).1)))

  -- `poll_until` ends, if its interval is not zero and neither sleeping nor trying the condition sets
  -- the clock back: one round for each millisecond of the timeout, and one more, are enough.
  -- It succeeds only where the condition held when it was tried last, and fails only at or behind the
  -- deadline, and where the condition did not hold.
  pub poll_until-Ends :
      IsTime time
      → (timeout interval : ℕ) (condition : W → Bool × W) (w : W) → 0 < interval
      → ((w' : W) → time.now w' ≤ time.now (condition w').1)
      → Ends
          (time.now w + timeout)
          condition
          (poll_until time (suc timeout) timeout interval condition w)
  unfolding poll_until
  poll_until-Ends law timeout interval condition w positive onward =
      poll_loop-Ends law (time.now w + timeout) interval condition positive onward timeout w
        (omega arith)
