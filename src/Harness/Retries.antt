-- ===== src/Harness/Retries.antt =====
-- The retries of the test harness (src/test_support/mod.rs).
use diynamo.Base.{
  ℕ, zero, suc, ◌*◌, Bool, Error, err, some, ◌≡◌, refl, sym, inl, inr, Bool-cases, Result-cases,
}
use diynamo.Base.Exec.{Exec}
use diynamo.Harness.{Time, start_from, start_gossip_with_retry}

module _ {W G : Type 0} (time : Time W) (in_use : Error → Bool) (start : Exec W G) where
  -- The result is that of an attempt, or the error that is passed in.
  start_from-attempt :
      (left attempt : ℕ) (e : Error) (w w₀ : W)
      → (start w₀).0 ≡ err e
      → (w' : W) × ((start_from time in_use start left attempt (some e) w).0 ≡ (start w').0)
  unfolding start_from
  start_from-attempt zero attempt e w w₀ h = (w₀, sym h)
  start_from-attempt (suc left) attempt e w w₀ h = elim (Result-cases (start w).0) [
    | inl (node, f) ↦ (w, rw (f, start_from) refl)
    | inr (x, f) ↦ elim (Bool-cases (in_use x)) [
      | inl busy ↦
          rw (f, busy, start_from)
            (start_from-attempt left (suc attempt) x (time.sleep (100 * suc attempt) (start w).1) w
              f)
      | inr other ↦ (w, rw (f, other, start_from) refl)
    ]
  ]

  -- `start_gossip_with_retry` returns the result of one of its attempts, be it a node or an error;
  -- so it has always an error to unwrap where it unwraps one.
  start_gossip_with_retry-attempt :
      (w : W) → (w' : W) × ((start_gossip_with_retry time in_use start w).0 ≡ (start w').0)
  unfolding start_gossip_with_retry start_from
  start_gossip_with_retry-attempt w = elim (Result-cases (start w).0) [
    | inl (node, f) ↦ (w, rw (f, start_from) refl)
    | inr (x, f) ↦ elim (Bool-cases (in_use x)) [
      | inl busy ↦
          rw (f, busy, start_from) (start_from-attempt 4 1 x (time.sleep 100 (start w).1) w f)
      | inr other ↦ (w, rw (f, other, start_from) refl)
    ]
  ]
