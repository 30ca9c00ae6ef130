-- ===== src/RateLimiter/Window.antt =====
-- The milliseconds of the window in which requests came, and the verdict.
use sky_high_core.Common.{
  ℕ, ◌-◌, ◌<◌, ◌≤◌, ◌≡◌, ◌≢◌, refl, inl, inr, Bool, true, ==-refl, ltb, List, [], ◌∷◌, length,
  arith, Bool-cases,
}
use sky_high_core.RateLimiter.{
  SortedSets, has, with_member, above, Limits, Request, Guard, next, add_rate_limit_entry,
  record_event, use_limiter,
}

above_idem : (max : ℕ) (xs : List ℕ) → above max (above max xs) ≡ above max xs
above_idem max [] = refl
above_idem max (x ∷ xs) = elim (Bool-cases (ltb max x)) [
  | inl y ↦ ground (arith, above_idem max xs)
  | inr y ↦ ground (arith, above_idem max xs)
]

with_member-has : (n : ℕ) (xs : List ℕ) → has n (with_member n xs) ≡ true
with_member-has n xs = elim (Bool-cases (has n xs)) [
  | inl y ↦ ground arith
  | inr y ↦ ground (arith, ==-refl n)
]

above-with_member :
    (max n : ℕ) (xs : List ℕ)
    → max < n
    → above max (with_member n (above max xs)) ≡ with_member n (above max xs)
above-with_member max n xs lt = elim (Bool-cases (has n (above max xs))) [
  | inl y ↦ ground (arith, above_idem max xs)
  | inr y ↦ ground (arith, above_idem max xs)
]

module _ {sets : SortedSets} (limits : Limits) (stores stores' : Bool) (now : ℕ) (req : Request)
    (g g' : Guard sets) where
  -- With a positive window and clock, and counts that come back, the second of two requests of a
  -- client in one millisecond is passed on if the first was and nothing else ran in between.
  pub use_limiter_same_ms :
      0 < limits.window_ms
      → 0 < now
      → use_limiter limits true stores now req g ≡ (next, g')
      → (use_limiter limits true stores' now req g').0 ≡ next
  unfolding use_limiter add_rate_limit_entry record_event
  use_limiter_same_ms wide after h =
      let k = req.client_ip in
      let max = now - limits.window_ms in
      let s₁ = sets.zremrangebyscore k max now g.redis in
      let s₂ = sets.zadd k now now s₁ in
      let s₃ = sets.pexpire k limits.window_ms now s₂ in
      let s₄ = sets.zremrangebyscore k max now s₃ in
      let xs = above max (sets.members now k g.redis) in
      let same = ==-refl k in
      let m₁ : sets.members now k s₁ ≡ xs =
        ground (arith, sets.members-zremrangebyscore k k max now g.redis) in
      let m₂ : sets.members now k s₂ ≡ with_member now xs =
        ground (arith, sets.members-zadd k k now now s₁) in
      let m₃ : sets.members now k s₃ ≡ with_member now xs =
        ground (arith, sets.members-pexpire now k k limits.window_ms now s₂) in
      let m₄ : sets.members now k s₄ ≡ with_member now xs = ground (
        arith,
        sets.members-zremrangebyscore k k max now s₃,
        above-with_member max now (sets.members now k g.redis) (omega arith),
      ) in
      let m₅ : sets.members now k (sets.zadd k now now s₄) ≡ with_member now xs =
        ground (arith, sets.members-zadd k k now now s₄, with_member-has now xs) in
      ground arith

module _ {sets : SortedSets} (limits : Limits) (stores : Bool) (now : ℕ) (req : Request)
    (g : Guard sets) where
  -- If the pipeline brings the count back, the limiter passes a request on, and records no abuse,
  -- when the milliseconds of the window in which the client's requests came, this one's among them,
  -- are fewer than `maxRequests`, and does not pass it on when they are not.
  pub use_limiter_lem :
      let window =
        with_member now (above (now - limits.window_ms) (sets.members now req.client_ip g.redis)) in
      let (verdict, g') = use_limiter limits true stores now req g in
      (length window < limits.max_requests → (verdict ≡ next) × (g'.abuse_events ≡ g.abuse_events))
      × (limits.max_requests ≤ length window → verdict ≢ next)
  unfolding use_limiter add_rate_limit_entry record_event
  use_limiter_lem =
      let k = req.client_ip in
      let max = now - limits.window_ms in
      let s₁ = sets.zremrangebyscore k max now g.redis in
      let xs = above max (sets.members now k g.redis) in
      let same = ==-refl k in
      let m₁ : sets.members now k s₁ ≡ xs =
        ground (arith, sets.members-zremrangebyscore k k max now g.redis) in
      let m₂ : sets.members now k (sets.zadd k now now s₁) ≡ with_member now xs =
        ground (arith, sets.members-zadd k k now now s₁) in
      ((λ few. ground arith), λ many passed. ground arith)
