-- ===== src/RateLimiter/Memory.antt =====
-- Sorted sets as functions, for the examples, and a limiter over them.
use sky_high_core.Common.{
  ℕ, ◌+◌, ◌≡◌, inl, inr, Bool, true, ◌==◌, ltb, Option, none, some, List, [], if◌then◌else◌, arith,
  Bool-cases,
}
use sky_high_core.RateLimiter.{SortedSets, with_member, above, Limits, Guard}

pub record Entry : Type 0 where
  pub list : List ℕ
  pub deadline : Option ℕ

abbrev pub alive : ℕ → Option ℕ → Bool
alive t none = true
alive t (some d) = ltb t d

abbrev pub members : ℕ → ℕ → (ℕ → Entry) → List ℕ
members t j s = if alive t (s j).deadline then (s j).list else []

abbrev pub put : ℕ → ℕ → List ℕ → (ℕ → Entry) → ℕ → Entry
put k at xs s j =
    if k == j
    then record { list = xs; deadline = if alive at (s j).deadline then (s j).deadline else none }
    else s j

abbrev pub expire : ℕ → ℕ → ℕ → (ℕ → Entry) → ℕ → Entry
expire k ttl at s j =
    if k == j then record { list = members at j s; deadline = some (at + ttl) } else s j

pub members-put :
    (j k at : ℕ) (f : List ℕ → List ℕ) (s : ℕ → Entry)
    → members at j (put k at (f (members at k s)) s)
      ≡ (if k == j then f (members at j s) else members at j s)
members-put j k at f s = elim (Bool-cases (k == j)) [
  | inl y ↦ elim (Bool-cases (alive at (s j).deadline)) [
    | inl z ↦ ground arith
    | inr z ↦ ground arith
  ]
  | inr y ↦ ground arith
]

pub members-expire :
    (t j k ttl at : ℕ) (s : ℕ → Entry)
    → members t j (expire k ttl at s)
      ≡ (if k == j then (if ltb t (at + ttl) then members at j s else []) else members t j s)
members-expire t j k ttl at s = elim (Bool-cases (k == j)) [
  | inl y ↦ ground arith
  | inr y ↦ ground arith
]

abbrev pub sets : SortedSets
sets = record {
  State = ℕ → Entry;
  members = members;
  zremrangebyscore = λ k max at s. put k at (above max (members at k s)) s;
  zadd = λ k n at s. put k at (with_member n (members at k s)) s;
  pexpire = expire;
  members-zremrangebyscore = λ j k max at s. members-put j k at (above max) s;
  members-zadd = λ j k n at s. members-put j k at (with_member n) s;
  members-pexpire = members-expire;
}

abbrev pub limits : Limits
limits = record { window_ms = 2000; max_requests = 50 }

abbrev pub quiet : Guard sets
quiet = record { redis = λ _. record { list = []; deadline = none }; abuse_events = [] }
