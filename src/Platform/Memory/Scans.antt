-- ===== src/Platform/Memory/Scans.antt =====
-- Searches over the rows below a bound of a table that is a function from keys to rows.
use mathlib.Core.Option
use sky_high_core.Common.{
  ℕ, zero, suc, ◌+◌, ◌≤◌, ◌<◌, Option, none, some, Bool, true, false, List, [], ◌∷◌, ◌≡◌, inl, inr,
  arith, if◌then◌else◌, ◌==◌, leb, refl, Bool-cases, Option-cases, ◌⊎◌,
}
use sky_high_core.Platform.Table.{keep_if}

abbrev pub greater : Option ℕ → Option ℕ → Option ℕ
greater none b = b
greater (some a) none = some a
greater (some a) (some b) = if leb a b then some b else some a

module _ {R : Type 0} where
  abbrev pub or_else : Option R → Option R → Option R
  or_else none b = b
  or_else (some a) b = some a

  -- The first row that passes a test.
  abbrev pub first : (R → Bool) → (ℕ → Option R) → ℕ → Option R
  first p f zero = none
  first p f (suc n) = or_else (first p f n) (keep_if p (f n))

  abbrev pub lesser : (R → ℕ) → Option R → Option R → Option R
  lesser m none b = b
  lesser m (some a) none = some a
  lesser m (some a) (some b) = if leb (m a) (m b) then some a else some b

  abbrev pub least : (R → ℕ) → (R → Bool) → (ℕ → Option R) → ℕ → Option R
  least m p f zero = none
  least m p f (suc n) = lesser m (least m p f n) (keep_if p (f n))

  abbrev pub greatest : (R → ℕ) → (R → Bool) → (ℕ → Option R) → ℕ → Option ℕ
  greatest m p f zero = none
  greatest m p f (suc n) = greater (greatest m p f n) (Option.map m (keep_if p (f n)))

  abbrev pub one : Option R → ℕ
  one none = 0
  one (some a) = 1

  abbrev pub count : (R → Bool) → (ℕ → Option R) → ℕ → ℕ
  count p f zero = 0
  count p f (suc n) = count p f n + one (keep_if p (f n))

  abbrev pub place : (R → R → Bool) → R → List R → List R
  place le r [] = r ∷ []
  place le r (x ∷ xs) = let rest = place le r xs in if le r x then r ∷ x ∷ xs else x ∷ rest

  abbrev pub place_if : (R → R → Bool) → Option R → List R → List R
  place_if le none xs = xs
  place_if le (some r) xs = place le r xs

  abbrev pub sorted : (R → R → Bool) → (R → Bool) → (ℕ → Option R) → ℕ → List R
  sorted le p f zero = []
  sorted le p f (suc n) = place_if le (keep_if p (f n)) (sorted le p f n)

  pub kept :
      (p : R → Bool) (o : Option R) (r : R) → keep_if p o ≡ some r → (o ≡ some r) × (p r ≡ true)
  kept p none r e = ground arith
  kept p (some a) r e = elim (Bool-cases (p a)) [ inl y ↦ ground arith | inr y ↦ ground arith ]

  pub first-some :
      (p : R → Bool) (f : ℕ → Option R) (n : ℕ) (r : R)
      → first p f n ≡ some r
      → (i : ℕ) × (f i ≡ some r) × (p r ≡ true)
  first-some p f zero r e = ground arith
  first-some p f (suc n) r e = elim (Option-cases (first p f n)) [
    | inl e' ↦ let k = kept p (f n) r (ground arith) in (n, k.0, k.1)
    | inr (q, e') ↦ first-some p f n r (ground arith)
  ]

  pub first-none :
      (p : R → Bool) (f : ℕ → Option R) (n i : ℕ) (r : R)
      → first p f n ≡ none
      → i < n
      → f i ≡ some r
      → p r ≡ false
  first-none p f zero i r e i<n e' = ground arith
  first-none p f (suc n) i r e i<n e' = elim (Option-cases (first p f n)) [
    | inl e'' ↦ elim (Bool-cases (i == n)) [
      | inl same ↦ ground arith
      | inr other ↦ first-none p f n i r e'' (ground arith) e'
    ]
    | inr (q, e'') ↦ ground arith
  ]

  lesser_choice :
      (m : R → ℕ) (a b : Option R) (r : R) → lesser m a b ≡ some r → (a ≡ some r) ⊎ (b ≡ some r)
  lesser_choice m none b r e = inr e
  lesser_choice m (some a) none r e = inl e
  lesser_choice m (some a) (some b) r e = elim (Bool-cases (leb (m a) (m b))) [
    | inl y ↦ inl (ground arith)
    | inr y ↦ inr (ground arith)
  ]

  pub least-some :
      (m : R → ℕ) (p : R → Bool) (f : ℕ → Option R) (n : ℕ) (r : R)
      → least m p f n ≡ some r
      → (i : ℕ) × (f i ≡ some r) × (p r ≡ true)
  least-some m p f zero r e = ground arith
  least-some m p f (suc n) r e = elim (lesser_choice m (least m p f n) (keep_if p (f n)) r e) [
    | inl e' ↦ least-some m p f n r e'
    | inr e' ↦ let k = kept p (f n) r e' in (n, k.0, k.1)
  ]

  -- The two bounds of `lesser`.
  lesser-le :
      (m : R → ℕ) (a b : Option R) (r : R)
      → lesser m a b ≡ some r
      → ((q : R) → a ≡ some q → m r ≤ m q) × ((q : R) → b ≡ some q → m r ≤ m q)
  lesser-le m none none r e = ground arith
  lesser-le m none (some b) r e = ((λ q z. ground arith), λ q z. ground arith)
  lesser-le m (some a) none r e = ((λ q z. ground arith), λ q z. ground arith)
  lesser-le m (some a) (some b) r e = elim (Bool-cases (leb (m a) (m b))) [
    | inl y ↦ ((λ q z. ground arith), λ q z. ground arith)
    | inr y ↦ ((λ q z. ground arith), λ q z. ground arith)
  ]

  pub least-none :
      (m : R → ℕ) (p : R → Bool) (f : ℕ → Option R) (n i : ℕ) (r : R)
      → least m p f n ≡ none
      → i < n
      → f i ≡ some r
      → p r ≡ false
  least-none m p f zero i r e i<n e' = ground arith
  least-none m p f (suc n) i r e i<n e' =
      let z = lesser_none m (least m p f n) (keep_if p (f n)) e in
      elim (Bool-cases (i == n)) [
        | inl same ↦ ground arith
        | inr other ↦ least-none m p f n i r z.0 (ground arith) e'
      ]
    where
      lesser_none : (m : R → ℕ) (a b : Option R) → lesser m a b ≡ none → (a ≡ none) × (b ≡ none)
      lesser_none m none b e = (refl, e)
      lesser_none m (some a) none e = ground arith
      lesser_none m (some a) (some b) e = ground arith

  pub least-le :
      (m : R → ℕ) (p : R → Bool) (f : ℕ → Option R) (n : ℕ) (r : R) (i : ℕ) (q : R)
      → least m p f n ≡ some r
      → i < n
      → f i ≡ some q
      → p q ≡ true
      → m r ≤ m q
  least-le m p f zero r i q e i<n e' y = ground arith
  least-le m p f (suc n) r i q e i<n e' y =
      let (z, z') = lesser-le m (least m p f n) (keep_if p (f n)) r e in
      elim (Bool-cases (i == n)) [
        | inl same ↦ z' q (ground arith)
        | inr other ↦ elim (Option-cases (least m p f n)) [
          | inl empty ↦ ground (arith, least-none m p f n i q empty (ground arith) e')
          | inr (a, e'') ↦ ground (arith, z a e'', least-le m p f n a i q e'' (ground arith) e' y)
        ]
      ]
