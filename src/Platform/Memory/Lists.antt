-- ===== src/Platform/Memory/Lists.antt =====
-- The greatest value, the number and the sorted list of the rows that pass a test.
use mathlib.Core.Option
use mathlib.Core.Path.{subst}
use sky_high_core.Common.{
  ℕ, zero, suc, ◌≤◌, ◌<◌, Option, none, some, Bool, true, false, List, [], ◌∷◌, All, Any, ◌≡◌, inl,
  inr, arith, if◌then◌else◌, ◌==◌, leb, refl, Bool-cases, Option-cases,
}
use sky_high_core.Platform.Table.{is_none, keep_if}
use sky_high_core.Platform.Memory.Scans.{
  first, greater, greatest, count, place, place_if, sorted, kept,
}

greater-le :
    (a b : Option ℕ) (n : ℕ)
    → greater a b ≡ some n
    → ((k : ℕ) → a ≡ some k → k ≤ n) × ((k : ℕ) → b ≡ some k → k ≤ n)
greater-le none none n e = ground arith
greater-le none (some b) n e = ((λ k z. ground arith), λ k z. ground arith)
greater-le (some a) none n e = ((λ k z. ground arith), λ k z. ground arith)
greater-le (some a) (some b) n e = elim (Bool-cases (leb a b)) [
  | inl y ↦ ((λ k z. ground arith), λ k z. ground arith)
  | inr y ↦ ((λ k z. ground arith), λ k z. ground arith)
]

greater-none : (a b : Option ℕ) → greater a b ≡ none → (a ≡ none) × (b ≡ none)
greater-none none b e = (refl, e)
greater-none (some a) none e = ground arith
greater-none (some a) (some b) e = ground arith

module _ {R : Type 0} where
  pub greatest-none :
      (m : R → ℕ) (p : R → Bool) (f : ℕ → Option R) (n i : ℕ) (r : R)
      → greatest m p f n ≡ none
      → i < n
      → f i ≡ some r
      → p r ≡ false
  greatest-none m p f zero i r e i<n e' = ground arith
  greatest-none m p f (suc n) i r e i<n e' =
      let z = greater-none (greatest m p f n) (Option.map m (keep_if p (f n))) e in
      elim (Bool-cases (i == n)) [
        | inl same ↦ ground arith
        | inr other ↦ greatest-none m p f n i r z.0 (ground arith) e'
      ]

  pub greatest-le :
      (m : R → ℕ) (p : R → Bool) (f : ℕ → Option R) (n k i : ℕ) (r : R)
      → greatest m p f n ≡ some k
      → i < n
      → f i ≡ some r
      → p r ≡ true
      → m r ≤ k
  greatest-le m p f zero k i r e i<n e' y = ground arith
  greatest-le m p f (suc n) k i r e i<n e' y =
      let (z, z') = greater-le (greatest m p f n) (Option.map m (keep_if p (f n))) k e in
      elim (Bool-cases (i == n)) [
        | inl same ↦ z' (m r) (ground arith)
        | inr other ↦ elim (Option-cases (greatest m p f n)) [
          | inl empty ↦ ground (arith, greatest-none m p f n i r empty (ground arith) e')
          | inr (a, e'') ↦
              ground (arith, z a e'', greatest-le m p f n a i r e'' (ground arith) e' y)
        ]
      ]

  pub count-zero :
      (p : R → Bool) (f : ℕ → Option R) (n : ℕ) → (count p f n == 0) ≡ is_none (first p f n)
  count-zero p f zero = refl
  count-zero p f (suc n) = elim (Option-cases (first p f n)) [
    | inl e ↦ elim (Option-cases (keep_if p (f n))) [
      | inl e' ↦ ground (arith, count-zero p f n)
      | inr (a, e') ↦ ground (arith, count-zero p f n)
    ]
    | inr (a, e) ↦ ground (arith, count-zero p f n)
  ]

  pub place-All :
      (P : R → Type 0) (le : R → R → Bool) (r : R) (xs : List R)
      → P r
      → All P xs
      → All P (place le r xs)
  place-All P le r [] y ys = (y, tt)
  place-All P le r (x ∷ xs) y ys =
      elim (le r x) as (λ b. All P (if b then r ∷ x ∷ xs else x ∷ place le r xs)) [
        | true ↦ (y, ys)
        | false ↦ (ys.0, place-All P le r xs y ys.1)
      ]

  place-here :
      (P : R → Type 0) (le : R → R → Bool) (r : R) (xs : List R) → P r → Any P (place le r xs)
  place-here P le r [] y = inl y
  place-here P le r (x ∷ xs) y =
      elim (le r x) as (λ b. Any P (if b then r ∷ x ∷ xs else x ∷ place le r xs)) [
        | true ↦ inl y
        | false ↦ inr (place-here P le r xs y)
      ]

  place-there :
      (P : R → Type 0) (le : R → R → Bool) (r : R) (xs : List R) → Any P xs → Any P (place le r xs)
  place-there P le r [] y = elim y [ ]
  place-there P le r (x ∷ xs) y =
      elim (le r x) as (λ b. Any P (if b then r ∷ x ∷ xs else x ∷ place le r xs)) [
        | true ↦ inr y
        | false ↦ elim y [ inl z ↦ inl z | inr z ↦ inr (place-there P le r xs z) ]
      ]

  pub place_if-All :
      (P : R → Type 0) (le : R → R → Bool) (o : Option R) (xs : List R)
      → ((r : R) → o ≡ some r → P r)
      → All P xs
      → All P (place_if le o xs)
  place_if-All P le none xs holds ys = ys
  place_if-All P le (some r) xs holds ys = place-All P le r xs (holds r refl) ys

  place_if-here :
      (P : R → Type 0) (le : R → R → Bool) (o : Option R) (xs : List R) (r : R)
      → o ≡ some r
      → P r
      → Any P (place_if le o xs)
  place_if-here P le none xs r e y = ground arith
  place_if-here P le (some q) xs r e y = place-here P le q xs (subst P (ground arith) y)

  place_if-there :
      (P : R → Type 0) (le : R → R → Bool) (o : Option R) (xs : List R)
      → Any P xs
      → Any P (place_if le o xs)
  place_if-there P le none xs y = y
  place_if-there P le (some q) xs y = place-there P le q xs y

  pub sorted-All :
      (P : R → Type 0) (le : R → R → Bool) (p : R → Bool) (f : ℕ → Option R) (n : ℕ)
      → ((i : ℕ) (r : R) → f i ≡ some r → p r ≡ true → P r)
      → All P (sorted le p f n)
  sorted-All P le p f zero holds = tt
  sorted-All P le p f (suc n) holds =
      place_if-All P le (keep_if p (f n)) (sorted le p f n)
        (λ r e. holds n r (kept p (f n) r e).0 (kept p (f n) r e).1) (sorted-All P le p f n holds)

  pub sorted-Any :
      (le : R → R → Bool) (p : R → Bool) (f : ℕ → Option R) (n i : ℕ) (r : R)
      → i < n
      → f i ≡ some r
      → p r ≡ true
      → Any (λ q. q ≡ r) (sorted le p f n)
  sorted-Any le p f zero i r i<n e y = ground arith
  sorted-Any le p f (suc n) i r i<n e y = elim (Bool-cases (i == n)) [
    | inl same ↦
        place_if-here (λ q. q ≡ r) le (keep_if p (f n)) (sorted le p f n) r (ground arith) refl
    | inr other ↦
        place_if-there (λ q. q ≡ r) le (keep_if p (f n)) (sorted le p f n)
          (sorted-Any le p f n i r (ground arith) e y)
  ]
