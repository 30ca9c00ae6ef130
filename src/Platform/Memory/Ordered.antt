-- ===== src/Platform/Memory/Ordered.antt =====
-- The order of the sorted list, and that no key comes twice in it.
use sky_high_core.Common.{
  ℕ, zero, suc, ◌≤◌, ◌<◌, Option, none, some, Bool, true, false, List, [], ◌∷◌, All, ◌≡◌, ◌≢◌, sym,
  inl, inr, arith, refl, Bool-cases,
}
use sky_high_core.Platform.Table.{keep_if, Ordered, DistinctKeys}
use sky_high_core.Platform.Memory.Scans.{place, place_if, sorted, kept}
use sky_high_core.Platform.Memory.Lists.{place-All, place_if-All}

module _ {R : Type 0} where
  module _ (le : R → R → Bool) (total : (a b : R) → le a b ≡ false → le b a ≡ true) where
    place-after :
        (x r : R) (xs : List R)
        → le x r ≡ true
        → Ordered le (x ∷ xs)
        → Ordered le (x ∷ place le r xs)
    place-after x r [] before ordered = (before, tt)
    place-after x r (z ∷ zs) before (next, ordered) = elim (Bool-cases (le r z)) [
      | inl y ↦ rw y (before, (y, ordered))
      | inr y ↦ rw y (next, place-after z r zs (total r z y) ordered)
    ]

    place-Ordered : (r : R) (xs : List R) → Ordered le xs → Ordered le (place le r xs)
    place-Ordered r [] ordered = tt
    place-Ordered r (x ∷ xs) ordered = elim (Bool-cases (le r x)) [
      | inl y ↦ rw y (y, ordered)
      | inr y ↦ rw y (place-after x r xs (total r x y) ordered)
    ]

    place_if-Ordered : (o : Option R) (xs : List R) → Ordered le xs → Ordered le (place_if le o xs)
    place_if-Ordered none xs ordered = ordered
    place_if-Ordered (some r) xs ordered = place-Ordered r xs ordered

    pub sorted-Ordered : (p : R → Bool) (f : ℕ → Option R) (n : ℕ) → Ordered le (sorted le p f n)
    sorted-Ordered p f zero = tt
    sorted-Ordered p f (suc n) =
        place_if-Ordered (keep_if p (f n)) (sorted le p f n) (sorted-Ordered p f n)

  module _ (key : R → ℕ) (le : R → R → Bool) where
    place-DistinctKeys :
        (r : R) (xs : List R)
        → All (λ y. key r ≢ key y) xs
        → DistinctKeys key xs
        → DistinctKeys key (place le r xs)
    place-DistinctKeys r [] apart distinct = (tt, tt)
    place-DistinctKeys r (x ∷ xs) (other, apart) (others, distinct) = elim (Bool-cases (le r x)) [
      | inl y ↦ rw y ((other, apart), (others, distinct))
      | inr y ↦ rw y (
        place-All (λ q. key x ≢ key q) le r xs (λ same. other (sym same)) others,
        place-DistinctKeys r xs apart distinct,
      )
    ]

    place_if-DistinctKeys :
        (o : Option R) (xs : List R)
        → ((r : R) → o ≡ some r → All (λ y. key r ≢ key y) xs)
        → DistinctKeys key xs
        → DistinctKeys key (place_if le o xs)
    place_if-DistinctKeys none xs apart distinct = distinct
    place_if-DistinctKeys (some r) xs apart distinct =
        place-DistinctKeys r xs (apart r refl) distinct

    All-below :
        (m : ℕ) (r : R) (xs : List R)
        → key r ≡ m
        → All (λ y. key y < m) xs
        → All (λ y. key r ≢ key y) xs
    All-below m r [] at below = tt
    All-below m r (x ∷ xs) at (lower, below) = (λ same. omega arith, All-below m r xs at below)

    sorted-below :
        (p : R → Bool) (f : ℕ → Option R) (n m : ℕ)
        → ((i : ℕ) (r : R) → f i ≡ some r → key r ≡ i)
        → n ≤ m
        → All (λ y. key y < m) (sorted le p f n)
    sorted-below p f zero m own below = tt
    sorted-below p f (suc n) m own below =
        place_if-All (λ y. key y < m) le (keep_if p (f n)) (sorted le p f n)
          (λ r e. let at = own n r (kept p (f n) r e).0 in omega arith)
          (sorted-below p f n m own (omega arith))

    pub sorted-DistinctKeys :
        (p : R → Bool) (f : ℕ → Option R) (n : ℕ)
        → ((i : ℕ) (r : R) → f i ≡ some r → key r ≡ i)
        → DistinctKeys key (sorted le p f n)
    sorted-DistinctKeys p f zero own = tt
    sorted-DistinctKeys p f (suc n) own =
        place_if-DistinctKeys (keep_if p (f n)) (sorted le p f n)
          (λ r e.
            All-below n r (sorted le p f n) (own n r (kept p (f n) r e).0)
              (sorted-below p f n n own (omega arith)))
          (sorted-DistinctKeys p f n own)
