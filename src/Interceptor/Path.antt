-- ===== src/Interceptor/Path.antt =====
-- Paths as labels.
use mathlib.Core.Path.{subst}
use sky_high_core.Common.{
  ℕ, zero, suc, ◌≡◌, ◌↔◌, refl, ap, inl, inr, true, false, ◌&&◌, List, [], ◌∷◌, ◌==◌, arith,
  Bool-cases,
}
use sky_high_core.Interceptor.{
  Piece, hex, dash, is_piece, uuid, begins_with, replace_uuids, normalize_path,
}

-- No slash has a UUID behind it.
abbrev NoUuid : List ℕ → Type 0
NoUuid [] = Unit {0}
NoUuid (c ∷ s) = ((c == b'/' && begins_with uuid s) ≡ false) × NoUuid s

is_piece-slash : (p : Piece) → is_piece p b'/' ≡ false
unfolding is_piece
is_piece-slash hex = refl
is_piece-slash dash = refl

-- What the scan leaves of a text begins with no pieces that the text does not begin with.
begins_with-replace_uuids :
    (ps : List Piece) (s : List ℕ)
    → begins_with ps (replace_uuids 0 s) ≡ true
    → begins_with ps s ≡ true
unfolding begins_with replace_uuids
begins_with-replace_uuids [] s h = refl
begins_with-replace_uuids (p ∷ ps) [] h = h
begins_with-replace_uuids (p ∷ ps) (c ∷ s) h = elim (Bool-cases (c == b'/' && begins_with uuid s)) [
  | inl replaced ↦ absurd (ground (arith, is_piece-slash p))
  | inr kept ↦ ground (arith, begins_with-replace_uuids ps s)
]

is_piece-colon : (s : List ℕ) → begins_with uuid (b':' ∷ s) ≡ false
unfolding begins_with is_piece
is_piece-colon s = refl

keeps_no_uuid :
    (c : ℕ) (s : List ℕ)
    → (c == b'/' && begins_with uuid s) ≡ false
    → (c == b'/' && begins_with uuid (replace_uuids 0 s)) ≡ false
keeps_no_uuid c s kept = elim (Bool-cases (begins_with uuid (replace_uuids 0 s))) [
  | inl seen ↦ ground (arith, begins_with-replace_uuids uuid s seen)
  | inr unseen ↦ ground arith
]

replace_uuids-NoUuid : (k : ℕ) (s : List ℕ) → NoUuid (replace_uuids k s)
unfolding replace_uuids
replace_uuids-NoUuid k [] = tt
replace_uuids-NoUuid (suc k) (c ∷ s) = replace_uuids-NoUuid k s
replace_uuids-NoUuid zero (c ∷ s) = elim (Bool-cases (c == b'/' && begins_with uuid s)) [
  | inl replaced ↦
      let rest = replace_uuids-NoUuid 36 s in
      rw replaced (is_piece-colon (b'i' ∷ b'd' ∷ replace_uuids 36 s), (refl, (refl, (refl, rest))))
  | inr kept ↦ let rest = replace_uuids-NoUuid 0 s in rw kept (keeps_no_uuid c s kept, rest)
]

replace_uuids_of_NoUuid : (s : List ℕ) → NoUuid s → replace_uuids 0 s ≡ s
unfolding replace_uuids
replace_uuids_of_NoUuid [] plain = refl
replace_uuids_of_NoUuid (c ∷ s) (here, there) =
    rw here (ap (λ r. c ∷ r) (replace_uuids_of_NoUuid s there))

-- In the path that is used as a label no slash has the form of a UUID behind it; and a path is used
-- as it is if and only if it has no such slash.
normalize_path-NoUuid :
    (path : List ℕ) → NoUuid (normalize_path path) × ((normalize_path path ≡ path) ↔ NoUuid path)
unfolding normalize_path
normalize_path-NoUuid path = (
  replace_uuids-NoUuid 0 path,
  (λ same. subst NoUuid same (replace_uuids-NoUuid 0 path), replace_uuids_of_NoUuid path),
)
