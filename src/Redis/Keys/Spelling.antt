-- ===== src/Redis/Keys/Spelling.antt =====
-- Keys told apart by their texts.
use Prim.Native.Char.{code}
use Prim.Native.String.{◌++◌ as append}
use text.Mathlib.Text.{◌==◌ as str_eq, starts_with}
use text.Mathlib.TextEquality.{eq_iff, starts_with_iff}
use text.Mathlib.TextPositions.{starts_with-append, eq_refl}
use text.Mathlib.TextLemmas.{append_cancel_left, nil-append, cons-append}
use mathlib.Core.Bool.{false≢true}
use sky_high_core.Common.{
  codes, ℕ, ◌+◌, String, List, [], ◌∷◌, ◌++◌, ◌≡◌, ◌∙◌, ap, sym, arith, ◌==◌, if◌then◌else◌, Bool,
  true, false, Bool-cases, inl, inr, refl,
}
use sky_high_core.Domain.Dtos.{RedisKey, same_key}
use sky_high_core.Redis.KeyPrefix
use sky_high_core.Redis.Keys.{family, prefix_of, id_of, spelling}

codes-append : (s t : String) → codes (append s t) ≡ codes s ++ codes t
codes-append String.[] t = ap codes (nil-append t)
codes-append (String.◌∷◌ c s) t =
    ap codes (cons-append c s t) ∙ ap (λ l. code c ∷ l) (codes-append s t)

-- A number by which the families differ: the first letter, or the one after "lock:".
mark : List ℕ → ℕ
mark (b ∷ _ ∷ _ ∷ _ ∷ _ ∷ f ∷ _) = if b == b'l' then 256 + f else b
mark (b ∷ _) = b
mark [] = 0

abbrev mark_of : RedisKey → ℕ
mark_of (RedisKey.seat_lock id) = 256 + b's'
mark_of (RedisKey.waitlist_lock id) = 256 + b'w'
mark_of (RedisKey.seat_hold id) = b'h'
mark_of (RedisKey.seat_map_cache id) = b's'
mark_of (RedisKey.rate_limit id) = b'r'

mark-append :
    (key : RedisKey) (l : List ℕ) → mark (codes (family (prefix_of key)) ++ l) ≡ mark_of key
unfolding mark
mark-append (RedisKey.seat_lock id) l = ground arith
mark-append (RedisKey.waitlist_lock id) l = ground arith
mark-append (RedisKey.seat_hold id) [] = ground arith
mark-append (RedisKey.seat_hold id) (x ∷ l) = ground arith
mark-append (RedisKey.seat_map_cache id) l = ground arith
mark-append (RedisKey.rate_limit id) l = ground arith

mark-spelling :
    (name : ℕ → String) (key : RedisKey) → mark (codes (spelling name key)) ≡ mark_of key
unfolding spelling
mark-spelling name key =
    ap mark (codes-append (family (prefix_of key)) (name (id_of key)))
    ∙ mark-append key (codes (name (id_of key)))

eq_of_parts : (j k : RedisKey) → mark_of j ≡ mark_of k → id_of j ≡ id_of k → j ≡ k
eq_of_parts j k same_mark same_id = ground arith

prefix_of_mark : (j k : RedisKey) → mark_of j ≡ mark_of k → prefix_of j ≡ prefix_of k
prefix_of_mark j k same_mark = ground arith

spelling_injective :
    (name : ℕ → String)
    → ((m n : ℕ) → name m ≡ name n → m ≡ n)
    → (j k : RedisKey) → spelling name j ≡ spelling name k
    → j ≡ k
unfolding spelling
spelling_injective name apart j k same =
    let marks = sym (mark-spelling name j) ∙ ap (λ s. mark (codes s)) same ∙ mark-spelling name k in
    eq_of_parts j k marks (
      apart (id_of j) (id_of k) (
        append_cancel_left (family (prefix_of j)) (name (id_of j)) (name (id_of k))
          (same ∙ ap (λ p. append (family p) (name (id_of k))) (sym (prefix_of_mark j k marks)))))

abbrev pub is_seat_hold : RedisKey → Bool
is_seat_hold (RedisKey.seat_hold id) = true
is_seat_hold _ = false

same_key_refl : (key : RedisKey) → same_key key key ≡ true
same_key_refl key = ground arith

eq_of_same_key : (j k : RedisKey) → same_key j k ≡ true → j ≡ k
eq_of_same_key j k same = ground arith

-- If two ids with one text are one id, then two keys of the program have the same text if and only
-- if they are of one family and of one id, as `same_key` compares them.
pub str_eq-spelling :
    (name : ℕ → String)
    → ((m n : ℕ) → name m ≡ name n → m ≡ n)
    → (j k : RedisKey) → str_eq (spelling name j) (spelling name k) ≡ same_key j k
str_eq-spelling name apart j k = elim (Bool-cases (str_eq (spelling name j) (spelling name k))) [
  | inl alike ↦
      let same =
        spelling_injective name apart j k ((eq_iff (spelling name j) (spelling name k)).0 alike) in
      rw same (eq_refl (spelling name k) ∙ sym (same_key_refl k))
  | inr differ ↦ elim (Bool-cases (same_key j k)) [
    | inl same ↦ absurd (
        false≢true (
          sym differ
          ∙ (eq_iff (spelling name j) (spelling name k)).1
              (ap (spelling name) (eq_of_same_key j k same))))
    | inr other ↦ differ ∙ sym other
  ]
]

starts_with-seat_hold :
    (name : ℕ → String) (id : ℕ)
    → starts_with (spelling name (RedisKey.seat_hold id)) (family KeyPrefix.seat_hold) ≡ true
unfolding spelling
starts_with-seat_hold name id = starts_with-append (family KeyPrefix.seat_hold) (name id)

not_seat_hold :
    (name : ℕ → String) (key : RedisKey)
    → starts_with (spelling name key) (family KeyPrefix.seat_hold) ≡ false
    → is_seat_hold key ≡ false
not_seat_hold name (RedisKey.seat_hold id) differs = cc (starts_with-seat_hold name id)
not_seat_hold name (RedisKey.seat_lock id) differs = refl
not_seat_hold name (RedisKey.waitlist_lock id) differs = refl
not_seat_hold name (RedisKey.seat_map_cache id) differs = refl
not_seat_hold name (RedisKey.rate_limit id) differs = refl

marked_seat_hold : (key : RedisKey) → b'h' ≡ mark_of key → is_seat_hold key ≡ true
marked_seat_hold key marks = ground arith

-- Only a hold key begins as one.
pub starts_with-spelling :
    (name : ℕ → String) (key : RedisKey)
    → starts_with (spelling name key) (family KeyPrefix.seat_hold) ≡ is_seat_hold key
starts_with-spelling name key =
    elim (Bool-cases (starts_with (spelling name key) (family KeyPrefix.seat_hold))) [
      | inl begins ↦
          let (rest, whole) =
            (starts_with_iff (spelling name key) (family KeyPrefix.seat_hold)).0 begins in
          let marks =
            sym (mark-append (RedisKey.seat_hold 0) (codes rest))
            ∙ ap mark (sym (codes-append (family KeyPrefix.seat_hold) rest))
            ∙ ap (λ s. mark (codes s)) whole
            ∙ mark-spelling name key in
          begins ∙ sym (marked_seat_hold key marks)
      | inr differs ↦ differs ∙ sym (not_seat_hold name key differs)
    ]
