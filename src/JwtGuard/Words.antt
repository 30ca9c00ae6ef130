-- ===== src/JwtGuard/Words.antt =====
-- Texts cut at their spaces.
use Prim.Native.Char.{Char, code}
use Prim.Native.String.{◌++◌ as append}
use text.Mathlib.TextEquality.{Char-path}
use text.Mathlib.TextLemmas.{nil-append, cons-append}
use sky_high_core.Common.{
  String, ◌≡◌, ◌≢◌, refl, sym, ◌∙◌, ap, inl, inr, true, List, [], ◌∷◌, ◌==◌, arith, Bool-cases,
  split,
}

abbrev pub NoSpace : String → Type 0
NoSpace String.[] = Unit {0}
NoSpace (String.◌∷◌ c s) = (code c ≢ b' ') × NoSpace s

abbrev space : Char
space = " "

space-append : (s : String) → append " " s ≡ String.◌∷◌ space s
space-append s = cons-append space "" s ∙ ap (String.◌∷◌ space) (nil-append s)

cons_space :
    (c : Char) (s : String) → (code c == b' ') ≡ true → String.◌∷◌ c s ≡ append "" (append " " s)
cons_space c s is_space =
    ap (λ d. String.◌∷◌ d s) (Char-path c space (ground arith))
    ∙ sym (space-append s)
    ∙ sym (nil-append (append " " s))

-- The first word of a text is all of it, or a space comes after it and the rest is cut in turn.
pub data Cut (s w : String) (ws : List String) : Type 0 where
  whole : NoSpace w → s ≡ w → ws ≡ [] → Cut s w ws
  part :
      (rest : String)
      → NoSpace w
      → s ≡ append w (append " " rest)
      → ws ≡ split b' ' rest
      → Cut s w ws

pub split-Cut :
    (s : String) → (w : String) × (ws : List String) × (split b' ' s ≡ w ∷ ws) × Cut s w ws
unfolding split
split-Cut String.[] = ("", [], refl, whole tt refl refl)
split-Cut (String.◌∷◌ c s) = elim (Bool-cases (code c == b' ')) [
  | inl is_space ↦ ("", split b' ' s, rw is_space, part s tt (cons_space c s is_space) refl)
  | inr letter ↦
      let (w, ws, e, cut) = split-Cut s in
      (
        String.◌∷◌ c w,
        ws,
        rw (letter, e),
        elim cut [
          | whole plain same none_left ↦
              whole (ground arith, plain) (ap (String.◌∷◌ c) same) none_left
          | part rest plain same left ↦
              part rest (ground arith, plain)
                (ap (String.◌∷◌ c) same ∙ sym (cons-append c w (append " " rest))) left
        ],
      )
]

pub split-word : (w : String) → NoSpace w → split b' ' w ≡ w ∷ []
unfolding split
split-word String.[] plain = refl
split-word (String.◌∷◌ c w) (here, there) = ground (arith, split-word w)

pub split-append :
    (w rest : String) → NoSpace w → split b' ' (append w (append " " rest)) ≡ w ∷ split b' ' rest
unfolding split
split-append String.[] rest plain =
    rw (nil-append (append " " rest), space-append rest) (ground arith)
split-append (String.◌∷◌ c w) rest (here, there) =
    rw (cons-append c w (append " " rest)) (ground (arith, split-append w rest))
