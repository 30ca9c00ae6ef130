-- ===== src/JwtGuard/Bearer.antt =====
-- Which requests the guard lets pass.
use Prim.Native.String.{◌++◌ as append}
use text.Mathlib.Text.{◌==◌ as str_eq}
use text.Mathlib.TextEquality.{eq_iff}
use text.Mathlib.TextLemmas.{append_assoc}
use sky_high_core.Common.{
  String, Bool, true, false, ◌≡◌, ◌≢◌, ◌↔◌, sym, ◌∙◌, ap, inl, inr, Option, none, some, List, [],
  ◌∷◌, arith, Bool-cases, split, Option-cases,
}
use sky_high_core.JwtGuard.{
  JwtPayload, Request, activated, is_public_route, token_of, extract_token_from_header,
  can_activate,
}
use sky_high_core.JwtGuard.Words.{NoSpace, whole, part, split-Cut, split-word, split-append}

-- The header is "Bearer", one space and the token, and then either nothing or a space and anything.
pub data Carries (header : Option String) (token : String) : Type 0 where
  alone : token ≢ "" → NoSpace token → header ≡ some (append "Bearer " token) → Carries header token
  followed :
      (rest : String)
      → token ≢ ""
      → NoSpace token
      → header ≡ some (append "Bearer " (append token (append " " rest)))
      → Carries header token

bearer-append : (s : String) → append "Bearer " s ≡ append "Bearer" (append " " s)
bearer-append s = append_assoc "Bearer" " " s

-- The words of a header of which the second is taken as a token.
token_of-some :
    (scheme word token : String) (ws : List String)
    → token_of (scheme ∷ word ∷ ws) ≡ some token
    → (scheme ≡ "Bearer") × (word ≡ token) × (token ≢ "")
token_of-some scheme word token ws taken = ground (arith, eq_iff scheme "Bearer", eq_iff word "")

bearer_text :
    (a scheme rest tail : String)
    → a ≡ append scheme (append " " rest)
    → scheme ≡ "Bearer"
    → rest ≡ tail
    → some a ≡ some (append "Bearer " tail)
bearer_text a scheme rest tail e b r = cc (bearer-append tail)

Carries-of_words :
    (a token : String) → token_of (split b' ' a) ≡ some token → Carries (some a) token
Carries-of_words a token taken =
    let (scheme, ws, e, cut) = split-Cut a in
    elim cut [
      | whole plain same none_left ↦ absurd (ground arith)
      | part rest plain same left ↦
          let (word, ws', e', cut') = split-Cut rest in
          let (b, t, filled) = token_of-some scheme word token ws' (ground arith) in
          elim cut' [
            | whole plain' same' none_left ↦
                alone filled (rw (sym t) plain')
                  (bearer_text a scheme rest token same b (same' ∙ t))
            | part rest' plain' same' left' ↦ followed rest' filled (rw (sym t) plain') (
                bearer_text a scheme rest (append token (append " " rest')) same b
                  (same' ∙ ap (λ x. append x (append " " rest')) t))
          ]
    ]

bearer_plain : NoSpace "Bearer"
bearer_plain = omega arith

empty_words : (a : String) → str_eq a "" ≡ true → split b' ' a ≡ "" ∷ []
empty_words a is_empty = ap (split b' ') ((eq_iff a "").0 is_empty) ∙ split-word "" tt

same_text : {a b : String} → some a ≡ some b → a ≡ b
same_text e = cc

-- A header of at least two words, the first of them "Bearer".
extract_of_words :
    (a token : String) (ws : List String)
    → split b' ' a ≡ "Bearer" ∷ token ∷ ws
    → token ≢ ""
    → extract_token_from_header (some a) ≡ some token
unfolding extract_token_from_header
extract_of_words a token ws e filled = elim (Bool-cases (str_eq a "")) [
  | inl is_empty ↦ absurd (ground (arith, empty_words a))
  | inr some_text ↦ ground (arith, eq_iff token "")
]

extract_of_Carries :
    (a token : String) → Carries (some a) token → extract_token_from_header (some a) ≡ some token
extract_of_Carries a token (alone filled plain e) =
    extract_of_words a token []
      (ap (split b' ') (same_text e ∙ bearer-append token)
        ∙ split-append "Bearer" token bearer_plain
        ∙ ap (λ ws. "Bearer" ∷ ws) (split-word token plain))
      filled
extract_of_Carries a token (followed rest filled plain e) =
    extract_of_words a token (split b' ' rest)
      (ap (split b' ') (same_text e ∙ bearer-append (append token (append " " rest)))
        ∙ split-append "Bearer" (append token (append " " rest)) bearer_plain
        ∙ ap (λ ws. "Bearer" ∷ ws) (split-append token rest plain))
      filled

Carries-some :
    (header : Option String) (token : String)
    → Carries header token
    → (a : String) × (header ≡ some a)
Carries-some header token (alone filled plain e) = (_, e)
Carries-some header token (followed rest filled plain e) = (_, e)

pub extract_token_from_header_iff :
    (header : Option String) (token : String)
    → (extract_token_from_header header ≡ some token) ↔ Carries header token
unfolding extract_token_from_header
extract_token_from_header_iff none token =
    (λ e. cc, λ c. absurd (let (a, e) = Carries-some none token c in ground arith))
extract_token_from_header_iff (some a) token =
    (λ e. Carries-of_words a token (ground arith), λ c. extract_of_Carries a token c)

module _ (verify : String → Option JwtPayload) (of_handler of_class : Option Bool)
    (request request' : Request) where
  -- A request passes.
  pub data Admitted : Type 0 where
    public : is_public_route of_handler of_class ≡ true → request' ≡ request → Admitted
    verified :
        (token : String) (payload : JwtPayload)
        → is_public_route of_handler of_class ≡ false
        → Carries request.authorization token
        → verify token ≡ some payload
        → request' ≡ record request { user = some payload }
        → Admitted

  -- The guard lets a request pass exactly in two cases: the route is public, by the mark of its
  -- handler or else of its class, and the request is not changed; or the route is not public, the
  -- authorization header is "Bearer", a space and a token that is not empty and has no space, with
  -- nothing or a space and anything behind it, the JWT library accepts this token, and the user of
  -- the request is set to the token's payload.
  pub can_activate_iff :
      (can_activate verify of_handler of_class request ≡ activated request') ↔ Admitted
  unfolding can_activate
  can_activate_iff = (forth, back)
    where
      forth : can_activate verify of_handler of_class request ≡ activated request' → Admitted
      forth h = elim (Bool-cases (is_public_route of_handler of_class)) [
        | inl open_to_all ↦ public open_to_all (ground arith)
        | inr closed ↦ elim (Option-cases (extract_token_from_header request.authorization)) [
          | inl missing ↦ absurd (ground arith)
          | inr (token, e) ↦ elim (Option-cases (verify token)) [
            | inl bad ↦ absurd (ground arith)
            | inr (payload, good) ↦
                verified token payload closed
                  ((extract_token_from_header_iff request.authorization token).0 e) good
                  (ground arith)
          ]
        ]
      ]

      back : Admitted → can_activate verify of_handler of_class request ≡ activated request'
      back (public open_to_all e) = ground arith
      back (verified token payload closed carried good e) =
          let taken = (extract_token_from_header_iff request.authorization token).1 carried in
          ground arith
