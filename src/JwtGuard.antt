-- ===== src/JwtGuard.antt =====
-- src/common/guards/jwt-auth.guard.ts, with src/common/decorators: who a request comes from. The
-- JWT library is a parameter: what it makes of a token with the configured secret.
mod Words
pub mod Bearer
mod Examples
use text.Mathlib.Text.{◌==◌ as str_eq}
use sky_high_core.Common.{
  ℕ, String, Bool, true, false, not, ◌||◌, Option, none, some, List, [], ◌∷◌, ◌==◌, if◌then◌else◌,
  split,
}

pub record JwtPayload : Type 0 where
  pub sub : String
  pub iat : ℕ
  pub exp : ℕ

pub record Request : Type 0 where
  pub authorization : Option String
  pub user : Option JwtPayload

pub data Activation : Type 0 where
  activated : Request → Activation
  unauthorized : (message : String) → Activation

-- `getAllAndOverride(IS_PUBLIC_KEY, [handler, class]) ?? false`: the first mark that is there.
unfoldable pub is_public_route : Option Bool → Option Bool → Bool
is_public_route (some of_handler) of_class = of_handler
is_public_route none (some of_class) = of_class
is_public_route none none = false

-- `const [scheme, token] = words`, then the two tests; an absent word and "" are both falsy.
abbrev token_of : List String → Option String
token_of (scheme ∷ token ∷ _) =
    if not (str_eq scheme "Bearer") || str_eq token "" then none else some token
token_of _ = none

unfoldable pub extract_token_from_header : Option String → Option String
extract_token_from_header none = none
extract_token_from_header (some authorization) =
    if str_eq authorization "" then none else token_of (split b' ' authorization)

module _ (verify : String → Option JwtPayload) where
  abbrev admit : Request → Option JwtPayload → Activation
  admit request none = unauthorized "Invalid or expired token"
  admit request (some payload) = activated (record request { user = some payload })

  abbrev authenticate : Request → Option String → Activation
  authenticate request none = unauthorized "Missing or malformed authorization header"
  authenticate request (some token) = admit request (verify token)

  unfoldable pub can_activate : Option Bool → Option Bool → Request → Activation
  unfolding is_public_route extract_token_from_header
  can_activate of_handler of_class request =
      if is_public_route of_handler of_class
      then activated request
      else authenticate request (extract_token_from_header request.authorization)

-- The parameter that `@CurrentUser()` gives to a controller; there is none without a user.
unfoldable pub current_user : Request → Option String
current_user request = elim request.user [ none ↦ none | some payload ↦ some payload.sub ]
