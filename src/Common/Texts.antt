-- ===== src/Common/Texts.antt =====
-- Texts cut at a character, as `split` of the language does.
use Prim.Native.Nat.{ℕ}
use Prim.Native.Char.{Char, code}
use Prim.Native.String.{String}
use mathlib.Core.List.{List, [], ◌∷◌}
use sky_high_core.Common.Tests.{if◌then◌else◌, ◌==◌}

abbrev pub begin_word : Char → List String → List String
begin_word c [] = String.◌∷◌ c "" ∷ []
begin_word c (w ∷ ws) = String.◌∷◌ c w ∷ ws

-- `s.split(sep)`, where `sep` is one character, given by its code
unfoldable pub split : ℕ → String → List String
split sep String.[] = "" ∷ []
split sep (String.◌∷◌ c s) =
    let words = split sep s in if code c == sep then "" ∷ words else begin_word c words

-- The code points of a text.
abbrev pub codes : String → List ℕ
codes String.[] = []
codes (String.◌∷◌ c s) = code c ∷ codes s
