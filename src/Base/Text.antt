-- ===== src/Base/Text.antt =====
-- Texts joined by slashes: `fmt.Sprintf("%s/%s", ...)` and `fmt.Sprintf("%s/%s/%s", ...)`.
use Prim.Native.Nat.{ℕ}
use Prim.Native.Char.{code}
use Prim.Native.String.{String, ◌++◌}
use mathlib.Core.List.{List, [], ◌∷◌}

unfoldable pub slash2 : String → String → String
slash2 a b = a ++ ("/" ++ b)

unfoldable pub slash3 : String → String → String → String
slash3 a b c = a ++ ("/" ++ (b ++ ("/" ++ c)))

unfoldable pub append_text : String → String → String
append_text a b = a ++ b

-- The code points of a text.
abbrev pub codes : String → List ℕ
codes String.[] = []
codes (String.◌∷◌ c s) = code c ∷ codes s
