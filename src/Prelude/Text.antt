-- ===== src/Prelude/Text.antt =====
-- Texts as lists of code points, for Python's `lower` (of ASCII letters), `strip` (of ASCII white
-- space) and the part of a text before a separator.
use Prim.Native.Nat.{ℕ, ◌+◌}
use Prim.Native.String.{String}
use Prim.Native.Char.{code}
use mathlib.Core.Bool.{Bool, true, false, ◌&&◌, ◌||◌}
use mathlib.Core.List.{List, [], ◌∷◌, reverse}
use strata_documentai_api_en.Prelude.Tests.{leb, ◌==◌, if◌then◌else◌}

abbrev pub codes : String → List ℕ
codes String.[] = []
codes (String.◌∷◌ c s) = code c ∷ codes s

abbrev pub lower_code : ℕ → ℕ
lower_code c = if leb b'A' c && leb c b'Z' then c + 32 else c

abbrev pub is_white : ℕ → Bool
is_white c = c == 32 || leb 9 c && leb c 13

abbrev pub drop_white : List ℕ → List ℕ
drop_white [] = []
drop_white (c ∷ cs) = let rest = drop_white cs in if is_white c then rest else c ∷ cs

abbrev pub strip : List ℕ → List ℕ
strip cs = reverse (drop_white (reverse (drop_white cs)))

abbrev pub before : ℕ → List ℕ → List ℕ
before sep [] = []
before sep (c ∷ cs) = let rest = before sep cs in if c == sep then [] else c ∷ rest

abbrev pub same_codes : List ℕ → List ℕ → Bool
same_codes [] [] = true
same_codes [] (d ∷ ds) = false
same_codes (c ∷ cs) [] = false
same_codes (c ∷ cs) (d ∷ ds) = c == d && same_codes cs ds
