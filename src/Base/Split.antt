-- ===== src/Base/Split.antt =====
-- Splitting a text at a separator, and the pieces that the program reads.
use Prim.Native.Nat.{ℕ}
use Prim.Native.Char.{Char, code}
use Prim.Native.String.{String}
use mathlib.Core.List.{List, [], ◌∷◌}
use nexus_cloud.Base.Tests.{if◌then◌else◌, eqb}

-- A character before the first piece of a split text.
abbrev pub onto_first : Char → List String → List String
onto_first c [] = String.◌∷◌ c "" ∷ []
onto_first c (s ∷ rest) = String.◌∷◌ c s ∷ rest

-- `s.split(sep)`, for a separator of one character
unfoldable pub split : ℕ → String → List String
split sep String.[] = "" ∷ []
split sep (String.◌∷◌ c s) =
    let rest = split sep s in if eqb (code c) sep then "" ∷ rest else onto_first c rest

-- `pieces[0] ?? ""` and `pieces[2] ?? ""`
abbrev pub first_piece : List String → String
first_piece [] = ""
first_piece (s ∷ rest) = s

abbrev pub third_piece : List String → String
third_piece (a ∷ b ∷ c ∷ rest) = c
third_piece _ = ""
