-- ===== src/Base/Trimming.antt =====
-- Trimming a text twice does what trimming it once does.
use Prim.Native.Char.{Char, code}
use Prim.Native.String.{String, [], ◌∷◌}
use mathlib.Core.Path.{◌≡◌, refl, ap, ◌∙◌}
use mathlib.Core.Logic.{inl, inr}
use mathlib.Core.Bool.{◌&&◌}
use text.Mathlib.Text.{◌==◌}
use nexus_cloud.Base.Tests.{Bool-cases}
use nexus_cloud.Base.Text.{trim, trim_start, trim_end, is_space}

trim_end-trim_end : (s : String) → trim_end (trim_end s) ≡ trim_end s
unfolding trim_end
trim_end-trim_end [] = refl
trim_end-trim_end (c ∷ s) = elim (Bool-cases (is_space (code c) && trim_end s == "")) [
  | inl e ↦ rw e
  | inr e ↦ rw e (rw (trim_end-trim_end s) (rw e))
]

abbrev tail : String → String
tail [] = []
tail (c ∷ s) = s

-- What follows the first character of a text that ends in no space ends in none.
trim_end_tail : (c : Char) (s : String) → trim_end (c ∷ s) ≡ c ∷ s → trim_end s ≡ s
unfolding trim_end
trim_end_tail c s h = elim (Bool-cases (is_space (code c) && trim_end s == "")) [
  | inl e ↦ let bad : [] ≡ c ∷ s = rw e at h in cc
  | inr e ↦ let same : c ∷ trim_end s ≡ c ∷ s = rw e at h in ap tail same
]

trim_end-trim_start : (s : String) → trim_end s ≡ s → trim_end (trim_start s) ≡ trim_start s
unfolding trim_start
trim_end-trim_start [] h = h
trim_end-trim_start (c ∷ s) h = elim (Bool-cases (is_space (code c))) [
  | inl e ↦ rw e (trim_end-trim_start s (trim_end_tail c s h))
  | inr e ↦ rw e h
]

trim_start-trim_start : (s : String) → trim_start (trim_start s) ≡ trim_start s
unfolding trim_start
trim_start-trim_start [] = refl
trim_start-trim_start (c ∷ s) = elim (Bool-cases (is_space (code c))) [
  | inl e ↦ rw e (trim_start-trim_start s)
  | inr e ↦ rw e (rw e)
]

pub trim-trim : (s : String) → trim (trim s) ≡ trim s
unfolding trim
trim-trim s =
    ap trim_start (trim_end-trim_start (trim_end s) (trim_end-trim_end s))
    ∙ trim_start-trim_start (trim_end s)
