-- ===== src/Base/Text.antt =====
-- The operations on texts that the program takes from JavaScript. Letter case is mapped for ASCII
-- letters; other characters are left as they are.
use Prim.Native.Nat.{ℕ, zero, suc, ◌-◌}
use Prim.Native.Char.{Char, code}
use Prim.Native.String.{String, [], ◌∷◌}
use mathlib.Core.Bool.{Bool, true, false, ◌&&◌, ◌||◌}
use text.Mathlib.Text.{◌==◌}
use nexus_cloud.Base.Tests.{if◌then◌else◌, leb, eqb}

-- `\s`, which is also what `trim` removes
abbrev pub is_space : ℕ → Bool
is_space c =
    (leb 9 c && leb c 13)
    || eqb c 32
    || eqb c 160
    || eqb c 0x1680
    || (leb 0x2000 c && leb c 0x200a)
    || eqb c 0x2028
    || eqb c 0x2029
    || eqb c 0x202f
    || eqb c 0x205f
    || eqb c 0x3000
    || eqb c 0xfeff

-- `/\s/.test(s)`
unfoldable pub has_space : String → Bool
has_space [] = false
has_space (c ∷ s) = is_space (code c) || has_space s

unfoldable pub trim_start : String → String
trim_start [] = []
trim_start (c ∷ s) = let rest = trim_start s in if is_space (code c) then rest else c ∷ s

unfoldable pub trim_end : String → String
trim_end [] = []
trim_end (c ∷ s) = let rest = trim_end s in if is_space (code c) && rest == "" then "" else c ∷ rest

unfoldable pub trim : String → String
unfolding trim_start trim_end
trim s = trim_start (trim_end s)

-- The `n`-th character of a text, or the one given.
char_or : Char → String → ℕ → Char
char_or c [] n = c
char_or c (d ∷ s) zero = d
char_or c (d ∷ s) (suc n) = char_or c s n

unfoldable pub lower : String → String
unfolding char_or
lower [] = []
lower (c ∷ s) =
    (if leb b'A' (code c) && leb (code c) b'Z'
      then char_or c "abcdefghijklmnopqrstuvwxyz" (code c - b'A')
      else c)
    ∷ lower s

unfoldable pub ends_with : String → String → Bool
ends_with [] t = t == ""
ends_with (c ∷ s) t = (c ∷ s) == t || ends_with s t

unfoldable pub drop_chars : ℕ → String → String
drop_chars zero s = s
drop_chars (suc n) [] = []
drop_chars (suc n) (c ∷ s) = drop_chars n s

unfoldable pub has_prefix : String → String → Bool
has_prefix s [] = true
has_prefix [] (d ∷ t) = false
has_prefix (c ∷ s) (d ∷ t) = eqb (code c) (code d) && has_prefix s t

-- `s.replace(/^https?:\/\//, "")`
unfoldable pub strip_scheme : String → String
unfolding has_prefix drop_chars
strip_scheme s =
    if has_prefix s "https://"
    then drop_chars 8 s
    else if has_prefix s "http://"
    then drop_chars 7 s
    else s

unfoldable pub take_chars : ℕ → String → String
take_chars zero s = ""
take_chars (suc n) [] = ""
take_chars (suc n) (c ∷ s) = c ∷ take_chars n s

-- `[a-zA-Z0-9]`
abbrev pub is_alphanumeric : ℕ → Bool
is_alphanumeric c =
    (leb b'a' c && leb c b'z') || (leb b'A' c && leb c b'Z') || (leb b'0' c && leb c b'9')

-- `s.replace(/[^a-zA-Z0-9]/g, "_")`, on texts of the basic plane
unfoldable pub underscored : String → String
unfolding char_or
underscored [] = ""
underscored (c ∷ s) = (if is_alphanumeric (code c) then c else char_or c "_" 0) ∷ underscored s
