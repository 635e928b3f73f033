-- ===== src/SystemsApi/Paths.antt =====
-- The test on a tool's path: requireSafeRelativePath of src/systems-api/registry.ts.
use nexus_cloud.Base.{
  eqb, if◌then◌else◌, is_alphanumeric, ℕ, String, Bool, true, false, ◌&&◌, ◌||◌, ◌==◌,
}
use Prim.Native.Char.{code}
use Prim.Native.String.{[], ◌∷◌}

-- `[A-Za-z0-9._~-]`
abbrev pub is_path_char : ℕ → Bool
is_path_char c = is_alphanumeric c || eqb c b'.' || eqb c b'_' || eqb c b'~' || eqb c b'-'

-- Segments joined by slashes, none of them empty; the first argument says that the present segment
-- has a character already.
unfoldable pub are_segments : Bool → String → Bool
are_segments started [] = started
are_segments started (c ∷ s) =
    let rest = are_segments true s in
    let next = are_segments false s in
    if eqb (code c) b'/' then started && next else is_path_char (code c) && rest

-- `/^\/(?:[A-Za-z0-9._~-]+(?:\/[A-Za-z0-9._~-]+)*)?$/.test(path)`
unfoldable pub is_safe_relative_path : String → Bool
unfolding are_segments
is_safe_relative_path [] = false
is_safe_relative_path (c ∷ s) = eqb (code c) b'/' && (s == "" || are_segments false s)
