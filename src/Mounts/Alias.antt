-- ===== src/Mounts/Alias.antt =====
-- core/mounts/models.py: the name under which a mount is shown.
pub mod Stable
use ip_risk_agent_v.Base.{
  ℕ, ◌==◌, Bool, true, false, ◌||◌, ◌&&◌, any, [], ◌∷◌, Text, codes, text_eq, strip_of,
  require_non_empty, Outcome, ok, raised, ◌>>=◌, ◌>>◌, raise_if, Error, invariant,
}

abbrev pub is_slash : ℕ → Bool
is_slash c = c == 47

abbrev pub is_backslash : ℕ → Bool
is_backslash c = c == 92

abbrev pub is_empty : Text → Bool
is_empty [] = true
is_empty (c ∷ s) = false

abbrev starts_with_slash : Text → Bool
starts_with_slash [] = false
starts_with_slash (c ∷ s) = is_slash c

-- `"//" in s`
unfoldable pub has_double_slash : Text → Bool
has_double_slash [] = false
has_double_slash (c ∷ s) = (is_slash c && starts_with_slash s) || has_double_slash s

-- `normalized in {".", ".."}`
unfoldable pub is_dots : Text → Bool
is_dots s = text_eq s (codes ".") || text_eq s (codes "..")

-- The tests of `normalize_mount_alias` on what the stripping leaves.
unfoldable pub check_segment : Text → Outcome Error Text
check_segment normalized = do
  raise_if (is_empty normalized || any is_backslash normalized || has_double_slash normalized)
      (invariant "workspace_mount.alias must be one logical path segment")
  raise_if (any is_slash normalized || is_dots normalized)
      (invariant "workspace_mount.alias must be one logical path segment")
  ok normalized

unfoldable pub normalize_mount_alias : Text → Outcome Error Text
normalize_mount_alias alias = do
  value ← require_non_empty alias "workspace_mount.alias"
  check_segment (strip_of is_slash value)
