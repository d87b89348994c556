-- ===== src/Mounts/Tests.antt =====
-- Runs of the aliases of mounts, and the properties at concrete aliases.
use ip_risk_agent_v.Base.{
  ◌≡◌, ◌↔◌, refl, codes, text_eq, strip, strip_of, lstrip, rstrip, require_non_empty, IsNormal, ok,
  raised, invariant,
}
use ip_risk_agent_v.Mounts.Alias.{check_segment, has_double_slash, is_dots, normalize_mount_alias}
use ip_risk_agent_v.Mounts.Alias.Stable.{
  IsSegment, normalize_mount_alias_again_iff, normalize_mount_alias-IsSegment,
}

docs_alias : normalize_mount_alias (codes " /docs/ ") ≡ ok (codes "docs")
unfolding normalize_mount_alias check_segment has_double_slash is_dots text_eq require_non_empty
    strip strip_of lstrip rstrip
docs_alias = refl

-- A blank and a dot behind a slash are an alias, but are refused when they are normalized again.
dot_alias : normalize_mount_alias (codes "/ .") ≡ ok (codes " .")
unfolding normalize_mount_alias check_segment has_double_slash is_dots text_eq require_non_empty
    strip strip_of lstrip rstrip
dot_alias = refl

dot_alias_refused :
    normalize_mount_alias (codes " .")
    ≡ raised (invariant "workspace_mount.alias must be one logical path segment")
unfolding normalize_mount_alias check_segment has_double_slash is_dots text_eq require_non_empty
    strip strip_of lstrip rstrip
dot_alias_refused = refl

normalize_mount_alias_again_iff_example :
    (normalize_mount_alias (codes " .") ≡ ok (codes " ."))
    ↔ IsNormal (codes " .") "workspace_mount.alias"
normalize_mount_alias_again_iff_example =
    normalize_mount_alias_again_iff (codes "/ .") (codes " .") dot_alias

docs_accepted : IsSegment (codes "docs")
docs_accepted = normalize_mount_alias-IsSegment (codes " /docs/ ") (codes "docs") docs_alias
