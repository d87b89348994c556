-- ===== src/License/Spdx.antt =====
-- intelligence/license/spdx.py: license expressions, and the identifiers in them.
pub mod Data
pub mod Aliases
pub mod Parser
pub mod Printer
pub mod RoundTrip
use ip_risk_agent_v.Base.{
  all, Bool, true, false, ◌&&◌, ◌||◌, not, any, List, [], ◌∷◌, ◌++◌, map, Text, codes, text_eq,
  strip, lower, lookup, if◌then◌else◌, Option, none, some, reverse, ℕ, leb, ◌==◌, drop, length,
  take, ◌-◌, split,
}
use mathlib.Core.Option as Option
use ip_risk_agent_v.License.Spdx.Data.{exception_ids, license_ids}
use ip_risk_agent_v.License.Spdx.Aliases.{deprecated_replacement, id_aliases}

abbrev pub unknown_license : Text
unknown_license = codes "UNKNOWN"

-- `LicenseNode`, `AndNode` and `OrNode`; the latter two have an operand at least, as the parser
-- gives them two.
mutual
  pub data ExpressionNode : Type 0 where
    license : Text → Option Text → ExpressionNode
    and_node : Operands → ExpressionNode
    or_node : Operands → ExpressionNode

  pub data Operands : Type 0 where
    one : ExpressionNode → Operands
    more : ExpressionNode → Operands → Operands

-- `name in names`
abbrev pub member : Text → List Text → Bool
member name names = any (text_eq name) names

-- The items of a dictionary from the names in lower case.
abbrev by_lower : List Text → List (Text × Text)
by_lower names = map (λ name. (lower name, name)) names

unfoldable pub canonicalize_exception : Text → Option Text
unfolding exception_ids
canonicalize_exception token = lookup (by_lower exception_ids) (lower (strip token))

abbrev non_standard : List Text
non_standard =
    []
    ∷ codes "non-standard"
    ∷ codes "unknown"
    ∷ codes "none"
    ∷ codes "other"
    ∷ codes "proprietary"
    ∷ []

-- `[A-Za-z0-9.\-]`
abbrev is_reference_char : ℕ → Bool
is_reference_char c =
    (leb b'A' c && leb c b'Z')
    || (leb b'a' c && leb c b'z')
    || (leb b'0' c && leb c b'9')
    || c == b'.'
    || c == b'-'

-- What follows a prefix, where there is one.
unfoldable pub after_prefix : Text → Text → Option Text
after_prefix [] s = some s
after_prefix (p ∷ ps) [] = none
after_prefix (p ∷ ps) (c ∷ s) = let rest = after_prefix ps s in if p == c then rest else none

-- `[A-Za-z0-9.\-]+` after the prefix, and nothing else.
abbrev is_reference : Text → Text → Bool
is_reference prefix s = named (after_prefix prefix s)
  where
    named : Option Text → Bool
    named none = false
    named (some []) = false
    named (some (c ∷ rest)) = all is_reference_char (c ∷ rest)

-- `_LICENSE_REF.match`; a colon stands in no name.
abbrev matches_reference : List Text → Bool
matches_reference (s ∷ []) = is_reference (codes "LicenseRef-") s
matches_reference (d ∷ s ∷ []) =
    is_reference (codes "DocumentRef-") d && is_reference (codes "LicenseRef-") s
matches_reference _ = false

unfoldable pub is_license_ref : Text → Bool
unfolding split after_prefix
is_license_ref s = matches_reference (split b':' s)

-- `s[: -len(suffix)]` where `s` ends with the suffix.
abbrev pub before_suffix : Text → Text → Option Text
before_suffix suffix s = Option.map reverse (after_prefix (reverse suffix) (reverse s))

-- `a or b` on texts that are not empty
abbrev either : Option Text → Option Text → Option Text
either (some a) b = some a
either none b = b

abbrev or_later : Bool → Option Text → Text → Text
or_later true (some family) resolved = family ++ codes "-or-later"
or_later _ _ resolved = resolved

abbrev current_spelling : Bool → Option Text → Text × Option Text
current_spelling plus none = (unknown_license, none)
current_spelling plus (some resolved) =
    (or_later plus (before_suffix (codes "-only") resolved) resolved, none)

-- The tables of current identifiers and aliases, for a spelling in lower case without a plus.
unfoldable pub find_current : Text → Option Text
unfolding license_ids id_aliases lookup
find_current low =
    either (lookup (by_lower license_ids) low)
      (either (lookup id_aliases low) (lookup (by_lower license_ids) (low ++ codes "-only")))

abbrev resolve_current : Text → Option Text → Text × Option Text
resolve_current raw (some base) = current_spelling true (find_current (lower base))
resolve_current raw none = current_spelling false (find_current (lower raw))

abbrev resolve_registered : Text → Option (Text × Option Text) → Text × Option Text
resolve_registered raw (some replaced) = replaced
resolve_registered raw none = resolve_current raw (before_suffix (codes "+") raw)

-- `_resolve`
unfoldable pub resolve : Text → Text × Option Text
unfolding is_license_ref find_current deprecated_replacement lookup
resolve identifier =
    let raw = strip identifier in
    if member (lower raw) non_standard
    then (unknown_license, none)
    else if is_license_ref raw
    then (raw, none)
    else resolve_registered raw (lookup deprecated_replacement (lower raw))

-- `leaves`
unfoldable mutual
  pub leaves : ExpressionNode → List (Text × Option Text)
  leaves (license identifier exception) = (identifier, exception) ∷ []
  leaves (and_node operands) = leaves_of operands
  leaves (or_node operands) = leaves_of operands

  pub leaves_of : Operands → List (Text × Option Text)
  leaves_of (one n) = leaves n
  leaves_of (more n ns) = leaves n ++ leaves_of ns
