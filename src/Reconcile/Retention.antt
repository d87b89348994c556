-- ===== src/Reconcile/Retention.antt =====
-- application/risk_reconcile/retention.py: what is kept of an analyzer's evidence.
pub mod Metadata
use ip_risk_agent_v.Base.{
  ℕ, ◌+◌, ◌/◌, ltb, leb, ◌==◌, Bool, true, false, not, ◌&&◌, ◌||◌, if◌then◌else◌, Option, none,
  some, List, [], ◌∷◌, ◌++◌, length, take, any, Text, codes, text_eq, is_some, is_space, strip,
  rstrip, Outcome, ok, raised, ◌>>=◌, ◌>>◌, raise_if, Error, retention, invariant,
}
use ip_risk_agent_v.Reconcile.{Library, Url}

pub record EvidenceRetentionPolicy : Type 0 where
  pub max_excerpt_chars : ℕ
  pub max_reference_chars : ℕ
  pub max_metadata_chars : ℕ
  pub max_metadata_items : ℕ
  pub max_metadata_depth : ℕ
  pub max_metadata_json_bytes : ℕ
  pub max_summary_chars : ℕ
  pub max_explanation_chars : ℕ
  pub max_failure_message_chars : ℕ

abbrev pub default_policy : EvidenceRetentionPolicy
default_policy = record {
  max_excerpt_chars = 4000;
  max_reference_chars = 2048;
  max_metadata_chars = 256;
  max_metadata_items = 32;
  max_metadata_depth = 4;
  max_metadata_json_bytes = 4096;
  max_summary_chars = 300;
  max_explanation_chars = 800;
  max_failure_message_chars = 512;
}

-- `EvidenceRetentionPolicy.__post_init__`
unfoldable pub post_init : EvidenceRetentionPolicy → Outcome Error EvidenceRetentionPolicy
post_init p = do
  raise_if
      (any (λ n. ltb n 1)
        (p.max_excerpt_chars ∷ p.max_reference_chars ∷ p.max_metadata_chars ∷ p.max_metadata_items
          ∷ p.max_metadata_depth ∷ p.max_metadata_json_bytes ∷ p.max_summary_chars
          ∷ p.max_explanation_chars ∷ p.max_failure_message_chars ∷ []))
      (invariant "evidence_retention limits must be positive")
  ok p

abbrev is_sentence_end : ℕ → Bool
is_sentence_end c = c == b'.' || c == b'!' || c == b'?'

abbrev closes_sentence : ℕ → Bool
closes_sentence c = is_space c || c == b'"' || c == b'\'' || c == b')' || c == b']'

-- The end of the last match of `_SENTENCE_END`: where the text stands, whether a match is open, and the
-- end of the last one that closed.
unfoldable pub last_boundary : ℕ → Bool → Option ℕ → Text → Option ℕ
last_boundary pos true best [] = some pos
last_boundary pos false best [] = best
last_boundary pos true best (c ∷ s) =
    let inside = last_boundary (pos + 1) true best s in
    let outside = last_boundary (pos + 1) (is_sentence_end c) (some pos) s in
    if closes_sentence c then inside else outside
last_boundary pos false best (c ∷ s) = last_boundary (pos + 1) (is_sentence_end c) best s

abbrev ellipsis : Text
ellipsis = 8230 ∷ []

abbrev clip_at : Option ℕ → Text → ℕ → Text
clip_at none window limit = rstrip is_space window ++ ellipsis
clip_at (some end) window limit =
    if leb (limit / 2) end
    then rstrip is_space (take end window)
    else rstrip is_space window ++ ellipsis

abbrev clip_stripped : Text → ℕ → Text
clip_stripped text limit =
    if leb (length text) limit
    then text
    else clip_at (last_boundary 0 false none (take limit text)) (take limit text) limit

unfoldable pub clip : Text → ℕ → Text
unfolding last_boundary
clip text limit = clip_stripped (rstrip is_space text) limit

abbrev pub is_blank : Text → Bool
is_blank [] = true
is_blank (c ∷ s) = false

module _ (lib : Library) (policy : EvidenceRetentionPolicy) where
  unfoldable pub sanitize_excerpt : Text → Text
  sanitize_excerpt value = take policy.max_excerpt_chars (lib.redact value)

  unfoldable pub sanitize_summary : Text → Outcome Error Text
  unfolding clip
  sanitize_summary value = do
    let summary = clip (lib.redact (strip value)) policy.max_summary_chars
    raise_if (is_blank summary) (retention "risk summary must not be empty")
    ok summary

  unfoldable pub sanitize_explanation : Text → Outcome Error Text
  unfolding clip
  sanitize_explanation value = do
    let explanation = clip (lib.redact (strip value)) policy.max_explanation_chars
    raise_if (is_blank explanation) (retention "risk explanation must not be empty")
    ok explanation

  unfoldable pub sanitize_failure_message : Text → Outcome Error Text
  sanitize_failure_message value = do
    let message = take policy.max_failure_message_chars (lib.redact (strip value))
    raise_if (is_blank message) (retention "provider failure safe_message must not be empty")
    ok message

-- `re.match(r"^[A-Za-z]:/", reference) or reference.startswith("/")`
abbrev is_letter : ℕ → Bool
is_letter c = (leb b'A' c && leb c b'Z') || (leb b'a' c && leb c b'z')

unfoldable pub is_absolute : Text → Bool
is_absolute (c ∷ d ∷ e ∷ s) = (is_letter c && d == b':' && e == b'/') || c == b'/'
is_absolute (c ∷ s) = c == b'/'
is_absolute [] = false

unfoldable pub has_control : Text → Bool
has_control = any (λ c. c == 0 || c == 10 || c == 13 || c == 92)

module _ (lib : Library) (policy : EvidenceRetentionPolicy) where
  -- A reference with a scheme, without its query.
  unfoldable pub sanitize_url : Url → Outcome Error Text
  sanitize_url parsed = do
    let scheme = lib.casefold parsed.scheme
    raise_if
        (not (text_eq scheme (codes "http") || text_eq scheme (codes "https"))
          || is_blank parsed.netloc)
        (retention "unsupported evidence reference scheme")
    raise_if (is_some parsed.username || is_some parsed.password)
        (retention "credential-bearing evidence reference is forbidden")
    ok (lib.urlunsplit record parsed { scheme = scheme; query = [] })

  unfoldable pub sanitize_reference : Text → Outcome Error Text
  unfolding sanitize_url is_absolute has_control
  sanitize_reference value = do
    let reference = strip value
    raise_if (is_blank reference) (retention "evidence reference must not be empty")
    raise_if (has_control reference)
        (retention "evidence reference contains an unsafe path or control")
    raise_if (is_absolute reference) (retention "local absolute evidence references are forbidden")
    let redacted = lib.redact reference
    let parsed = lib.urlsplit redacted
    kept ← if is_blank parsed.scheme then ok redacted else sanitize_url parsed
    ok (take policy.max_reference_chars kept)
