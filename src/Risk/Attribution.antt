-- ===== src/Risk/Attribution.antt =====
-- core/risk/attribution.py: why a verdict differs from the one before it.
use ip_risk_agent_v.Base.{
  Bool, true, false, ◌||◌, not, if◌then◌else◌, Option, none, some, List, [], ◌∷◌, Text, split,
  text_eq, same_text, ℕ, zero, suc,
}

pub data ChangeCause : Type 0 where
  input our_knowledge user_policy model external_fact unknown : ChangeCause

pub record VerdictFingerprint : Type 0 where
  pub analysis_input_checksum : Option Text
  pub policy_version : Option Text
  pub rag_corpus_version : Option Text
  pub model_id : Option Text
  pub prompt_version : Option Text
  pub result_fingerprint : Option Text

abbrev pub colon : ℕ
colon = b':'

-- Of three pieces the one at the index, and nothing of any other number of pieces.
abbrev pub piece_at : List Text → ℕ → Option Text
piece_at (a ∷ b ∷ c ∷ []) zero = some a
piece_at (a ∷ b ∷ c ∷ []) (suc zero) = some b
piece_at (a ∷ b ∷ c ∷ []) (suc (suc zero)) = some c
piece_at _ _ = none

unfoldable pub policy_piece : Option Text → ℕ → Option Text
policy_piece none index = none
policy_piece (some value) index = piece_at (split colon value) index

unfoldable pub policy_table_version : VerdictFingerprint → Option Text
unfolding policy_piece
policy_table_version f = policy_piece f.policy_version 1

unfoldable pub deployment_axes : VerdictFingerprint → Option Text
unfolding policy_piece
deployment_axes f = policy_piece f.policy_version 2

-- The names of the fingerprints in `CauseAttribution.moved`.
pub data Fingerprint : Type 0 where
  input_checksum axes table corpus model_name prompt : Fingerprint

pub record CauseAttribution : Type 0 where
  pub cause : ChangeCause
  pub moved : List Fingerprint

-- `if previous.x != current.x: moved.append(name)`, before the later ones.
abbrev append_if_moved : Bool → Fingerprint → List Fingerprint → List Fingerprint
append_if_moved same name rest = if same then rest else name ∷ rest

unfoldable pub moved_fingerprints : VerdictFingerprint → VerdictFingerprint → List Fingerprint
moved_fingerprints previous current =
    append_if_moved (same_text (deployment_axes previous) (deployment_axes current))
      Fingerprint.axes
      (append_if_moved (same_text (policy_table_version previous) (policy_table_version current))
        Fingerprint.table
        (append_if_moved (same_text previous.rag_corpus_version current.rag_corpus_version)
          Fingerprint.corpus
          (append_if_moved (same_text previous.model_id current.model_id) Fingerprint.model_name (
            append_if_moved (same_text previous.prompt_version current.prompt_version)
              Fingerprint.prompt []))))

abbrev is_axes : Fingerprint → Bool
is_axes Fingerprint.axes = true
is_axes _ = false

abbrev is_model : Fingerprint → Bool
is_model Fingerprint.model_name = true
is_model Fingerprint.prompt = true
is_model _ = false

-- `name in moved`
abbrev contains : (Fingerprint → Bool) → List Fingerprint → Bool
contains is [] = false
contains is (x ∷ xs) = is x || contains is xs

abbrev pub cause_of : List Fingerprint → ChangeCause
cause_of [] = ChangeCause.external_fact
cause_of (x ∷ xs) =
    if contains is_axes (x ∷ xs)
    then ChangeCause.user_policy
    else if contains is_model (x ∷ xs)
    then ChangeCause.model
    else ChangeCause.our_knowledge

abbrev unknown_cause : CauseAttribution
unknown_cause = record { cause = ChangeCause.unknown; moved = [] }

-- Both verdicts have an input checksum.
attribute_known : Text → Text → VerdictFingerprint → VerdictFingerprint → CauseAttribution
unfolding moved_fingerprints
attribute_known before after previous current =
    if not (text_eq before after)
    then record { cause = ChangeCause.input; moved = Fingerprint.input_checksum ∷ [] }
    else record {
      cause = cause_of (moved_fingerprints previous current);
      moved = moved_fingerprints previous current;
    }

attribute_checksums :
    Option Text → Option Text → VerdictFingerprint → VerdictFingerprint → CauseAttribution
unfolding attribute_known
attribute_checksums (some before) (some after) previous current =
    attribute_known before after previous current
attribute_checksums _ _ previous current = unknown_cause

unfoldable pub attribute_change :
    Option VerdictFingerprint → Option VerdictFingerprint → CauseAttribution
unfolding attribute_checksums
attribute_change (some previous) (some current) =
    attribute_checksums previous.analysis_input_checksum current.analysis_input_checksum previous
      current
attribute_change _ _ = unknown_cause
