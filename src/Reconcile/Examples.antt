-- ===== src/Reconcile/Examples.antt =====
-- Data that the tests of the reconciliation share.
use ip_risk_agent_v.Base.{
  ◌≡◌, refl, arith, ℕ, ◌+◌, ◌/◌, ◌%◌, ◌<◌, ltb, All, Bool, true, false, if◌then◌else◌, none, some,
  [], ◌∷◌, Text, codes, lower, upper, Outcome, ok, raised,
}
use ip_risk_agent_v.Contracts.{SourceType, ChangeType, AnalysisType}
use ip_risk_agent_v.Workspaces.LicenseProfile.{Sha256, is_hex}
use ip_risk_agent_v.Execution.ChangeEvents.{ChangeEvent, ChangeEventStatus}
use ip_risk_agent_v.Execution.AnalysisJobs.{AnalysisJob, AnalysisJobStatus}
use ip_risk_agent_v.Repositories.{ControlState, empty_state}
use ip_risk_agent_v.Reconcile.{Library}

abbrev pub digit : ℕ → ℕ
digit d = if ltb d 10 then d + 48 else d + 87

pub digit-is_hex : (c : ℕ) → is_hex (digit (c % 16)) ≡ true
digit-is_hex c = ground (arith, omega-mod c)
  where
    omega-mod : (n : ℕ) → n % 16 < 16
    omega-mod n = omega arith

-- A digest that tells short texts apart: their characters in hexadecimal.
unfoldable pub spell : Text → Text
spell [] = []
spell (c ∷ s) = digit (c / 16 % 16) ∷ digit (c % 16) ∷ spell s

pub spell-is_hex : (s : Text) → All (λ c. is_hex c ≡ true) (spell s)
unfolding spell
spell-is_hex [] = tt
spell-is_hex (c ∷ s) = (digit-is_hex (c / 16), (digit-is_hex c, spell-is_hex s))

abbrev pub spelled : Sha256
spelled = record { hexdigest = spell; hexdigest_digits = spell-is_hex }

abbrev pub library : Library
library = record {
  sha = spelled;
  nfkc = λ s. s;
  casefold = lower;
  upper = upper;
  redact = λ s. s;
  is_sensitive = λ _. false;
  urlsplit = λ s. record {
    scheme = [];
    netloc = [];
    path = s;
    query = [];
    fragment = [];
    username = none;
    password = none;
  };
  urlunsplit = λ u. u.path;
}

abbrev pub nothing : ControlState
nothing = empty_state

-- An update of a file, and the job that analyses it, without a result so far.
abbrev pub event : ChangeEvent
event = record {
  id = codes "event";
  event_fingerprint = codes "fp";
  risk_workspace_id = codes "w";
  mount_id = codes "mount";
  source_workspace_id = codes "sw";
  source_artifact_id = codes "file";
  source_type = SourceType.github;
  change_type = ChangeType.update;
  revision = some (codes "r1");
  previous_revision = none;
  observed_at = 5;
  status = ChangeEventStatus.processing;
  attempts = 1;
  created_at = 10;
  updated_at = 20;
  source_change = record {
    event_fingerprint = codes "fp";
    risk_workspace_id = codes "w";
    mount_id = codes "mount";
    source_workspace_id = codes "sw";
    source_artifact_id = codes "file";
    source_type = SourceType.github;
    change_type = ChangeType.update;
    revision = some (codes "r1");
    previous_revision = none;
    observed_at = 5;
    provider_event_id = none;
  };
  artifact_id = some (codes "art");
  provider_event_id = none;
  last_error_safe = none;
  lease_expires_at = some 25;
}

abbrev pub unanswered : AnalysisJob
unanswered = record {
  id = codes "job";
  change_event_id = codes "event";
  artifact_id = codes "art";
  revision = codes "r1";
  requested_analysis_types = AnalysisType.patent ∷ [];
  status = AnalysisJobStatus.running;
  created_at = 10;
  started_at = some 20;
  completed_at = none;
  failure_safe = none;
  analysis_outcomes = [];
  analysis_input_checksum = none;
}

abbrev pub value_or {ℓ κ} : {A : Type ℓ} {E : Type κ} → A → Outcome E A → A
value_or a (ok b) = b
value_or a (raised e) = a

abbrev pub is_ok {ℓ κ} : {A : Type ℓ} {E : Type κ} → Outcome E A → Bool
is_ok (ok a) = true
is_ok (raised e) = false

-- A call that returns, returns its value.
pub is_ok-value_or {ℓ κ} :
    {A : Type ℓ} {E : Type κ} (a : A) (m : Outcome E A) → is_ok m ≡ true → m ≡ ok (value_or a m)
is_ok-value_or a (ok b) h = refl
is_ok-value_or a (raised e) h = absurd (ground (arith, h))
