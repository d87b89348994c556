-- ===== src/Workspaces/LicenseProfile.antt =====
-- core/workspaces/license_profile.py: the deployment profile and the policy version built from it.
use ip_risk_agent_v.Base.{
  Bool, true, ◌&&◌, ◌||◌, leb, if◌then◌else◌, Option, none, some, ◌++◌, ◌∷◌, Text, codes, take, All,
  ◌≡◌, ℕ,
}

pub data DistributionForm : Type 0 where
  saas binary internal_only library_redistribution embedded : DistributionForm

pub data ModificationState : Type 0 where
  unmodified modified : ModificationState

pub data LinkingMode : Type 0 where
  dynamic static not_applicable : LinkingMode

pub record LicenseDeploymentProfile : Type 0 where
  pub distribution_form : DistributionForm
  pub modification : ModificationState
  pub linking : LinkingMode
  pub redistributes : Bool

pub record WorkspaceLicensePolicy : Type 0 where
  pub risk_workspace_id : Text
  pub policy_table_version : Text
  pub profile : Option LicenseDeploymentProfile

-- The members' `.value`.
abbrev pub form_value : DistributionForm → Text
form_value DistributionForm.saas = codes "SAAS"
form_value DistributionForm.binary = codes "BINARY"
form_value DistributionForm.internal_only = codes "INTERNAL_ONLY"
form_value DistributionForm.library_redistribution = codes "LIBRARY_REDISTRIBUTION"
form_value DistributionForm.embedded = codes "EMBEDDED"

abbrev pub modification_value : ModificationState → Text
modification_value ModificationState.unmodified = codes "UNMODIFIED"
modification_value ModificationState.modified = codes "MODIFIED"

abbrev pub linking_value : LinkingMode → Text
linking_value LinkingMode.dynamic = codes "DYNAMIC"
linking_value LinkingMode.static = codes "STATIC"
linking_value LinkingMode.not_applicable = codes "NOT_APPLICABLE"

-- What `axes_hash` digests.
unfoldable pub material : LicenseDeploymentProfile → Text
material p =
    codes "distribution_form="
    ++ (form_value p.distribution_form
        ++ (codes "|modification="
            ++ (modification_value p.modification
                ++ (codes "|linking="
                    ++ (linking_value p.linking
                        ++ (codes "|redistributes="
                            ++ (if p.redistributes then codes "yes" else codes "no")))))))

-- A digit that `hexdigest` writes.
abbrev pub is_hex : ℕ → Bool
is_hex c = (leb b'0' c && leb c b'9') || (leb b'a' c && leb c b'f')

-- `sha256(text.encode("utf-8")).hexdigest()` of the standard library: its digits are hexadecimal.
pub record Sha256 : Type 0 where
  pub hexdigest : Text → Text
  pub hexdigest_digits : (s : Text) → All (λ c. is_hex c ≡ true) (hexdigest s)

unfoldable pub axes_hash : Sha256 → LicenseDeploymentProfile → Text
axes_hash sha p = take 16 (sha.hexdigest (material p))

abbrev pub axes_or_unset : Sha256 → Option LicenseDeploymentProfile → Text
axes_or_unset sha (some profile) = axes_hash sha profile
axes_or_unset sha none = codes "unset"

-- `WorkspaceLicensePolicy.version`
unfoldable pub version : Sha256 → WorkspaceLicensePolicy → Text
version sha p =
    p.risk_workspace_id ++ (b':' ∷ p.policy_table_version ++ (b':' ∷ axes_or_unset sha p.profile))
