-- ===== src/Workspaces/Tests.antt =====
-- Runs of the policy version, and the properties at concrete profiles.
use ip_risk_agent_v.Base.{
  split, ◌==◌, ◌≡◌, refl, ◌≢◌, true, false, if◌then◌else◌, leb, ℕ, Option, none, some, [], ◌∷◌, map,
  reverse, Text, codes, All, Bool-cases, inl, inr, arith,
}
use ip_risk_agent_v.Risk.Attribution.{VerdictFingerprint, ChangeCause, attribute_change}
use ip_risk_agent_v.Workspaces.LicenseProfile.{
  DistributionForm, ModificationState, LinkingMode, LicenseDeploymentProfile,
  WorkspaceLicensePolicy, Sha256, axes_hash, axes_or_unset, material, version, is_hex,
}
use ip_risk_agent_v.Workspaces.PolicyVersion.{
  IsPiece, split-version, unset-ne-axes_hash, deployment_change_user_policy,
  table_change_our_knowledge,
}

abbrev digit : ℕ → ℕ
digit c = if leb c b'h' then b'0' else b'a'

pub digit-is_hex : (c : ℕ) → is_hex (digit c) ≡ true
digit-is_hex c = elim (Bool-cases (leb c b'h')) [ inl e ↦ rw e | inr e ↦ rw e ]

pub digits-is_hex : (s : Text) → All (λ c. is_hex c ≡ true) (map digit s)
digits-is_hex [] = tt
digits-is_hex (c ∷ s) = (digit-is_hex c, digits-is_hex s)

-- A stand-in for the digest, which reads its input from the end.
abbrev pub sha : Sha256
sha = record {
  hexdigest = λ s. map digit (reverse s);
  hexdigest_digits = λ s. digits-is_hex (reverse s);
}

abbrev saas_profile : LicenseDeploymentProfile
saas_profile = record {
  distribution_form = DistributionForm.saas;
  modification = ModificationState.unmodified;
  linking = LinkingMode.dynamic;
  redistributes = false;
}

abbrev binary_profile : LicenseDeploymentProfile
binary_profile = record {
  distribution_form = DistributionForm.binary;
  modification = ModificationState.unmodified;
  linking = LinkingMode.dynamic;
  redistributes = true;
}

abbrev policy_of : Text → Option LicenseDeploymentProfile → WorkspaceLicensePolicy
policy_of table profile = record {
  risk_workspace_id = codes "rws";
  policy_table_version = table;
  profile = profile;
}

workspace_IsPiece : IsPiece (codes "rws")
workspace_IsPiece = (refl, (refl, (refl, tt)))

table_IsPiece : (d : ℕ) → (d == b':') ≡ false → IsPiece (b't' ∷ d ∷ [])
table_IsPiece d h = (refl, (h, tt))

abbrev before : WorkspaceLicensePolicy
before = policy_of (codes "t1") (some saas_profile)

abbrev other_profile : WorkspaceLicensePolicy
other_profile = policy_of (codes "t2") (some binary_profile)

abbrev other_table : WorkspaceLicensePolicy
other_table = policy_of (codes "t2") (some saas_profile)

abbrev verdict_under : WorkspaceLicensePolicy → VerdictFingerprint
verdict_under p = record {
  analysis_input_checksum = some (codes "c1");
  policy_version = some (version sha p);
  rag_corpus_version = none;
  model_id = none;
  prompt_version = none;
  result_fingerprint = none;
}

pieces_of_flat :
    split b':' (version sha before)
    ≡ codes "rws" ∷ codes "t1" ∷ axes_or_unset sha (some saas_profile) ∷ []
pieces_of_flat = split-version sha before workspace_IsPiece (table_IsPiece b'1' refl)

unset-ne-axes_hash_example : codes "unset" ≢ axes_hash sha saas_profile
unset-ne-axes_hash_example = unset-ne-axes_hash sha saas_profile

axes_differ : axes_or_unset sha (some saas_profile) ≢ axes_or_unset sha (some binary_profile)
unfolding axes_hash material
axes_differ e = ground (arith, e)

deployment_change_user_policy_example :
    (attribute_change (some (verdict_under before)) (some (verdict_under other_profile))).cause
    ≡ ChangeCause.user_policy
deployment_change_user_policy_example =
    deployment_change_user_policy sha before other_profile workspace_IsPiece
      (table_IsPiece b'1' refl) workspace_IsPiece (table_IsPiece b'2' refl) (verdict_under before)
      (verdict_under other_profile) refl refl refl refl axes_differ

table_change_seen :
    (attribute_change (some (verdict_under before)) (some (verdict_under other_table))).cause
    ≡ ChangeCause.our_knowledge
table_change_seen =
    table_change_our_knowledge sha before other_table workspace_IsPiece (table_IsPiece b'1' refl)
      workspace_IsPiece (table_IsPiece b'2' refl) (verdict_under before) (verdict_under other_table)
      refl refl refl refl refl (λ e. ground (arith, e)) refl refl
