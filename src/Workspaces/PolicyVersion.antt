-- ===== src/Workspaces/PolicyVersion.antt =====
-- The three pieces of a policy version come apart again, and tell why a verdict changed.
use ip_risk_agent_v.Base.{
  split, ◌≡◌, ◌≢◌, refl, sym, ◌∙◌, ap, arith, true, false, ◌==◌, Option, none, some, ◌++◌, ◌∷◌, [],
  Text, codes, All, All-take, All-mono, subst, false≢true, ℕ,
}
use ip_risk_agent_v.Risk.Attribution.{
  ChangeCause, VerdictFingerprint, colon, piece_at, policy_piece, policy_table_version as table_of,
  deployment_axes, attribute_change,
}
use ip_risk_agent_v.Risk.Causes.{axes_moved, table_moved}
use ip_risk_agent_v.Workspaces.LicenseProfile.{
  WorkspaceLicensePolicy, LicenseDeploymentProfile, Sha256, is_hex, axes_hash, axes_or_unset,
  version, material,
}

-- A text with no colon in it.
abbrev pub IsPiece : Text → Type 0
IsPiece = All (λ c. (c == colon) ≡ false)

split-piece : (a : Text) → IsPiece a → split colon a ≡ a ∷ []
unfolding split
split-piece [] h = refl
split-piece (c ∷ a) h = rw h.0 (rw (split-piece a h.1))

split-append : (a s : Text) → IsPiece a → split colon (a ++ (colon ∷ s)) ≡ a ∷ split colon s
unfolding split
split-append [] s h = refl
split-append (c ∷ a) s h = rw h.0 (rw (split-append a s h.1))

abbrev IsHex : ℕ → Type 0
IsHex c = is_hex c ≡ true

hex_piece : (c : ℕ) → IsHex c → (c == colon) ≡ false
hex_piece c h = ground arith

axes_hash-IsHex : (sha : Sha256) (p : LicenseDeploymentProfile) → All IsHex (axes_hash sha p)
unfolding axes_hash
axes_hash-IsHex sha p = All-take IsHex 16 _ (sha.hexdigest_digits (material p))

axes_or_unset-IsPiece :
    (sha : Sha256) (p : Option LicenseDeploymentProfile) → IsPiece (axes_or_unset sha p)
axes_or_unset-IsPiece sha none = (refl, (refl, (refl, (refl, (refl, tt)))))
axes_or_unset-IsPiece sha (some p) =
    All-mono IsHex (λ c. (c == colon) ≡ false) hex_piece (axes_hash sha p) (axes_hash-IsHex sha p)

-- A policy version splits at its colons into the workspace, the table's version and the axes.
pub split-version :
    (sha : Sha256) (p : WorkspaceLicensePolicy)
    → IsPiece p.risk_workspace_id
    → IsPiece p.policy_table_version
    → split colon (version sha p)
      ≡ p.risk_workspace_id ∷ p.policy_table_version ∷ axes_or_unset sha p.profile ∷ []
unfolding version
split-version sha p hw ht =
    split-append p.risk_workspace_id _ hw
    ∙ ap (λ r. p.risk_workspace_id ∷ r)
        (split-append p.policy_table_version (axes_or_unset sha p.profile) ht
          ∙ ap (λ r. p.policy_table_version ∷ r)
              (split-piece (axes_or_unset sha p.profile) (axes_or_unset-IsPiece sha p.profile)))

-- Before and after the profile is set for the first time, the axes differ.
pub unset-ne-axes_hash :
    (sha : Sha256) (p : LicenseDeploymentProfile) → codes "unset" ≢ axes_hash sha p
unset-ne-axes_hash sha p e =
    let h : All IsHex (codes "unset") = subst (All IsHex) (sym e) (axes_hash-IsHex sha p) in
    false≢true h.0

axes_of_version :
    (sha : Sha256) (p : WorkspaceLicensePolicy) (f : VerdictFingerprint)
    → IsPiece p.risk_workspace_id
    → IsPiece p.policy_table_version
    → f.policy_version ≡ some (version sha p)
    → deployment_axes f ≡ some (axes_or_unset sha p.profile)
unfolding deployment_axes
axes_of_version sha p f hw ht e =
    ap (λ v. policy_piece v 2) e ∙ ap (λ ps. piece_at ps 2) (split-version sha p hw ht)

table_of-version :
    (sha : Sha256) (p : WorkspaceLicensePolicy) (f : VerdictFingerprint)
    → IsPiece p.risk_workspace_id
    → IsPiece p.policy_table_version
    → f.policy_version ≡ some (version sha p)
    → table_of f ≡ some p.policy_table_version
unfolding table_of
table_of-version sha p f hw ht e =
    ap (λ v. policy_piece v 1) e ∙ ap (λ ps. piece_at ps 1) (split-version sha p hw ht)

module _ (sha : Sha256) (p q : WorkspaceLicensePolicy) (hwp : IsPiece p.risk_workspace_id)
    (htp : IsPiece p.policy_table_version) (hwq : IsPiece q.risk_workspace_id)
    (htq : IsPiece q.policy_table_version) (f g : VerdictFingerprint)
    (ef : f.policy_version ≡ some (version sha p)) (eg : g.policy_version ≡ some (version sha q))
    {c : Text} (cf : f.analysis_input_checksum ≡ some c)
    (cg : g.analysis_input_checksum ≡ some c) where
  -- For two policies whose workspace ids and table versions have no colon in them, and two fingerprints
  -- with the same input checksum and with the versions of those policies: where the policies have other
  -- deployment axes, the cause is that the user changed the deployment profile, whatever else of the
  -- fingerprints and of the policies differs.
  pub deployment_change_user_policy :
      axes_or_unset sha p.profile ≢ axes_or_unset sha q.profile
      → (attribute_change (some f) (some g)).cause ≡ ChangeCause.user_policy
  deployment_change_user_policy d =
      axes_moved f g cf cg
        λ e. d (cc (axes_of_version sha p f hwp htp ef, axes_of_version sha q g hwq htq eg, e))

  -- The same input, profile and models under another version of the policy table: the verdict
  -- changed because our own knowledge did.
  pub table_change_our_knowledge :
      p.profile ≡ q.profile
      → p.policy_table_version ≢ q.policy_table_version
      → f.model_id ≡ g.model_id
      → f.prompt_version ≡ g.prompt_version
      → (attribute_change (some f) (some g)).cause ≡ ChangeCause.our_knowledge
  table_change_our_knowledge ep d em epr =
      table_moved f g cf cg
        (axes_of_version sha p f hwp htp ef
          ∙ ap (λ r. some (axes_or_unset sha r)) ep
          ∙ sym (axes_of_version sha q g hwq htq eg))
        (λ e. d (cc (table_of-version sha p f hwp htp ef, table_of-version sha q g hwq htq eg, e)))
        em epr
