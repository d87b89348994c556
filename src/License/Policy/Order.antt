-- ===== src/License/Policy/Order.antt =====
-- The heaviest of outcomes, and the lightest that is known.
use ip_risk_agent_v.Base.{
  ◌≡◌, refl, arith, min, max, true, false, if◌then◌else◌, leb, ◌∙◌, ap, sym, subst, List, [], ◌∷◌,
  ok, keep, Bool-cases, inl, inr, All,
}
use ip_risk_agent_v.Contracts.{LicensePolicyOutcome}
use ip_risk_agent_v.License.Policy.{
  severity, by_severity, is_unknown, Evaluation, heaviest, lightest, is_known,
}

pub by_severity-severity : (o : LicensePolicyOutcome) → by_severity (severity o) ≡ ok o
by_severity-severity LicensePolicyOutcome.no_action = refl
by_severity-severity LicensePolicyOutcome.notice_required = refl
by_severity-severity LicensePolicyOutcome.unknown = refl
by_severity-severity LicensePolicyOutcome.review_required = refl
by_severity-severity LicensePolicyOutcome.policy_conflict = refl

abbrev pub heavier : LicensePolicyOutcome → LicensePolicyOutcome → LicensePolicyOutcome
heavier a b = if leb (severity a) (severity b) then b else a

-- The lighter of two that are known; against what is not known, the other.
abbrev pub prefer : LicensePolicyOutcome → LicensePolicyOutcome → LicensePolicyOutcome
prefer LicensePolicyOutcome.unknown b = b
prefer a LicensePolicyOutcome.unknown = a
prefer a b = if leb (severity a) (severity b) then a else b

abbrev pub worst : List Evaluation → LicensePolicyOutcome
worst [] = LicensePolicyOutcome.no_action
worst (r ∷ rs) = heavier r.outcome (worst rs)

abbrev pub best : List Evaluation → LicensePolicyOutcome
best [] = LicensePolicyOutcome.unknown
best (r ∷ rs) = prefer r.outcome (best rs)

severity-heavier :
    (a b : LicensePolicyOutcome) → severity (heavier a b) ≡ max (severity a) (severity b)
severity-heavier a b = ground arith

pub heaviest-worst :
    (r : Evaluation) (rs : List Evaluation) → heaviest r rs ≡ severity (worst (r ∷ rs))
heaviest-worst r [] = ground arith
heaviest-worst r (s ∷ rs) =
    ap (max (severity r.outcome)) (heaviest-worst s rs)
    ∙ sym (severity-heavier r.outcome (worst (s ∷ rs)))

prefer_known :
    (a b : LicensePolicyOutcome)
    → is_unknown a ≡ false
    → is_unknown b ≡ false
    → (is_unknown (prefer a b) ≡ false) × (severity (prefer a b) ≡ min (severity a) (severity b))
prefer_known a b h k = ground arith

abbrev Known : Evaluation → Type 0
Known r = is_known r ≡ true

best-Known :
    (r : Evaluation) (rs : List Evaluation)
    → Known r
    → All Known rs
    → (is_unknown (best (r ∷ rs)) ≡ false) × (lightest r rs ≡ severity (best (r ∷ rs)))
best-Known r [] h k = ground arith
best-Known r (s ∷ rs) h k =
    let (u, e) = best-Known s rs k.0 k.1 in
    let (v, f) = prefer_known r.outcome (best (s ∷ rs)) (ground arith) u in
    (v, ap (min (severity r.outcome)) e ∙ sym f)

keep-Known : (rs : List Evaluation) → All Known (keep is_known rs)
keep-Known [] = tt
keep-Known (r ∷ rs) = elim (Bool-cases (is_known r)) [
  | inl e ↦ rw e (e, keep-Known rs)
  | inr e ↦ rw e (keep-Known rs)
]

pub best-keep : (rs : List Evaluation) → best (keep is_known rs) ≡ best rs
best-keep [] = refl
best-keep (r ∷ rs) = elim (Bool-cases (is_known r)) [
  | inl e ↦ rw e (ap (prefer r.outcome) (best-keep rs))
  | inr e ↦ rw e (best-keep rs ∙ ground arith)
]

-- What the known results of an OR amount to.
pub lightest-best :
    (rs ks : List Evaluation) (k : Evaluation)
    → keep is_known rs ≡ k ∷ ks
    → (lightest k ks ≡ severity (best rs)) × (is_unknown (best rs) ≡ false)
lightest-best rs ks k e =
    let h : All Known (k ∷ ks) = subst (All Known) e (keep-Known rs) in
    let (u, l) = best-Known k ks h.0 h.1 in
    let b : best (k ∷ ks) ≡ best rs = ap best (sym e) ∙ best-keep rs in
    (l ∙ ap severity b, ap is_unknown (sym b) ∙ u)
