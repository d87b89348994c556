-- ===== src/License/Policy/Notes.antt =====
-- What an evaluation must say aloud: the notes of intelligence/license/policy.py.
use ip_risk_agent_v.Base.{
  ◌≡◌, refl, arith, ℕ, ◌<◌, ◌⊎◌, inl, inr, Bool, true, false, ltb, ◌==◌, ap, sym, subst, ◌∙◌, ◌≢◌,
  if◌then◌else◌, append-nil, List, [], ◌∷◌, ◌++◌, All, any, keep, Bool-cases, ok,
}
use ip_risk_agent_v.License.Spdx.{ExpressionNode, Operands, license, and_node, or_node, one, more}
use ip_risk_agent_v.License.Policy.{
  severity, is_unknown, is_known, Evaluation, LeafDecision, Note, choice_note, evaluate_node,
  leads_of, every_leaf, every_note, heaviest, lightest, choice_notes,
}
use ip_risk_agent_v.License.Policy.Order.{lightest-best}
use ip_risk_agent_v.License.Policy.Leading.{Agree, result_of-Agree}
use ip_risk_agent_v.License.Policy.Judgement.{
  judge, result_of, results_of, or_result, evaluated, all_results, result_of-judge,
}

abbrev Some : List LeafDecision → Type 0
Some [] = ⊥
Some (d ∷ ds) = Unit

abbrev HasLead : Evaluation → Type 0
HasLead r = Some r.leading × Some r.all_leaves

Some-append : (ds es : List LeafDecision) → Some ds → Some (ds ++ es)
Some-append [] es h = absurd h
Some-append (d ∷ ds) es h = tt

Some-append_right : (ds es : List LeafDecision) → Some es → Some (ds ++ es)
Some-append_right [] es h = h
Some-append_right (d ∷ ds) es h = tt

leads_of-Some :
    (test : Evaluation → Bool) (rs : List Evaluation)
    → any test rs ≡ true
    → All HasLead rs
    → Some (leads_of test rs)
leads_of-Some test [] a h = absurd (ground arith)
leads_of-Some test (r ∷ rs) a h = elim (Bool-cases (test r)) [
  | inl e ↦ rw e (Some-append r.leading _ h.0.0)
  | inr e ↦ rw e (leads_of-Some test rs (ground arith) h.1)
]

heaviest-attained :
    (r : Evaluation) (rs : List Evaluation) (w : ℕ)
    → heaviest r rs ≡ w
    → any (λ s. severity s.outcome == w) (r ∷ rs) ≡ true
heaviest-attained r [] w e = ground arith
heaviest-attained r (s ∷ rs) w e = ground (arith, heaviest-attained s rs w)

lightest-attained :
    (r : Evaluation) (rs : List Evaluation) (w : ℕ)
    → lightest r rs ≡ w
    → any (λ s. severity s.outcome == w) (r ∷ rs) ≡ true
lightest-attained r [] w e = ground arith
lightest-attained r (s ∷ rs) w e = ground (arith, lightest-attained s rs w)

keep-HasLead : (rs : List Evaluation) → All HasLead rs → All HasLead (keep is_known rs)
keep-HasLead [] h = tt
keep-HasLead (r ∷ rs) h = elim (Bool-cases (is_known r)) [
  | inl e ↦ rw e (h.0, keep-HasLead rs h.1)
  | inr e ↦ rw e (keep-HasLead rs h.1)
]

every_leaf-Some :
    (r : Evaluation) (rs : List Evaluation) → All HasLead (r ∷ rs) → Some (every_leaf (r ∷ rs))
every_leaf-Some r rs h = Some-append r.all_leaves (every_leaf rs) h.0.1

or_result-HasLead :
    (r : Evaluation) (rs ks : List Evaluation)
    → All HasLead (r ∷ rs)
    → All HasLead ks
    → HasLead (or_result (r ∷ rs) ks)
or_result-HasLead r rs [] h k = (every_leaf-Some r rs h, every_leaf-Some r rs h)
or_result-HasLead r rs (s ∷ ks) h k = (
  leads_of-Some (λ x. severity x.outcome == lightest s ks) (s ∷ ks)
      (lightest-attained s ks (lightest s ks) refl) k,
  every_leaf-Some r rs h,
)

mutual
  unfolding result_of

  result_of-HasLead : (n : ExpressionNode) → HasLead (result_of n)
  result_of-HasLead (license i e) = (tt, tt)
  result_of-HasLead (and_node ns) =
      let (r, rs) = results_of ns in
      let h = results_of-HasLead ns in
      (
        leads_of-Some (λ x. severity x.outcome == heaviest r rs) (r ∷ rs)
            (heaviest-attained r rs (heaviest r rs) refl) h,
        every_leaf-Some r rs h,
      )
  result_of-HasLead (or_node ns) =
      let h = results_of-HasLead ns in
      or_result-HasLead (results_of ns).0 (results_of ns).1 (keep is_known (all_results ns)) h
        (keep-HasLead (all_results ns) h)

  results_of-HasLead : (ns : Operands) → All HasLead (all_results ns)
  results_of-HasLead (one n) = (result_of-HasLead n, tt)
  results_of-HasLead (more n ns) = (result_of-HasLead n, results_of-HasLead ns)

-- An operand of a heavier class.
abbrev pub SomeHeavier : ℕ → Operands → Type 0
SomeHeavier w (one n) = w < severity (judge n)
SomeHeavier w (more n ns) = (w < severity (judge n)) ⊎ SomeHeavier w ns

SomeHeavier-any :
    (w : ℕ) (ns : Operands)
    → SomeHeavier w ns
    → any (λ s. ltb w (severity s.outcome)) (all_results ns) ≡ true
unfolding result_of
SomeHeavier-any w (one n) h = ground (arith, result_of-judge n)
SomeHeavier-any w (more n ns) (inl h) = ground (arith, result_of-judge n)
SomeHeavier-any w (more n ns) (inr h) = ground (arith, SomeHeavier-any w ns h)

-- The leading licenses of the operands of a heavier class, in the order of the operands.
abbrev pub heavier_leads : ℕ → Operands → List LeafDecision
heavier_leads w (one n) = if ltb w (severity (judge n)) then (result_of n).leading else []
heavier_leads w (more n ns) =
    let rest = heavier_leads w ns in
    if ltb w (severity (judge n)) then (result_of n).leading ++ rest else rest

leads_of-heavier_leads :
    (w : ℕ) (ns : Operands)
    → leads_of (λ s. ltb w (severity s.outcome)) (all_results ns) ≡ heavier_leads w ns
unfolding result_of
leads_of-heavier_leads w (one n) =
    rw (result_of-judge n) (elim (Bool-cases (ltb w (severity (judge n)))) [
      | inl e ↦ rw e (append-nil (result_of n).leading)
      | inr e ↦ rw e refl
    ])
leads_of-heavier_leads w (more n ns) = rw (result_of-judge n, leads_of-heavier_leads w ns) refl

choice_notes-Some :
    (leading dropped : List LeafDecision)
    → Some dropped
    → choice_notes leading dropped ≡ choice_note leading dropped ∷ []
choice_notes-Some leading [] k = absurd k
choice_notes-Some leading (d ∷ ds) k = refl

Some-nonempty : (ds : List LeafDecision) → Some ds → ds ≢ []
Some-nonempty [] k e = k
Some-nonempty (d ∷ ds) k e = ground (arith, e)

-- The last note reports the choice: what was taken, all of it of the class that came out, and what was
-- dropped.
pub record ReportsChoice (r : Evaluation) (dropped : List LeafDecision) : Type 0 where
  pub earlier : List Note
  pub last : r.notes ≡ earlier ++ (choice_note r.leading dropped ∷ [])
  pub some_taken : r.leading ≢ []
  pub some_dropped : dropped ≢ []
  pub taken : All (λ d. d.outcome ≡ r.outcome) r.leading

or_result-ReportsChoice :
    (ns : Operands) (ks : List Evaluation)
    → let results = all_results ns in
      let r = or_result results ks in
      keep is_known results ≡ ks
      → All HasLead results
      → Agree r
      → is_unknown r.outcome ≡ false
      → SomeHeavier (severity r.outcome) ns
      → ReportsChoice r (heavier_leads (severity r.outcome) ns)
or_result-ReportsChoice ns [] e h g u s = absurd (ground (arith, u))
or_result-ReportsChoice ns (k ∷ ks) e h g u s =
    let results = all_results ns in
    let r = or_result results (k ∷ ks) in
    let l : lightest k ks ≡ severity r.outcome = (lightest-best results ks k e).0 in
    let hk : All HasLead (k ∷ ks) = subst (All HasLead) e (keep-HasLead results h) in
    let dropped : leads_of (λ x. ltb (lightest k ks) (severity x.outcome)) results
        ≡ heavier_leads (severity r.outcome) ns =
      ap (λ w. leads_of (λ x. ltb w (severity x.outcome)) results) l
      ∙ leads_of-heavier_leads (severity r.outcome) ns in
    let heavy : Some (heavier_leads (severity r.outcome) ns) =
      subst Some (leads_of-heavier_leads (severity r.outcome) ns) (
        leads_of-Some (λ x. ltb (severity r.outcome) (severity x.outcome)) results
          (SomeHeavier-any (severity r.outcome) ns s) h) in
    record {
      earlier = every_note results;
      last =
          ap (λ d. every_note results ++ choice_notes r.leading d) dropped
          ∙ ap (λ d. every_note results ++ d) (choice_notes-Some r.leading _ heavy);
      some_taken = Some-nonempty r.leading (
          leads_of-Some (λ x. severity x.outcome == lightest k ks) (k ∷ ks)
            (lightest-attained k ks (lightest k ks) refl) hk);
      some_dropped = Some-nonempty _ heavy;
      taken = g u;
    }

-- No class is lowered silently: where an OR comes out known and lighter than one of its operands, its
-- last note reports the choice. It names as taken the leading licenses of the evaluation, of which
-- there are some and all of which have the class that came out, and as dropped the leading licenses
-- of all the operands of a heavier class, in their order, of which there are some.
pub downgrade_noted :
    (ns : Operands) (r : Evaluation)
    → evaluate_node (or_node ns) ≡ ok r
    → is_unknown r.outcome ≡ false
    → SomeHeavier (severity r.outcome) ns
    → ReportsChoice r (heavier_leads (severity r.outcome) ns)
unfolding result_of
downgrade_noted ns r h u s =
    let q : result_of (or_node ns) ≡ r = evaluated (or_node ns) r h in
    let o = ap (λ e. e.outcome) q in
    subst (λ e. ReportsChoice e (heavier_leads (severity e.outcome) ns)) q
      (or_result-ReportsChoice ns (keep is_known (all_results ns)) refl (results_of-HasLead ns)
        (result_of-Agree (or_node ns)) (ap is_unknown o ∙ u)
        (subst (λ x. SomeHeavier (severity x) ns) (sym o) s))
