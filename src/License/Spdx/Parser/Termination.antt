-- ===== src/License/Spdx/Parser/Termination.antt =====
-- The parser of intelligence/license/spdx.py comes to an end.
use ip_risk_agent_v.Base.{
  ◌||◌, ◌≡◌, ◌⊎◌, inl, inr, refl, arith, ℕ, zero, suc, ◌+◌, ◌-◌, ◌*◌, ◌≤◌, List, [], ◌∷◌, Text,
  codes, text_eq, upper, length, ok, raised, ◌>>=◌, Bool-cases,
}
use ip_risk_agent_v.License.Spdx.{ExpressionNode}
use ip_risk_agent_v.License.Spdx.Parser.{
  syntax_error, out_of_fuel, Parsed, parse, parse_or, or_operands, more_or, parse_and, and_operands,
  more_and, parse_atom, parse_leaf, is_operator, parse_simple, close, end, open_paren, close_paren,
}

-- The call did not run out of fuel, and left at most so many tokens.
abbrev Settled {ℓ} : {A : Type ℓ} → ℕ → Parsed A → Type 0
Settled k (ok parsed) = length parsed.1 ≤ k
Settled k (raised syntax_error) = Unit
Settled k (raised out_of_fuel) = ⊥

bind-Settled {ℓ κ} :
    {A : Type ℓ} {B : Type κ} (j k : ℕ) (m : Parsed A) (f : A × List Text → Parsed B)
    → Settled j m
    → ((p : A × List Text) → length p.1 ≤ j → Settled k (f p))
    → Settled k (m >>= f)
bind-Settled j k (ok p) f h g = g p h
bind-Settled j k (raised syntax_error) f h g = tt
bind-Settled j k (raised out_of_fuel) f h g = h

parse_leaf-Settled :
    (token : Text) (rest : List Text) → Settled (length rest) (parse_leaf token rest)
parse_leaf-Settled token [] = omega arith
parse_leaf-Settled token (next ∷ []) = elim (Bool-cases (text_eq (upper next) (codes "WITH"))) [
  | inl e ↦ rw e tt
  | inr e ↦ rw e (omega arith)
]
parse_leaf-Settled token (next ∷ written ∷ rest) =
    elim (Bool-cases (text_eq (upper next) (codes "WITH"))) [
      | inl e ↦ rw e (omega arith)
      | inr e ↦ rw e (omega arith)
    ]

parse_simple-Settled :
    (token : Text) (rest : List Text) → Settled (length rest) (parse_simple token rest)
parse_simple-Settled token rest =
    elim (Bool-cases (text_eq token close_paren || is_operator token)) [
      | inl e ↦ rw e tt
      | inr e ↦ rw e (parse_leaf-Settled token rest)
    ]

close-Settled :
    (node : ExpressionNode) (tokens : List Text) → Settled (length tokens) (close node tokens)
close-Settled node [] = tt
close-Settled node (token ∷ rest) = elim (Bool-cases (text_eq token close_paren)) [
  | inl e ↦ rw e (omega arith)
  | inr e ↦ rw e tt
]

Settled-mono {ℓ} : {A : Type ℓ} (j k : ℕ) (m : Parsed A) → j ≤ k → Settled j m → Settled k m
Settled-mono j k (ok p) h s = omega (arith, s)
Settled-mono j k (raised syntax_error) h s = tt
Settled-mono j k (raised out_of_fuel) h s = s

mutual
  unfolding parse_or

  parse_or-Settled :
      (n : ℕ) (ts : List Text) → 8 * length ts + 5 ≤ n → Settled (length ts - 1) (parse_or n ts)
  parse_or-Settled zero ts h = absurd (omega (arith, h))
  parse_or-Settled (suc n) ts h =
      bind-Settled (length ts - 1) (length ts - 1) (or_operands n ts) _
        (or_operands-Settled n ts (omega (arith, h))) λ p b. b

  or_operands-Settled :
      (n : ℕ) (ts : List Text) → 8 * length ts + 4 ≤ n → Settled (length ts - 1) (or_operands n ts)
  or_operands-Settled zero ts h = absurd (omega (arith, h))
  or_operands-Settled (suc n) ts h =
      bind-Settled (length ts - 1) (length ts - 1) (parse_and n ts) _
        (parse_and-Settled n ts (omega (arith, h)))
        λ p b. more_or-Settled n p.0 p.1 (length ts - 1) (omega (arith, h, b)) b

  more_or-Settled :
      (n : ℕ) (node : ExpressionNode) (ts : List Text) (k : ℕ)
      → 8 * length ts + 1 ≤ n
      → length ts ≤ k
      → Settled k (more_or n node ts)
  more_or-Settled zero node ts k h b = absurd (omega (arith, h))
  more_or-Settled (suc n) node [] k h b = omega arith
  more_or-Settled (suc n) node (t ∷ ts) k h b = elim (Bool-cases (text_eq (upper t) (codes "OR"))) [
    | inl e ↦ rw e (
        bind-Settled (length ts - 1) k (or_operands n ts) _
          (or_operands-Settled n ts (omega (arith, h))) λ p c. omega (arith, b, c))
    | inr e ↦ rw e b
  ]

  parse_and-Settled :
      (n : ℕ) (ts : List Text) → 8 * length ts + 3 ≤ n → Settled (length ts - 1) (parse_and n ts)
  parse_and-Settled zero ts h = absurd (omega (arith, h))
  parse_and-Settled (suc n) ts h =
      bind-Settled (length ts - 1) (length ts - 1) (and_operands n ts) _
        (and_operands-Settled n ts (omega (arith, h))) λ p b. b

  and_operands-Settled :
      (n : ℕ) (ts : List Text) → 8 * length ts + 2 ≤ n → Settled (length ts - 1) (and_operands n ts)
  and_operands-Settled zero ts h = absurd (omega (arith, h))
  and_operands-Settled (suc n) ts h =
      bind-Settled (length ts - 1) (length ts - 1) (parse_atom n ts) _
        (parse_atom-Settled n ts (omega (arith, h)))
        λ p b. more_and-Settled n p.0 p.1 (length ts - 1) (omega (arith, h, b)) b

  more_and-Settled :
      (n : ℕ) (node : ExpressionNode) (ts : List Text) (k : ℕ)
      → 8 * length ts + 1 ≤ n
      → length ts ≤ k
      → Settled k (more_and n node ts)
  more_and-Settled zero node ts k h b = absurd (omega (arith, h))
  more_and-Settled (suc n) node [] k h b = omega arith
  more_and-Settled (suc n) node (t ∷ ts) k h b =
      elim (Bool-cases (text_eq (upper t) (codes "AND"))) [
        | inl e ↦ rw e (
            bind-Settled (length ts - 1) k (and_operands n ts) _
              (and_operands-Settled n ts (omega (arith, h))) λ p c. omega (arith, b, c))
        | inr e ↦ rw e b
      ]

  parse_atom-Settled :
      (n : ℕ) (ts : List Text) → 8 * length ts + 1 ≤ n → Settled (length ts - 1) (parse_atom n ts)
  parse_atom-Settled zero ts h = absurd (omega (arith, h))
  parse_atom-Settled (suc n) [] h = tt
  parse_atom-Settled (suc n) (t ∷ ts) h = elim (Bool-cases (text_eq t open_paren)) [
    | inl e ↦ rw e (
        bind-Settled (length ts - 1) (length (t ∷ ts) - 1) (parse_or n ts) _
          (parse_or-Settled n ts (omega (arith, h)))
          λ p b.
            Settled-mono (length p.1) (length (t ∷ ts) - 1) (close p.0 p.1) (omega (arith, b))
              (close-Settled p.0 p.1))
    | inr e ↦ rw e (
        Settled-mono (length ts) (length (t ∷ ts) - 1) (parse_simple t ts) (omega arith)
          (parse_simple-Settled t ts))
  ]

end-settles :
    (m : Parsed ExpressionNode) (k : ℕ)
    → Settled k m
    → ((m >>= end) ≡ raised syntax_error) ⊎ ((n : ExpressionNode) × ((m >>= end) ≡ ok n))
end-settles (ok (n, [])) k s = inr (n, refl)
end-settles (ok (n, t ∷ ts)) k s = inl refl
end-settles (raised syntax_error) k s = inl refl
end-settles (raised out_of_fuel) k s = absurd s

-- The parser terminates on every list of tokens: it gives an expression or reports an error in the
-- syntax, and never runs out of the fuel that the model gives it.
pub parse_settles :
    (ts : List Text) → (parse ts ≡ raised syntax_error) ⊎ ((n : ExpressionNode) × (parse ts ≡ ok n))
unfolding parse
parse_settles ts =
    end-settles (parse_or (8 * length ts + 8) ts) (length ts - 1)
      (parse_or-Settled (8 * length ts + 8) ts (omega arith))
