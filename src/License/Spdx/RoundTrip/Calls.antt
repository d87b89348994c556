-- ===== src/License/Spdx/RoundTrip/Calls.antt =====
-- Single calls of the parser of intelligence/license/spdx.py that succeed.
use ip_risk_agent_v.Base.{
  ◌≡◌, refl, arith, ap, ◌∙◌, ℕ, suc, true, false, List, [], ◌∷◌, ◌++◌, Text, text_eq, upper,
  upper_char, Option, none, some, ok, ◌>>=◌,
}
use ip_risk_agent_v.License.Spdx.{
  ExpressionNode, Operands, license, and_node, or_node, one, more, resolve,
}
use ip_risk_agent_v.License.Spdx.Parser.{
  parse_or, or_operands, more_or, parse_and, and_operands, more_and, parse_atom, next_is,
  open_paren, close_paren, or_of, and_of, close,
}
use ip_risk_agent_v.License.Spdx.Printer.{and_word, or_word, starts_word}
use ip_risk_agent_v.License.Spdx.RoundTrip.{
  leaf_tokens, with_word, IsToken, CanonicalException, Many,
}

no_open : (s : Text) → starts_word s ≡ true → text_eq s open_paren ≡ false
unfolding text_eq
no_open [] h = refl
no_open (c ∷ s) h = ground arith

no_close : (s : Text) → starts_word s ≡ true → text_eq s close_paren ≡ false
unfolding text_eq
no_close [] h = refl
no_close (c ∷ s) h = ground arith

-- One call of each function, where the call below it succeeds.
module _ (f : ℕ) (ts rest : List Text) where
  pub parse_or-step :
      (ns : Operands) → or_operands f ts ≡ ok (ns, rest) → parse_or (suc f) ts ≡ ok (or_of ns, rest)
  unfolding parse_or
  parse_or-step ns e = ap (λ m. m >>= λ p. ok (or_of p.0, p.1)) e

  pub or_operands-step :
      (n : ExpressionNode)
      → parse_and f ts ≡ ok (n, rest)
      → or_operands (suc f) ts ≡ more_or f n rest
  unfolding parse_or
  or_operands-step n e = ap (λ m. m >>= λ p. more_or f p.0 p.1) e

  parse_and-step :
      (ns : Operands)
      → and_operands f ts ≡ ok (ns, rest)
      → parse_and (suc f) ts ≡ ok (and_of ns, rest)
  unfolding parse_or
  parse_and-step ns e = ap (λ m. m >>= λ p. ok (and_of p.0, p.1)) e

  pub and_operands-step :
      (n : ExpressionNode)
      → parse_atom f ts ≡ ok (n, rest)
      → and_operands (suc f) ts ≡ more_and f n rest
  unfolding parse_or
  and_operands-step n e = ap (λ m. m >>= λ p. more_and f p.0 p.1) e

  pub parse_atom-group :
      (n : ExpressionNode)
      → parse_or f ts ≡ ok (n, close_paren ∷ rest)
      → parse_atom (suc f) (open_paren ∷ ts) ≡ ok (n, rest)
  unfolding parse_or text_eq
  parse_atom-group n e = ap (λ m. m >>= λ p. close p.0 p.1) e

  pub more_or-go :
      (n : ExpressionNode) (ns : Operands)
      → or_operands f ts ≡ ok (ns, rest)
      → more_or (suc f) n (or_word ∷ ts) ≡ ok (more n ns, rest)
  unfolding parse_or text_eq upper upper_char
  more_or-go n ns e = ap (λ m. m >>= λ p. ok (more n p.0, p.1)) e

  pub more_and-go :
      (n : ExpressionNode) (ns : Operands)
      → and_operands f ts ≡ ok (ns, rest)
      → more_and (suc f) n (and_word ∷ ts) ≡ ok (more n ns, rest)
  unfolding parse_or text_eq upper upper_char
  more_and-go n ns e = ap (λ m. m >>= λ p. ok (more n p.0, p.1)) e

pub more_or-stop :
    (f : ℕ) (n : ExpressionNode) (rest : List Text)
    → next_is or_word rest ≡ false
    → more_or (suc f) n rest ≡ ok (one n, rest)
unfolding parse_or
more_or-stop f n [] h = refl
more_or-stop f n (t ∷ rest) h = rw h refl

pub more_and-stop :
    (f : ℕ) (n : ExpressionNode) (rest : List Text)
    → next_is and_word rest ≡ false
    → more_and (suc f) n rest ≡ ok (one n, rest)
unfolding parse_or
more_and-stop f n [] h = refl
more_and-stop f n (t ∷ rest) h = rw h refl

with_is : text_eq (upper with_word) with_word ≡ true
unfolding text_eq upper
with_is = refl

pub leaf-read :
    (f : ℕ) (i : Text) (e : Option Text) (rest : List Text)
    → IsToken i
    → resolve i ≡ (i, none)
    → CanonicalException e
    → next_is with_word rest ≡ false
    → parse_atom (suc f) (leaf_tokens i e ++ rest) ≡ ok (license i e, rest)
unfolding parse_or
leaf-read f i none [] t r k h =
    rw (no_open i t.some_char, no_close i t.some_char, t.no_operator, r) refl
leaf-read f i none (s ∷ rest) t r k h =
    rw (no_open i t.some_char, no_close i t.some_char, t.no_operator, r, h) refl
leaf-read f i (some e) rest t r k h =
    rw (no_open i t.some_char, no_close i t.some_char, t.no_operator, r, with_is, k.1) refl

-- What no operand can be continued by.
pub record Stops (rest : List Text) : Type 0 where
  pub with_stops : next_is with_word rest ≡ false
  pub and_stops : next_is and_word rest ≡ false

pub close-Stops :
    (rest : List Text) → Stops (close_paren ∷ rest) × (next_is or_word (close_paren ∷ rest) ≡ false)
unfolding text_eq upper upper_char
close-Stops rest = (record { with_stops = refl; and_stops = refl }, refl)

pub or-Stops : (rest : List Text) → Stops (or_word ∷ rest)
unfolding text_eq upper upper_char
or-Stops rest = record { with_stops = refl; and_stops = refl }

pub and-no_with : (rest : List Text) → next_is with_word (and_word ∷ rest) ≡ false
unfolding text_eq upper upper_char
and-no_with rest = refl

-- An atom that stands alone, as an operand of an OR.
pub parse_and-atom :
    (g : ℕ) (ts rest : List Text) (n : ExpressionNode)
    → next_is and_word rest ≡ false
    → parse_atom (suc g) ts ≡ ok (n, rest)
    → parse_and (suc (suc (suc g))) ts ≡ ok (n, rest)
parse_and-atom g ts rest n h e =
    parse_and-step (suc (suc g)) ts rest (one n)
      (and_operands-step (suc g) ts rest n e ∙ more_and-stop g n rest h)

pub parse_or-and :
    (g : ℕ) (ts rest : List Text) (ns : Operands)
    → Many ns
    → next_is or_word rest ≡ false
    → and_operands (suc g) ts ≡ ok (ns, rest)
    → parse_or (suc (suc (suc (suc g)))) ts ≡ ok (and_node ns, rest)
parse_or-and g ts rest (one n) m h e = absurd m
parse_or-and g ts rest (more n ns) m h e =
    parse_or-step (suc (suc (suc g))) ts rest (one (and_node (more n ns))) (
      or_operands-step (suc (suc g)) ts rest (and_node (more n ns))
        (parse_and-step (suc g) ts rest (more n ns) e)
      ∙ more_or-stop (suc g) (and_node (more n ns)) rest h)

pub parse_or-or :
    (g : ℕ) (ts rest : List Text) (ns : Operands)
    → Many ns
    → or_operands g ts ≡ ok (ns, rest)
    → parse_or (suc g) ts ≡ ok (or_node ns, rest)
parse_or-or g ts rest (one n) m e = absurd m
parse_or-or g ts rest (more n ns) m e = parse_or-step g ts rest (more n ns) e
