-- ===== src/License/Spdx/RoundTrip.antt =====
-- An expression that is printed and read again: intelligence/license/spdx.py.
pub mod Tokens
pub mod Calls
pub mod Reading
use ip_risk_agent_v.Base.{
  ◌≡◌, refl, arith, ap, sym, ◌∙◌, ℕ, zero, suc, ◌+◌, ◌*◌, ◌≤◌, Bool, true, false, ◌||◌, List, [],
  ◌∷◌, ◌++◌, append_assoc, length, length-append, Text, codes, text_eq, upper, All, Option, none,
  some, Outcome, ok, raised, ◌>>=◌, if◌then◌else◌, Bool-cases, inl, inr,
}
use ip_risk_agent_v.License.Spdx.{
  ExpressionNode, Operands, license, and_node, or_node, one, more, resolve, canonicalize_exception,
}
use ip_risk_agent_v.License.Spdx.Parser.{
  Parsed, parse, parse_or, or_operands, more_or, parse_and, and_operands, more_and, parse_atom,
  next_is, is_operator, open_paren, close_paren,
}
use ip_risk_agent_v.License.Spdx.Printer.{
  to_text, wrap, joined, license_text, and_word, or_word, find_tokens, is_word_char, is_paren,
  starts_word, into_word, try_parse_expression,
}

abbrev with_word : Text
with_word = codes "WITH"

-- The tokens of a printed expression.
abbrev leaf_tokens : Text → Option Text → List Text
leaf_tokens i none = i ∷ []
leaf_tokens i (some e) = i ∷ with_word ∷ e ∷ []

unfoldable mutual
  wrap_tokens : ExpressionNode → List Text
  wrap_tokens (license i e) = leaf_tokens i e
  wrap_tokens (and_node ns) = open_paren ∷ tokens_by and_word ns ++ (close_paren ∷ [])
  wrap_tokens (or_node ns) = open_paren ∷ tokens_by or_word ns ++ (close_paren ∷ [])

  tokens_by : Text → Operands → List Text
  tokens_by word (one n) = wrap_tokens n
  tokens_by word (more n ns) = wrap_tokens n ++ (word ∷ tokens_by word ns)

unfoldable node_tokens : ExpressionNode → List Text
unfolding wrap_tokens
node_tokens (license i e) = leaf_tokens i e
node_tokens (and_node ns) = tokens_by and_word ns
node_tokens (or_node ns) = tokens_by or_word ns

-- A license under its registered spelling, and a text that is one token and no operator.
pub record IsToken (s : Text) : Type 0 where
  pub some_char : starts_word s ≡ true
  pub word : All (λ c. is_word_char c ≡ true) s
  pub no_operator : is_operator s ≡ false

abbrev pub CanonicalException : Option Text → Type 0
CanonicalException none = Unit
CanonicalException (some e) = IsToken e × (canonicalize_exception e ≡ some e)

abbrev Many : Operands → Type 0
Many (one n) = ⊥
Many (more n ns) = Unit

-- An expression as the parser makes them: registered spellings, and two operands or more.
unfoldable mutual
  pub Canonical : ExpressionNode → Type 0
  Canonical (license i e) = IsToken i × (resolve i ≡ (i, none)) × CanonicalException e
  Canonical (and_node ns) = Many ns × AllCanonical ns
  Canonical (or_node ns) = Many ns × AllCanonical ns

  pub AllCanonical : Operands → Type 0
  AllCanonical (one n) = Canonical n
  AllCanonical (more n ns) = Canonical n × AllCanonical ns
