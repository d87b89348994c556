-- ===== src/License/Spdx/Parser.antt =====
-- `_Parser` of intelligence/license/spdx.py, on the tokens of an expression.
pub mod Termination
use ip_risk_agent_v.Base.{
  ℕ, zero, suc, ◌+◌, ◌*◌, Bool, true, false, ◌||◌, any, List, [], ◌∷◌, Text, codes, text_eq, upper,
  length, if◌then◌else◌, Option, none, some, Outcome, ok, raised, ◌>>=◌,
}
use ip_risk_agent_v.License.Spdx.{
  ExpressionNode, Operands, license, and_node, or_node, one, more, resolve, canonicalize_exception,
}

-- `SpdxParseError`, and the end of the fuel, which never comes up.
pub data ParseError : Type 0 where
  syntax_error out_of_fuel : ParseError

-- What was parsed, and the tokens from `_pos` on.
abbrev pub Parsed {ℓ} : Type ℓ → Type ℓ
Parsed A = Outcome ParseError (A × List Text)

-- `(token := self._peek()) and token.upper() == word`
abbrev pub next_is : Text → List Text → Bool
next_is word [] = false
next_is word (token ∷ rest) = text_eq (upper token) word

abbrev pub is_operator : Text → Bool
is_operator token =
    text_eq (upper token) (codes "AND")
    || text_eq (upper token) (codes "OR")
    || text_eq (upper token) (codes "WITH")

abbrev pub open_paren : Text
open_paren = codes "("

abbrev pub close_paren : Text
close_paren = codes ")"

-- `operands[0] if len(operands) == 1 else OrNode(tuple(operands))`
abbrev pub or_of : Operands → ExpressionNode
or_of (one n) = n
or_of (more n ns) = or_node (more n ns)

abbrev pub and_of : Operands → ExpressionNode
and_of (one n) = n
and_of (more n ns) = and_node (more n ns)

abbrev written_exception : Text → Option Text → Option Text
written_exception written (some canonical) = some canonical
written_exception written none = some written

abbrev leaf_with : Text × Option Text → List Text → Parsed ExpressionNode
leaf_with resolved [] = raised syntax_error
leaf_with resolved (written ∷ rest) =
    ok (license resolved.0 (written_exception written (canonicalize_exception written)), rest)

-- A license, with the exception written after it or the one that its spelling holds.
abbrev parse_leaf : Text → List Text → Parsed ExpressionNode
parse_leaf token [] = ok (license (resolve token).0 (resolve token).1, [])
parse_leaf token (next ∷ rest) =
    if text_eq (upper next) (codes "WITH")
    then leaf_with (resolve token) rest
    else ok (license (resolve token).0 (resolve token).1, next ∷ rest)

abbrev pub close : ExpressionNode → List Text → Parsed ExpressionNode
close inner [] = raised syntax_error
close inner (token ∷ rest) =
    if text_eq token close_paren then ok (inner, rest) else raised syntax_error

abbrev parse_simple : Text → List Text → Parsed ExpressionNode
parse_simple token rest =
    if text_eq token close_paren || is_operator token
    then raised syntax_error
    else parse_leaf token rest

-- The rest of a token list whose first token is spent.
abbrev tail : List Text → List Text
tail [] = []
tail (token ∷ rest) = rest

-- `_parse_or`, `_parse_and` and `_parse_atom`; the loops are the two functions on operands.
unfoldable mutual
  unfolding resolve canonicalize_exception

  pub parse_or : ℕ → List Text → Parsed ExpressionNode
  parse_or zero tokens = raised out_of_fuel
  parse_or (suc fuel) tokens = do
    (operands, rest) ← or_operands fuel tokens
    ok (or_of operands, rest)

  pub or_operands : ℕ → List Text → Parsed Operands
  or_operands zero tokens = raised out_of_fuel
  or_operands (suc fuel) tokens = do (node, rest) ← parse_and fuel tokens; more_or fuel node rest

  pub more_or : ℕ → ExpressionNode → List Text → Parsed Operands
  more_or zero node tokens = raised out_of_fuel
  more_or (suc fuel) node [] = ok (one node, [])
  more_or (suc fuel) node (token ∷ rest) =
      let next = or_operands fuel rest in
      if text_eq (upper token) (codes "OR")
      then (next >>= λ parsed. ok (more node parsed.0, parsed.1))
      else ok (one node, token ∷ rest)

  pub parse_and : ℕ → List Text → Parsed ExpressionNode
  parse_and zero tokens = raised out_of_fuel
  parse_and (suc fuel) tokens = do
    (operands, rest) ← and_operands fuel tokens
    ok (and_of operands, rest)

  pub and_operands : ℕ → List Text → Parsed Operands
  and_operands zero tokens = raised out_of_fuel
  and_operands (suc fuel) tokens = do (node, rest) ← parse_atom fuel tokens; more_and fuel node rest

  pub more_and : ℕ → ExpressionNode → List Text → Parsed Operands
  more_and zero node tokens = raised out_of_fuel
  more_and (suc fuel) node [] = ok (one node, [])
  more_and (suc fuel) node (token ∷ rest) =
      let next = and_operands fuel rest in
      if text_eq (upper token) (codes "AND")
      then (next >>= λ parsed. ok (more node parsed.0, parsed.1))
      else ok (one node, token ∷ rest)

  pub parse_atom : ℕ → List Text → Parsed ExpressionNode
  parse_atom zero tokens = raised out_of_fuel
  parse_atom (suc fuel) [] = raised syntax_error
  parse_atom (suc fuel) (token ∷ rest) =
      let inner = parse_or fuel rest in
      if text_eq token open_paren
      then (inner >>= λ parsed. close parsed.0 parsed.1)
      else parse_simple token rest

abbrev pub end : ExpressionNode × List Text → Outcome ParseError ExpressionNode
end (node, []) = ok node
end (node, token ∷ rest) = raised syntax_error

-- `parse`: eight calls are enough for each token.
unfoldable pub parse : List Text → Outcome ParseError ExpressionNode
unfolding parse_or
parse tokens = do parsed ← parse_or (8 * length tokens + 8) tokens; end parsed
