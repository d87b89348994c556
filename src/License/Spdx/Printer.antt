-- ===== src/License/Spdx/Printer.antt =====
-- `__str__` of the nodes of intelligence/license/spdx.py, and `_TOKEN.findall`.
use ip_risk_agent_v.Base.{
  ℕ, Bool, true, false, ◌&&◌, ◌||◌, leb, ◌==◌, List, [], ◌∷◌, ◌++◌, Text, codes, if◌then◌else◌,
  Option, none, some, ok, raised, Outcome,
}
use ip_risk_agent_v.License.Spdx.{ExpressionNode, Operands, license, and_node, or_node, one, more}
use ip_risk_agent_v.License.Spdx.Parser.{ParseError, parse}

-- An empty exception is false in Python.
abbrev pub license_text : Text → Option Text → Text
license_text identifier none = identifier
license_text identifier (some []) = identifier
license_text identifier (some (c ∷ exception)) = identifier ++ (codes " WITH " ++ (c ∷ exception))

abbrev pub and_word : Text
and_word = codes "AND"

abbrev pub or_word : Text
or_word = codes "OR"

-- `_wrap`, and the texts of operands with ` AND ` or ` OR ` between them.
unfoldable mutual
  pub wrap : ExpressionNode → Text
  wrap (license identifier exception) = license_text identifier exception
  wrap (and_node operands) = b'(' ∷ joined and_word operands ++ (b')' ∷ [])
  wrap (or_node operands) = b'(' ∷ joined or_word operands ++ (b')' ∷ [])

  pub joined : Text → Operands → Text
  joined word (one n) = wrap n
  joined word (more n ns) = wrap n ++ (b' ' ∷ word ++ (b' ' ∷ joined word ns))

-- `str(node)`
unfoldable pub to_text : ExpressionNode → Text
unfolding wrap
to_text (license identifier exception) = license_text identifier exception
to_text (and_node operands) = joined and_word operands
to_text (or_node operands) = joined or_word operands

abbrev pub is_paren : ℕ → Bool
is_paren c = c == b'(' || c == b')'

-- `[A-Za-z0-9.+:\-]`
abbrev pub is_word_char : ℕ → Bool
is_word_char c =
    (leb b'A' c && leb c b'Z')
    || (leb b'a' c && leb c b'z')
    || (leb b'0' c && leb c b'9')
    || c == b'.'
    || c == b'+'
    || c == b':'
    || c == b'-'

abbrev pub starts_word : Text → Bool
starts_word [] = false
starts_word (c ∷ s) = is_word_char c

-- A character of a word, before the tokens of what follows it.
abbrev pub into_word : Bool → ℕ → List Text → List Text
into_word true c (token ∷ tokens) = (c ∷ token) ∷ tokens
into_word _ c tokens = (c ∷ []) ∷ tokens

unfoldable pub find_tokens : Text → List Text
find_tokens [] = []
find_tokens (c ∷ s) =
    let rest = find_tokens s in
    if is_paren c
    then (c ∷ []) ∷ rest
    else if is_word_char c
    then into_word (starts_word s) c rest
    else rest

abbrev pub parsed_or_none : Outcome ParseError ExpressionNode → Option ExpressionNode
parsed_or_none (ok node) = some node
parsed_or_none (raised e) = none

abbrev pub parse_tokens : List Text → Option ExpressionNode
parse_tokens [] = none
parse_tokens (token ∷ tokens) = parsed_or_none (parse (token ∷ tokens))

unfoldable pub try_parse_expression : Text → Option ExpressionNode
unfolding find_tokens parse
try_parse_expression expression = parse_tokens (find_tokens expression)
