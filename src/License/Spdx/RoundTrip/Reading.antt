-- ===== src/License/Spdx/RoundTrip/Reading.antt =====
-- The parser of intelligence/license/spdx.py on the tokens of a printed expression.
use ip_risk_agent_v.Base.{
  ◌≡◌, refl, arith, ap, sym, ◌∙◌, ℕ, suc, ◌+◌, ◌-◌, ◌*◌, ◌≤◌, false, List, [], ◌∷◌, ◌++◌,
  append_assoc, append-nil, length, length-append, Text, none, some, ok, ◌>>=◌,
}
use ip_risk_agent_v.License.Spdx.{ExpressionNode, Operands, license, and_node, or_node, one, more}
use ip_risk_agent_v.License.Spdx.Parser.{
  parse, parse_or, or_operands, and_operands, parse_atom, next_is, open_paren, close_paren, end,
}
use ip_risk_agent_v.License.Spdx.Printer.{
  to_text, and_word, or_word, parse_tokens, parsed_or_none, try_parse_expression,
}
use ip_risk_agent_v.License.Spdx.RoundTrip.{
  wrap_tokens, tokens_by, leaf_tokens, node_tokens, with_word, Canonical, AllCanonical,
}
use ip_risk_agent_v.License.Spdx.RoundTrip.Tokens.{find_tokens-to_text}
use ip_risk_agent_v.License.Spdx.RoundTrip.Calls.{
  Stops, parse_or-step, or_operands-step, and_operands-step, parse_atom-group, more_or-go,
  more_and-go, more_or-stop, more_and-stop, leaf-read, close-Stops, or-Stops, and-no_with,
  parse_and-atom, parse_or-and, parse_or-or,
}

wrap_tokens-length : (n : ExpressionNode) → 1 ≤ length (wrap_tokens n)
unfolding wrap_tokens
wrap_tokens-length (license i none) = omega arith
wrap_tokens-length (license i (some e)) = omega arith
wrap_tokens-length (and_node ns) = omega arith
wrap_tokens-length (or_node ns) = omega arith

-- A group in parentheses, where the inside is read.
group-read :
    (f : ℕ) (ts rest : List Text) (n : ExpressionNode)
    → parse_or f (ts ++ (close_paren ∷ rest)) ≡ ok (n, close_paren ∷ rest)
    → parse_atom (suc f) ((open_paren ∷ ts ++ (close_paren ∷ [])) ++ rest) ≡ ok (n, rest)
group-read f ts rest n e =
    parse_atom-group f ((ts ++ (close_paren ∷ [])) ++ rest) rest n
      (ap (parse_or f) (append_assoc ts (close_paren ∷ []) rest) ∙ e)

-- A number above five, with its successors written out.
fuel_of : (f : ℕ) → 5 ≤ f → f ≡ suc (suc (suc (suc (suc (f - 5)))))
fuel_of f h = omega (arith, h)

mutual
  unfolding wrap_tokens Canonical

  atom-read :
      (n : ExpressionNode) (f : ℕ) (rest : List Text)
      → Canonical n
      → 8 * length (wrap_tokens n) ≤ f
      → next_is with_word rest ≡ false
      → parse_atom f (wrap_tokens n ++ rest) ≡ ok (n, rest)
  atom-read (license i e) f rest k b h =
      let q = fuel_of f (omega (arith, b, wrap_tokens-length (license i e))) in
      ap (λ x. parse_atom x (leaf_tokens i e ++ rest)) q
      ∙ leaf-read (suc (suc (suc (suc (f - 5))))) i e rest k.0 k.1 k.2 h
  atom-read (and_node ns) f rest k b h =
      let ts = tokens_by and_word ns in
      let c : 8 * length ts + 16 ≤ f = omega (arith, b, length-append ts (close_paren ∷ [])) in
      let (s, o) = close-Stops rest in
      ap (λ x. parse_atom x (wrap_tokens (and_node ns) ++ rest)) (fuel_of f (omega (arith, c)))
      ∙ group-read (suc (suc (suc (suc (f - 5))))) ts rest (and_node ns) (
          parse_or-and (f - 5) (ts ++ (close_paren ∷ rest)) (close_paren ∷ rest) ns k.0 o
            (and-read ns (suc (f - 5)) (close_paren ∷ rest) k.1 (omega (arith, c)) s))
  atom-read (or_node ns) f rest k b h =
      let ts = tokens_by or_word ns in
      let c : 8 * length ts + 16 ≤ f = omega (arith, b, length-append ts (close_paren ∷ [])) in
      let (s, o) = close-Stops rest in
      ap (λ x. parse_atom x (wrap_tokens (or_node ns) ++ rest)) (fuel_of f (omega (arith, c)))
      ∙ group-read (suc (suc (suc (suc (f - 5))))) ts rest (or_node ns) (
          parse_or-or (suc (suc (suc (f - 5)))) (ts ++ (close_paren ∷ rest)) (close_paren ∷ rest) ns
            k.0
            (or-read ns (suc (suc (suc (f - 5)))) (close_paren ∷ rest) k.1 (omega (arith, c)) s o))

  and-read :
      (ns : Operands) (f : ℕ) (rest : List Text)
      → AllCanonical ns
      → 8 * length (tokens_by and_word ns) + 1 ≤ f
      → Stops rest
      → and_operands f (tokens_by and_word ns ++ rest) ≡ ok (ns, rest)
  and-read (one n) f rest k b s =
      let g = suc (suc (suc (f - 5))) in
      ap (λ x. and_operands x (wrap_tokens n ++ rest))
        (fuel_of f (omega (arith, b, wrap_tokens-length n)))
      ∙ and_operands-step (suc g) (wrap_tokens n ++ rest) rest n
          (atom-read n (suc g) rest k (omega (arith, b, wrap_tokens-length n)) s.with_stops)
      ∙ more_and-stop g n rest s.and_stops
  and-read (more n ns) f rest k b s =
      let ws = wrap_tokens n in
      let ts = tokens_by and_word ns in
      let c : 8 * length ws + (8 * length ts + 9) ≤ f =
        omega (arith, b, length-append ws (and_word ∷ ts)) in
      let g = suc (suc (suc (f - 5))) in
      ap (λ x. and_operands x ((ws ++ (and_word ∷ ts)) ++ rest)) (fuel_of f (omega (arith, c)))
      ∙ ap (and_operands (suc (suc g))) (append_assoc ws (and_word ∷ ts) rest)
      ∙ and_operands-step (suc g) (ws ++ (and_word ∷ ts ++ rest)) (and_word ∷ ts ++ rest) n (
          atom-read n (suc g) (and_word ∷ ts ++ rest) k.0 (omega (arith, c))
            (and-no_with (ts ++ rest)))
      ∙ more_and-go g (ts ++ rest) rest n ns
          (and-read ns g rest k.1 (omega (arith, c, wrap_tokens-length n)) s)

  or-read :
      (ns : Operands) (f : ℕ) (rest : List Text)
      → AllCanonical ns
      → 8 * length (tokens_by or_word ns) + 3 ≤ f
      → Stops rest
      → next_is or_word rest ≡ false
      → or_operands f (tokens_by or_word ns ++ rest) ≡ ok (ns, rest)
  or-read (one n) f rest k b s o =
      let g = suc (f - 5) in
      ap (λ x. or_operands x (wrap_tokens n ++ rest))
        (fuel_of f (omega (arith, b, wrap_tokens-length n)))
      ∙ or_operands-step (suc (suc (suc g))) (wrap_tokens n ++ rest) rest n (
          parse_and-atom g (wrap_tokens n ++ rest) rest n s.and_stops
            (atom-read n (suc g) rest k (omega (arith, b, wrap_tokens-length n)) s.with_stops))
      ∙ more_or-stop (suc (suc g)) n rest o
  or-read (more n ns) f rest k b s o =
      let ws = wrap_tokens n in
      let ts = tokens_by or_word ns in
      let c : 8 * length ws + (8 * length ts + 11) ≤ f =
        omega (arith, b, length-append ws (or_word ∷ ts)) in
      let g = suc (f - 5) in
      ap (λ x. or_operands x ((ws ++ (or_word ∷ ts)) ++ rest)) (fuel_of f (omega (arith, c)))
      ∙ ap (or_operands (suc (suc (suc (suc g))))) (append_assoc ws (or_word ∷ ts) rest)
      ∙ or_operands-step (suc (suc (suc g))) (ws ++ (or_word ∷ ts ++ rest)) (or_word ∷ ts ++ rest) n
          (parse_and-atom g (ws ++ (or_word ∷ ts ++ rest)) (or_word ∷ ts ++ rest) n
            (or-Stops (ts ++ rest)).and_stops
            (atom-read n (suc g) (or_word ∷ ts ++ rest) k.0 (omega (arith, c))
              (or-Stops (ts ++ rest)).with_stops))
      ∙ more_or-go (suc (suc g)) (ts ++ rest) rest n ns
          (or-read ns (suc (suc g)) rest k.1 (omega (arith, c, wrap_tokens-length n)) s o)

nil_Stops : Stops []
nil_Stops = record { with_stops = refl; and_stops = refl }

read_node :
    (n : ExpressionNode) (g : ℕ)
    → Canonical n
    → 8 * length (node_tokens n) + 5 ≤ g
    → parse_or g (node_tokens n ++ []) ≡ ok (n, [])
unfolding node_tokens wrap_tokens Canonical
read_node (license i e) g k b =
    let f = suc (suc (suc (suc (g - 5)))) in
    ap (λ x. parse_or x (leaf_tokens i e ++ [])) (fuel_of g (omega (arith, b)))
    ∙ parse_or-step f (leaf_tokens i e ++ []) [] (one (license i e))
        (or-read (one (license i e)) f [] k (omega (arith, b)) nil_Stops refl)
read_node (and_node ns) g k b =
    let ts = tokens_by and_word ns in
    ap (λ x. parse_or x (ts ++ [])) (fuel_of g (omega (arith, b)))
    ∙ parse_or-and (suc (g - 5)) (ts ++ []) [] ns k.0 refl
        (and-read ns (suc (suc (g - 5))) [] k.1 (omega (arith, b)) nil_Stops)
read_node (or_node ns) g k b =
    let ts = tokens_by or_word ns in
    let f = suc (suc (suc (suc (g - 5)))) in
    ap (λ x. parse_or x (ts ++ [])) (fuel_of g (omega (arith, b)))
    ∙ parse_or-or f (ts ++ []) [] ns k.0 (or-read ns f [] k.1 (omega (arith, b)) nil_Stops refl)

parse-node_tokens : (n : ExpressionNode) → Canonical n → parse (node_tokens n) ≡ ok n
unfolding parse
parse-node_tokens n k =
    let ts = node_tokens n in
    let F = 8 * length ts + 8 in
    ap (λ m. m >>= end) (ap (parse_or F) (sym (append-nil ts)) ∙ read_node n F k (omega arith))

parse_tokens-ok : (ts : List Text) (n : ExpressionNode) → parse ts ≡ ok n → parse_tokens ts ≡ some n
unfolding parse
parse_tokens-ok [] n e = absurd (ground (arith, e))
parse_tokens-ok (t ∷ ts) n e = ap parsed_or_none e

-- An expression in registered spellings that is printed and parsed again is the same expression.
pub parse-to_text : (n : ExpressionNode) → Canonical n → try_parse_expression (to_text n) ≡ some n
unfolding try_parse_expression
parse-to_text n k =
    ap parse_tokens (find_tokens-to_text n k)
    ∙ parse_tokens-ok (node_tokens n) n (parse-node_tokens n k)
