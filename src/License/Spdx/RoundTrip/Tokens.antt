-- ===== src/License/Spdx/RoundTrip/Tokens.antt =====
-- The tokens that `_TOKEN.findall` finds in a printed expression.
use ip_risk_agent_v.Base.{
  ◌≡◌, refl, arith, ap, sym, ◌∙◌, ℕ, true, false, List, [], ◌∷◌, ◌++◌, append_assoc, append-nil,
  Text, codes, All, Option, none, some,
}
use ip_risk_agent_v.License.Spdx.{ExpressionNode, Operands, license, and_node, or_node, one, more}
use ip_risk_agent_v.License.Spdx.Parser.{open_paren, close_paren}
use ip_risk_agent_v.License.Spdx.Printer.{
  to_text, wrap, joined, license_text, and_word, or_word, find_tokens, is_word_char, is_paren,
  starts_word, into_word,
}
use ip_risk_agent_v.License.Spdx.RoundTrip.{
  wrap_tokens, tokens_by, leaf_tokens, node_tokens, with_word, IsToken, Canonical, AllCanonical,
  CanonicalException,
}

no_paren : (c : ℕ) → is_word_char c ≡ true → is_paren c ≡ false
no_paren c h = ground arith

find_tokens-step :
    (c : ℕ) (s : Text)
    → is_word_char c ≡ true
    → find_tokens (c ∷ s) ≡ into_word (starts_word s) c (find_tokens s)
unfolding find_tokens
find_tokens-step c s h = rw (no_paren c h) (rw h refl)

find_tokens-word :
    (w s : Text)
    → starts_word w ≡ true
    → All (λ c. is_word_char c ≡ true) w
    → starts_word s ≡ false
    → find_tokens (w ++ s) ≡ w ∷ find_tokens s
find_tokens-word [] s h a e = absurd (ground arith)
find_tokens-word (c ∷ []) s h a e =
    find_tokens-step c s h ∙ ap (λ b. into_word b c (find_tokens s)) e
find_tokens-word (c ∷ d ∷ w) s h a e =
    find_tokens-step c (d ∷ w ++ s) h
    ∙ ap (λ b. into_word b c (find_tokens (d ∷ w ++ s))) a.1.0
    ∙ ap (into_word true c) (find_tokens-word (d ∷ w) s a.1.0 a.1 e)

with_token : (r : Text) → find_tokens (codes " WITH " ++ r) ≡ with_word ∷ find_tokens r
unfolding find_tokens
with_token r = refl

find_tokens-leaf :
    (i : Text) (e : Option Text) (s : Text)
    → IsToken i
    → CanonicalException e
    → starts_word s ≡ false
    → find_tokens (license_text i e ++ s) ≡ leaf_tokens i e ++ find_tokens s
find_tokens-leaf i none s t k h = find_tokens-word i s t.some_char t.word h
find_tokens-leaf i (some []) s t k h = absurd (ground (arith, k.0.some_char))
find_tokens-leaf i (some (c ∷ e)) s t k h =
    ap find_tokens (append_assoc i (codes " WITH " ++ (c ∷ e)) s)
    ∙ find_tokens-word i (codes " WITH " ++ (c ∷ e) ++ s) t.some_char t.word refl
    ∙ ap (λ r. i ∷ r)
        (with_token (c ∷ e ++ s)
          ∙ ap (λ r. with_word ∷ r) (find_tokens-word (c ∷ e) s k.0.some_char k.0.word h))

open_token : (s : Text) → find_tokens (b'(' ∷ s) ≡ open_paren ∷ find_tokens s
unfolding find_tokens
open_token s = refl

close_token : (s : Text) → find_tokens (b')' ∷ s) ≡ close_paren ∷ find_tokens s
unfolding find_tokens
close_token s = refl

-- A word that operands are joined by.
abbrev Joins : Text → Type 0
Joins word = (s : Text) → find_tokens (b' ' ∷ word ++ (b' ' ∷ s)) ≡ word ∷ find_tokens s

and_Joins : Joins and_word
unfolding find_tokens
and_Joins s = refl

or_Joins : Joins or_word
unfolding find_tokens
or_Joins s = refl

find_tokens-group :
    (text s : Text) (tokens : List Text)
    → find_tokens (text ++ (b')' ∷ s)) ≡ tokens ++ find_tokens (b')' ∷ s)
    → find_tokens ((b'(' ∷ text ++ (b')' ∷ [])) ++ s)
      ≡ (open_paren ∷ tokens ++ (close_paren ∷ [])) ++ find_tokens s
find_tokens-group text s tokens h =
    open_token ((text ++ (b')' ∷ [])) ++ s)
    ∙ ap (λ r. open_paren ∷ r)
        (ap find_tokens (append_assoc text (b')' ∷ []) s)
          ∙ h
          ∙ ap (λ r. tokens ++ r) (close_token s)
          ∙ sym (append_assoc tokens (close_paren ∷ []) (find_tokens s)))

mutual
  unfolding wrap wrap_tokens Canonical

  find_tokens-wrap :
      (n : ExpressionNode) (s : Text)
      → Canonical n
      → starts_word s ≡ false
      → find_tokens (wrap n ++ s) ≡ wrap_tokens n ++ find_tokens s
  find_tokens-wrap (license i e) s k h = find_tokens-leaf i e s k.0 k.2 h
  find_tokens-wrap (and_node ns) s k h =
      find_tokens-group (joined and_word ns) s (tokens_by and_word ns)
        (find_tokens-joined and_word ns (b')' ∷ s) and_Joins k.1 refl)
  find_tokens-wrap (or_node ns) s k h =
      find_tokens-group (joined or_word ns) s (tokens_by or_word ns)
        (find_tokens-joined or_word ns (b')' ∷ s) or_Joins k.1 refl)

  find_tokens-joined :
      (word : Text) (ns : Operands) (s : Text)
      → Joins word
      → AllCanonical ns
      → starts_word s ≡ false
      → find_tokens (joined word ns ++ s) ≡ tokens_by word ns ++ find_tokens s
  find_tokens-joined word (one n) s j k h = find_tokens-wrap n s k h
  find_tokens-joined word (more n ns) s j k h =
      ap find_tokens (append_assoc (wrap n) (b' ' ∷ word ++ (b' ' ∷ joined word ns)) s)
      ∙ find_tokens-wrap n ((b' ' ∷ word ++ (b' ' ∷ joined word ns)) ++ s) k.0 refl
      ∙ ap (λ r. wrap_tokens n ++ r)
          (ap (λ r. find_tokens (b' ' ∷ r)) (append_assoc word (b' ' ∷ joined word ns) s)
            ∙ j (joined word ns ++ s)
            ∙ ap (λ r. word ∷ r) (find_tokens-joined word ns s j k.1 h))
      ∙ sym (append_assoc (wrap_tokens n) (word ∷ tokens_by word ns) (find_tokens s))

find_tokens-nil : find_tokens [] ≡ []
unfolding find_tokens
find_tokens-nil = refl

whole :
    (t : Text) (ts : List Text) → find_tokens (t ++ []) ≡ ts ++ find_tokens [] → find_tokens t ≡ ts
whole t ts h =
    ap find_tokens (sym (append-nil t)) ∙ h ∙ ap (λ r. ts ++ r) find_tokens-nil ∙ append-nil ts

pub find_tokens-to_text :
    (n : ExpressionNode) → Canonical n → find_tokens (to_text n) ≡ node_tokens n
unfolding to_text wrap_tokens node_tokens Canonical
find_tokens-to_text (license i e) k =
    whole (license_text i e) (leaf_tokens i e) (find_tokens-leaf i e [] k.0 k.2 refl)
find_tokens-to_text (and_node ns) k =
    whole (joined and_word ns) (tokens_by and_word ns)
      (find_tokens-joined and_word ns [] and_Joins k.1 refl)
find_tokens-to_text (or_node ns) k =
    whole (joined or_word ns) (tokens_by or_word ns)
      (find_tokens-joined or_word ns [] or_Joins k.1 refl)
