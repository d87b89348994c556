-- ===== src/Identity/Json.antt =====
-- `json.dumps(strings, ensure_ascii=False, separators=(",", ":"))` of the standard library, for a
-- list of strings: what `stable_key` digests. No two lists are written alike.
use ip_risk_agent_v.Base.{
  ℕ, ◌==◌, ltb, ◌/◌, ◌%◌, ◌+◌, ◌≡◌, refl, sym, arith, if◌then◌else◌, List, [], ◌∷◌, Text,
}

abbrev hex_digit : ℕ → ℕ
hex_digit d = if ltb d 10 then d + 48 else d + 87

-- A character before a text.
unfoldable pub write_char : ℕ → Text → Text
write_char c rest =
    if c == b'"'
    then 92 ∷ b'"' ∷ rest
    else if c == 92
    then 92 ∷ 92 ∷ rest
    else if c == 10
    then 92 ∷ b'n' ∷ rest
    else if c == 13
    then 92 ∷ b'r' ∷ rest
    else if c == 9
    then 92 ∷ b't' ∷ rest
    else if c == 8
    then 92 ∷ b'b' ∷ rest
    else if c == 12
    then 92 ∷ b'f' ∷ rest
    else if ltb c 32
    then 92 ∷ b'u' ∷ b'0' ∷ b'0' ∷ hex_digit (c / 16) ∷ hex_digit (c % 16) ∷ rest
    else c ∷ rest

-- A string, its closing quote and a text.
unfoldable pub write_string : Text → Text → Text
write_string [] rest = b'"' ∷ rest
write_string (c ∷ s) rest = write_char c (write_string s rest)

unfoldable pub write_strings : List Text → Text
write_strings [] = b']' ∷ []
write_strings (s ∷ ss) = b',' ∷ b'"' ∷ write_string s (write_strings ss)

unfoldable pub dumps : List Text → Text
dumps [] = b'[' ∷ b']' ∷ []
dumps (s ∷ ss) = b'[' ∷ b'"' ∷ write_string s (write_strings ss)

write_char-inj : (c d : ℕ) (s t : Text) → write_char c s ≡ write_char d t → (c ≡ d) × (s ≡ t)
unfolding write_char
write_char-inj c d s t h = ground (arith, h)

write_char-ne-quote : (c : ℕ) (s t : Text) → write_char c s ≡ b'"' ∷ t → ⊥
unfolding write_char
write_char-ne-quote c s t h = ground (arith, h)

write_string-inj : (s t r u : Text) → write_string s r ≡ write_string t u → (s ≡ t) × (r ≡ u)
unfolding write_string
write_string-inj [] [] r u h = ground (arith, h)
write_string-inj [] (d ∷ t) r u h = absurd (write_char-ne-quote d (write_string t u) r (sym h))
write_string-inj (c ∷ s) [] r u h = absurd (write_char-ne-quote c (write_string s r) u h)
write_string-inj (c ∷ s) (d ∷ t) r u h =
    let (e, k) = write_char-inj c d (write_string s r) (write_string t u) h in
    let (p, q) = write_string-inj s t r u k in (ground (arith, e, p), q)

write_strings-inj : (ss ts : List Text) → write_strings ss ≡ write_strings ts → ss ≡ ts
unfolding write_strings
write_strings-inj [] [] h = refl
write_strings-inj [] (t ∷ ts) h = absurd (ground (arith, h))
write_strings-inj (s ∷ ss) [] h = absurd (ground (arith, h))
write_strings-inj (s ∷ ss) (t ∷ ts) h =
    let k : write_string s (write_strings ss) ≡ write_string t (write_strings ts) =
      ground (arith, h) in
    let (e, q) = write_string-inj s t (write_strings ss) (write_strings ts) k in
    ground (arith, e, write_strings-inj ss ts q)

pub dumps-inj : (ss ts : List Text) → dumps ss ≡ dumps ts → ss ≡ ts
unfolding dumps
dumps-inj [] [] h = refl
dumps-inj [] (t ∷ ts) h = absurd (ground (arith, h))
dumps-inj (s ∷ ss) [] h = absurd (ground (arith, h))
dumps-inj (s ∷ ss) (t ∷ ts) h =
    let k : write_string s (write_strings ss) ≡ write_string t (write_strings ts) =
      ground (arith, h) in
    let (e, q) = write_string-inj s t (write_strings ss) (write_strings ts) k in
    ground (arith, e, write_strings-inj ss ts q)
