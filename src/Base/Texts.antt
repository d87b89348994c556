-- ===== src/Base/Texts.antt =====
-- Python's `str` as a list of code points: equality, stripping, ASCII case, prefixes; and
-- `require_non_empty` of core/common.py.
use Prim.Native.Nat.{ℕ, ◌+◌, ◌-◌}
use Prim.Native.Char.{code}
use Prim.Native.String.{String}
use mathlib.Core.Path.{◌≡◌, refl, ap, subst}
use mathlib.Core.Logic.{◌↔◌, ◌⊎◌, inl, inr}
use mathlib.Core.Bool.{Bool, true, false, ◌&&◌, ◌||◌}
use mathlib.Core.Option.{Option, none, some}
use mathlib.Core.List.{List, [], ◌∷◌, ◌++◌, map}
use native.Mathlib.Omega.{arith}
use ip_risk_agent_v.Base.Tests.{leb, ◌==◌, if◌then◌else◌, Bool-cases}
use ip_risk_agent_v.Base.Outcomes.{Outcome, ok, raised, Outcome-cases}
use ip_risk_agent_v.Base.Errors.{Error, empty_field}
use ip_risk_agent_v.Base.Lists.{any}

abbrev pub Text : Type 0
Text = List ℕ

-- A literal.
abbrev pub codes : String → Text
codes String.[] = []
codes (String.◌∷◌ c s) = code c ∷ codes s

unfoldable pub text_eq : Text → Text → Bool
text_eq [] [] = true
text_eq (a ∷ s) (b ∷ t) = a == b && text_eq s t
text_eq _ _ = false

pub text_eq_refl : (s : Text) → text_eq s s ≡ true
unfolding text_eq
text_eq_refl [] = refl
text_eq_refl (a ∷ s) = ground (arith, text_eq_refl s)

pub eq_of_text_eq : (s t : Text) → text_eq s t ≡ true → s ≡ t
unfolding text_eq
eq_of_text_eq [] [] h = refl
eq_of_text_eq [] (b ∷ t) h = cc
eq_of_text_eq (a ∷ s) [] h = cc
eq_of_text_eq (a ∷ s) (b ∷ t) h = ground (arith, eq_of_text_eq s t)

pub text_eq_iff : (s t : Text) → (text_eq s t ≡ true) ↔ (s ≡ t)
text_eq_iff s t = (eq_of_text_eq s t, λ e. rw e (text_eq_refl t))

-- `a == b` on optional strings.
unfoldable pub same_text : Option Text → Option Text → Bool
same_text none none = true
same_text (some a) (some b) = text_eq a b
same_text _ _ = false

pub same_text_refl : (a : Option Text) → same_text a a ≡ true
unfolding same_text
same_text_refl none = refl
same_text_refl (some a) = text_eq_refl a

pub eq_of_same_text : (a b : Option Text) → same_text a b ≡ true → a ≡ b
unfolding same_text
eq_of_same_text none none h = refl
eq_of_same_text none (some b) h = cc
eq_of_same_text (some a) none h = cc
eq_of_same_text (some a) (some b) h = cc (eq_of_text_eq a b h)

pub same_text_iff : (a b : Option Text) → (same_text a b ≡ true) ↔ (a ≡ b)
same_text_iff a b = (eq_of_same_text a b, λ e. rw e (same_text_refl b))

-- The code points for which `str.isspace` holds.
unfoldable pub is_space : ℕ → Bool
is_space c =
    (leb 9 c && leb c 13)
    || (leb 28 c && leb c 32)
    || c == 133
    || c == 160
    || c == 5760
    || (leb 8192 c && leb c 8202)
    || c == 8232
    || c == 8233
    || c == 8239
    || c == 8287
    || c == 12288

-- `s.lstrip`, `s.rstrip` and `s.strip` of the characters for which `p` holds.
unfoldable pub lstrip : (ℕ → Bool) → Text → Text
lstrip p [] = []
lstrip p (c ∷ s) = if p c then lstrip p s else c ∷ s

abbrev pub push_unless_blank : (ℕ → Bool) → ℕ → Text → Text
push_unless_blank p c [] = if p c then [] else c ∷ []
push_unless_blank p c (d ∷ r) = c ∷ d ∷ r

unfoldable pub rstrip : (ℕ → Bool) → Text → Text
rstrip p [] = []
rstrip p (c ∷ s) = push_unless_blank p c (rstrip p s)

unfoldable pub strip_of : (ℕ → Bool) → Text → Text
unfolding lstrip rstrip
strip_of p s = rstrip p (lstrip p s)

unfoldable pub strip : Text → Text
unfolding strip_of is_space
strip s = strip_of is_space s

rstrip_idem : (p : ℕ → Bool) (s : Text) → rstrip p (rstrip p s) ≡ rstrip p s
unfolding rstrip
rstrip_idem p [] = refl
rstrip_idem p (c ∷ s) = push (rstrip p s) (rstrip_idem p s)
  where
    push :
        (r : Text) → rstrip p r ≡ r → rstrip p (push_unless_blank p c r) ≡ push_unless_blank p c r
    push [] e = elim (Bool-cases (p c)) [ inl h ↦ rw h | inr h ↦ rw h (rw h) ]
    push (d ∷ r) e = rw e

-- Left-stripping what starts with a kept character changes nothing, and right-stripping keeps it.
lstrip-rstrip_kept :
    (p : ℕ → Bool) (c : ℕ) (s : Text) → p c ≡ false → lstrip p (rstrip p (c ∷ s)) ≡ rstrip p (c ∷ s)
unfolding lstrip rstrip
lstrip-rstrip_kept p c s h = push (rstrip p s)
  where
    push : (r : Text) → lstrip p (push_unless_blank p c r) ≡ push_unless_blank p c r
    push [] = rw h (rw h)
    push (d ∷ r) = rw h

lstrip-rstrip-lstrip :
    (p : ℕ → Bool) (s : Text) → lstrip p (rstrip p (lstrip p s)) ≡ rstrip p (lstrip p s)
unfolding lstrip
lstrip-rstrip-lstrip p [] = unfold rstrip in refl
lstrip-rstrip-lstrip p (c ∷ s) = elim (Bool-cases (p c)) [
  | inl h ↦ rw h (lstrip-rstrip-lstrip p s)
  | inr h ↦ rw h (lstrip-rstrip_kept p c s h)
]

pub strip_of_idem : (p : ℕ → Bool) (s : Text) → strip_of p (strip_of p s) ≡ strip_of p s
unfolding strip_of
strip_of_idem p s = rw (lstrip-rstrip-lstrip p s) (rstrip_idem p (lstrip p s))

-- What is nowhere in a text is not stripped from it.
lstrip-absent : (p : ℕ → Bool) (s : Text) → any p s ≡ false → lstrip p s ≡ s
unfolding lstrip
lstrip-absent p [] h = refl
lstrip-absent p (c ∷ s) h = ground (arith, h)

rstrip-absent : (p : ℕ → Bool) (s : Text) → any p s ≡ false → rstrip p s ≡ s
unfolding rstrip
rstrip-absent p [] h = refl
rstrip-absent p (c ∷ s) h =
    let k : p c ≡ false = ground (arith, h) in
    let e : rstrip p s ≡ s = rstrip-absent p s (ground (arith, h)) in rw e (push_kept s k)
  where
    push_kept : (r : Text) → p c ≡ false → push_unless_blank p c r ≡ c ∷ r
    push_kept [] k = rw k refl
    push_kept (d ∷ r) k = refl

pub strip_of-absent : (p : ℕ → Bool) (s : Text) → any p s ≡ false → strip_of p s ≡ s
unfolding strip_of
strip_of-absent p s h = rw (lstrip-absent p s h) (rstrip-absent p s h)

pub strip_idem : (s : Text) → strip (strip s) ≡ strip s
unfolding strip
strip_idem s = strip_of_idem is_space s

-- `str.split` by one character.
abbrev onto_head : ℕ → List Text → List Text
onto_head c [] = (c ∷ []) ∷ []
onto_head c (p ∷ ps) = (c ∷ p) ∷ ps

unfoldable pub split : ℕ → Text → List Text
split sep [] = [] ∷ []
split sep (c ∷ s) = if c == sep then [] ∷ split sep s else onto_head c (split sep s)

-- Words kept as lines of blank-separated text.
abbrev pub words : List String → List Text
words [] = []
words (line ∷ lines) = split b' ' (codes line) ++ words lines

abbrev or_else {ℓ} : {A : Type ℓ} → Option A → Option A → Option A
or_else none b = b
or_else (some a) b = some a

-- A Python `dict` that is built item by item: the last item of a key counts.
unfoldable pub lookup {ℓ} : {A : Type ℓ} → List (Text × A) → Text → Option A
lookup [] key = none
lookup (item ∷ items) key =
    or_else (lookup items key) (if text_eq item.0 key then some item.1 else none)

-- `str.lower`, on ASCII letters.
unfoldable pub lower_char : ℕ → ℕ
lower_char c = if leb b'A' c && leb c b'Z' then c + 32 else c

unfoldable pub lower : Text → Text
unfolding lower_char
lower = map lower_char

-- `str.upper`, on ASCII letters.
unfoldable pub upper_char : ℕ → ℕ
upper_char c = if leb b'a' c && leb c b'z' then c - 32 else c

unfoldable pub upper : Text → Text
unfolding upper_char
upper = map upper_char

-- `require_non_empty`: the trimmed value, or an error that names the field.
abbrev non_empty_or : Text → String → Outcome Error Text
non_empty_or [] field_name = raised (empty_field field_name)
non_empty_or (c ∷ s) field_name = ok (c ∷ s)

unfoldable pub require_non_empty : Text → String → Outcome Error Text
unfolding strip
require_non_empty value field_name = non_empty_or (strip value) field_name

pub require_non_empty-strip :
    (s : Text) (name : String) {t : Text} → require_non_empty s name ≡ ok t → t ≡ strip s
unfolding require_non_empty
require_non_empty-strip s name {t} h = value (strip s) h
  where
    value : (r : Text) → non_empty_or r name ≡ ok t → t ≡ r
    value [] e = cc
    value (c ∷ r) e = cc

-- The value does not depend on the field.
pub require_non_empty_unique :
    (s : Text) (name name' : String) {t u : Text}
    → require_non_empty s name ≡ ok t
    → require_non_empty s name' ≡ ok u
    → t ≡ u
unfolding require_non_empty
require_non_empty_unique s name name' {t} {u} h k = same (strip s) h k
  where
    same : (r : Text) → non_empty_or r name ≡ ok t → non_empty_or r name' ≡ ok u → t ≡ u
    same [] e g = cc
    same (c ∷ r) e g = cc

-- The name of the field only stands in the error.
pub require_non_empty_renamed :
    (s : Text) (name name' : String) {t : Text}
    → require_non_empty s name ≡ ok t
    → require_non_empty s name' ≡ ok t
unfolding require_non_empty
require_non_empty_renamed s name name' {t} h = same (strip s) h
  where
    same : (r : Text) → non_empty_or r name ≡ ok t → non_empty_or r name' ≡ ok t
    same [] e = cc
    same (c ∷ r) e = cc

-- A normalised text: not empty, with nothing to strip. Such a text passes unchanged.
abbrev pub IsNormal : Text → String → Type 0
IsNormal s name = require_non_empty s name ≡ ok s

pub require_non_empty-IsNormal :
    (s : Text) (name name' : String) {t : Text} → require_non_empty s name ≡ ok t → IsNormal t name'
unfolding require_non_empty
require_non_empty-IsNormal s name name' {t} h = split (strip s) (strip_idem s) h
  where
    split :
        (r : Text) → strip r ≡ r → non_empty_or r name ≡ ok t → non_empty_or (strip t) name' ≡ ok t
    split [] e g = cc
    split (c ∷ r) e g =
        let p : c ∷ r ≡ t = cc in
        subst (λ x. non_empty_or (strip x) name' ≡ ok x) p (ap (λ x. non_empty_or x name') e)

-- The two ways a call ends.
pub require_non_empty-cases :
    (s : Text) (name : String)
    → ((t : Text) × (require_non_empty s name ≡ ok t) × IsNormal t name)
      ⊎ ((e : Error) × (require_non_empty s name ≡ raised e))
require_non_empty-cases s name = elim (Outcome-cases (require_non_empty s name)) [
  | inl (t, e) ↦ inl (t, e, require_non_empty-IsNormal s name name e)
  | inr (x, e) ↦ inr (x, e)
]

-- A text with no blank in it is normal.
pub unspaced-IsNormal :
    (c : ℕ) (s : Text) (name : String) → any is_space (c ∷ s) ≡ false → IsNormal (c ∷ s) name
unfolding require_non_empty
unspaced-IsNormal c s name h = rw (strip_of-absent is_space (c ∷ s) h) refl
