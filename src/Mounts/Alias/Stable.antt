-- ===== src/Mounts/Alias/Stable.antt =====
-- Which aliases are kept when they are normalized again: core/mounts/models.py.
use ip_risk_agent_v.Base.{
  ◌≡◌, ◌≢◌, ◌↔◌, refl, sym, ◌∙◌, arith, ℕ, ◌==◌, Bool, false, any, [], ◌∷◌, Text, lstrip, rstrip,
  strip_of, strip, strip_of-absent, is_space, push_unless_blank, require_non_empty,
  require_non_empty-strip, text_eq_iff, codes, All, ap, IsNormal, ok,
}
use ip_risk_agent_v.Mounts.Alias.{
  is_slash, is_backslash, is_empty, is_dots, check_segment, normalize_mount_alias,
}

-- Stripping adds nothing.
any-lstrip : (p q : ℕ → Bool) (s : Text) → any q s ≡ false → any q (lstrip p s) ≡ false
unfolding lstrip
any-lstrip p q [] h = refl
any-lstrip p q (c ∷ s) h = ground (arith, h, any-lstrip p q s)

any-rstrip : (p q : ℕ → Bool) (s : Text) → any q s ≡ false → any q (rstrip p s) ≡ false
unfolding rstrip
any-rstrip p q [] h = refl
any-rstrip p q (c ∷ s) h =
    push (rstrip p s) (ground (arith, h)) (any-rstrip p q s (ground (arith, h)))
  where
    push : (r : Text) → q c ≡ false → any q r ≡ false → any q (push_unless_blank p c r) ≡ false
    push [] k e = ground (arith, k)
    push (d ∷ r) k e = ground (arith, k, e)

check_segment-ok :
    (s t : Text)
    → check_segment s ≡ ok t
    → (s ≡ t) × (any is_slash t ≡ false) × (check_segment t ≡ ok t)
unfolding check_segment
check_segment-ok s t h = ground arith

-- What a call of `normalize_mount_alias` that succeeds went through.
normalize_mount_alias-ok :
    (s t : Text)
    → normalize_mount_alias s ≡ ok t
    → (v : Text) × (require_non_empty s "workspace_mount.alias" ≡ ok v)
      × (check_segment (strip_of is_slash v) ≡ ok t)
unfolding normalize_mount_alias
normalize_mount_alias-ok s t h = ground arith

any-strip : (q : ℕ → Bool) (s : Text) → any q s ≡ false → any q (strip s) ≡ false
unfolding strip strip_of
any-strip q s h = any-rstrip is_space q (lstrip is_space s) (any-lstrip is_space q s h)

IsNormal-again :
    (t : Text)
    → any is_slash t ≡ false
    → check_segment t ≡ ok t
    → IsNormal t "workspace_mount.alias"
    → normalize_mount_alias t ≡ ok t
unfolding normalize_mount_alias
IsNormal-again t a c n = rw (n, strip_of-absent is_slash t a) c

again-IsNormal :
    (t : Text)
    → any is_slash t ≡ false
    → normalize_mount_alias t ≡ ok t
    → IsNormal t "workspace_mount.alias"
again-IsNormal t a k =
    let (v, r, c) = normalize_mount_alias-ok t t k in
    let e : v ≡ strip t = require_non_empty-strip t "workspace_mount.alias" r in
    let no_slash : any is_slash v ≡ false = rw e (any-strip is_slash t a) in
    let (q, _, _) = check_segment-ok (strip_of is_slash v) t c in
    r ∙ ap ok (sym (strip_of-absent is_slash v no_slash) ∙ q)

-- An alias that was normalized is normalized again to itself exactly when there is nothing to strip
-- from its ends. The constructor of a mount normalizes its alias each time the mount is replaced.
pub normalize_mount_alias_again_iff :
    (s t : Text)
    → normalize_mount_alias s ≡ ok t
    → (normalize_mount_alias t ≡ ok t) ↔ IsNormal t "workspace_mount.alias"
normalize_mount_alias_again_iff s t h =
    let (v, r, c) = normalize_mount_alias-ok s t h in
    let (q, a, k) = check_segment-ok (strip_of is_slash v) t c in
    (again-IsNormal t a, IsNormal-again t a k)

-- An alias of one path segment.
pub record IsSegment (t : Text) : Type 0 where
  pub no_slash : All (λ c. c ≢ 47) t
  pub no_backslash : All (λ c. c ≢ 92) t
  pub not_empty : t ≢ []
  pub not_dot : t ≢ codes "."
  pub not_dots : t ≢ codes ".."

absent-All : (n : ℕ) (s : Text) → any (λ c. c == n) s ≡ false → All (λ c. c ≢ n) s
absent-All n [] h = tt
absent-All n (c ∷ s) h = (λ e. ground (arith, h, e), absent-All n s (ground (arith, h)))

check_segment-tests :
    (s t : Text)
    → check_segment s ≡ ok t
    → (is_empty t ≡ false)
      × (any is_backslash t ≡ false)
      × (any is_slash t ≡ false)
      × (is_dots t ≡ false)
unfolding check_segment
check_segment-tests s t h = ground arith

-- What `normalize_mount_alias` returns is one path segment: it is not empty, has no slash and no
-- backslash in it, and is neither "." nor "..".
pub normalize_mount_alias-IsSegment : (s t : Text) → normalize_mount_alias s ≡ ok t → IsSegment t
unfolding is_dots
normalize_mount_alias-IsSegment s t h =
    let (v, r, c) = normalize_mount_alias-ok s t h in
    let (e, b, a, d) = check_segment-tests (strip_of is_slash v) t c in
    record {
      no_slash = absent-All 47 t a;
      no_backslash = absent-All 92 t b;
      not_empty = λ k. ground (arith, k, e);
      not_dot = λ k. ground (arith, d, k, text_eq_iff t (codes "."));
      not_dots = λ k. ground (arith, d, k, text_eq_iff t (codes ".."));
    }
