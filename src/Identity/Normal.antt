-- ===== src/Identity/Normal.antt =====
-- A key is a normal text: core/common.py.
use ip_risk_agent_v.Base.{
  ◌≡◌, refl, sym, ◌∙◌, subst, arith, ℕ, Bool, true, false, ◌||◌, any, List, [], ◌∷◌, ◌++◌, All,
  Text, String, codes, is_space, strip, strip_of-absent, require_non_empty-strip, IsNormal,
  unspaced-IsNormal, ok,
}
use ip_risk_agent_v.Workspaces.LicenseProfile.{Sha256, is_hex}
use ip_risk_agent_v.Identity.{key_of, stable_key}
use ip_risk_agent_v.Identity.Json.{dumps}
use ip_risk_agent_v.Identity.Distinct.{stable_key-parts}

any-append : (p : ℕ → Bool) (s t : Text) → any p (s ++ t) ≡ any p s || any p t
any-append p [] t = refl
any-append p (c ∷ s) t = ground (arith, any-append p s t)

hex-unspaced : (s : Text) → All (λ c. is_hex c ≡ true) s → any is_space s ≡ false
unfolding is_space
hex-unspaced [] h = refl
hex-unspaced (c ∷ s) h = ground (arith, h, hex-unspaced s h.1)

colons : (s : Text) → any is_space (codes ":v1:" ++ s) ≡ any is_space s
unfolding is_space
colons s = refl

key_of-unspaced :
    (sha : Sha256) (namespace : Text) (parts : List Text)
    → any is_space namespace ≡ false
    → any is_space (key_of sha namespace parts) ≡ false
key_of-unspaced sha namespace parts h =
    let text = dumps (codes "v1" ∷ namespace ∷ parts) in
    let digits = sha.hexdigest text in
    any-append is_space namespace (codes ":v1:" ++ digits)
    ∙ ground (arith, h, colons digits, hex-unspaced digits (sha.hexdigest_digits text))

key_of-IsNormal :
    (sha : Sha256) (n : Text) (parts : List Text) (name : String)
    → any is_space (key_of sha n parts) ≡ false
    → IsNormal (key_of sha n parts) name
key_of-IsNormal sha [] parts name h = unspaced-IsNormal b':' _ name h
key_of-IsNormal sha (c ∷ n) parts name h = unspaced-IsNormal c _ name h

strip-unspaced : (s : Text) → any is_space s ≡ false → strip s ≡ s
unfolding strip
strip-unspaced s h = strip_of-absent is_space s h

pub stable_key-IsNormal :
    (sha : Sha256) (namespace : Text) (parts : List Text) (k : Text) (name : String)
    → any is_space namespace ≡ false
    → stable_key sha namespace parts ≡ ok k
    → IsNormal k name
stable_key-IsNormal sha namespace parts k name a h =
    let (n, ps, e, _, q) = stable_key-parts sha namespace parts k h in
    let same : n ≡ namespace =
      require_non_empty-strip namespace "namespace" e ∙ strip-unspaced namespace a in
    subst (λ x. IsNormal x name) q
      (key_of-IsNormal sha n ps name
        (key_of-unspaced sha n ps (subst (λ x. any is_space x ≡ false) (sym same) a)))
