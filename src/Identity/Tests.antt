-- ===== src/Identity/Tests.antt =====
-- Runs of the keys, and the property at concrete components.
use ip_risk_agent_v.Base.{
  ◌≡◌, ◌⊎◌, refl, [], ◌∷◌, codes, ok, raised, empty_field, require_non_empty, strip, strip_of,
  lstrip, rstrip,
}
use ip_risk_agent_v.Workspaces.LicenseProfile.{Sha256}
use ip_risk_agent_v.Identity.Json.{dumps, write_strings, write_string, write_char}
use ip_risk_agent_v.Identity.{components, stable_key}
use ip_risk_agent_v.Identity.Distinct.{Collision, stable_key_distinct}

abbrev zeros : Sha256
zeros = record { hexdigest = λ _. codes "00"; hexdigest_digits = λ _. (refl, (refl, tt)) }

quotes_escaped : dumps (codes "a\"b" ∷ codes "\n" ∷ []) ≡ codes "[\"a\\\"b\",\"\\n\"]"
unfolding dumps write_strings write_string write_char
quotes_escaped = refl

key_of_risk : stable_key zeros (codes "risk") (codes " k " ∷ []) ≡ ok (codes "risk:v1:00")
unfolding stable_key components require_non_empty strip strip_of lstrip rstrip
key_of_risk = refl

empty_component :
    stable_key zeros (codes "risk") (codes " " ∷ []) ≡ raised (empty_field "identity component")
unfolding stable_key components require_non_empty strip strip_of lstrip rstrip
empty_component = refl

other_key_of_risk : stable_key zeros (codes "risk") (codes "j" ∷ []) ≡ ok (codes "risk:v1:00")
unfolding stable_key components require_non_empty strip strip_of lstrip rstrip
other_key_of_risk = refl

stable_key_distinct_example :
    (components (codes " k " ∷ []) ≡ components (codes "j" ∷ [])) ⊎ Collision zeros
stable_key_distinct_example =
    stable_key_distinct zeros (codes "risk") (codes " k " ∷ []) (codes "j" ∷ [])
      (codes "risk:v1:00") key_of_risk other_key_of_risk
