-- ===== src/Reconcile/Retention/Metadata.antt =====
-- application/risk_reconcile/retention.py: `sanitize_metadata`.
use ip_risk_agent_v.Base.{
  ℕ, zero, suc, ◌+◌, ◌/◌, ltb, leb, Bool, ◌||◌, if◌then◌else◌, List, [], ◌∷◌, length, take, Text,
  codes, strip, text_leb, sorted, Dict, set_item, Outcome, ok, ◌>>=◌, ◌>>◌, raise_if, Error,
  retention,
}
use ip_risk_agent_v.Risk.Metadata.{Json, JsonList, JsonMap, from_entries}
use ip_risk_agent_v.Identity.Json.{write_string}
use ip_risk_agent_v.Security.Minimization.{byte_size}
use ip_risk_agent_v.Reconcile.{Library}
use ip_risk_agent_v.Reconcile.Retention.{EvidenceRetentionPolicy, is_blank}

abbrev pub redaction_placeholder : Text
redaction_placeholder = codes "[REDACTED_SECRET]"

-- `len(value)`
unfoldable pub list_length : JsonList → ℕ
list_length JsonList.nil = 0
list_length (JsonList.cons v vs) = list_length vs + 1

unfoldable pub map_length : JsonMap → ℕ
map_length JsonMap.empty = 0
map_length (JsonMap.entry k v m) = map_length m + 1

-- An entry whose value was sanitized, or refused.
abbrev Entry : Type 0
Entry = Text × Outcome Error Json

abbrev by_key : Entry → Entry → Bool
by_key a b = text_leb a.0 b.0

module _ (lib : Library) (policy : EvidenceRetentionPolicy) where
  -- The loop over the keys in their order.
  unfoldable pub collect : List Entry → Dict Json → Outcome Error (Dict Json)
  collect [] output = ok output
  collect ((key, value) ∷ rest) output = do
    let safe_key = strip key
    raise_if (is_blank safe_key || ltb policy.max_metadata_chars (length safe_key))
        (retention "evidence metadata key is invalid")
    kept ← if lib.is_sensitive safe_key then ok (Json.text redaction_placeholder) else value
    collect rest (set_item safe_key kept output)

  unfoldable mutual
    unfolding collect list_length map_length

    pub sanitize_value : ℕ → Json → Outcome Error Json
    sanitize_value depth (Json.text s) =
        ok (Json.text (take policy.max_metadata_chars (lib.redact s)))
    sanitize_value depth (Json.mapping m) = do
      raise_if (leb policy.max_metadata_depth depth)
          (retention "evidence metadata exceeds nesting limit")
      raise_if (ltb policy.max_metadata_items (map_length m))
          (retention "evidence metadata has too many keys")
      output ← collect (sorted by_key (sanitize_entries depth m)) []
      ok (Json.mapping (from_entries output))
    sanitize_value depth (Json.items vs) = do
      raise_if (leb policy.max_metadata_depth depth)
          (retention "evidence metadata exceeds nesting limit")
      raise_if (ltb policy.max_metadata_items (list_length vs))
          (retention "evidence metadata list is too large")
      kept ← sanitize_items depth vs
      ok (Json.items kept)
    sanitize_value depth Json.null = ok Json.null
    sanitize_value depth (Json.flag b) = ok (Json.flag b)
    sanitize_value depth (Json.whole n) = ok (Json.whole n)
    sanitize_value depth (Json.negative n) = ok (Json.negative n)
    sanitize_value depth (Json.float s) = ok (Json.float s)

    sanitize_items : ℕ → JsonList → Outcome Error JsonList
    sanitize_items depth JsonList.nil = ok JsonList.nil
    sanitize_items depth (JsonList.cons v vs) = do
      w ← sanitize_value (depth + 1) v
      ws ← sanitize_items depth vs
      ok (JsonList.cons w ws)

    sanitize_entries : ℕ → JsonMap → List Entry
    sanitize_entries depth JsonMap.empty = []
    sanitize_entries depth (JsonMap.entry k v m) =
        (k, sanitize_value (depth + 1) v) ∷ sanitize_entries depth m

-- The digits of a number in decimal, on as much fuel as the number.
unfoldable pub digits : ℕ → ℕ → ℕ
digits zero n = 1
digits (suc fuel) n = let rest = digits fuel (n / 10) in if ltb n 10 then 1 else rest + 1

-- `json.dumps(s, ensure_ascii=False).encode("utf-8")`, measured.
abbrev pub string_bytes : Text → ℕ
string_bytes s = byte_size (write_string s []) + 1

-- `len(json.dumps(value, ensure_ascii=False, separators=(",", ":")).encode("utf-8"))`: the order of
-- keys does not count.
unfoldable mutual
  unfolding digits

  pub json_bytes : Json → ℕ
  json_bytes Json.null = 4
  json_bytes (Json.flag b) = if b then 4 else 5
  json_bytes (Json.whole n) = digits n n
  json_bytes (Json.negative n) = digits (n + 1) (n + 1) + 1
  json_bytes (Json.float s) = byte_size s
  json_bytes (Json.text s) = string_bytes s
  json_bytes (Json.items vs) = items_bytes vs
  json_bytes (Json.mapping m) = entries_bytes m

  -- The brackets, or a comma for each element but the last and both brackets.
  pub items_bytes : JsonList → ℕ
  items_bytes JsonList.nil = 2
  items_bytes (JsonList.cons v JsonList.nil) = json_bytes v + 2
  items_bytes (JsonList.cons v (JsonList.cons w ws)) =
      json_bytes v + 1 + items_bytes (JsonList.cons w ws)

  pub entries_bytes : JsonMap → ℕ
  entries_bytes JsonMap.empty = 2
  entries_bytes (JsonMap.entry k v JsonMap.empty) = string_bytes k + 1 + json_bytes v + 2
  entries_bytes (JsonMap.entry k v (JsonMap.entry j w m)) =
      string_bytes k + 1 + json_bytes v + 1 + entries_bytes (JsonMap.entry j w m)

module _ (lib : Library) (policy : EvidenceRetentionPolicy) where
  abbrev as_mapping : Json → JsonMap
  as_mapping (Json.mapping m) = m
  as_mapping v = JsonMap.empty

  unfoldable pub sanitize_metadata : JsonMap → Outcome Error JsonMap
  unfolding sanitize_value json_bytes
  sanitize_metadata value = do
    sanitized ← sanitize_value lib policy 0 (Json.mapping value)
    raise_if (ltb policy.max_metadata_json_bytes (json_bytes sanitized))
        (retention "evidence metadata exceeds retention limit")
    ok (as_mapping sanitized)
