-- ===== src/Risk/Metadata.antt =====
-- JSON values, as analyzers attach them to evidence and as evidence is kept. An integer is given by its
-- sign and size, a float by how it is written.
use ip_risk_agent_v.Base.{ℕ, Bool, List, [], ◌∷◌, Text}

mutual
  pub data Json : Type 0 where
    null : Json
    flag : Bool → Json
    whole : ℕ → Json  -- n
    negative : ℕ → Json  -- -n - 1
    float : Text → Json
    text : Text → Json
    items : JsonList → Json
    mapping : JsonMap → Json

  pub data JsonList : Type 0 where
    nil : JsonList
    cons : Json → JsonList → JsonList

  pub data JsonMap : Type 0 where
    empty : JsonMap
    entry : Text → Json → JsonMap → JsonMap

-- `mapping.items()` and back.
unfoldable pub entries : JsonMap → List (Text × Json)
entries JsonMap.empty = []
entries (JsonMap.entry key value m) = (key, value) ∷ entries m

unfoldable pub from_entries : List (Text × Json) → JsonMap
from_entries [] = JsonMap.empty
from_entries ((key, value) ∷ d) = JsonMap.entry key value (from_entries d)
