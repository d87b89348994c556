-- ===== src/Repositories/Pairs.antt =====
-- A dict whose keys are pairs, as the indexes of application/repositories/in_memory.py are.
use ip_risk_agent_v.Base.{
  Bool, not, ◌&&◌, if◌then◌else◌, Option, none, some, [], ◌∷◌, Text, text_eq, keep,
}
use ip_risk_agent_v.Repositories.{PairDict}

abbrev pub same_pair : Text × Text → Text × Text → Bool
same_pair (a, b) (c, d) = text_eq a c && text_eq b d

unfoldable pub get_pair : PairDict Text → Text × Text → Option Text
get_pair [] key = none
get_pair ((k, v) ∷ d) key = if same_pair k key then some v else get_pair d key

unfoldable pub set_pair : Text × Text → Text → PairDict Text → PairDict Text
set_pair key value [] = (key, value) ∷ []
set_pair key value ((k, v) ∷ d) =
    if same_pair k key then (k, value) ∷ d else (k, v) ∷ set_pair key value d

-- `d.pop(key, None)`
abbrev pub drop_pair : Text × Text → PairDict Text → PairDict Text
drop_pair key d = keep (λ item. not (same_pair item.0 key)) d
