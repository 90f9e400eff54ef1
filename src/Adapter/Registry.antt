-- ===== src/Adapter/Registry.antt =====
-- `TopologyFetcher` of src/ai_ha/ha_adapter/topology_fetcher.py. What the server sends stands in a
-- list; past its end the connection is closed, which raises. The requests sent are left out: their
-- ids are 1, 2 and 3.
pub mod Replies
use ai_home_assistant.Prelude.{
  ℕ, String, Option, none, some, Bool, true, false, List, [], ◌∷◌, if◌then◌else◌, ◌&&◌, ◌==◌,
  nat_eq, string_eq, option_eq,
}
use ai_home_assistant.Topology.Payload.{Item, TopologyPayload}

-- The keys of a message that the code reads; `success` is the truth value of that key.
pub record Frame : Type 0 where
  pub id : Option ℕ
  pub type : Option String
  pub success : Bool
  pub result : Option (List Item)

pub data Fetch {ℓ} (A : Type ℓ) : Type ℓ where
  fetched : A → Fetch A
  connection_closed auth_failed request_failed : Fetch A

abbrev pub items_of : Option (List Item) → List Item
items_of none = []
items_of (some items) = items

abbrev pub is_reply : ℕ → Frame → Bool
is_reply rid m = m.id == some rid && m.type == some "result"

-- `_request`: its list, and the messages that are left.
unfoldable pub request : ℕ → List Frame → Fetch (List Item × List Frame)
request rid [] = connection_closed
request rid (m ∷ ms) =
    let later = request rid ms in
    if is_reply rid m
    then (if m.success then fetched (items_of m.result, ms) else request_failed)
    else later

abbrev pub and_then : {A B : Type 0} → Fetch A → (A → Fetch B) → Fetch B
and_then (fetched a) k = k a
and_then connection_closed k = connection_closed
and_then auth_failed k = auth_failed
and_then request_failed k = request_failed

unfoldable pub request_all : List Frame → Fetch TopologyPayload
request_all ms = and_then (request 1 ms) (λ areas. and_then (request 2 areas.1) (λ devices.
    and_then (request 3 devices.1) (λ entities.
      fetched (record { areas = areas.0; devices = devices.0; entities = entities.0 }))))

-- The first message is not looked at; the second must accept the token.
unfoldable pub fetch_once : List Frame → Fetch TopologyPayload
unfolding request_all
fetch_once [] = connection_closed
fetch_once (hello ∷ []) = connection_closed
fetch_once (hello ∷ ack ∷ ms) = if ack.type == some "auth_ok" then request_all ms else auth_failed
