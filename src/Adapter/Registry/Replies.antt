-- ===== src/Adapter/Registry/Replies.antt =====
-- The replies that src/ai_ha/ha_adapter/topology_fetcher.py waits for.
use ai_home_assistant.Prelude.{
  ℕ, some, true, false, List, [], ◌∷◌, ◌++◌, ◌≡◌, refl, All, nat_eq, string_eq, option_eq,
}
use ai_home_assistant.Topology.Payload.{Item}
use ai_home_assistant.Adapter.Registry.{Frame, fetched, is_reply, request, request_all, fetch_once}

abbrev pub reply : ℕ → List Item → Frame
reply rid items = record {
  id = some rid;
  type = some "result";
  success = true;
  result = some items;
}

-- None of the messages answers the request.
abbrev pub Unrelated : ℕ → List Frame → Type 0
Unrelated rid = All (λ m. is_reply rid m ≡ false)

request-reply :
    (rid : ℕ) (items : List Item) (others later : List Frame)
    → is_reply rid (reply rid items) ≡ true
    → Unrelated rid others
    → request rid (others ++ reply rid items ∷ later) ≡ fetched (items, later)
unfolding request
request-reply rid items [] later is u = rw is refl
request-reply rid items (m ∷ ms) later is u = rw u.0 (request-reply rid items ms later is u.1)

-- Whatever other messages come in between, the three lists are the results with the ids 1, 2 and 3,
-- if they come in this order after a message that accepts the token.
pub fetch_once-replies :
    (hello ack : Frame) (areas devices entities : List Item) (as1 as2 as3 later : List Frame)
    → ack.type ≡ some "auth_ok"
    → Unrelated 1 as1
    → Unrelated 2 as2
    → Unrelated 3 as3
    → fetch_once (
        hello
        ∷ ack
        ∷ (as1 ++ reply 1 areas ∷ (as2 ++ reply 2 devices ∷ (as3 ++ reply 3 entities ∷ later))))
      ≡ fetched (record { areas = areas; devices = devices; entities = entities })
unfolding fetch_once request_all
fetch_once-replies hello ack areas devices entities as1 as2 as3 later ok u v w =
    let rest3 = as3 ++ reply 3 entities ∷ later in
    let rest2 = as2 ++ reply 2 devices ∷ rest3 in
    rw
      (
        ok,
        request-reply 1 areas as1 rest2 refl u,
        request-reply 2 devices as2 rest3 refl v,
        request-reply 3 entities as3 later refl w,
      )
      refl
