-- ===== src/Web/Stream.antt =====
-- `EventBroadcaster` of src/ai_ha/web/routes/stream.py. A subscriber is a key of `queues`; the
-- event type is a parameter.
pub mod Latest
use ai_home_assistant.Prelude.{
  ℕ, zero, suc, Option, none, some, Bool, false, not, List, [], ◌∷◌, ◌++◌, if◌then◌else◌, leb,
  length, drop, map, keep, ◌==◌, nat_eq,
}
use ai_home_assistant.Prelude.Dict.{Dict, put, modify}

module _ {E : Type 0} where
  -- `asyncio.Queue.full`: a queue of size 0 has no bound.
  unfoldable pub full : ℕ → List E → Bool
  full zero q = false
  full (suc n) q = leb (suc n) (length q)

  -- A full queue loses its oldest event, and the new one goes to the end.
  unfoldable pub offer : ℕ → E → List E → List E
  unfolding full
  offer size event q = (if full size q then drop 1 q else q) ++ event ∷ []

  unfoldable pub publish : ℕ → E → Dict ℕ (List E) → Dict ℕ (List E)
  unfolding offer
  publish size event queues = map (λ e. (e.0, offer size event e.1)) queues

  -- One call of `publish` for each event.
  unfoldable pub publish_all : ℕ → List E → Dict ℕ (List E) → Dict ℕ (List E)
  unfolding publish
  publish_all size [] queues = queues
  publish_all size (event ∷ events) queues = publish_all size events (publish size event queues)

  -- The start of `subscribe`.
  unfoldable pub subscribe : ℕ → Dict ℕ (List E) → Dict ℕ (List E)
  subscribe client queues = put client [] queues

  -- What the subscriber's `get` leaves: it takes the oldest event.
  unfoldable pub receive : ℕ → Dict ℕ (List E) → Dict ℕ (List E)
  receive client queues = modify client (drop 1) queues

  -- The end of `subscribe`.
  unfoldable pub unsubscribe : ℕ → Dict ℕ (List E) → Dict ℕ (List E)
  unsubscribe client queues = keep (λ e. not (e.0 == client)) queues
