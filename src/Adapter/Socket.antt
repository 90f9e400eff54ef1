-- ===== src/Adapter/Socket.antt =====
-- `HAWSClient` of src/ai_ha/ha_adapter/ws_client.py. What the server and the network do to one
-- connection stands in a `Connection`, and to one round of `run` in a `Round`. Times are
-- milliseconds.
pub mod Reconnect
pub mod Deadline
use ai_home_assistant.Prelude.{
  ℕ, ◌+◌, ◌*◌, String, Option, none, some, Bool, true, false, not, List, [], ◌∷◌, ◌++◌,
  if◌then◌else◌, ltb, min, ◌==◌, string_eq, option_eq, keep, ◌≡◌, ap,
}

-- The type of a message, if it has one, and its text.
abbrev pub Message : Type 0
Message = Option String × String

pub data Ending : Type 0 where
  stop_requested connection_lost : Ending

-- `hello` and `ack` are the types of the first two messages, `none` if the connection fails before.
pub record Connection : Type 0 where
  pub hello : Option (Option String)
  pub ack : Option (Option String)
  pub messages : List Message
  pub ending : Ending

-- `stopping` is the event `_stop`; `sent` holds the subscriptions and `handled` the messages given to `on_event`, in their order.
pub record HaWsClient : Type 0 where
  pub next_id : ℕ
  pub disconnect_count : ℕ
  pub last_error_kind : Option String
  pub connected : Bool
  pub stopping : Bool
  pub sent : List (ℕ × String)
  pub handled : List Message

unfoldable pub stop : HaWsClient → HaWsClient
stop c = record c { stopping = true }

-- How `_connect_and_loop` ends.
pub data Closed : Type 0 where
  returned auth_invalid failed : Closed

-- The first id is `next_id`; the counter grows before each of the other three.
unfoldable pub subscriptions : ℕ → List (ℕ × String)
subscriptions n =
    (n, "state_changed")
    ∷ (n + 2, "area_registry_updated")
    ∷ (n + 3, "device_registry_updated")
    ∷ (n + 4, "entity_registry_updated")
    ∷ []

-- An error of `on_event` is logged and the loop goes on.
unfoldable pub event_loop : Connection → HaWsClient → Closed × HaWsClient
unfolding subscriptions
event_loop k c = (
  elim k.ending [ stop_requested ↦ returned | connection_lost ↦ failed ],
  record c {
    next_id = c.next_id + 4;
    connected = true;
    stopping = elim k.ending [ stop_requested ↦ true | connection_lost ↦ c.stopping ];
    sent = c.sent ++ subscriptions c.next_id;
    handled = c.handled ++ keep (λ m. m.0 == some "event") k.messages;
  },
)

abbrev after_ack : Option (Option String) → Connection → HaWsClient → Closed × HaWsClient
after_ack none k c = (failed, c)
after_ack (some type) k c =
    if type == some "auth_invalid"
    then (auth_invalid, c)
    else if type == some "auth_ok"
    then event_loop k c
    else (failed, c)

abbrev after_hello : Option (Option String) → Connection → HaWsClient → Closed × HaWsClient
after_hello none k c = (failed, c)
after_hello (some type) k c =
    if type == some "auth_required" then after_ack k.ack k c else (failed, c)

unfoldable pub connect_and_loop : Connection → HaWsClient → Closed × HaWsClient
unfolding event_loop
connect_and_loop k c = after_hello k.hello k c

-- `elapsed` is the time since the start of `run`; `stop_in_wait` says that a stop ends the wait.
pub record Round : Type 0 where
  pub elapsed : ℕ
  pub connection : Connection
  pub stop_in_wait : Bool

abbrev expired : Option ℕ → ℕ → Bool
expired none elapsed = false
expired (some max) elapsed = ltb max elapsed

unfoldable pub disconnected : HaWsClient → HaWsClient
disconnected c = record c {
  last_error_kind = some "ws-disconnected";
  connected = false;
  disconnect_count = c.disconnect_count + 1;
}

-- The waits of `run` come with the client: the backoff of each. A connection returns only when a
-- stop is requested, so that the wait after it ends at once.
module _ (max_reconnect : Option ℕ) (initial_backoff max_backoff : ℕ) where
  abbrev pub after_closed :
      Closed × HaWsClient → Bool → ℕ → (HaWsClient → HaWsClient × List ℕ) → HaWsClient × List ℕ
  after_closed (returned, c) stop_in_wait backoff again = (c, initial_backoff ∷ [])
  after_closed (auth_invalid, c) stop_in_wait backoff again =
      (record c { last_error_kind = some "auth-invalid" }, [])
  after_closed (failed, c) true backoff again = (stop (disconnected c), backoff ∷ [])
  after_closed (failed, c) false backoff again =
      let (c', waits) = again (disconnected c) in (c', backoff ∷ waits)

  -- The loop of `run`, for the rounds that are given: a stop ends it in a connection or in a wait.
  unfoldable pub run_loop : List Round → ℕ → HaWsClient → HaWsClient × List ℕ
  unfolding connect_and_loop disconnected
  run_loop [] backoff c = (c, [])
  run_loop (r ∷ rs) backoff c =
      let again = run_loop rs (min max_backoff (backoff * 2)) in
      if expired max_reconnect r.elapsed
      then (c, [])
      else after_closed (connect_and_loop r.connection c) r.stop_in_wait backoff again

  unfoldable pub run : List Round → HaWsClient → HaWsClient × List ℕ
  unfolding run_loop
  run rs c = if c.stopping then (c, []) else run_loop rs initial_backoff c

  pub run_going :
      (rs : List Round) (c : HaWsClient)
      → c.stopping ≡ false
      → run rs c ≡ run_loop rs initial_backoff c
  unfolding run
  run_going rs c going = ap (λ b. if b then (c, []) else run_loop rs initial_backoff c) going

  -- A client that was stopped makes no connection.
  pub run_stopped : (rs : List Round) (c : HaWsClient) → c.stopping ≡ true → run rs c ≡ (c, [])
  unfolding run
  run_stopped rs c stopped = ap (λ b. if b then (c, []) else run_loop rs initial_backoff c) stopped
