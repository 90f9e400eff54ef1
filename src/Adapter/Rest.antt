-- ===== src/Adapter/Rest.antt =====
-- `HAClient.fetch_states` of src/ai_ha/ha_adapter/client.py. The answers of the server stand in a
-- list, one for each request; past its end nothing answers. Waits are seconds, whole numbers here
-- because the source starts at 1.0 and doubles up to 60.0.
pub mod Backoff
use ai_home_assistant.Prelude.{
  ℕ, zero, suc, ◌+◌, ◌*◌, String, Bool, true, false, List, [], ◌∷◌, ◌||◌, if◌then◌else◌, min, ◌==◌,
  nat_eq,
}

-- `connect_error` is a ConnectError or a ReadTimeout, `other_error` any other error of the library.
pub data Attempt : Type 0 where
  connect_error other_error : Attempt
  response : ℕ → String → Attempt

pub data Fetched : Type 0 where
  states : String → Fetched
  ha_unreachable ha_auth_invalid http_status_error transport_error : Fetched

abbrev pub next_attempt : List Attempt → Attempt
next_attempt [] = connect_error
next_attempt (a ∷ rest) = a

abbrev pub later_attempts : List Attempt → List Attempt
later_attempts [] = []
later_attempts (a ∷ rest) = rest

-- `is_success` is the test of the library's `raise_for_status`.
module _ (is_success : ℕ → Bool) where
  unfoldable pub read_response : ℕ → String → Fetched
  read_response status body =
      if status == 401 || status == 403
      then ha_auth_invalid
      else if is_success status
      then states body
      else http_status_error

  -- What an attempt leads to: `last` says that no retry is left, and `rest` is what the retries
  -- lead to, with their waits.
  unfoldable pub after_attempt : Attempt → Bool → ℕ → Fetched × List ℕ → Fetched × List ℕ
  unfolding read_response
  after_attempt connect_error true delay rest = (ha_unreachable, [])
  after_attempt connect_error false delay rest = (rest.0, delay ∷ rest.1)
  after_attempt other_error last delay rest = (transport_error, [])
  after_attempt (response status body) last delay rest = (read_response status body, [])

  -- The loop `for attempt in range(retries)`, with the rounds that are left.
  unfoldable pub fetch_loop : ℕ → ℕ → ℕ → ℕ → List Attempt → Fetched × List ℕ
  unfolding after_attempt
  fetch_loop retries zero attempt delay answers = (ha_unreachable, [])
  fetch_loop retries (suc rounds) attempt delay answers =
      let rest =
        fetch_loop retries rounds (attempt + 1) (min 60 (delay * 2)) (later_attempts answers) in
      after_attempt (next_attempt answers) (attempt + 1 == retries) delay rest

  -- The outcome, and the waits before the retries.
  unfoldable pub fetch_states : ℕ → List Attempt → Fetched × List ℕ
  unfolding fetch_loop
  fetch_states retries answers = fetch_loop retries retries 0 1 answers
