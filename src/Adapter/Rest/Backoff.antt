-- ===== src/Adapter/Rest/Backoff.antt =====
-- The retries of src/ai_ha/ha_adapter/client.py.
use native.Mathlib.Nat.{pow-suc}
use ai_home_assistant.Prelude.{
  ℕ, zero, suc, ◌+◌, ◌*◌, ◌^◌, String, Bool, true, false, List, [], ◌∷◌, ◌++◌, min, ◌==◌, ◌≡◌, refl,
  ap, ◌∙◌, arith, nat_eq,
}
use ai_home_assistant.Adapter.Rest.{
  Attempt, connect_error, response, ha_unreachable, read_response, after_attempt, fetch_loop,
  fetch_states,
}

-- The waits before the retries from number `i` on: two to the power of the number, up to a minute.
abbrev pub waits_from : ℕ → ℕ → List ℕ
waits_from i zero = []
waits_from i (suc n) = min 60 (2 ^ i) ∷ waits_from (i + 1) n

-- `n` attempts that do not connect.
abbrev pub failures : ℕ → List Attempt
failures zero = []
failures (suc n) = connect_error ∷ failures n

doubled : (i : ℕ) → min 60 (min 60 (2 ^ i) * 2) ≡ min 60 (2 ^ (i + 1))
doubled i =
    let next : i + 1 ≡ suc i = omega arith in
    let step : 2 ^ (i + 1) ≡ 2 ^ i * 2 = ap (λ k. 2 ^ k) next ∙ pow-suc 2 i in omega (arith, step)

module _ (is_success : ℕ → Bool) where
  fetch_loop-response :
      (retries failed spare i status : ℕ) (body : String) (later : List Attempt)
      → retries ≡ i + suc (failed + spare)
      → fetch_loop is_success retries
          (suc (failed + spare))
          i
          (min 60 (2 ^ i))
          (failures failed ++ response status body ∷ later)
        ≡ (read_response is_success status body, waits_from i failed)
  unfolding fetch_loop after_attempt
  fetch_loop-response retries zero spare i status body later h = refl
  fetch_loop-response retries (suc n) spare i status body later h =
      let count : suc n + spare ≡ suc (n + spare) = omega arith in
      let not_last : (i + 1 == retries) ≡ false = ground arith in
      let ih = fetch_loop-response retries n spare (i + 1) status body later (omega arith) in
      rw (count, not_last, doubled i, ih) refl

  fetch_loop_unreachable :
      (retries rounds i : ℕ) (answers : List Attempt)
      → retries ≡ i + suc rounds
      → answers ≡ []
      → fetch_loop is_success retries (suc rounds) i (min 60 (2 ^ i)) answers
        ≡ (ha_unreachable, waits_from i rounds)
  unfolding fetch_loop after_attempt
  fetch_loop_unreachable retries zero i answers h e =
      let is_last : (i + 1 == retries) ≡ true = ground arith in rw (e, is_last) refl
  fetch_loop_unreachable retries (suc n) i answers h e =
      let not_last : (i + 1 == retries) ≡ false = ground arith in
      let ih = fetch_loop_unreachable retries n (i + 1) [] (omega arith) refl in
      rw (e, not_last, doubled i, ih) refl

  -- Fewer failures to connect than the retries do not change the outcome: the first answer decides
  -- it. Before the retry number `k`, counted from 0, the client waits 2 ^ k seconds, at most 60.
  pub fetch_states-response :
      (failed spare status : ℕ) (body : String) (later : List Attempt)
      → fetch_states is_success
          (suc (failed + spare))
          (failures failed ++ response status body ∷ later)
        ≡ (read_response is_success status body, waits_from 0 failed)
  unfolding fetch_states
  fetch_states-response failed spare status body later =
      fetch_loop-response (suc (failed + spare)) failed spare 0 status body later (omega arith)

  -- A server that never answers is reported as unreachable after one attempt more than there are
  -- waits, and the client does not wait after the last attempt.
  pub fetch_states_unreachable :
      (retries : ℕ)
      → fetch_states is_success (suc retries) [] ≡ (ha_unreachable, waits_from 0 retries)
  unfolding fetch_states
  fetch_states_unreachable retries =
      fetch_loop_unreachable (suc retries) retries 0 [] (omega arith) refl
