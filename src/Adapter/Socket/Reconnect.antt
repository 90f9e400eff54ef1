-- ===== src/Adapter/Socket/Reconnect.antt =====
-- The reconnections of src/ai_ha/ha_adapter/ws_client.py.
use native.Mathlib.Nat.{pow-suc, mul_assoc}
use ai_home_assistant.Prelude.{
  ℕ, zero, suc, ◌+◌, ◌*◌, ◌^◌, ◌≤◌, none, some, false, List, [], ◌∷◌, min, ◌≡◌, refl, ap, ◌∙◌, sym,
  arith, length, All, string_eq, option_eq,
}
use ai_home_assistant.Adapter.Socket.{
  connection_lost, HaWsClient, failed, disconnected, event_loop, connect_and_loop, Round, run_loop,
  run, run_going,
}

-- A connection that was established and then lost, in a round that no stop ends.
abbrev pub IsLost : Round → Type 0
IsLost r =
    (r.connection.hello ≡ some (some "auth_required"))
    × (r.connection.ack ≡ some (some "auth_ok"))
    × (r.connection.ending ≡ connection_lost)
    × (r.stop_in_wait ≡ false)

-- `initial` doubled `i` times, `i + 1` times and so on, each up to `limit`.
abbrev pub doublings : ℕ → ℕ → ℕ → ℕ → List ℕ
doublings limit initial i zero = []
doublings limit initial i (suc n) = min limit (initial * 2 ^ i) ∷ doublings limit initial (suc i) n

doubled :
    (limit initial i : ℕ)
    → min limit (min limit (initial * 2 ^ i) * 2) ≡ min limit (initial * 2 ^ suc i)
doubled limit initial i =
    let step : initial * 2 ^ suc i ≡ initial * 2 ^ i * 2 =
      ap (λ x. initial * x) (pow-suc 2 i) ∙ sym (mul_assoc initial (2 ^ i) 2) in
    omega (arith, step)

connect_and_loop-lost :
    (r : Round) (c : HaWsClient)
    → IsLost r
    → connect_and_loop r.connection c ≡ (failed, (event_loop r.connection c).1)
unfolding connect_and_loop event_loop
connect_and_loop-lost r c h = rw (h.0, h.1, h.2) refl

module _ (initial_backoff max_backoff : ℕ) where
  abbrev loop : List Round → ℕ → HaWsClient → HaWsClient × List ℕ
  loop = run_loop none initial_backoff max_backoff

  run_loop-lost :
      (rs : List Round) (i : ℕ) (c : HaWsClient)
      → All IsLost rs
      → let (c', waits) = loop rs (min max_backoff (initial_backoff * 2 ^ i)) c in
        (waits ≡ doublings max_backoff initial_backoff i (length rs))
        × (c'.disconnect_count ≡ c.disconnect_count + length rs)
  unfolding run_loop disconnected event_loop
  run_loop-lost [] i c h = (refl, omega arith)
  run_loop-lost (r ∷ rs) i c h =
      let c' = disconnected (event_loop r.connection c).1 in
      let ih = run_loop-lost rs (suc i) c' h.1 in
      rw (connect_and_loop-lost r c h.0, h.0.3, doubled max_backoff initial_backoff i)
        (ap (λ ws. min max_backoff (initial_backoff * 2 ^ i) ∷ ws) ih.0, omega (arith, ih.1))

  -- However long the established connections last, the waits between them double up to the limit:
  -- a connection that was established and is then lost does not reset the backoff. Each loss is
  -- counted. Here nothing stops the client, no limit is set on the time of `run`, and the first
  -- backoff is at most the limit.
  pub run-lost :
      (rs : List Round) (c : HaWsClient)
      → initial_backoff ≤ max_backoff
      → All IsLost rs
      → c.stopping ≡ false
      → let (c', waits) = run none initial_backoff max_backoff rs c in
        (waits ≡ doublings max_backoff initial_backoff 0 (length rs))
        × (c'.disconnect_count ≡ c.disconnect_count + length rs)
  run-lost rs c b h going =
      let first : min max_backoff (initial_backoff * 2 ^ 0) ≡ initial_backoff = omega arith in
      let lost = run_loop-lost rs 0 c h in
      rw (run_going none initial_backoff max_backoff rs c going) (rw first at lost)
