-- ===== src/Adapter/Socket/Deadline.antt =====
-- How long `HAWSClient.run` of src/ai_ha/ha_adapter/ws_client.py goes on where it has a limit.
use ai_home_assistant.Prelude.{
  ℕ, ◌+◌, ◌*◌, ◌≤◌, ◌⊎◌, some, Bool, true, false, List, [], ◌∷◌, ◌≡◌, refl, arith, inl, inr, ltb,
  min, length, Bool-cases,
}
use ai_home_assistant.Adapter.Socket.{
  Closed, returned, auth_invalid, failed, HaWsClient, Round, after_closed, connect_and_loop,
  disconnected, run_loop, run, run_going, run_stopped,
}

module _ (limit initial_backoff max_backoff : ℕ) where
  -- The first round starts at `t` or later, and each one at least a backoff after the one before.
  abbrev pub Paced : ℕ → List Round → Type 0
  Paced t [] = Unit
  Paced t (r ∷ rs) = (t ≤ r.elapsed) × Paced (r.elapsed + initial_backoff) rs

  -- From `t` on there is room for so many waits.
  abbrev Fits : ℕ → List ℕ → Type 0
  Fits t waits = (length waits ≡ 0) ⊎ (t + length waits * initial_backoff ≤ limit + initial_backoff)

  Fits-after_closed :
      (t elapsed : ℕ) (o : Closed × HaWsClient) (stop : Bool) (backoff : ℕ)
      (again : HaWsClient → HaWsClient × List ℕ)
      → t ≤ elapsed
      → elapsed ≤ limit
      → ((c : HaWsClient) → Fits (elapsed + initial_backoff) (again c).1)
      → Fits t (after_closed (some limit) initial_backoff max_backoff o stop backoff again).1
  Fits-after_closed t elapsed (returned, c) stop backoff again early in_time later =
      inr (omega arith)
  Fits-after_closed t elapsed (auth_invalid, c) stop backoff again early in_time later = inl refl
  Fits-after_closed t elapsed (failed, c) true backoff again early in_time later = inr (omega arith)
  Fits-after_closed t elapsed (failed, c) false backoff again early in_time later =
      elim (later (disconnected c)) [
        | inl none_left ↦ inr (rw none_left (omega arith))
        | inr fits ↦ inr (ground (arith, fits))
      ]

  Fits-run_loop :
      (t : ℕ) (rs : List Round) (backoff : ℕ) (c : HaWsClient)
      → Paced t rs
      → Fits t (run_loop (some limit) initial_backoff max_backoff rs backoff c).1
  unfolding run_loop
  Fits-run_loop t [] backoff c h = inl refl
  Fits-run_loop t (r ∷ rs) backoff c (early, h) = elim (Bool-cases (ltb limit r.elapsed)) [
    | inl late ↦ rw late (inl refl)
    | inr in_time ↦ rw in_time (
        Fits-after_closed t r.elapsed (connect_and_loop r.connection c) r.stop_in_wait backoff
          (run_loop (some limit) initial_backoff max_backoff rs (min max_backoff (backoff * 2)))
          early (ground arith)
          (λ c'.
            Fits-run_loop (r.elapsed + initial_backoff) rs (min max_backoff (backoff * 2)) c' h))
  ]

  -- With a limit on the time, and rounds that are a backoff or more apart, `run` ends by itself: it
  -- waits at most `limit / initial_backoff + 1` times, however many rounds the network would give.
  pub run_deadline :
      (rs : List Round) (c : HaWsClient)
      → Paced 0 rs
      → length (run (some limit) initial_backoff max_backoff rs c).1 * initial_backoff
        ≤ limit + initial_backoff
  run_deadline rs c h = elim (Bool-cases c.stopping) [
    | inl stopped ↦
        rw (run_stopped (some limit) initial_backoff max_backoff rs c stopped) (omega arith)
    | inr going ↦
        rw (run_going (some limit) initial_backoff max_backoff rs c going)
          (elim (Fits-run_loop 0 rs initial_backoff c h) [
            | inl no_wait ↦ rw no_wait (omega arith)
            | inr fits ↦ omega arith
          ])
  ]
