-- ===== src/Polling/Timing.antt =====
-- When the polling loop returns, and with what. `late` is arbitrary unless a bound is stated.
use py_obscura_proto.Base.{
  ℕ, zero, suc, ◌+◌, ◌-◌, ◌≤◌, ◌<◌, min, ◌≡◌, ◌⊎◌, some, false, true, arith, ◌∷◌,
}
use py_obscura_proto.Runtime.{World, Env, ok, raised, Future, reap, timeout_error, did_not_complete}
use py_obscura_proto.Polling.{
  poll, sleep, is_done, wait_future_with_polling, callback_poll_interval, abandon_timed_out_future,
}

-- The future has both methods, and they return: `concurrent.futures.Future`.
pub record IsCancellable (future : Future) : Type 0 where
  pub can_cancel : future.cancel ≡ some (ok tt)
  pub can_attach : future.attach ≡ some (ok tt)

module _ (env : Env) (future : Future) (timeout : ℕ) where
  -- The world after the sleep of a round.
  abbrev woken : ℕ → World → World
  woken deadline w = sleep env (min callback_poll_interval (deadline - w.now)) w

  poll_by_deadline :
      (fuel deadline c : ℕ) (w : World)
      → deadline - w.now < fuel
      → future.finish ≡ some c
      → c ≤ deadline
      → (poll fuel env future timeout deadline w).0 ≡ future.outcome
  unfolding poll
  poll_by_deadline zero deadline c w enough h by = absurd (omega arith)
  poll_by_deadline (suc fuel) deadline c w enough h by =
      ground (arith, poll_by_deadline fuel deadline c (woken deadline w))

  -- A future that is completed by the deadline is never given up: its outcome is the result of the
  -- wait, however late the sleeps wake.
  pub wait-in_time :
      (c : ℕ) (w : World)
      → future.finish ≡ some c
      → c ≤ w.now + timeout
      → (wait_future_with_polling env future timeout w).0 ≡ future.outcome
  unfolding wait_future_with_polling
  wait-in_time c w h by = poll_by_deadline (suc timeout) (w.now + timeout) c w (omega arith) h by

  module _ (plain : IsCancellable future) where
    poll_ends :
        (fuel deadline : ℕ) (w : World)
        → deadline - w.now < fuel
        → let (r, w') = poll fuel env future timeout deadline w in
          ((r ≡ future.outcome)
            × (is_done future w'.now ≡ true)
            × (w'.done_callbacks ≡ w.done_callbacks))
          ⊎ ((r ≡ raised (timeout_error (did_not_complete timeout)))
              × (deadline ≤ w'.now)
              × (is_done future w'.now ≡ false)
              × (w'.cancelled ≡ future.ident ∷ w.cancelled)
              × (w'.done_callbacks ≡ (future.ident, reap) ∷ w.done_callbacks))
    unfolding poll
    poll_ends zero deadline w enough = absurd (omega arith)
    poll_ends (suc fuel) deadline w enough =
        ground
          (arith, poll_ends fuel deadline (woken deadline w), plain.can_cancel, plain.can_attach)

    -- Every wait for a future whose `cancel` and `add_done_callback` return ends, in one of two ways:
    -- with the outcome of the future, which is done then; or with the timeout error, not before the
    -- deadline, the future not done then, asked to be cancelled, and with the reaper attached.
    pub wait_ends :
        (w : World)
        → let (r, w') = wait_future_with_polling env future timeout w in
          ((r ≡ future.outcome)
            × (is_done future w'.now ≡ true)
            × (w'.done_callbacks ≡ w.done_callbacks))
          ⊎ ((r ≡ raised (timeout_error (did_not_complete timeout)))
              × (w.now + timeout ≤ w'.now)
              × (is_done future w'.now ≡ false)
              × (w'.cancelled ≡ future.ident ∷ w.cancelled)
              × (w'.done_callbacks ≡ (future.ident, reap) ∷ w.done_callbacks))
    unfolding wait_future_with_polling
    wait_ends w = poll_ends (suc timeout) (w.now + timeout) w (omega arith)

  module _ (δ : ℕ) (punctual : (n : ℕ) → env.late n ≤ δ) where
    now-abandon : (w : World) → (abandon_timed_out_future future w).1.now ≡ w.now
    unfolding abandon_timed_out_future
    now-abandon w = ground arith

    poll_bounds :
        (fuel deadline m : ℕ) (w : World)
        → w.now ≤ m
        → deadline + δ ≤ m
        → (poll fuel env future timeout deadline w).1.now ≤ m
    unfolding poll
    poll_bounds zero deadline m w before bound = before
    poll_bounds (suc fuel) deadline m w before bound =
        ground
          (arith, punctual w.now, now-abandon w, poll_bounds fuel deadline m (woken deadline w))

    poll_latency :
        (fuel deadline m c : ℕ) (w : World)
        → deadline - w.now < fuel
        → future.finish ≡ some c
        → c ≤ deadline
        → w.now ≤ m
        → c + callback_poll_interval + δ ≤ m
        → (poll fuel env future timeout deadline w).1.now ≤ m
    unfolding poll
    poll_latency zero deadline m c w enough h by before bound = before
    poll_latency (suc fuel) deadline m c w enough h by before bound =
        ground (arith, punctual w.now, poll_latency fuel deadline m c (woken deadline w))

    -- If a sleep is never more than `δ` late, the I/O thread is held for at most `timeout + δ`.
    pub wait-le-timeout :
        (w : World) → (wait_future_with_polling env future timeout w).1.now ≤ w.now + timeout + δ
    unfolding wait_future_with_polling
    wait-le-timeout w = poll_bounds (suc timeout) (w.now + timeout) _ w (omega arith) (omega arith)

    -- If a sleep is never more than `δ` late, a future that is completed after the start and by the
    -- deadline is noticed within one polling interval and `δ`.
    pub wait_latency :
        (c : ℕ) (w : World)
        → future.finish ≡ some c
        → w.now ≤ c
        → c ≤ w.now + timeout
        → (wait_future_with_polling env future timeout w).1.now ≤ c + callback_poll_interval + δ
    unfolding wait_future_with_polling
    wait_latency c w h after by =
        poll_latency (suc timeout) (w.now + timeout) _ c w (omega arith) h by (omega arith)
          (omega arith)
