-- ===== src/Polling.antt =====
-- Waiting for the future of an async handler from an I/O thread (src/ObscuraProto/__init__.py,
-- `_reap_future_result`, `_abandon_timed_out_future`, `_wait_future_with_polling`).
pub mod Timing
pub mod Cleanup
pub mod Frame
use py_obscura_proto.Base.{
  ℕ, zero, suc, ◌+◌, ◌-◌, min, Bool, true, false, Option, none, some, [], ◌∷◌, leb, if◌then◌else◌,
}
use py_obscura_proto.Runtime.{
  World, Env, Exec, Exc, Result, ok, raised, Value, none_value, Future, DoneCallback, reap,
  forward_error, timeout_error, did_not_complete, diverged, error_value, with_args, try_except,
  ◌>>=◌, ◌>>◌, pure, raise, modify,
}

-- In microseconds: 5 s, and 50 ms.
abbrev pub callback_result_timeout : ℕ
callback_result_timeout = 5_000_000

abbrev pub callback_poll_interval : ℕ
callback_poll_interval = 50_000

-- `future.result()` of a future that is done, its outcome in hand: `except BaseException: pass`.
unfoldable pub reap_future_result : Result Value → Exec Value
reap_future_result (ok v) = pure none_value
reap_future_result (raised e) = pure none_value

-- What the event loop does with a done-callback when the future is completed. `_forward_error` is
-- the callback that the fire-and-forget wrapper attaches.
unfoldable pub run_done_callback : Env → DoneCallback → Result Value → Exec Value
unfolding reap_future_result
run_done_callback env reap outcome = reap_future_result outcome
run_done_callback env (forward_error h) outcome =
    try_except (λ w. (outcome, w)) (λ e. env.call h (with_args (error_value e ∷ [])))

-- `try: cancel() except Exception: pass`, where the future has the method.
unfoldable pub try_cancel : Future → Exec (Unit {0})
try_cancel future w = elim future.cancel [
  | none ↦ (ok tt, w)
  | some r ↦
      try_except (λ u. (r, record u { cancelled = future.ident ∷ u.cancelled })) (λ _. pure tt) w
]

-- The callback is attached where the method returns.
unfoldable pub attach_reaper : Future → Exec (Unit {0})
attach_reaper future w = elim future.attach [
  | none ↦ (ok tt, w)
  | some (ok _) ↦ (ok tt, record w { done_callbacks = (future.ident, reap) ∷ w.done_callbacks })
  | some (raised e) ↦ try_except (raise e) (λ _. pure tt) w
]

unfoldable pub abandon_timed_out_future : Future → Exec (Unit {0})
unfolding try_cancel attach_reaper
abandon_timed_out_future future = do try_cancel future; attach_reaper future

unfoldable pub is_done : Future → ℕ → Bool
is_done future now = elim future.finish [ none ↦ false | some c ↦ leb c now ]

-- `time.sleep(d)` takes at least `d`, and `env.late` more.
unfoldable pub sleep : Env → ℕ → World → World
sleep env d w = record w { now = w.now + d + env.late w.now }

-- The loop, on fuel: each round that does not return sleeps for a positive time before the deadline.
unfoldable pub poll : ℕ → Env → Future → ℕ → ℕ → Exec Value
unfolding is_done sleep abandon_timed_out_future
poll zero env future timeout deadline w = (raised diverged, w)
poll (suc fuel) env future timeout deadline w =
    let remaining = deadline - w.now in
    let again =
      poll fuel env future timeout deadline (sleep env (min callback_poll_interval remaining) w) in
    let give_up =
      (do abandon_timed_out_future future; raise (timeout_error (did_not_complete timeout))) w in
    if is_done future w.now
    then (future.outcome, w)
    else if leb deadline w.now
    then give_up
    else again

unfoldable pub wait_future_with_polling : Env → Future → ℕ → Exec Value
unfolding poll
wait_future_with_polling env future timeout w =
    poll (suc timeout) env future timeout (w.now + timeout) w
