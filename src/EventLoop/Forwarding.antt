-- ===== src/EventLoop/Forwarding.antt =====
-- Where the outcome of a coroutine goes when nobody waits for it any more.
use py_obscura_proto.Base.{ℕ, ◌≡◌, refl, true, false, some, [], ◌∷◌, arith, if◌then◌else◌, inl, inr}
use py_obscura_proto.Runtime.{
  World, Env, Exc, is_exception, Result, Result-cases, ok, raised, Value, coroutine_value,
  error_value, Fn, Args, with_args, Body, Future, reap, forward_error, fire_and_forget,
  timeout_error, did_not_complete,
}
use py_obscura_proto.Polling.{wait_future_with_polling, is_done}
use py_obscura_proto.Polling.Timing.{IsCancellable, wait_ends}
use py_obscura_proto.Dispatcher.{invoke, dispatch_and_forget}
use py_obscura_proto.Dispatcher.Bodies.{run_body}
use py_obscura_proto.Dispatcher.Results.{with_flag}
use py_obscura_proto.EventLoop.{callbacks_of, run_callbacks, complete_future}

-- What forwarding an outcome to the error handler `h` leaves: an `Exception` is given to `h`, and what `h`
-- returns or raises is dropped.
abbrev pub forwarded : Env → Fn → Result Value → World → World
forwarded env h (ok v) w = w
forwarded env h (raised e) w =
    if is_exception e then (env.call h (with_args (error_value e ∷ [])) w).1 else w

-- No `BaseException` comes out of the coroutine or the error handler.
abbrev pub IsTameCall : Env → Fn → Result Value → Type 0
IsTameCall env h outcome =
    ((e : Exc) → outcome ≡ raised e → is_exception e ≡ true)
    × ((given : Args) (w : World) (e : Exc)
        → (env.call h given w).0 ≡ raised e
        → is_exception e ≡ true)

run-forward_error :
    (env : Env) (h : Fn) (outcome : Result Value) (w : World)
    → IsTameCall env h outcome
    → run_callbacks env outcome (forward_error h ∷ []) w ≡ (ok tt, forwarded env h outcome w)
unfolding run_callbacks
run-forward_error env h (ok v) w tame = refl
run-forward_error env h (raised e) w tame =
    let caught = tame.0 e refl in
    let given = with_args (error_value e ∷ []) in
    elim (Result-cases (env.call h given w).0) [
      | inl (v, x) ↦ ground arith
      | inr (e', x) ↦ ground (arith, tame.1 given w e' x)
    ]

-- An async fire-and-forget callback, on a dispatcher with error handler `h` when the coroutine is
-- scheduled, where no `BaseException` that is no `Exception` comes out of the coroutine or of `h`: when
-- the coroutine ends later, whatever has happened in between but for further callbacks of its future, an
-- `Exception` is given to `h` exactly once, also if another error handler has been set since, and an
-- `Exception` of `h` itself is dropped; a value is dropped.
pub async_error_forwarded :
    (env : Env) (t d loop c : ℕ) (h : Fn) (body : Body) (args : Args) (future : Future)
    (w u later : World)
    → run_body env body args (with_flag t true w) ≡ (ok (coroutine_value c), u)
    → env.future_of c loop u ≡ ok future
    → (u.dispatchers d).error_handler ≡ some h
    → callbacks_of future.ident u.done_callbacks ≡ []
    → callbacks_of future.ident later.done_callbacks
      ≡ callbacks_of future.ident
          (invoke env t (fire_and_forget d body loop) args w).1.done_callbacks
    → IsTameCall env h future.outcome
    → complete_future env future later ≡ (ok tt, forwarded env h future.outcome later)
unfolding invoke dispatch_and_forget complete_future
async_error_forwarded env t d loop c h body args future w u later ran made handler fresh same tame =
    let listed : callbacks_of future.ident later.done_callbacks ≡ forward_error h ∷ [] =
      ground arith in
    rw listed (run-forward_error env h future.outcome later tame)

run-reap :
    (env : Env) (outcome : Result Value) (w : World)
    → run_callbacks env outcome (reap ∷ []) w ≡ (ok tt, w)
unfolding run_callbacks
run-reap env (ok v) w = refl
run-reap env (raised e) w = refl

-- A coroutine that did not complete while it was waited for, whose future can be cancelled and gets no
-- further callbacks: the wait raises the timeout, and when the coroutine ends later, its outcome, a
-- value or any exception, is taken and dropped, and nobody is called.
pub late_outcome_dropped :
    (env : Env) (future : Future) (timeout : ℕ) (w later : World)
    → IsCancellable future
    → callbacks_of future.ident w.done_callbacks ≡ []
    → is_done future (wait_future_with_polling env future timeout w).1.now ≡ false
    → callbacks_of future.ident later.done_callbacks
      ≡ callbacks_of future.ident (wait_future_with_polling env future timeout w).1.done_callbacks
    → ((wait_future_with_polling env future timeout w).0
        ≡ raised (timeout_error (did_not_complete timeout)))
      × (complete_future env future later ≡ (ok tt, later))
unfolding complete_future
late_outcome_dropped env future timeout w later plain fresh unfinished same =
    elim (wait_ends env future timeout plain w) [
      | inl (a, b, x) ↦ absurd (ground arith)
      | inr (a, b, x, y, z) ↦
          let listed : callbacks_of future.ident later.done_callbacks ≡ reap ∷ [] = ground arith in
          (a, rw listed (run-reap env future.outcome later))
    ]
