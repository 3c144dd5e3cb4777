-- ===== src/Dispatcher.antt =====
-- `_CallbackDispatcher` (src/ObscuraProto/__init__.py): its methods, and `invoke`, which runs the
-- closures that they return. `d` is the dispatcher, by its place in the store, `t` the thread.
pub mod Bodies
pub mod Flag
pub mod Results
pub mod Errors
pub mod Identity
pub mod Responses
pub mod Reference
pub mod Keeping
pub mod Isolation
pub mod Threads
use Bodies.{run_body}
use py_obscura_proto.Base.{ℕ, suc, Bool, true, false, Option, none, some, List, [], ◌∷◌}
use py_obscura_proto.Runtime.{
  World, Env, Exec, Exc, Result, ok, raised, Value, none_value, bool_value, coroutine_value,
  error_value, hdl_value, Fn, Args, with_args, Body, plain, Wrapped, bare, sync_wrapped,
  fire_and_forget, with_result, identity, Dispatcher, Future, forward_error, runtime_error, text,
  update, truth, pure, raise, modify, try_except, try_finally, ◌>>=◌, ◌>>◌,
}
use py_obscura_proto.Callback.{set_callback_thread_flag}
use py_obscura_proto.Polling.{wait_future_with_polling, callback_result_timeout}

abbrev pub set_dispatcher_at : ℕ → Dispatcher → World → World
set_dispatcher_at d x w = record w { dispatchers = update w.dispatchers d x }

-- `_CallbackDispatcher()`
unfoldable pub new_dispatcher : ℕ → Exec ℕ
new_dispatcher result_timeout w = (
  ok w.next,
  record (set_dispatcher_at w.next
      (record { loop = none; error_handler = none; result_timeout = result_timeout }) w) {
        next = suc w.next;
      },
)

unfoldable pub set_error_handler : ℕ → Option Fn → Exec (Unit {0})
set_error_handler d h =
    modify λ w. set_dispatcher_at d (record (w.dispatchers d) { error_handler = h }) w

abbrev set_loop : ℕ → ℕ → World → World
set_loop d l w = set_dispatcher_at d (record (w.dispatchers d) { loop = some l }) w

-- `attach(loop=None)`: the given loop, the running one, the default one, or nothing.
unfoldable pub attach : Env → ℕ → ℕ → Option ℕ → Exec (Unit {0})
attach env t d (some l) = modify (set_loop d l)
attach env t d none = modify λ w. elim (env.running_loop t) [
  | some l ↦ set_loop d l w
  | none ↦ elim (env.default_loop t) [ some l ↦ set_loop d l w | none ↦ w ]
]

-- `if self._loop is None: try: self._loop = asyncio.get_running_loop() ...`
unfoldable pub bind_loop : Env → ℕ → ℕ → World → World
bind_loop env t d w = elim (w.dispatchers d).loop [
  | some l ↦ w
  | none ↦ elim (env.running_loop t) [ some l ↦ set_loop d l w | none ↦ w ]
]

-- `wrap(fn)` of a function, and of `None`.
unfoldable pub wrap : Env → ℕ → ℕ → Option Body → Exec (Option Wrapped)
unfolding bind_loop
wrap env t d none w = (ok none, w)
wrap env t d (some body) w =
    let u = bind_loop env t d w in
    elim (u.dispatchers d).loop [
      | none ↦ (ok (some (sync_wrapped d body)), u)
      | some l ↦ (ok (some (with_result d body l (u.dispatchers d).result_timeout)), u)
    ]

unfoldable pub wrap_fire_and_forget : Env → ℕ → ℕ → Option Body → Exec (Option Wrapped)
unfolding bind_loop
wrap_fire_and_forget env t d none w = (ok none, w)
wrap_fire_and_forget env t d (some body) w =
    let u = bind_loop env t d w in
    elim (u.dispatchers d).loop [
      | none ↦ (ok (some (sync_wrapped d body)), u)
      | some l ↦ (ok (some (fire_and_forget d body l)), u)
    ]

unfoldable pub wrap_identity : Env → ℕ → ℕ → Fn → Exec Wrapped
unfolding bind_loop
wrap_identity env t d handler w =
    let u = bind_loop env t d w in
    (ok (identity d handler (u.dispatchers d).loop (u.dispatchers d).result_timeout), u)

-- The `except Exception as e` block of the wrappers: the error handler as it is now, if there is one,
-- and then `fallback` is returned; otherwise the exception goes on.
unfoldable pub report : Env → ℕ → Value → Exc → Exec Value
report env d fallback e w = elim (w.dispatchers d).error_handler [
  | none ↦ (raised e, w)
  | some h ↦ (env.call h (with_args (error_value e ∷ [])) >> pure fallback) w
]

-- `asyncio.run_coroutine_threadsafe(result, loop)`
unfoldable pub run_coroutine_threadsafe : Env → ℕ → ℕ → Exec Future
run_coroutine_threadsafe env c loop w =
    (env.future_of c loop w, record w { scheduled = (c, loop) ∷ w.scheduled })

-- `if error_handler: future.add_done_callback(_forward_error)`
unfoldable pub forward_errors : ℕ → Future → Exec Value
forward_errors d future w = elim (w.dispatchers d).error_handler [
  | none ↦ (ok none_value, w)
  | some h ↦ (
    ok none_value,
    record w { done_callbacks = (future.ident, forward_error h) ∷ w.done_callbacks },
  )
]

-- What each wrapper does with the result of the callback.
unfoldable pub dispatch_and_forget : Env → ℕ → ℕ → Value → Exec Value
unfolding run_coroutine_threadsafe forward_errors
dispatch_and_forget env d loop (coroutine_value c) = do
  future ← run_coroutine_threadsafe env c loop
  forward_errors d future
dispatch_and_forget env d loop result = pure result

unfoldable pub dispatch_and_wait : Env → ℕ → ℕ → ℕ → Value → Exec Value
unfolding run_coroutine_threadsafe report
dispatch_and_wait env d loop timeout (coroutine_value c) = do
  future ← run_coroutine_threadsafe env c loop
  try_except (wait_future_with_polling env future timeout) (report env d none_value)
dispatch_and_wait env d loop timeout result = pure result

unfoldable pub dispatch_identity : Env → Option ℕ → ℕ → Value → Exec Value
unfolding run_coroutine_threadsafe
dispatch_identity env (some loop) timeout (coroutine_value c) = do
  future ← run_coroutine_threadsafe env c loop
  accepted ← wait_future_with_polling env future timeout
  pure (bool_value (truth env accepted))
dispatch_identity env none timeout (coroutine_value c) =
    raise (runtime_error (text "Cannot schedule async identity handler: no event loop attached"))
dispatch_identity env loop timeout result = pure (bool_value (truth env result))

-- The frame of all wrappers: the flag up, the `try` with its two clauses, the flag down.
unfoldable pub guarded : Env → ℕ → ℕ → Value → Exec Value → Exec Value
unfolding set_callback_thread_flag
guarded env t d fallback m = do
  set_callback_thread_flag t true
  try_finally (try_except m (report env d fallback)) (set_callback_thread_flag t false)

-- A call of a closure on thread `t`.
unfoldable pub invoke : Env → ℕ → Wrapped → Args → Exec Value
unfolding guarded
invoke env t (bare body) args = run_body env body args
invoke env t (sync_wrapped d body) args = guarded env t d none_value (run_body env body args)
invoke env t (fire_and_forget d body loop) args =
    guarded env t d none_value (run_body env body args >>= dispatch_and_forget env d loop)
invoke env t (with_result d body loop timeout) args =
    guarded env t d none_value (run_body env body args >>= dispatch_and_wait env d loop timeout)
invoke env t (identity d handler loop timeout) args =
    guarded env t d (bool_value false)
      (env.call handler args >>= dispatch_identity env loop timeout)
