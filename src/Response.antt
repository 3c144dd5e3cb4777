-- ===== src/Response.antt =====
-- Waiting for the response of a `CppPayloadFuture` (src/ObscuraProto/__init__.py,
-- `_consume_cpp_future` and `_await_cpp_future`): the functions that run on a request worker. The
-- event loop's part is in the child `Await`.
pub mod SingleUse
pub mod Fetch
pub mod Await
pub mod Delivery
pub mod Race
use py_obscura_proto.Base.{
  ℕ, zero, suc, ◌+◌, ◌-◌, ◌/◌, min, ℤ, pos, negsuc, String, Bool, true, false, Option, none, some,
  ◌∷◌, leb, contains, if◌then◌else◌,
}
use py_obscura_proto.Runtime.{
  World, Env, Exec, Result, ok, raised, Value, text, timed_out, timeout_error, logic_error,
  diverged, native_value, fetch, future_ready, future_get, native_call, truth, raise, ◌>>=◌, ◌>>◌,
}
use py_obscura_proto.Executor.{get_request_executor, submit}
use py_obscura_proto.Polling.{sleep, callback_poll_interval}

-- In microseconds: 30 s.
abbrev pub request_default_timeout : ℕ
request_default_timeout = 30_000_000

-- The block of `_consume_cpp_future` under `_consume_lock`: the registry is a set of the objects that were
-- consumed.
unfoldable pub claim_cpp_future : ℕ → Exec (Unit {0})
claim_cpp_future f w =
    if contains f w.consumed
    then (
      raised (logic_error (text "CppPayloadFuture is single-use: get() may only be called once")),
      w,
    )
    else (ok tt, record w { consumed = f ∷ w.consumed })

unfoldable pub consume_cpp_future : Env → ℕ → Exec Value
unfolding claim_cpp_future
consume_cpp_future env f = do claim_cpp_future f; native_call env (future_get f)

-- `if timeout is not None and timeout <= 0: timeout = None`, in microseconds.
unfoldable pub effective_timeout : Option ℤ → Option ℕ
effective_timeout none = none
effective_timeout (some (pos zero)) = none
effective_timeout (some (pos (suc n))) = some (suc n)
effective_timeout (some (negsuc n)) = none

-- `timeout_ms = None if timeout is None or timeout <= 0 else int(timeout * 1000)`
unfoldable pub request_timeout_ms : Option ℤ → Option ℕ
request_timeout_ms none = none
request_timeout_ms (some (pos zero)) = none
request_timeout_ms (some (pos (suc n))) = some (suc n / 1000)
request_timeout_ms (some (negsuc n)) = none

-- The test of the loop in `_fetch`, from the answer of `cpp_future.ready()`.
unfoldable pub is_ready : Env → Result Value → Bool
is_ready env (ok v) = truth env v
is_ready env (raised e) = false

-- The loop of `_fetch` and the consumption after it, on fuel. `timeout` is the effective one and
-- `deadline` the time at which it passes.
unfoldable pub fetch_loop : ℕ → Env → ℕ → String → ℕ → Option ℕ → Exec Value
unfolding is_ready sleep consume_cpp_future
fetch_loop zero env f what timeout deadline w = (raised diverged, w)
fetch_loop (suc fuel) env f what timeout none w =
    let (r, w') = native_call env (future_ready f) w in
    let again = fetch_loop fuel env f what timeout none (sleep env callback_poll_interval w') in
    elim r [
      | raised e ↦ (raised e, w')
      | ok v ↦ if truth env v then consume_cpp_future env f w' else again
    ]
fetch_loop (suc fuel) env f what timeout (some deadline) w =
    let (r, w') = native_call env (future_ready f) w in
    let remaining = deadline - w'.now in
    let again =
      fetch_loop fuel env f what timeout (some deadline)
        (sleep env (min callback_poll_interval remaining) w') in
    elim r [
      | raised e ↦ (raised e, w')
      | ok v ↦
          if truth env v
          then consume_cpp_future env f w'
          else if leb deadline w'.now
          then (raised (timeout_error (timed_out what timeout)), w')
          else again
    ]

-- Where `_fetch` runs: on a pool of workers, or on a thread of its own.
pub data Place : Type 0 where
  on_worker : ℕ → Place
  on_own_thread : Place

-- A started wait: the guard's timeout and the waiter's deadline, `none` if unlimited.
pub record Awaiting : Type 0 where
  pub future : Value
  pub what : String
  pub timeout : Option ℕ
  pub deadline : Option ℕ
  pub place : Place

-- The identity of the future that the bindings returned.
unfoldable pub future_ident : Value → ℕ
future_ident (native_value f) = f
future_ident _ = 0

unfoldable pub deadline_of : ℕ → Option ℕ → Option ℕ
deadline_of now none = none
deadline_of now (some t) = some (now + t)

-- `_await_cpp_future` up to its `await`: `meanwhile` is what other threads do between
-- `_get_request_executor()` and `submit`, and the last case is the handler of `RuntimeError`.
unfoldable pub await_cpp_future : (World → World) → Value → Option ℤ → String → Exec Awaiting
unfolding effective_timeout deadline_of future_ident get_request_executor submit
await_cpp_future meanwhile future timeout what w =
    let limit = effective_timeout timeout in
    let (x, p) = get_request_executor w.executors in
    let (r, w') = submit p (fetch (future_ident future)) (meanwhile (record w { executors = x })) in
    let place : Place = elim r [ ok _ ↦ on_worker p | raised _ ↦ on_own_thread ] in
    (
      ok (record {
        future = future;
        what = what;
        timeout = limit;
        deadline = deadline_of w.now limit;
        place = place;
      }),
      w',
    )
