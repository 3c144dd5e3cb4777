-- ===== src/Server/Requests.antt =====
-- Requests of a server to a client, up to the point where the coroutine waits.
use mathlib.Core.Option
use mathlib.Core.List.{append-nil}
use py_obscura_proto.Base.{
  ℕ, ℤ, ◌+◌, ◌≡◌, Option, [], ◌∷◌, ◌++◌, arith, if◌then◌else◌, Option-cases, inl, inr, String,
}
use py_obscura_proto.Runtime.{World, Env, native_call, ok, Value, Call, fetch, ◌>>=◌}
use py_obscura_proto.Executor.{get_request_executor}
use py_obscura_proto.Response.{
  Awaiting, Place, on_worker, on_own_thread, effective_timeout, future_ident, await_cpp_future,
}
use py_obscura_proto.Server.{Server}

-- What the start of a wait hands over to the coroutine: the future, the timeout of the guard, and the
-- deadline of the waiter, which starts at `now`.
abbrev pub started : Value → String → ℕ → Option ℤ → Place → Awaiting
started future what now timeout place = record {
  future = future;
  what = what;
  timeout = effective_timeout timeout;
  deadline = Option.map (λ n. now + n) (effective_timeout timeout);
  place = place;
}

-- The request pool that the wait picks, and the state in which `submit` finds it.
abbrev pub pool_of : World → ℕ
pool_of w = (get_request_executor w.executors).1

abbrev pub found : (World → World) → World → World
found meanwhile w = meanwhile (record w { executors = (get_request_executor w.executors).0 })

-- Starting a wait never raises: the waiter becomes the last task of the request pool, or runs on a
-- thread of its own if that pool was shut down in the meantime; its deadline is the start and the
-- effective timeout.
pub await_starts :
    (meanwhile : World → World) (future : Value) (timeout : Option ℤ) (what : String) (w : World)
    → let u = found meanwhile w in
      let p = pool_of w in
      let shut = (u.executors.pools p).is_shut in
      let (r, w') = await_cpp_future meanwhile future timeout what w in
      (r ≡ ok (started future what w.now timeout (if shut then on_own_thread else on_worker p)))
      × ((w'.executors.pools p).queue
          ≡ (u.executors.pools p).queue ++ (if shut then [] else fetch (future_ident future) ∷ []))
      × (w'.calls ≡ u.calls)
unfolding await_cpp_future
await_starts meanwhile future timeout what w = elim (Option-cases (effective_timeout timeout)) [
  | inl e ↦ ground (arith, append-nil ((found meanwhile w).executors.pools (pool_of w)).queue)
  | inr (n, e) ↦ ground (arith, append-nil ((found meanwhile w).executors.pools (pool_of w)).queue)
]

-- The bindings answered a call with a future and the wait on it starts.
pub requested :
    (env : Env) (call : Call) (future : Value) (timeout : Option ℤ) (what : String) (w : World)
    → env.reply w.calls call ≡ ok future
    → let (r, u) = (native_call env call >>= λ f. await_cpp_future (λ x. x) f timeout what) w in
      ((p : Place) × (r ≡ ok (started future what w.now timeout p))) × (u.calls ≡ call ∷ w.calls)
requested env call future timeout what w h =
    let u = (native_call env call w).1 in
    let (a, b, c) = await_starts (λ x. x) future timeout what u in rw h ((_, a), c)
