-- ===== src/Dispatcher/Results.antt =====
-- What C++ gets back from a wrapped callback.
use py_obscura_proto.Base.{ℕ, ◌+◌, ◌≤◌, ◌≡◌, refl, Bool, true, false, some, arith, ◌∷◌}
use py_obscura_proto.Runtime.{
  World, Env, ok, Value, coroutine_value, none_value, Args, Body, sync_wrapped, fire_and_forget,
  with_result, Future, update,
}
use py_obscura_proto.Polling.Timing.{wait-in_time}
use py_obscura_proto.Dispatcher.{invoke, dispatch_and_forget, dispatch_and_wait}
use py_obscura_proto.Dispatcher.Bodies.{run_body}

abbrev pub is_coroutine : Value → Bool
is_coroutine (coroutine_value c) = true
is_coroutine _ = false

abbrev pub with_flag : ℕ → Bool → World → World
with_flag t b w = record w { in_callback = update w.in_callback t b }

forget-plain :
    (env : Env) (d loop : ℕ) (v : Value) (w : World)
    → is_coroutine v ≡ false
    → dispatch_and_forget env d loop v w ≡ (ok v, w)
unfolding dispatch_and_forget
forget-plain env d loop (coroutine_value c) w h = absurd (ground arith)
forget-plain env d loop _ w h = refl

wait-plain :
    (env : Env) (d loop timeout : ℕ) (v : Value) (w : World)
    → is_coroutine v ≡ false
    → dispatch_and_wait env d loop timeout v w ≡ (ok v, w)
unfolding dispatch_and_wait
wait-plain env d loop timeout (coroutine_value c) w h = absurd (ground arith)
wait-plain env d loop timeout _ w h = refl

module _ (env : Env) (t d : ℕ) (body : Body) (args : Args) (w u : World) where
  -- A callback that runs with the flag up and returns a value that is no coroutine is transparent under
  -- each of the three wrappers: C++ gets this value, and nothing else happens but that the flag goes
  -- down.
  pub invoke_transparent :
      (loop timeout : ℕ) (v : Value)
      → run_body env body args (with_flag t true w) ≡ (ok v, u)
      → is_coroutine v ≡ false
      → (invoke env t (sync_wrapped d body) args w ≡ (ok v, with_flag t false u))
        × (invoke env t (fire_and_forget d body loop) args w ≡ (ok v, with_flag t false u))
        × (invoke env t (with_result d body loop timeout) args w ≡ (ok v, with_flag t false u))
  unfolding invoke
  invoke_transparent loop timeout v h n = (
    ground arith,
    ground (arith, forget-plain env d loop v u),
    ground (arith, wait-plain env d loop timeout v u),
  )

  -- An async request handler whose coroutine is completed within the timeout, with value `v`: C++ gets
  -- `v`, however late the sleeps of the polling wake.
  pub invoke_waits :
      (loop timeout c done : ℕ) (v : Value) (future : Future)
      → run_body env body args (with_flag t true w) ≡ (ok (coroutine_value c), u)
      → env.future_of c loop u ≡ ok future
      → future.finish ≡ some done
      → done ≤ u.now + timeout
      → future.outcome ≡ ok v
      → (invoke env t (with_result d body loop timeout) args w).0 ≡ ok v
  unfolding invoke dispatch_and_wait
  invoke_waits loop timeout c done v future h made f by o =
      let u' = record u { scheduled = (c, loop) ∷ u.scheduled } in
      ground (arith, wait-in_time env future timeout done u' f by)

  -- A fire-and-forget callback that returns a coroutine: it is scheduled on the loop, C++ gets `None`,
  -- and the calling thread does not wait: no time passes.
  pub invoke_forgets :
      (loop c : ℕ) (future : Future)
      → run_body env body args (with_flag t true w) ≡ (ok (coroutine_value c), u)
      → env.future_of c loop u ≡ ok future
      → let (r, w') = invoke env t (fire_and_forget d body loop) args w in
        (r ≡ ok none_value) × (w'.now ≡ u.now) × (w'.scheduled ≡ (c, loop) ∷ u.scheduled)
  unfolding invoke dispatch_and_forget
  invoke_forgets loop c future h made = ground arith
