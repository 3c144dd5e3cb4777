-- ===== src/Stream/Handlers.antt =====
-- What the handler decorators of a stream register.
use py_obscura_proto.Base.{inl, inr, Option-cases, ℕ, ◌≡◌, Option, none, some, ◌∷◌, arith}
use py_obscura_proto.Runtime.{
  World, Env, ok, Fn, Body, plain, data_wrapper, fire_and_forget, sync_wrapped, Wrapped,
  set_data_handler, set_end_handler, set_cancel_handler,
}
use py_obscura_proto.Dispatcher.{wrap_fire_and_forget}
use py_obscura_proto.Stream.{on_data, on_end, on_cancel, cpp_of}

-- The closure of a fire-and-forget callback: for a loop, or without one.
abbrev pub callback_for : ℕ → Option ℕ → Body → Wrapped
callback_for d none body = sync_wrapped d body
callback_for d (some l) body = fire_and_forget d body l

-- The loop that a dispatcher has after a registration on a thread with this running loop.
abbrev pub bound_loop : Option ℕ → Option ℕ → Option ℕ
bound_loop none running = running
bound_loop (some l) running = some l

pub wrap_fire_and_forget_lem :
    (env : Env) (t d : ℕ) (body : Body) (w : World)
    → let loop = bound_loop (w.dispatchers d).loop (env.running_loop t) in
      let (r, u) = wrap_fire_and_forget env t d (some body) w in
      (r ≡ ok (some (callback_for d loop body)))
      × (u.calls ≡ w.calls)
      × ((u.dispatchers d).loop ≡ loop)
      × ((u.dispatchers d).error_handler ≡ (w.dispatchers d).error_handler)
unfolding wrap_fire_and_forget
wrap_fire_and_forget_lem env t d body w = elim (Option-cases (w.dispatchers d).loop) [
  | inl q ↦ elim (Option-cases (env.running_loop t)) [
    | inl q' ↦ ground arith
    | inr (l, q') ↦ ground arith
  ]
  | inr (l, q) ↦ ground arith
]

-- `on_data`, `on_end` and `on_cancel` of a stream that has a dispatcher each register one callback at
-- the stream of the bindings: for data a wrapper around it, all of them
-- fire-and-forget for the loop that the dispatcher has, else for the one that runs on the thread, and
-- synchronous where there is neither.
pub stream_handlers_wrapped :
    (env : Env) (t s d : ℕ) (handler : Fn) (w : World)
    → (w.streams s).dispatcher ≡ some d
    → let callback = callback_for d (bound_loop (w.dispatchers d).loop (env.running_loop t)) in
      let cpp = cpp_of s w in
      ((on_data env t s handler w).1.calls
        ≡ set_data_handler cpp (some (callback (data_wrapper handler))) ∷ w.calls)
      × ((on_end env t s handler w).1.calls
          ≡ set_end_handler cpp (some (callback (plain handler))) ∷ w.calls)
      × ((on_cancel env t s handler w).1.calls
          ≡ set_cancel_handler cpp (some (callback (plain handler))) ∷ w.calls)
unfolding on_data on_end on_cancel
stream_handlers_wrapped env t s d handler w h = (
  ground (arith, wrap_fire_and_forget_lem env t d (data_wrapper handler) w),
  ground (arith, wrap_fire_and_forget_lem env t d (plain handler) w),
  ground (arith, wrap_fire_and_forget_lem env t d (plain handler) w),
)
