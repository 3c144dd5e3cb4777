-- ===== src/Server/Guards.antt =====
-- Blocking calls of a server inside a callback.
use py_obscura_proto.Base.{
  ℕ, ◌≡◌, ◌∙◌, inl, inr, Bool-cases, refl, String, true, false, none, ◌∷◌, arith,
}
use py_obscura_proto.Runtime.{
  World, Env, Wrapped, Result, server_sync_request, sync_request_to_identity, ok, raised, Value, Fn,
  Args, plain, stop, logic_error, text, sync_wrapped, fire_and_forget, with_result, none_value,
  pure, ◌>>=◌, ◌>>◌,
}
use py_obscura_proto.Dispatcher.{invoke, dispatch_and_forget, dispatch_and_wait}
use py_obscura_proto.Dispatcher.Errors.{guarded_unhandled, raised-bind}
use py_obscura_proto.Dispatcher.Flag.{is_bare, flag_cleared}
use mathlib.Core.Path.{subst}
use py_obscura_proto.Dispatcher.Bodies.{run_body}
use py_obscura_proto.Dispatcher.Results.{with_flag}
use py_obscura_proto.Server.{Server, stop_server, sync_request, sync_request_identity, exit}
use py_obscura_proto.Callback.Blocking.{blocking_calls, blocking_result, ended, sync_message}

abbrev pub stop_message : String
stop_message = "Server.stop() cannot be called from a callback/IO thread (self-join deadlock)"

-- The four blocking methods of a server. Inside a callback each raises `LogicError` and makes no call of
-- the bindings; on any other thread each makes exactly one, and ends as that call ends.
pub blocking_guarded :
    (env : Env) (t : ℕ) (server : Server) (conn pk packet : Value) (w : World)
    → let inside = w.in_callback t in
      let stops = stop server.native in
      let request = server_sync_request server.native conn packet in
      let identity_request = sync_request_to_identity server.native pk packet in
      ((stop_server env t server w).1.calls ≡ blocking_calls inside stops w.calls)
      × ((stop_server env t server w).0
          ≡ blocking_result inside stop_message (ended tt (env.reply w.calls stops)))
      × ((exit env t server w).1.calls ≡ blocking_calls inside stops w.calls)
      × ((exit env t server w).0
          ≡ blocking_result inside stop_message (ended false (env.reply w.calls stops)))
      × ((sync_request env t server conn packet w).1.calls ≡ blocking_calls inside request w.calls)
      × ((sync_request env t server conn packet w).0
          ≡ blocking_result inside sync_message (env.reply w.calls request))
      × ((sync_request_identity env t server pk packet w).1.calls
          ≡ blocking_calls inside identity_request w.calls)
      × ((sync_request_identity env t server pk packet w).0
          ≡ blocking_result inside sync_message (env.reply w.calls identity_request))
unfolding stop_server exit sync_request sync_request_identity
blocking_guarded env t server conn pk packet w = elim (Bool-cases (w.in_callback t)) [
  | inl h ↦ ground arith
  | inr h ↦ ground arith
]

stop_rejected :
    (env : Env) (t : ℕ) (server : Server) (w : World)
    → w.in_callback t ≡ true
    → stop_server env t server w ≡ (raised (logic_error (text stop_message)), w)
unfolding stop_server
stop_rejected env t server w h = ground arith

raised_flag : (t : ℕ) (w : World) → (with_flag t true w).in_callback t ≡ true
raised_flag t w = ground arith

-- Without an error handler, a callback that stops its server raises the `LogicError` to its caller,
-- whichever wrapper runs it, and no call of the bindings is made: the thread does not join itself.
pub stop_in_callback :
    (env : Env) (t d loop timeout : ℕ) (server : Server) (f : Fn) (args : Args) (w : World)
    → ((u : World) → env.call f args u ≡ (do stop_server env t server; pure none_value) u)
    → (w.dispatchers d).error_handler ≡ none
    → let e = raised (logic_error (text stop_message)) in
      (invoke env t (sync_wrapped d (plain f)) args w ≡ (e, with_flag t false (with_flag t true w)))
      × (invoke env t (fire_and_forget d (plain f) loop) args w
          ≡ (e, with_flag t false (with_flag t true w)))
      × (invoke env t (with_result d (plain f) loop timeout) args w
          ≡ (e, with_flag t false (with_flag t true w)))
unfolding invoke run_body
stop_in_callback env t d loop timeout server f args w h n =
    let u = with_flag t true w in
    let e : env.call f args u ≡ (raised (logic_error (text stop_message)), u) =
      h u ∙ rw (stop_rejected env t server u (raised_flag t w)) in
    (
      guarded_unhandled env t d none_value (env.call f args) w e refl n,
      guarded_unhandled env t d none_value (env.call f args >>= dispatch_and_forget env d loop) w
          (raised-bind (env.call f args) (dispatch_and_forget env d loop) u e) refl n,
      guarded_unhandled env t d none_value
          (env.call f args >>= dispatch_and_wait env d loop timeout) w
          (raised-bind (env.call f args) (dispatch_and_wait env d loop timeout) u e) refl n,
    )

stop_reached :
    (env : Env) (t : ℕ) (server : Server) (u : World)
    → u.in_callback t ≡ false
    → ((do stop_server env t server; pure none_value) u).1.calls ≡ stop server.native ∷ u.calls
unfolding stop_server
stop_reached env t server u down = ground arith

-- Nested on one thread, a wrapper that a dispatcher made takes the flag down for the rest of the outer
-- callback: a callback `f` that runs another wrapped callback, which returns, and then stops its server
-- gets past the guard, and the `stop()` of the bindings is called from the callback's own thread.
pub nested_callback_unguarded :
    (env : Env) (t : ℕ) (server : Server) (f : Fn) (args given : Args) (inner : Wrapped) (v : Value)
    (w u : World)
    → is_bare inner ≡ false
    → ((x : World)
        → env.call f args x
          ≡ (do invoke env t inner given; stop_server env t server; pure none_value) x)
    → invoke env t inner given (with_flag t true w) ≡ (ok v, u)
    → (env.call f args (with_flag t true w)).1.calls ≡ stop server.native ∷ u.calls
nested_callback_unguarded env t server f args given inner v w u b h done =
    let down : u.in_callback t ≡ false =
      subst (λ (p : Result Value × World). p.1.in_callback t ≡ false) done
        (flag_cleared env t inner given (with_flag t true w) b) in
    rw (h (with_flag t true w)) (rw done (stop_reached env t server u down))
