-- ===== src/Server/Lifecycle.antt =====
-- A server as an async context manager.
use py_obscura_proto.Base.{ℕ, ◌≡◌, ap, ◌∙◌, false, some, ◌∷◌, arith, Bool-cases, inl, inr}
use py_obscura_proto.Runtime.{
  World, Env, Exec, Exc, ok, raised, Value, run, stop, starting, server_started, async_with,
}
use py_obscura_proto.Callback.Blocking.{
  blocking_calls, blocking_result, ended, ended_with, async_with-blocking,
}
use py_obscura_proto.Server.{Server, enter, exit, start, stop_server}
use py_obscura_proto.Server.Guards.{stop_message}

exit-blocking :
    (env : Env) (t : ℕ) (server : Server) (u : World)
    → let (r, v) = exit env t server u in
      (r
        ≡ blocking_result
            (u.in_callback t)
            stop_message
            (ended false (env.reply u.calls (stop server.native))))
      × (v.calls ≡ blocking_calls (u.in_callback t) (stop server.native) u.calls)
unfolding exit stop_server
exit-blocking env t server u = elim (Bool-cases (u.in_callback t)) [
  | inl inside ↦ ground arith
  | inr outside ↦ ground arith
]

module _ (env : Env) (t : ℕ) (server : Server) (block : Server → Exec (Unit {0})) (w : World)
    (port : ℕ) (given : server.port ≡ some port) where
  -- `async with Server(port=port) as server:` where the port can be listened on. The block runs on the
  -- started server; whether it ends or raises, the stop is the last call of the bindings, the exception
  -- of the block goes on, and one of the stop replaces it. Where the block leaves the thread inside a
  -- callback, there is no stop, and the `LogicError` replaces what the block raised.
  pub server_context :
      (v : Value)
      → env.reply w.calls (run server.native port) ≡ ok v
      → let started = record w {
        calls = run server.native port ∷ w.calls;
        logged = server_started ∷ starting ∷ w.logged;
      } in
        let (r, u) = block server started in
        let (r', u') = async_with (enter env t server) (exit env t server) block w in
        (r'
          ≡ blocking_result
              (u.in_callback t)
              stop_message
              (ended_with r (env.reply u.calls (stop server.native))))
        × (u'.calls ≡ blocking_calls (u.in_callback t) (stop server.native) u.calls)
  unfolding enter start
  server_context v h =
      let started = record w {
        calls = run server.native port ∷ w.calls;
        logged = server_started ∷ starting ∷ w.logged;
      } in
      let u = (block server started).1 in
      let (ends, calls) = exit-blocking env t server u in
      let (result, left) =
        async_with-blocking (enter env t server) (exit env t server) block (u.in_callback t)
          stop_message (env.reply u.calls (stop server.native)) server w started (ground arith)
          ends in
      (result, ap (λ (q : World). q.calls) left ∙ calls)

  -- If the server does not start, the block does not run, and there is no stop.
  pub server_context-failed :
      (e : Exc)
      → env.reply w.calls (run server.native port) ≡ raised e
      → let (r, u) = async_with (enter env t server) (exit env t server) block w in
        (r ≡ raised e) × (u.calls ≡ run server.native port ∷ w.calls)
  unfolding enter start
  server_context-failed e h = ground arith
