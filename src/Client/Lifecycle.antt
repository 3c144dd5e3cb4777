-- ===== src/Client/Lifecycle.antt =====
-- A client as an async context manager.
use py_obscura_proto.Base.{ℕ, ◌≡◌, ap, ◌∙◌, false, some, ◌∷◌, arith, Bool-cases, inl, inr}
use py_obscura_proto.Runtime.{
  World, Env, Exec, Exc, ok, raised, Value, connect, disconnect, connecting, async_with,
}
use py_obscura_proto.Callback.Blocking.{
  blocking_calls, blocking_result, ended, ended_with, async_with-blocking,
}
use py_obscura_proto.Client.{Client, enter, exit, connect_to, disconnect_client}
use py_obscura_proto.Client.Methods.{disconnect_message}

exit-blocking :
    (env : Env) (t : ℕ) (client : Client) (u : World)
    → let (r, v) = exit env t client u in
      (r
        ≡ blocking_result
            (u.in_callback t)
            disconnect_message
            (ended false (env.reply u.calls (disconnect client.native))))
      × (v.calls ≡ blocking_calls (u.in_callback t) (disconnect client.native) u.calls)
      × (v.in_callback ≡ u.in_callback)
unfolding exit disconnect_client
exit-blocking env t client u = elim (Bool-cases (u.in_callback t)) [
  | inl inside ↦ ground arith
  | inr outside ↦ ground arith
]

module _ (env : Env) (t : ℕ) (client : Client) (block : Client → Exec (Unit {0})) (w : World)
    (uri : ℕ) (given : client.uri ≡ some uri) where
  -- `async with Client(key, uri=uri) as client:` where the connection is made. The block runs on the
  -- connected client; whether it ends or raises, the disconnection is the last call of the bindings, the
  -- exception of the block goes on, and one of the disconnection replaces it. Where the block leaves the
  -- thread inside a callback, there is no disconnection, and the `LogicError` replaces what the block
  -- raised. No flag of a thread is changed.
  pub client_context :
      (v : Value)
      → env.reply w.calls (connect client.native uri) ≡ ok v
      → let connected = record w {
        calls = connect client.native uri ∷ w.calls;
        logged = connecting ∷ w.logged;
      } in
        let (r, u) = block client connected in
        let (r', u') = async_with (enter env t client) (exit env t client) block w in
        (r'
          ≡ blocking_result
              (u.in_callback t)
              disconnect_message
              (ended_with r (env.reply u.calls (disconnect client.native))))
        × (u'.calls ≡ blocking_calls (u.in_callback t) (disconnect client.native) u.calls)
        × (u'.in_callback ≡ u.in_callback)
  unfolding enter connect_to
  client_context v h =
      let connected = record w {
        calls = connect client.native uri ∷ w.calls;
        logged = connecting ∷ w.logged;
      } in
      let u = (block client connected).1 in
      let (ends, calls, flags) = exit-blocking env t client u in
      let (result, left) =
        async_with-blocking (enter env t client) (exit env t client) block (u.in_callback t)
          disconnect_message (env.reply u.calls (disconnect client.native)) client w connected
          (ground arith) ends in
      (
        result,
        ap (λ (q : World). q.calls) left ∙ calls,
        ap (λ (q : World). q.in_callback) left ∙ flags,
      )

  -- If the connection is not made, the block does not run, and there is no disconnection.
  pub client_context-failed :
      (e : Exc)
      → env.reply w.calls (connect client.native uri) ≡ raised e
      → let (r, u) = async_with (enter env t client) (exit env t client) block w in
        (r ≡ raised e) × (u.calls ≡ connect client.native uri ∷ w.calls)
  unfolding enter connect_to
  client_context-failed e h = ground arith
