-- ===== src/Examples/Shutdown.antt =====
-- How the examples end.
use py_obscura_proto.Base.{
  ℕ, ◌≡◌, refl, ap, ◌∙◌, false, some, none, [], ◌∷◌, arith, Option, Bool, List, String, inl, inr,
}
use py_obscura_proto.Runtime.{
  World, Env, Exec, Call, Result, ok, Value, run, stop, connect, disconnect, connecting, starting,
  server_started, printed, async_with, Result-cases, ◌>>◌,
}
use py_obscura_proto.Callback.Blocking.{ended_with, blocking_result, blocking_calls}
use py_obscura_proto.Client.Methods.{disconnect_message}
use py_obscura_proto.Server.Guards.{stop_message}
use py_obscura_proto.Server
use py_obscura_proto.Server.{Server, new_server}
use py_obscura_proto.Server.Lifecycle.{server_context}
use py_obscura_proto.Client.{Client}
use py_obscura_proto.Client.Lifecycle.{client_context}
use py_obscura_proto.Examples.{Setting, print}
use py_obscura_proto.Examples.AsyncBoth
use py_obscura_proto.Examples.AsyncBoth.{Made, port_number, prepare, client_block, server_block}

new_server-port :
    (env : Env) (port : Option ℕ) (server : Server) (w v : World)
    → new_server env none port w ≡ (ok server, v)
    → server.port ≡ port
unfolding new_server
new_server-port env port server w v h = ground arith

printed_after :
    (m : Exec (Unit {0})) (line : String) (w : World)
    → let (r, u) = (m >> print line []) w in (r ≡ (m w).0) × (u.calls ≡ (m w).1.calls)
printed_after m line w = elim (Result-cases (m w).0) [
  | inl (y, q) ↦ ground arith
  | inr (y, q) ↦ ground arith
]

-- A blocking call that ends a block, on a thread that is outside of callbacks.
outside_ends :
    (env : Env) (c : Call) (inside : Bool) (message : String) (r r' : Result (Unit {0}))
    (cs cs' : List Call)
    → inside ≡ false
    → r ≡ r'
    → cs ≡ cs'
    → (blocking_result inside message (ended_with r (env.reply cs c))
        ≡ ended_with r' (env.reply cs' c))
      × (blocking_calls inside c cs ≡ c ∷ cs')
outside_ends env c inside message r r' cs cs' outside same_result same_calls =
    rw (outside, same_result, same_calls) (refl, refl)

module _ (env : Env) (t : ℕ) (x : Setting) (made : Made) (meanwhile : World → World)
    (server : Server) (client : Client) (ready : World) (b : Value) where
  server_block_ends :
      (w : World)
      → client.uri ≡ some made.uri
      → prepare env t x made meanwhile server w ≡ (ok client, ready)
      → env.reply ready.calls (connect client.native made.uri) ≡ ok b
      → let connected = record ready {
        calls = connect client.native made.uri ∷ ready.calls;
        logged = connecting ∷ ready.logged;
      } in
        let (r, u) = client_block env t x made meanwhile client connected in
        u.in_callback t ≡ false
        → let (r', u') = server_block env t x made meanwhile server w in
          (r' ≡ ended_with r (env.reply u.calls (disconnect client.native)))
          × (u'.calls ≡ disconnect client.native ∷ u.calls)
          × (u'.in_callback t ≡ false)
  unfolding server_block
  server_block_ends w addressed prepared connects outside =
      let (result, calls, flags) =
        client_context env t client (client_block env t x made meanwhile) ready made.uri addressed b
          connects in
      let left = client_block env t x made meanwhile client (record ready {
        calls = connect client.native made.uri ∷ ready.calls;
        logged = connecting ∷ ready.logged;
      }) in
      let (same_result, same_calls) =
        outside_ends env (disconnect client.native) _ disconnect_message left.0 left.0 left.1.calls
          left.1.calls outside refl refl in
      rw (prepared)
        (result ∙ same_result, calls ∙ same_calls, ap (λ flags'. flags' t) flags ∙ outside)

  -- The async example, once its server listens and its client is connected: however the exchange ends,
  -- done or by any exception, the client is disconnected and then the server stopped, as the last two
  -- calls of the bindings. The exception of the exchange goes on; one of the disconnection replaces it,
  -- and one of the stop replaces both. The exchange is to leave the thread outside of callbacks.
  pub async_example_ends :
      (w created : World) (a : Value)
      → new_server env none (some port_number) (record w {
        logged =
            printed "Starting server on port %s..." []
            ∷ printed "=== Async Server/Client Example ===" []
            ∷ w.logged;
      })
        ≡ (ok server, created)
      → env.reply created.calls (run server.native port_number) ≡ ok a
      → client.uri ≡ some made.uri
      → prepare env t x made meanwhile server (record created {
        calls = run server.native port_number ∷ created.calls;
        logged = server_started ∷ starting ∷ created.logged;
      })
        ≡ (ok client, ready)
      → env.reply ready.calls (connect client.native made.uri) ≡ ok b
      → let connected = record ready {
        calls = connect client.native made.uri ∷ ready.calls;
        logged = connecting ∷ ready.logged;
      } in
        let (r, u) = client_block env t x made meanwhile client connected in
        u.in_callback t ≡ false
        → let (r', u') = AsyncBoth.main env t x made meanwhile w in
          let disconnects = disconnect client.native in
          let disconnected = env.reply u.calls disconnects in
          let stopped = env.reply (disconnects ∷ u.calls) (stop server.native) in
          (r' ≡ ended_with (ended_with r disconnected) stopped)
          × (u'.calls ≡ stop server.native ∷ disconnects ∷ u.calls)
  unfolding AsyncBoth.main
  async_example_ends w created a makes listens addressed prepared connects outside =
      let started = record created {
        calls = run server.native port_number ∷ created.calls;
        logged = server_started ∷ starting ∷ created.logged;
      } in
      let (result, calls, flag) = server_block_ends started addressed prepared connects outside in
      let (result', calls') =
        server_context env t server (server_block env t x made meanwhile) created port_number
          (new_server-port env (some port_number) server _ created makes) a listens in
      let block =
        async_with (Server.enter env t server) (Server.exit env t server)
          (server_block env t x made meanwhile) in
      let (result'', calls'') = printed_after block "\nExample finished successfully." created in
      let left = server_block env t x made meanwhile server started in
      let (same_result, same_calls) =
        outside_ends env (stop server.native) _ stop_message left.0 _ left.1.calls _ flag result
          calls in
      rw (makes) (result'' ∙ result' ∙ same_result, calls'' ∙ calls' ∙ same_calls)
