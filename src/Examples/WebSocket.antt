-- ===== src/Examples/WebSocket.antt =====
-- examples/python_websocket_example.py
use py_obscura_proto.Base.{
  ℕ, ◌==◌, String, Bool, true, false, ◌&&◌, [], ◌∷◌, none, some, if◌then◌else◌,
}
use py_obscura_proto.Runtime.{Env, Exec, Value, Fn, plain, pure, ◌>>=◌, ◌>>◌}
use py_obscura_proto.Server.{
  Server, new_server, on_anon_payload, start, public_key, stop_server, send_to_anonymous,
}
use py_obscura_proto.Client.{
  Client, new_client, on_ready, on_disconnect, on_payload, connect_to, send_payload,
  disconnect_client,
}
use py_obscura_proto.Examples.{Setting, print, given}

abbrev pub op_client_msg : ℕ
op_client_msg = 0x1001

abbrev pub op_server_response : ℕ
op_server_response = 0x2002

-- The three events, and the values of the two messages.
abbrev pub client_ready_event : ℕ
client_ready_event = 0

abbrev pub server_received_event : ℕ
server_received_event = 1

abbrev pub client_received_event : ℕ
client_received_event = 2

-- What the program makes: `"Hello from server!"`, `"Hello from client!"`, `uint(42)`, and the functions.
pub record Made : Type 0 where
  pub hello_from_server : Value
  pub hello_from_client : Value
  pub forty_two : Value
  pub uri : ℕ
  pub handle_client_message_fn : Fn
  pub on_client_ready_fn : Fn
  pub on_client_disconnect_fn : Fn
  pub handle_server_response_fn : Fn

module _ (env : Env) (t : ℕ) (x : Setting) (made : Made) where
  unfoldable pub handle_client_message : Server → Value → Value → Value → Exec (Unit {0})
  unfolding send_to_anonymous
  handle_client_message server hdl message value = do
    print "\n--- Server Received Message ---" []
    print "[SERVER] Received: message='{message}', value={value}" (message ∷ value ∷ [])
    response ← given (x.build op_server_response (made.hello_from_server ∷ []))
    send_to_anonymous env t server hdl response
    x.sets server_received_event

  unfoldable pub on_client_ready : Exec (Unit {0})
  on_client_ready = do
    print "\n--- Client Ready ---" []
    print "[CLIENT] Handshake complete. Ready to send data." []
    x.sets client_ready_event

  unfoldable pub on_client_disconnect : Exec (Unit {0})
  on_client_disconnect = print "[CLIENT] Disconnected from server." []

  unfoldable pub handle_server_response : Value → Exec (Unit {0})
  handle_server_response response = do
    print "\n--- Client Received Response ---" []
    print "[CLIENT] Received: response='{response}'" (response ∷ [])
    x.sets client_received_event

  -- 2. The server.
  unfoldable pub make_server_started : Exec Server
  unfolding new_server on_anon_payload start
  make_server_started = do
    server ← new_server env none none
    on_anon_payload env t server op_client_msg made.handle_client_message_fn
    start env t server 9002
    x.sleeps 100_000
    pure server

  -- 3. The client.
  unfoldable pub make_client_connected : Server → Exec Client
  unfolding public_key new_client on_ready on_disconnect on_payload connect_to
  make_client_connected server = do
    key ← public_key env t server
    client ← new_client env key none none
    on_ready env t client (some (plain made.on_client_ready_fn))
    on_disconnect env t client (some (plain made.on_client_disconnect_fn))
    on_payload env t client op_server_response made.handle_server_response_fn
    connect_to env t client made.uri
    pure client

  -- 5. and 6., with the answers of the two waits.
  unfoldable pub exchange : Client → Exec (Bool × Bool)
  unfolding send_payload
  exchange client = do
    print "\n--- Client Sending Message ---" []
    client_payload ← given (x.build op_client_msg (made.hello_from_client ∷ made.forty_two ∷ []))
    send_payload env t client client_payload
    print "[SYSTEM] Waiting for message exchange to complete..." []
    server_received ← x.waits server_received_event 5_000_000
    client_received ← x.waits client_received_event 5_000_000
    pure (server_received, client_received)

  abbrev pub verdict : Bool → String
  verdict true = "\n[SYSTEM] Communication successful."
  verdict false = "\n[SYSTEM] Communication failed or timed out."

  -- 7.
  unfoldable pub shutdown : Server → Client → Exec (Unit {0})
  unfolding disconnect_client stop_server
  shutdown server client = do
    print "\n[SYSTEM] Shutting down..." []
    disconnect_client env t client
    stop_server env t server
    print "[SYSTEM] Shutdown complete." []

  -- From the answer of the wait for the handshake on.
  unfoldable pub run_ready : Server → Client → Bool → Exec (Unit {0})
  unfolding exchange shutdown stop_server
  run_ready server client true = do
    received ← exchange client
    print (verdict (received.0 && received.1)) []
    shutdown server client
  run_ready server client false = do
    print "[SYSTEM] Client did not become ready in time!" []
    stop_server env t server

  unfoldable pub main : Exec (Unit {0})
  unfolding make_server_started make_client_connected run_ready
  main = do
    code ← given x.init
    if code == 0
        then (do
          print "[SYSTEM] Crypto library initialized." []
          server ← make_server_started
          client ← make_client_connected server
          print "[SYSTEM] Waiting for client to complete handshake..." []
          ready ← x.waits client_ready_event 5_000_000
          run_ready server client ready)
        else print "[SYSTEM] Failed to initialize crypto library!" []
