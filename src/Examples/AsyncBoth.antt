-- ===== src/Examples/AsyncBoth.antt =====
-- examples/async_server_client.py
pub mod Handlers
use py_obscura_proto.Base.{ℕ, pos, true, [], ◌∷◌, none, some, if◌then◌else◌}
use py_obscura_proto.Runtime.{
  World, Env, Exec, Exc, timeout_error, text, Value, bool_value, error_value, Fn, plain,
  native_call, generate_sign_keypair, make_reader, read, read_int, async_with, raise, pure, ◌>>=◌,
  ◌>>◌,
}
use py_obscura_proto.Executor.{Submission}
use py_obscura_proto.Server
use py_obscura_proto.Server.{Server, new_server}
use py_obscura_proto.Client
use py_obscura_proto.Client.{Client, new_client}
use py_obscura_proto.Stream
use py_obscura_proto.Examples.{Setting, print, given, concat_bytes}
use py_obscura_proto.Examples.Streaming.{echo_prefix}

abbrev pub port_number : ℕ
port_number = 9001

-- The three events.
abbrev pub client_ready : ℕ
client_ready = 0

abbrev pub server_echo_done : ℕ
server_echo_done = 1

abbrev pub stream_echo_received : ℕ
stream_echo_received = 2

-- `f"Echo: {message}"`, the other values that are sent, the address, and the functions; a closure that is
-- made for a stream is one for each stream. `submitted` is how the `await` of a submission ends.
pub record Made : Type 0 where
  pub echo_of : Value → Value
  pub ack : Value
  pub twenty : Value
  pub twenty_two : Value
  pub hello : Value
  pub one : Value
  pub stream_test : Value
  pub uri : ℕ
  pub submitted : Submission → Exec Value
  pub handle_server_error_fn : Fn
  pub handle_message_fn : Fn
  pub handle_calculation_fn : Fn
  pub handle_stream_fn : Fn
  pub verify_identity_fn : Fn
  pub handle_client_error_fn : Fn
  pub handle_echo_fn : Fn
  pub on_ready_fn : Fn
  pub on_disconnect_fn : Fn
  pub on_data_fn : ℕ → Fn
  pub on_end_fn : ℕ → Fn
  pub on_stream_data_fn : Fn

module _ (env : Env) (t : ℕ) (x : Setting) (made : Made) (meanwhile : World → World) where
  -- `asyncio.wait_for(event.wait(), timeout=5)`
  unfoldable pub wait_for : ℕ → Exec (Unit {0})
  wait_for event = do
    happened ← x.waits event 5_000_000
    if happened then pure tt else raise (timeout_error (text ""))

  -- The handlers of the server, in the order of their registrations.
  unfoldable pub register_server : Server → Exec (Unit {0})
  unfolding Server.attach_event_loop Server.on_error Server.on_payload Server.on_request
      Server.on_incoming_stream Server.on_client_identity
  register_server server = do
    Server.attach_event_loop env t server none
    Server.on_error env t server made.handle_server_error_fn
    Server.on_payload env t server 0x1001 made.handle_message_fn
    Server.on_request env t server 0x3001 made.handle_calculation_fn
    Server.on_incoming_stream env t server made.handle_stream_fn
    Server.on_client_identity env t server made.verify_identity_fn
    print "\nServer ready. Running the client example...\n" []

  unfoldable pub register_client : Client → Exec (Unit {0})
  unfolding Client.set_identity Client.attach_event_loop Client.on_error Client.on_request
      Client.on_ready Client.on_disconnect
  register_client client = do
    keypair ← native_call env generate_sign_keypair
    Client.set_identity env t client keypair
    Client.attach_event_loop env t client none
    Client.on_error env t client made.handle_client_error_fn
    Client.on_request env t client 0x2001 made.handle_echo_fn
    Client.on_ready env t client (some (plain made.on_ready_fn))
    Client.on_disconnect env t client (some (plain made.on_disconnect_fn))
    pure tt

  -- 1. The request of the client.
  unfoldable pub calculate : Client → Exec (Unit {0})
  unfolding Client.async_request
  calculate client = do
    print "\n[Client] Sending async calculation request..." []
    request ← given (x.build 0x3001 (made.twenty ∷ made.twenty_two ∷ []))
    awaiting ← Client.async_request env t client meanwhile request (some (pos 5_000_000))
    response ← x.awaits awaiting
    reader ← native_call env (make_reader response)
    answer ← native_call env (read read_int reader)
    print "[Client] Server says 20 + 22 = %s" (answer ∷ [])

  -- 2. The request of the server, which a payload triggers.
  unfoldable pub trigger_echo : Client → Exec (Unit {0})
  unfolding Client.send_payload wait_for
  trigger_echo client = do
    print "[Client] Sending payload to trigger a server-initiated async request..." []
    packet ← given (x.build 0x1001 (made.hello ∷ made.one ∷ []))
    Client.send_payload env t client packet
    wait_for server_echo_done

  -- 3. The stream.
  unfoldable pub echo_stream : Client → Exec (Unit {0})
  unfolding Client.start_stream Stream.on_data Stream.write wait_for Stream.end
  echo_stream client = do
    print "[Client] Starting a stream..." []
    stream ← Client.start_stream env t client none
    Stream.on_data env t stream made.on_stream_data_fn
    Stream.write env stream made.stream_test
    wait_for stream_echo_received
    Stream.end env stream
    x.sleeps 200_000

  unfoldable pub client_block : Client → Exec (Unit {0})
  unfolding wait_for calculate trigger_echo echo_stream
  client_block client = do
    wait_for client_ready
    calculate client
    trigger_echo client
    echo_stream client

  -- The block of `async with Server(port=PORT) as server`, up to `async with client`.
  unfoldable pub prepare : Server → Exec Client
  unfolding Server.public_key register_server new_client register_client
  prepare server = do
    x.sleeps 100_000
    shown ← Server.public_key env t server
    print "Server public key: %s..." (shown ∷ [])
    register_server server
    key ← Server.public_key env t server
    client ← new_client env key none (some made.uri)
    register_client client
    pure client

  unfoldable pub server_block : Server → Exec (Unit {0})
  unfolding prepare client_block Client.enter Client.exit
  server_block server = do
    client ← prepare server
    async_with (Client.enter env t client) (Client.exit env t client) client_block

  unfoldable pub main : Exec (Unit {0})
  unfolding new_server Server.enter Server.exit server_block
  main = do
    print "=== Async Server/Client Example ===" []
    print "Starting server on port %s..." []
    server ← new_server env none (some port_number)
    async_with (Server.enter env t server) (Server.exit env t server) server_block
    print "\nExample finished successfully." []
