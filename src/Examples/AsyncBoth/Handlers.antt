-- ===== src/Examples/AsyncBoth/Handlers.antt =====
-- The handlers of examples/async_server_client.py, each an identity in `Made`.
use py_obscura_proto.Base.{ℕ, pos, true, [], ◌∷◌, some}
use py_obscura_proto.Runtime.{
  World, Env, Exec, Exc, Value, bool_value, error_value, pure, ◌>>=◌, ◌>>◌,
}
use py_obscura_proto.Server
use py_obscura_proto.Server.{Server, new_server}
use py_obscura_proto.Stream
use py_obscura_proto.Examples.{Setting, print, given, concat_bytes}
use py_obscura_proto.Examples.Streaming.{echo_prefix}
use py_obscura_proto.Examples.AsyncBoth.{Made, client_ready, server_echo_done, stream_echo_received}

module _ (env : Env) (t : ℕ) (x : Setting) (made : Made) (meanwhile : World → World) where
  unfoldable pub handle_server_error : Exc → Exec (Unit {0})
  handle_server_error error = print "[Server] Error: %s" (error_value error ∷ [])

  unfoldable pub handle_message : Server → Value → Value → Value → Exec (Unit {0})
  unfolding Server.async_request
  handle_message server hdl message value = do
    print "[Server] Received message: '%s' with value: %s" (message ∷ value ∷ [])
    response ← given (x.build 0x2001 (made.echo_of message ∷ []))
    awaiting ← Server.async_request env t server meanwhile hdl response (some (pos 5_000_000))
    x.awaits awaiting
    print "[Server] Client acknowledged the echo" []
    x.sets server_echo_done

  unfoldable pub handle_calculation : Value → Value → Value → Exec Value
  handle_calculation hdl a b = do
    print "[Server] Calculating: %s + %s" (a ∷ b ∷ [])
    result ← given (x.add a b)
    given (x.build 0x3002 (result ∷ []))

  unfoldable pub on_data_handler : ℕ → Value → Exec (Unit {0})
  unfolding concat_bytes Stream.async_write
  on_data_handler stream chunk = do
    print "[Server] Stream data: %s" (chunk ∷ [])
    echo ← given (concat_bytes echo_prefix chunk)
    submission ← Stream.async_write meanwhile stream echo
    made.submitted submission
    pure tt

  unfoldable pub on_end_handler : ℕ → Exec (Unit {0})
  unfolding Stream.async_end
  on_end_handler stream = do
    print "[Server] Stream ended" []
    submission ← Stream.async_end meanwhile stream
    made.submitted submission
    pure tt

  unfoldable pub handle_stream : ℕ → Exec (Unit {0})
  unfolding Stream.stream_id Stream.on_data Stream.on_end
  handle_stream stream = do
    ident ← Stream.stream_id env stream
    print "[Server] New stream: %s" (ident ∷ [])
    Stream.on_data env t stream (made.on_data_fn stream)
    Stream.on_end env t stream (made.on_end_fn stream)
    pure tt

  unfoldable pub verify_identity : Value → Value → Exec Value
  verify_identity hdl pk = do
    print "[Server] Verifying identity: %s..." (pk ∷ [])
    pure (bool_value true)

  unfoldable pub handle_client_error : Exc → Exec (Unit {0})
  handle_client_error error = print "[Client] Error: %s" (error_value error ∷ [])

  unfoldable pub handle_echo : Value → Exec Value
  handle_echo message = do
    print "[Client] Got echo request: '%s'" (message ∷ [])
    given (x.build 0x2002 (made.ack ∷ []))

  unfoldable pub on_ready_handler : Exec (Unit {0})
  on_ready_handler = do print "[Client] Connected and ready" []; x.sets client_ready

  unfoldable pub on_disconnect_handler : Exec (Unit {0})
  on_disconnect_handler = print "[Client] Disconnected" []

  unfoldable pub on_stream_data : Value → Exec (Unit {0})
  on_stream_data chunk = do
    print "[Client] Stream echo: %s" (chunk ∷ [])
    x.sets stream_echo_received
