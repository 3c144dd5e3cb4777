-- ===== src/Runtime/Calls.antt =====
-- The calls of the C++ bindings, `_bindings`, with the object that receives the call first.
use py_obscura_proto.Base.{ℕ, Option}
use py_obscura_proto.Runtime.Data.{Value, Wrapped, ReadMethod}

pub data Call : Type 0 where
  generate_sign_keypair with_defaults : Call
  get_public_key make_key_view : Value → Call
  make_server make_client : Value → Value → Call
  run : Value → ℕ → Call
  stop disconnect : Value → Call
  connect : Value → ℕ → Call
  send send_anonymous send_to_identity : Value → Value → Value → Call
  server_sync_request sync_request_to_identity async_request_to_identity :
      Value → Value → Value → Call
  server_async_request : Value → Value → Value → Option ℕ → Call
  server_start_stream : Value → Value → Option ℕ → Call
  client_send : Value → Value → Call
  client_sync_request client_async_request : Value → Value → Option ℕ → Call
  client_start_stream : Value → Option ℕ → Call
  set_client_identity get_client_identity : Value → Value → Call
  set_on_open_callback set_on_close_callback set_on_ready_callback set_on_disconnect_callback :
      Value → Option Wrapped → Call
  register_incoming_stream_handler set_default_payload_handler : Value → Option Wrapped → Call
  set_anon_default_payload_handler set_client_identity_handler : Value → Option Wrapped → Call
  register_stream_handler register_anon_stream_handler : Value → ℕ → Option Wrapped → Call
  register_op_handler register_request_handler : Value → ℕ → Option Wrapped → Call
  register_anon_op_handler register_anon_request_handler : Value → ℕ → Option Wrapped → Call
  stream_write : Value → Value → Call
  stream_end stream_cancel get_stream_id get_op_code : Value → Call
  set_data_handler set_end_handler set_cancel_handler : Value → Option Wrapped → Call
  make_reader : Value → Call
  read : ReadMethod → Value → Call
  future_ready future_get : ℕ → Call
