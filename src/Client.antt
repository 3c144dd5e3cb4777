-- ===== src/Client.antt =====
-- `Client` (src/ObscuraProto/__init__.py). `t` is the thread that calls a method.
pub mod Methods
pub mod Lifecycle
pub mod Requests
use py_obscura_proto.Base.{ℕ, ℤ, Bool, true, false, String, Option, none, some, ◌∷◌}
use py_obscura_proto.Runtime.{
  World, Env, Exec, Result, ok, raised, Value, key_value, none_value, Fn, Body, plain,
  stream_wrapper, type_error, text, make_key_view, with_defaults, make_client, connect, disconnect,
  set_client_identity, client_send, client_sync_request, client_async_request, client_start_stream,
  set_on_ready_callback, set_on_disconnect_callback, register_incoming_stream_handler,
  register_stream_handler, register_op_handler, register_request_handler,
  set_default_payload_handler, LogLine, connecting, native_call, pure, raise, modify, ◌>>=◌, ◌>>◌,
}
use py_obscura_proto.Callback.{reject_in_callback, warn_if_event_loop_thread}
use py_obscura_proto.Polling.{callback_result_timeout}
use py_obscura_proto.Executor.{Submission, run_in_stream_executor}
use py_obscura_proto.Response.{request_timeout_ms, Awaiting, await_cpp_future}
use py_obscura_proto.Unpack.{create_unpacking_handler, create_request_unpacking_handler}
use py_obscura_proto.Dispatcher.{
  new_dispatcher, set_error_handler, attach, wrap, wrap_fire_and_forget,
}
use py_obscura_proto.Dispatcher.Bodies.{adopt_stream}

-- `_client`, `_dispatcher` and `_uri`; a URI by its identity.
pub record Client : Type 0 where
  pub native : Value
  pub dispatcher : ℕ
  pub uri : Option ℕ

-- `isinstance(server_public_key, PublicKey)`
unfoldable pub require_public_key : Value → Exec (Unit {0})
require_public_key (key_value k) = pure tt
require_public_key _ = raise (type_error (text "server_public_key must be a PublicKey object."))

unfoldable pub config_or_default : Env → Option Value → Exec Value
config_or_default env none = native_call env with_defaults
config_or_default env (some config) = pure config

-- `Client(server_public_key, config, uri)`
unfoldable pub new_client : Env → Value → Option Value → Option ℕ → Exec Client
unfolding require_public_key config_or_default new_dispatcher
new_client env server_public_key config uri = do
  require_public_key server_public_key
  key_view ← native_call env (make_key_view server_public_key)
  cfg ← config_or_default env config
  native ← native_call env (make_client key_view cfg)
  d ← new_dispatcher callback_result_timeout
  pure (record { native = native; dispatcher = d; uri = uri })

module _ (env : Env) (t : ℕ) (client : Client) where
  unfoldable pub attach_event_loop : Option ℕ → Exec (Unit {0})
  attach_event_loop loop = attach env t client.dispatcher loop

  unfoldable pub on_error : Fn → Exec Fn
  on_error handler = do set_error_handler client.dispatcher (some handler); pure handler

  unfoldable pub set_identity : Value → Exec (Unit {0})
  set_identity keypair = do native_call env (set_client_identity client.native keypair); pure tt

  unfoldable pub connect_to : ℕ → Exec (Unit {0})
  connect_to uri = do
    modify λ w. record w { logged = connecting ∷ w.logged }
    native_call env (connect client.native uri)
    pure tt

  unfoldable pub disconnect_client : Exec (Unit {0})
  unfolding reject_in_callback
  disconnect_client = do
    reject_in_callback t
        "Client.disconnect() cannot be called from a callback/IO thread (self-join deadlock)"
    native_call env (disconnect client.native)
    pure tt

  -- `__aenter__`, with the connection that it makes if a URI was given.
  unfoldable pub enter : Exec Client
  unfolding connect_to
  enter w = elim client.uri [ none ↦ (ok client, w) | some uri ↦ (connect_to uri >> pure client) w ]

  -- `__aexit__`: the answer is that the exception, if there is one, is not suppressed.
  unfoldable pub exit : Exec Bool
  unfolding disconnect_client
  exit = do disconnect_client; pure false

  unfoldable pub send_payload : Value → Exec (Unit {0})
  send_payload packet = do native_call env (client_send client.native packet); pure tt

  -- `timeout_ms` is forwarded as it is.
  unfoldable pub sync_request : Value → Option ℕ → Exec Value
  unfolding reject_in_callback warn_if_event_loop_thread
  sync_request packet timeout_ms = do
    warn_if_event_loop_thread env t
    reject_in_callback t "sync_request cannot be called from a callback/IO thread"
    native_call env (client_sync_request client.native packet timeout_ms)

  -- `timeout` in microseconds; up to the point where the coroutine waits.
  unfoldable pub async_request : (World → World) → Value → Option ℤ → Exec Awaiting
  async_request meanwhile packet timeout = do
    future ←
        native_call env (client_async_request client.native packet (request_timeout_ms timeout))
    await_cpp_future meanwhile future timeout "async_request"

  unfoldable pub start_stream : Option ℕ → Exec ℕ
  unfolding adopt_stream
  start_stream stream_op_code = do
    cpp ← native_call env (client_start_stream client.native stream_op_code)
    adopt_stream client.dispatcher cpp

  -- Up to the point where the coroutine waits for the stream pool.
  unfoldable pub async_start_stream : (World → World) → Option ℕ → Exec Submission
  async_start_stream meanwhile stream_op_code =
      run_in_stream_executor meanwhile (client_start_stream client.native stream_op_code)

  -- The rest of `async_start_stream`, from what the submitted call ended with.
  unfoldable pub resume_start_stream : Result Value → Exec ℕ
  unfolding adopt_stream
  resume_start_stream result = (λ w. (result, w)) >>= adopt_stream client.dispatcher

  unfoldable pub on_incoming_stream : Fn → Exec Fn
  on_incoming_stream handler = do
    wrapped ← wrap env t client.dispatcher (some (stream_wrapper client.dispatcher handler))
    native_call env (register_incoming_stream_handler client.native wrapped)
    pure handler

  unfoldable pub on_stream : ℕ → Fn → Exec Fn
  on_stream opcode handler = do
    wrapped ← wrap env t client.dispatcher (some (stream_wrapper client.dispatcher handler))
    native_call env (register_stream_handler client.native opcode wrapped)
    pure handler

  unfoldable pub on_ready : Option Body → Exec (Option Body)
  on_ready handler = do
    wrapped ← wrap_fire_and_forget env t client.dispatcher handler
    native_call env (set_on_ready_callback client.native wrapped)
    pure handler

  unfoldable pub on_disconnect : Option Body → Exec (Option Body)
  on_disconnect handler = do
    wrapped ← wrap_fire_and_forget env t client.dispatcher handler
    native_call env (set_on_disconnect_callback client.native wrapped)
    pure handler

  unfoldable pub on_payload : ℕ → Fn → Exec Fn
  on_payload opcode handler = do
    body ← create_unpacking_handler env handler false
    wrapped ← wrap_fire_and_forget env t client.dispatcher (some body)
    native_call env (register_op_handler client.native opcode wrapped)
    pure handler

  unfoldable pub default_payload_handler : Fn → Exec Fn
  default_payload_handler handler = do
    body ← create_unpacking_handler env handler false
    wrapped ← wrap_fire_and_forget env t client.dispatcher (some body)
    native_call env (set_default_payload_handler client.native wrapped)
    pure handler

  unfoldable pub on_request : ℕ → Fn → Exec Fn
  on_request opcode handler = do
    wrapped ← wrap env t client.dispatcher (some (create_request_unpacking_handler handler false))
    native_call env (register_request_handler client.native opcode wrapped)
    pure handler
