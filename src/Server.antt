-- ===== src/Server.antt =====
-- `Server` (src/ObscuraProto/__init__.py). `t` is the thread that calls a method.
pub mod Guards
pub mod Requests
pub mod Streams
pub mod Registration
pub mod Registry
pub mod EndToEnd
pub mod Answers
pub mod Lifecycle
use py_obscura_proto.Base.{ℕ, ℤ, pos, Bool, true, false, String, Option, none, some, List, ◌∷◌}
use py_obscura_proto.Runtime.{
  World, Env, Exec, Result, ok, raised, Value, bool_value, Fn, Body, plain, stream_wrapper,
  unpacking, Wrapped, identity, Call, generate_sign_keypair, get_public_key, with_defaults,
  make_server, run, stop, send, send_anonymous, send_to_identity, server_sync_request,
  sync_request_to_identity, async_request_to_identity, server_async_request, server_start_stream,
  get_client_identity, set_on_open_callback, set_on_close_callback,
  register_incoming_stream_handler, set_default_payload_handler, set_anon_default_payload_handler,
  set_client_identity_handler, register_stream_handler, register_anon_stream_handler,
  register_op_handler, register_request_handler, register_anon_op_handler,
  register_anon_request_handler, LogLine, starting, stopping, server_started, server_stopped,
  native_call, none_value, pure, modify, ◌>>=◌, ◌>>◌,
}
use py_obscura_proto.Callback.{reject_in_callback, warn_if_event_loop_thread}
use py_obscura_proto.Polling.{callback_result_timeout}
use py_obscura_proto.Executor.{Submission, run_in_stream_executor}
use py_obscura_proto.Response.{request_timeout_ms, Awaiting, await_cpp_future}
use py_obscura_proto.Unpack.{create_unpacking_handler, create_request_unpacking_handler}
use py_obscura_proto.Dispatcher.{
  new_dispatcher, set_error_handler, attach, wrap, wrap_fire_and_forget, wrap_identity,
}
use py_obscura_proto.Dispatcher.Bodies.{adopt_stream}

-- `_long_term_key`, `_server`, `_dispatcher` and `_port`.
pub record Server : Type 0 where
  pub long_term_key : Value
  pub native : Value
  pub dispatcher : ℕ
  pub port : Option ℕ

-- `config if config is not None else Config.with_defaults()`
unfoldable pub config_or_default : Env → Option Value → Exec Value
config_or_default env none = native_call env with_defaults
config_or_default env (some config) = pure config

unfoldable pub log : LogLine → Exec (Unit {0})
log line = modify λ w. record w { logged = line ∷ w.logged }

-- `Server(config, port)`
unfoldable pub new_server : Env → Option Value → Option ℕ → Exec Server
unfolding config_or_default new_dispatcher
new_server env config port = do
  key ← native_call env generate_sign_keypair
  cfg ← config_or_default env config
  native ← native_call env (make_server key cfg)
  d ← new_dispatcher callback_result_timeout
  pure (record { long_term_key = key; native = native; dispatcher = d; port = port })

module _ (env : Env) (t : ℕ) (server : Server) where
  unfoldable pub attach_event_loop : Option ℕ → Exec (Unit {0})
  attach_event_loop loop = attach env t server.dispatcher loop

  unfoldable pub on_error : Fn → Exec Fn
  on_error handler = do set_error_handler server.dispatcher (some handler); pure handler

  -- `public_key`, an attribute of the key pair.
  unfoldable pub public_key : Exec Value
  public_key = native_call env (get_public_key server.long_term_key)

  unfoldable pub start : ℕ → Exec (Unit {0})
  unfolding log
  start port = do log starting; native_call env (run server.native port); log server_started

  unfoldable pub stop_server : Exec (Unit {0})
  unfolding log reject_in_callback
  stop_server = do
    reject_in_callback t
        "Server.stop() cannot be called from a callback/IO thread (self-join deadlock)"
    log stopping
    native_call env (stop server.native)
    log server_stopped

  -- `__aenter__`, with the start that it makes if a port was given.
  unfoldable pub enter : Exec Server
  unfolding start
  enter w = elim server.port [ none ↦ (ok server, w) | some port ↦ (start port >> pure server) w ]

  -- `__aexit__`: the answer is that the exception, if there is one, is not suppressed.
  unfoldable pub exit : Exec Bool
  unfolding stop_server
  exit = do stop_server; pure false

  unfoldable pub on_open : Option Body → Exec (Option Body)
  on_open handler = do
    wrapped ← wrap_fire_and_forget env t server.dispatcher handler
    native_call env (set_on_open_callback server.native wrapped)
    pure handler

  unfoldable pub on_close : Option Body → Exec (Option Body)
  on_close handler = do
    wrapped ← wrap_fire_and_forget env t server.dispatcher handler
    native_call env (set_on_close_callback server.native wrapped)
    pure handler

  unfoldable pub send_payload : Value → Value → Exec (Unit {0})
  send_payload conn packet = do native_call env (send server.native conn packet); pure tt

  unfoldable pub sync_request : Value → Value → Exec Value
  unfolding reject_in_callback warn_if_event_loop_thread
  sync_request conn packet = do
    warn_if_event_loop_thread env t
    reject_in_callback t "sync_request cannot be called from a callback/IO thread"
    native_call env (server_sync_request server.native conn packet)

  -- `timeout` in microseconds; up to the point where the coroutine waits.
  unfoldable pub async_request : (World → World) → Value → Value → Option ℤ → Exec Awaiting
  async_request meanwhile conn packet timeout = do
    future ←
        native_call env
          (server_async_request server.native conn packet (request_timeout_ms timeout))
    await_cpp_future meanwhile future timeout "async_request"

  unfoldable pub start_stream : Value → Option ℕ → Exec ℕ
  unfolding adopt_stream
  start_stream conn stream_op_code = do
    cpp ← native_call env (server_start_stream server.native conn stream_op_code)
    adopt_stream server.dispatcher cpp

  -- Up to the point where the coroutine waits for the stream pool.
  unfoldable pub async_start_stream : (World → World) → Value → Option ℕ → Exec Submission
  async_start_stream meanwhile conn stream_op_code =
      run_in_stream_executor meanwhile (server_start_stream server.native conn stream_op_code)

  -- The rest of `async_start_stream`, from what the submitted call ended with.
  unfoldable pub resume_start_stream : Result Value → Exec ℕ
  unfolding adopt_stream
  resume_start_stream result = (λ w. (result, w)) >>= adopt_stream server.dispatcher

  unfoldable pub on_incoming_stream : Fn → Exec Fn
  on_incoming_stream handler = do
    wrapped ← wrap env t server.dispatcher (some (stream_wrapper server.dispatcher handler))
    native_call env (register_incoming_stream_handler server.native wrapped)
    pure handler

  unfoldable pub on_stream : ℕ → Fn → Exec Fn
  on_stream opcode handler = do
    wrapped ← wrap env t server.dispatcher (some (stream_wrapper server.dispatcher handler))
    native_call env (register_stream_handler server.native opcode wrapped)
    pure handler

  unfoldable pub on_anon_stream : ℕ → Fn → Exec Fn
  on_anon_stream opcode handler = do
    wrapped ← wrap env t server.dispatcher (some (stream_wrapper server.dispatcher handler))
    native_call env (register_anon_stream_handler server.native opcode wrapped)
    pure handler

  unfoldable pub on_payload : ℕ → Fn → Exec Fn
  on_payload opcode handler = do
    body ← create_unpacking_handler env handler true
    wrapped ← wrap_fire_and_forget env t server.dispatcher (some body)
    native_call env (register_op_handler server.native opcode wrapped)
    pure handler

  unfoldable pub default_payload_handler : Fn → Exec Fn
  default_payload_handler handler = do
    body ← create_unpacking_handler env handler true
    wrapped ← wrap_fire_and_forget env t server.dispatcher (some body)
    native_call env (set_default_payload_handler server.native wrapped)
    pure handler

  unfoldable pub on_request : ℕ → Fn → Exec Fn
  on_request opcode handler = do
    wrapped ← wrap env t server.dispatcher (some (create_request_unpacking_handler handler true))
    native_call env (register_request_handler server.native opcode wrapped)
    pure handler

  unfoldable pub send_to_anonymous : Value → Value → Exec (Unit {0})
  send_to_anonymous conn packet = do
    native_call env (send_anonymous server.native conn packet)
    pure tt

  unfoldable pub on_anon_payload : ℕ → Fn → Exec Fn
  on_anon_payload opcode handler = do
    body ← create_unpacking_handler env handler true
    wrapped ← wrap_fire_and_forget env t server.dispatcher (some body)
    native_call env (register_anon_op_handler server.native opcode wrapped)
    pure handler

  unfoldable pub anon_default_payload_handler : Fn → Exec Fn
  anon_default_payload_handler handler = do
    body ← create_unpacking_handler env handler true
    wrapped ← wrap_fire_and_forget env t server.dispatcher (some body)
    native_call env (set_anon_default_payload_handler server.native wrapped)
    pure handler

  unfoldable pub on_anon_request : ℕ → Fn → Exec Fn
  on_anon_request opcode handler = do
    wrapped ← wrap env t server.dispatcher (some (create_request_unpacking_handler handler true))
    native_call env (register_anon_request_handler server.native opcode wrapped)
    pure handler

  unfoldable pub on_client_identity : Fn → Exec Fn
  on_client_identity handler = do
    wrapped ← wrap_identity env t server.dispatcher handler
    native_call env (set_client_identity_handler server.native (some wrapped))
    pure handler

  unfoldable pub client_identity : Value → Exec Value
  client_identity conn = native_call env (get_client_identity server.native conn)

  unfoldable pub send_identity : Value → Value → Exec (Unit {0})
  send_identity pk packet = do native_call env (send_to_identity server.native pk packet); pure tt

  -- The timeout is not forwarded here.
  unfoldable pub async_request_identity : (World → World) → Value → Value → Option ℤ → Exec Awaiting
  async_request_identity meanwhile pk packet timeout = do
    future ← native_call env (async_request_to_identity server.native pk packet)
    await_cpp_future meanwhile future timeout "async_request_to_identity"

  unfoldable pub sync_request_identity : Value → Value → Exec Value
  unfolding reject_in_callback warn_if_event_loop_thread
  sync_request_identity pk packet = do
    warn_if_event_loop_thread env t
    reject_in_callback t "sync_request cannot be called from a callback/IO thread"
    native_call env (sync_request_to_identity server.native pk packet)
