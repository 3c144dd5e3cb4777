-- ===== src/Client/Methods.antt =====
-- The guards of a client's methods.
use py_obscura_proto.Base.{
  ℕ, inl, inr, Bool-cases, ◌≡◌, refl, String, Option, Bool, true, false, arith,
}
use py_obscura_proto.Runtime.{
  World, Env, raised, disconnect, client_sync_request, Value, key_value, Fn, hdl_on_client,
  type_error, text,
}
use py_obscura_proto.Unpack.Payloads.{any_hint, is_hdl, create_unpacking_handler-hdl}
use py_obscura_proto.Callback.Blocking.{blocking_calls, blocking_result, ended, sync_message}
use py_obscura_proto.Client.{
  Client, new_client, disconnect_client, exit, sync_request, on_payload, default_payload_handler,
}

abbrev pub disconnect_message : String
disconnect_message =
    "Client.disconnect() cannot be called from a callback/IO thread (self-join deadlock)"

-- The three blocking methods of a client. Inside a callback each raises `LogicError` and makes no call of
-- the bindings; on any other thread each makes exactly one, a request with its timeout, and ends
-- as that call ends.
pub client_blocking_guarded :
    (env : Env) (t : ℕ) (client : Client) (packet : Value) (timeout_ms : Option ℕ) (w : World)
    → let inside = w.in_callback t in
      let disconnects = disconnect client.native in
      let request = client_sync_request client.native packet timeout_ms in
      ((disconnect_client env t client w).1.calls ≡ blocking_calls inside disconnects w.calls)
      × ((disconnect_client env t client w).0
          ≡ blocking_result inside disconnect_message (ended tt (env.reply w.calls disconnects)))
      × ((exit env t client w).1.calls ≡ blocking_calls inside disconnects w.calls)
      × ((exit env t client w).0
          ≡ blocking_result inside disconnect_message (ended false (env.reply w.calls disconnects)))
      × ((sync_request env t client packet timeout_ms w).1.calls
          ≡ blocking_calls inside request w.calls)
      × ((sync_request env t client packet timeout_ms w).0
          ≡ blocking_result inside sync_message (env.reply w.calls request))
unfolding disconnect_client exit sync_request
client_blocking_guarded env t client packet timeout_ms w = elim (Bool-cases (w.in_callback t)) [
  | inl h ↦ ground arith
  | inr h ↦ ground arith
]

abbrev pub is_public_key : Value → Bool
is_public_key (key_value k) = true
is_public_key _ = false

-- `Client(key)` with anything but a `PublicKey` raises `TypeError` before any call of the bindings.
pub new_client_rejects :
    (env : Env) (key : Value) (config : Option Value) (uri : Option ℕ) (w : World)
    → is_public_key key ≡ false
    → new_client env key config uri w
      ≡ (raised (type_error (text "server_public_key must be a PublicKey object.")), w)
unfolding new_client
new_client_rejects env (key_value k) config uri w h = absurd (ground arith)
new_client_rejects env _ config uri w h = refl

-- On a client, `on_payload` and `default_payload_handler` of a handler that asks for a connection handle
-- raise `TypeError`, and nothing changes: no callback is registered, and the dispatcher binds no loop.
pub hdl_rejected :
    (env : Env) (t opcode : ℕ) (client : Client) (handler : Fn) (w : World)
    → any_hint is_hdl (env.signature handler) ≡ true
    → (on_payload env t client opcode handler w ≡ (raised (type_error (hdl_on_client handler)), w))
      × (default_payload_handler env t client handler w
          ≡ (raised (type_error (hdl_on_client handler)), w))
unfolding on_payload default_payload_handler
hdl_rejected env t opcode client handler w h =
    ground (arith, create_unpacking_handler-hdl env handler w h)
