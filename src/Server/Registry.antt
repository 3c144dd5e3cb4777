-- ===== src/Server/Registry.antt =====
-- A server's registrations as a table: the callback that was registered last for each slot.
pub mod Refines
use py_obscura_proto.Base.{
  ℕ, Bool, true, false, not, ◌&&◌, Option, none, some, List, [], ◌∷◌, ◌==◌, if◌then◌else◌,
}
use py_obscura_proto.Runtime.{
  World, Env, Exec, Result, Value, native_value, Fn, Body, unpacking, request_unpacking,
  stream_wrapper, Wrapped, sync_wrapped, with_result, identity, Call, register_op_handler,
  register_anon_op_handler, register_request_handler, register_anon_request_handler,
  register_stream_handler, register_anon_stream_handler, register_incoming_stream_handler,
  set_default_payload_handler, set_anon_default_payload_handler, set_client_identity_handler,
}
use py_obscura_proto.Stream.Handlers.{callback_for}
use py_obscura_proto.Unpack.Payloads.{any_hint, is_payload, is_unpacked}
use py_obscura_proto.Server.{
  Server, on_payload, on_anon_payload, default_payload_handler, anon_default_payload_handler,
  on_request, on_anon_request, on_stream, on_anon_stream, on_incoming_stream, on_client_identity,
}

-- What a callback is registered for.
pub data Slot : Type 0 where
  payload_slot anon_payload_slot request_slot anon_request_slot stream_slot anon_stream_slot :
      ℕ → Slot
  default_slot anon_default_slot incoming_slot identity_slot : Slot

abbrev pub same_slot : Slot → Slot → Bool
same_slot (payload_slot a) (payload_slot b) = a == b
same_slot (anon_payload_slot a) (anon_payload_slot b) = a == b
same_slot (request_slot a) (request_slot b) = a == b
same_slot (anon_request_slot a) (anon_request_slot b) = a == b
same_slot (stream_slot a) (stream_slot b) = a == b
same_slot (anon_stream_slot a) (anon_stream_slot b) = a == b
same_slot default_slot default_slot = true
same_slot anon_default_slot anon_default_slot = true
same_slot incoming_slot incoming_slot = true
same_slot identity_slot identity_slot = true
same_slot _ _ = false

-- The abstract view: a callback, or none, for each slot.
abbrev pub Table : Type 0
Table = Slot → Option Wrapped

abbrev pub put : Slot → Option Wrapped → Table → Table
put slot callback table s = if same_slot slot s then callback else table s

-- What a call of the bindings registers at server `k`.
abbrev pub entry : ℕ → Call → Option (Slot × Option Wrapped)
entry k (register_op_handler (native_value s) op c) =
    if s == k then some (payload_slot op, c) else none
entry k (register_anon_op_handler (native_value s) op c) =
    if s == k then some (anon_payload_slot op, c) else none
entry k (register_request_handler (native_value s) op c) =
    if s == k then some (request_slot op, c) else none
entry k (register_anon_request_handler (native_value s) op c) =
    if s == k then some (anon_request_slot op, c) else none
entry k (register_stream_handler (native_value s) op c) =
    if s == k then some (stream_slot op, c) else none
entry k (register_anon_stream_handler (native_value s) op c) =
    if s == k then some (anon_stream_slot op, c) else none
entry k (set_default_payload_handler (native_value s) c) =
    if s == k then some (default_slot, c) else none
entry k (set_anon_default_payload_handler (native_value s) c) =
    if s == k then some (anon_default_slot, c) else none
entry k (register_incoming_stream_handler (native_value s) c) =
    if s == k then some (incoming_slot, c) else none
entry k (set_client_identity_handler (native_value s) c) =
    if s == k then some (identity_slot, c) else none
entry k _ = none

abbrev pub put_entry : Option (Slot × Option Wrapped) → Table → Table
put_entry none table = table
put_entry (some (slot, callback)) table = put slot callback table

-- The table that the calls of the bindings, newest first, have built at server `k`.
abbrev pub table_of : ℕ → List Call → Table
table_of k [] = λ _. none
table_of k (c ∷ cs) = put_entry (entry k c) (table_of k cs)

-- The registrations that a program makes.
pub data Registration : Type 0 where
  payload anon_payload request anon_request stream anon_stream : ℕ → Fn → Registration
  default_payload anon_default incoming client_identity : Fn → Registration

-- One of them, by the method of `Server`; the caller catches what it raises.
unfoldable pub perform : Env → ℕ → Server → Registration → World → World
perform env t s (payload op f) w = (on_payload env t s op f w).1
perform env t s (anon_payload op f) w = (on_anon_payload env t s op f w).1
perform env t s (request op f) w = (on_request env t s op f w).1
perform env t s (anon_request op f) w = (on_anon_request env t s op f w).1
perform env t s (stream op f) w = (on_stream env t s op f w).1
perform env t s (anon_stream op f) w = (on_anon_stream env t s op f w).1
perform env t s (default_payload f) w = (default_payload_handler env t s f w).1
perform env t s (anon_default f) w = (anon_default_payload_handler env t s f w).1
perform env t s (incoming f) w = (on_incoming_stream env t s f w).1
perform env t s (client_identity f) w = (on_client_identity env t s f w).1

unfoldable pub run : Env → ℕ → Server → List Registration → World → World
run env t s [] w = w
run env t s (reg ∷ regs) w = run env t s regs (perform env t s reg w)

-- The callback of a request or an incoming stream, for a loop or without one.
abbrev pub waiting_for : ℕ → Option ℕ → ℕ → Body → Wrapped
waiting_for d none timeout body = sync_wrapped d body
waiting_for d (some l) timeout body = with_result d body l timeout

-- A server's payload handler is accepted.
abbrev pub is_accepted : Env → Fn → Bool
is_accepted env f =
    not (any_hint is_payload (env.signature f) && any_hint is_unpacked (env.signature f))

-- The specification: what each registration puts into the table, for the loop and the timeout of the
-- server's dispatcher. A handler that is not accepted leaves the table alone.
module _ (env : Env) (d : ℕ) (loop : Option ℕ) (timeout : ℕ) where
  abbrev pub payload_entry : Slot → Fn → Option (Slot × Option Wrapped)
  payload_entry slot f =
      if is_accepted env f then some (slot, some (callback_for d loop (unpacking f true))) else none

  abbrev pub result_entry : Slot → Body → Option (Slot × Option Wrapped)
  result_entry slot body = some (slot, some (waiting_for d loop timeout body))

  abbrev pub entry_for : Registration → Option (Slot × Option Wrapped)
  entry_for (payload op f) = payload_entry (payload_slot op) f
  entry_for (anon_payload op f) = payload_entry (anon_payload_slot op) f
  entry_for (request op f) = result_entry (request_slot op) (request_unpacking f true)
  entry_for (anon_request op f) = result_entry (anon_request_slot op) (request_unpacking f true)
  entry_for (stream op f) = result_entry (stream_slot op) (stream_wrapper d f)
  entry_for (anon_stream op f) = result_entry (anon_stream_slot op) (stream_wrapper d f)
  entry_for (default_payload f) = payload_entry default_slot f
  entry_for (anon_default f) = payload_entry anon_default_slot f
  entry_for (incoming f) = result_entry incoming_slot (stream_wrapper d f)
  entry_for (client_identity f) = some (identity_slot, some (identity d f loop timeout))

  abbrev pub replay : List Registration → Table → Table
  replay [] table = table
  replay (reg ∷ regs) table = replay regs (put_entry (entry_for reg) table)
