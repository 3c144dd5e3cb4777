-- ===== src/Tests/ExampleRuns.antt =====
-- The examples at concrete surroundings.
use py_obscura_proto.Base.{ℕ, ◌≡◌, refl, ap, true, false, Bool, none, some, List, [], ◌∷◌}
use py_obscura_proto.Runtime.{
  World, Env, Exec, Exc, Result, ok, raised, Value, native_value, key_value, payload_value,
  bytes_value, none_value, object_value, hdl_value, exception, timeout_error, type_error, text,
  Call, get_public_key, run, stop, connect, disconnect, stream_write, stream_end, Wrapped,
  register_anon_request_handler, with_args, pure, Args, connection_hdl, int, read_int, printed,
  starting, server_started, ◌>>=◌,
}
use py_obscura_proto.Dispatcher.{
  invoke, attach, set_error_handler, wrap_fire_and_forget, wrap, wrap_identity,
}
use py_obscura_proto.Unpack.{create_unpacking_handler}
use py_obscura_proto.Unpack.Codec.{Content, IsReader}
use py_obscura_proto.Server.{Server, new_server, on_anon_request}
use py_obscura_proto.Client.{Client}
use py_obscura_proto.Examples.{Setting}
use py_obscura_proto.Examples.StreamOpcodes
use py_obscura_proto.Examples.FileTotal.{arrive, as_bytes, file_received}
use py_obscura_proto.Examples.StreamOpcodes.{file_on_end}
use py_obscura_proto.Examples.RequestServer.{op_add_request, op_add_response, handle_add_request}
use py_obscura_proto.Examples.Addition.{sum_answered}
use py_obscura_proto.Examples.AsyncBoth
use py_obscura_proto.Examples.AsyncBoth.{prepare, client_block}
use py_obscura_proto.Examples.Shutdown.{async_example_ends}
use py_obscura_proto.Examples.WebSocket
use py_obscura_proto.Examples.WebSocket.{run_ready, exchange}
use py_obscura_proto.Examples.Endings.{websocket_ends}
use py_obscura_proto.Tests.{env, world, param}
use py_obscura_proto.Tests.CodecRuns.{replies, answer_read}
use py_obscura_proto.Tests.ServerRuns.{server}

abbrev sum_of : Value → Value → Result Value
sum_of (object_value m) (object_value n) = ok (object_value 12)
sum_of _ _ = raised (type_error (text "unsupported operand"))

-- Every wait is answered with `True`, and no one interferes.
abbrev pub setting : Setting
setting = record {
  init = ok 0;
  build = λ op values. ok (payload_value op);
  add = sum_of;
  is_number = λ v n. true;
  sleeps = λ n. pure tt;
  waits = λ e n. pure true;
  sets = λ e. pure tt;
  opens = pure tt;
  saves = λ key. pure tt;
  loads = pure (key_value 3);
  is_file_not_found = λ e. false;
  awaits = λ a. pure (payload_value 9);
  interrupted = λ w. (exception 1, w);
}

abbrev opcodes_made : StreamOpcodes.Made
opcodes_made = record {
  decode = λ v. ok v;
  received = λ n. object_value n;
  hello = none_value;
  chunk1 = none_value;
  chunk2 = none_value;
  uri = 0;
  handle_chat_fn = 10;
  handle_file_fn = 11;
  on_ready_fn = 12;
  chat_on_data_fn = λ s. 13;
  chat_on_end_fn = λ s. 14;
  file_on_data_fn = λ s. 15;
  file_on_end_fn = λ s. 16;
  on_chat_ack_fn = 17;
  on_end_handler_fn = 18;
  on_file_ack_fn = 19;
  on_end_fn = 20;
}

-- Two chunks, of three bytes and of two.
abbrev chunks : List (List ℕ)
chunks = (1 ∷ 2 ∷ 3 ∷ []) ∷ (4 ∷ 5 ∷ []) ∷ []

file_received_example :
    let (r, u) =
      (arrive env 0 setting opcodes_made [] (as_bytes chunks)
          >>= file_on_end env 0 setting opcodes_made 2)
        world in
    (u.calls ≡ stream_end none_value ∷ stream_write none_value (object_value 5) ∷ []) × (r ≡ ok tt)
file_received_example =
    file_received env 0 setting opcodes_made 2 chunks (native_value 4) world refl

-- Reader 4 has the numbers 5 and 7; every function is the handler of the request.
abbrev two_numbers : Content
two_numbers = (read_int, object_value 5) ∷ (read_int, object_value 7) ∷ []

abbrev run_handler : Args → Exec Value
run_handler args w = handle_add_request setting (hdl_value 7) (object_value 5) (object_value 7) w

abbrev adding : Env
adding = record env {
  reply = replies two_numbers;
  signature = λ f. param "hdl" connection_hdl ∷ param "a" int ∷ param "b" int ∷ [];
  call = λ f args. run_handler args;
}

adding-IsReader : IsReader adding 4 two_numbers
adding-IsReader = record { answers = λ cs m v h. ap answer_read h }

sum_answered_example :
    (callback : Wrapped) × ((on_anon_request adding 0 server op_add_request 0 world).1.calls
      ≡ register_anon_request_handler server.native op_add_request (some callback) ∷ [])
    × ((invoke adding 3 callback (with_args (hdl_value 7 ∷ native_value 4 ∷ [])) world).0
        ≡ ok (payload_value op_add_response))
sum_answered_example =
    sum_answered adding 0 3 setting server 0 (hdl_value 7) (object_value 5) (object_value 7)
      (object_value 12) 4 op_add_response world world refl (λ u. refl) refl adding-IsReader refl
      refl

abbrev client : Client
client = record { native = native_value 4; dispatcher = 1; uri = some 8 }

abbrev websocket_made : WebSocket.Made
websocket_made = record {
  hello_from_server = none_value;
  hello_from_client = none_value;
  forty_two = object_value 42;
  uri = 8;
  handle_client_message_fn = 10;
  on_client_ready_fn = 11;
  on_client_disconnect_fn = 12;
  handle_server_response_fn = 13;
}

websocket_ends_example :
    let e = exchange env 0 setting websocket_made client world in
    ((run_ready env 0 setting websocket_made server client false world).1.calls
      ≡ stop server.native ∷ [])
    × ((received : Bool × Bool) (v : Value)
        → e.0 ≡ ok received
        → env.reply e.1.calls (disconnect client.native) ≡ ok v
        → (run_ready env 0 setting websocket_made server client true world).1.calls
          ≡ stop server.native ∷ disconnect client.native ∷ e.1.calls)
    × ((exc : Exc)
        → e.0 ≡ raised exc
        → run_ready env 0 setting websocket_made server client true world ≡ (raised exc, e.1))
unfolding exchange
websocket_ends_example = websocket_ends env 0 setting websocket_made server client world refl refl

abbrev both_made : AsyncBoth.Made
both_made = record {
  echo_of = λ v. v;
  ack = none_value;
  twenty = object_value 20;
  twenty_two = object_value 22;
  hello = none_value;
  one = object_value 1;
  stream_test = bytes_value [];
  uri = 8;
  submitted = λ s. pure none_value;
  handle_server_error_fn = 10;
  handle_message_fn = 11;
  handle_calculation_fn = 12;
  handle_stream_fn = 13;
  verify_identity_fn = 14;
  handle_client_error_fn = 15;
  handle_echo_fn = 16;
  on_ready_fn = 17;
  on_disconnect_fn = 18;
  on_data_fn = λ s. 19;
  on_end_fn = λ s. 20;
  on_stream_data_fn = 21;
}

-- The bindings give the server's key, and no client ever gets ready.
abbrev answer_key : Call → Result Value
answer_key (get_public_key k) = ok (key_value 3)
answer_key _ = ok (native_value 4)

abbrev keyed : Env
keyed = record env { reply = λ _ c. answer_key c }

abbrev never_ready : Setting
never_ready = record setting { waits = λ e n. pure false }

abbrev alone : World → World
alone w = w

abbrev example_server : Server
example_server = record {
  long_term_key = native_value 4;
  native = native_value 4;
  dispatcher = 0;
  port = some 9001;
}

abbrev announced : World
announced = record world {
  logged =
      printed "Starting server on port %s..." []
      ∷ printed "=== Async Server/Client Example ===" []
      ∷ [];
}

abbrev created : World
created = (new_server keyed none (some 9001) announced).1

abbrev ready : World
ready =
    (prepare keyed 0 never_ready both_made alone example_server (record created {
      calls = run (native_value 4) 9001 ∷ created.calls;
      logged = server_started ∷ starting ∷ created.logged;
    })).1

async_example_ends_example :
    let u = (AsyncBoth.main keyed 0 never_ready both_made alone world) in
    (u.0 ≡ raised (timeout_error (text "")))
    × (u.1.calls
        ≡ stop (native_value 4)
          ∷ disconnect (native_value 4)
          ∷ connect (native_value 4) 8
          ∷ ready.calls)
unfolding new_server prepare attach set_error_handler create_unpacking_handler wrap_fire_and_forget
    wrap wrap_identity client_block
async_example_ends_example =
    async_example_ends keyed 0 never_ready both_made alone example_server client ready
      (native_value 4) world created (native_value 4) refl refl refl refl refl refl
