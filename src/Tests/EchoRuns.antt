-- ===== src/Tests/EchoRuns.antt =====
-- The echo of the streaming example on a stream with a dispatcher.
use py_obscura_proto.Base.{ℕ, ◌≡◌, ◌==◌, refl, some, List, [], ◌∷◌, ◌++◌, if◌then◌else◌}
use py_obscura_proto.Runtime.{
  World, Env, Exec, Value, ok, native_value, bytes_value, list_value, none_value, with_args,
  Wrapped, get_stream_id, set_data_handler, set_end_handler, stream_write, stream_end, pure, ◌>>◌,
  Fn,
}
use py_obscura_proto.Dispatcher.{invoke}
use py_obscura_proto.Examples.Streaming.{
  Made, echo_prefix, server_on_data, server_on_end, handle_stream,
}
use py_obscura_proto.Examples.Echo.{echo_served}
use py_obscura_proto.Tests.{env, world}
use py_obscura_proto.Tests.ExampleRuns.{setting}

abbrev made : Made
made = record {
  hello = none_value;
  streaming = none_value;
  world = none_value;
  uri = 8;
  handle_stream_fn = 10;
  on_ready_fn = 11;
  server_on_data_fn = λ s. 12;
  server_on_end_fn = λ s. 13;
  client_on_data_fn = λ s. 14;
  client_on_end_fn = λ s. 15;
}

abbrev chunk : List ℕ
chunk = 104 ∷ 105 ∷ []

-- The bindings answer every call with the same object.
abbrev answering : Env
answering = record env { reply = λ _ _. ok (native_value 4) }

abbrev run_function : Fn → Exec Value
run_function f =
    if f == 12
    then server_on_data answering 3 setting made 2 (bytes_value chunk) >> pure none_value
    else server_on_end answering 3 setting made 2 >> pure none_value

abbrev echoing : Env
echoing = record answering { call = λ f args. run_function f }

abbrev adopted : World
adopted = record world { streams = λ s. record { cpp = native_value 6; dispatcher = some 0 } }

echo_served_example :
    (for_data : Wrapped) × (for_end : Wrapped) × ((handle_stream echoing 0 setting made 2
        adopted).1.calls
      ≡ set_end_handler (native_value 6) (some for_end)
        ∷ set_data_handler (native_value 6) (some for_data)
        ∷ get_stream_id (native_value 6)
        ∷ [])
    × ((invoke echoing 3 for_data (with_args (list_value chunk ∷ [])) adopted).1.calls
        ≡ stream_write (native_value 6) (bytes_value (echo_prefix ++ chunk)) ∷ [])
    × ((invoke echoing 3 for_end (with_args []) adopted).1.calls ≡ stream_end (native_value 6) ∷ [])
unfolding server_on_data server_on_end
echo_served_example =
    echo_served echoing 0 3 setting made 2 0 chunk adopted adopted (λ cs c. native_value 4)
      (λ cs c. refl) refl refl refl (λ u. refl) (λ u. refl)
