-- ===== src/Tests/CodecRuns.antt =====
-- Examples for payloads and requests that are read as they were built.
use py_obscura_proto.Base.{arith, ◌≡◌, refl, ap, true, false, Option, none, some, List, [], ◌∷◌}
use py_obscura_proto.Runtime.{
  World, Env, Exc, Result, ok, raised, Value, native_value, none_value, hdl_value, payload_value,
  text, with_args, Args, Call, read, ReadMethod, read_string, read_int, make_reader, value_error,
  type_error, unpack_failed, unpack_failed_log, connection_hdl, str, int, Param, Wrapped,
  register_op_handler, register_request_handler, Future, coroutine_value, ◌>>=◌,
}
use py_obscura_proto.Unpack.{run_unpacking, run_request_unpacking, check_response}
use py_obscura_proto.Unpack.Codec.{Content, get_elem?, reads, IsReader}
use py_obscura_proto.Unpack.Roundtrip.{payload_roundtrip, request_roundtrip}
use py_obscura_proto.Unpack.Short.{IsAtEnd, payload_too_short}
use py_obscura_proto.Dispatcher.{invoke}
use py_obscura_proto.Dispatcher.Results.{with_flag}
use py_obscura_proto.Server.{on_payload, on_request}
use py_obscura_proto.Server.Answers.{request_answered}
use py_obscura_proto.Server.EndToEnd.{payload_delivered}
use py_obscura_proto.Tests.{env, world, param, done_future}
use py_obscura_proto.Tests.ServerRuns.{server}

-- A text and a number.
abbrev content : Content
content = (read_string, native_value 11) ∷ (read_int, native_value 12) ∷ []

abbrev at_end : Exc
at_end = value_error (text "end of payload")

abbrev pub answer_read : Option (ReadMethod × Value) → Result Value
answer_read none = raised at_end
answer_read (some (m, v)) = ok v

-- Reader 4 has `stored`; function 0 takes the handle, a text and a number.
abbrev pub replies : Content → List Call → Call → Result Value
replies stored cs (read m (native_value n)) = answer_read (get_elem? stored (reads n cs))
replies stored cs _ = ok (native_value 4)

abbrev name_and_age : List Param
name_and_age = param "name" str ∷ param "age" int ∷ []

abbrev reading : Content → Env
reading stored = record env {
  reply = replies stored;
  signature = λ f. param "hdl" connection_hdl ∷ name_and_age;
}

reading-IsReader : (stored : Content) → IsReader (reading stored) 4 stored
reading-IsReader stored = record { answers = λ cs m v h. ap answer_read h }

reading-IsAtEnd : (stored : Content) → IsAtEnd (reading stored) 4 stored at_end
reading-IsAtEnd stored = record { stops = λ cs m h. ap answer_read h }

abbrev bound : Args
bound = record {
  positional = [];
  keywords = ("hdl", hdl_value 7) ∷ ("name", native_value 11) ∷ ("age", native_value 12) ∷ [];
}

abbrev both_reads : List Call → List Call
both_reads cs = read read_int (native_value 4) ∷ read read_string (native_value 4) ∷ cs

payload_roundtrip_example :
    run_unpacking (reading content) 0 true (with_args (hdl_value 7 ∷ payload_value 1 ∷ [])) world
    ≡ (reading content).call 0 bound
        (record world { calls = both_reads (make_reader (payload_value 1) ∷ []) })
payload_roundtrip_example =
    payload_roundtrip (reading content) 0 (param "hdl" connection_hdl) name_and_age content
      (payload_value 1) (hdl_value 7) [] 4 world refl refl refl (refl, (refl, tt)) refl refl
      (reading-IsReader content)

request_roundtrip_example :
    run_request_unpacking
      (reading content)
      0
      true
      (with_args (hdl_value 7 ∷ native_value 4 ∷ []))
      world
    ≡ ((reading content).call 0 bound >>= check_response 0) (record world { calls = both_reads [] })
request_roundtrip_example =
    request_roundtrip (reading content) 0 (param "hdl" connection_hdl) name_and_age content
      (hdl_value 7) [] 4 world refl refl (refl, (refl, tt)) refl (reading-IsReader content)

-- The text alone.
abbrev short : Content
short = (read_string, native_value 11) ∷ []

payload_too_short_example :
    run_unpacking (reading short) 0 true (with_args (hdl_value 7 ∷ payload_value 1 ∷ [])) world ≡ (
      raised (type_error (unpack_failed 0 0 at_end)),
      record world {
        calls = both_reads (make_reader (payload_value 1) ∷ []);
        logged = unpack_failed_log 0 at_end ∷ [];
      },
    )
payload_too_short_example =
    payload_too_short (reading short) 0 (param "hdl" connection_hdl) (param "age" int)
      (param "name" str ∷ []) [] short read_int at_end (payload_value 1) (hdl_value 7) [] 4 world
      refl refl (refl, (refl, tt)) (refl, tt) refl refl refl (reading-IsReader short)
      (reading-IsAtEnd short) refl

-- Function 0 returns `None`, and the callback runs on thread 3.
abbrev quiet : Env
quiet = record (reading content) { call = λ f given w. (ok none_value, w) }

quiet-IsReader : IsReader quiet 4 content
quiet-IsReader = record { answers = λ cs m v h. ap answer_read h }

abbrev after : World
after = record (with_flag 3 true world) { calls = both_reads (make_reader (payload_value 1) ∷ []) }

payload_delivered_example :
    (callback : Wrapped) × ((on_payload quiet 0 server 9 0 world).1.calls
      ≡ register_op_handler (native_value 2) 9 (some callback) ∷ [])
    × (invoke quiet 3 callback (with_args (hdl_value 7 ∷ payload_value 1 ∷ [])) world
        ≡ (ok none_value, with_flag 3 false after))
payload_delivered_example =
    payload_delivered quiet 0 3 9 server 0 (param "hdl" connection_hdl) name_and_age content
      (payload_value 1) (hdl_value 7) none_value 4 world world after refl refl refl
      (refl, (refl, tt)) refl refl quiet-IsReader refl refl

-- Function 0 is async, and its coroutine returns a payload after 70 ms.
abbrev answering_future : Future
answering_future = record done_future { outcome = ok (payload_value 3) }

abbrev answering : Env
answering = record (reading content) {
  call = λ f given w. (ok (coroutine_value 5), w);
  future_of = λ _ _ _. ok answering_future;
}

answering-IsReader : IsReader answering 4 content
answering-IsReader = record { answers = λ cs m v h. ap answer_read h }

abbrev asked : World
asked = record (with_flag 3 true world) { calls = both_reads [] }

request_answered_example :
    (callback : Wrapped) × ((on_request answering 0 server 9 0 world).1.calls
      ≡ register_request_handler (native_value 2) 9 (some callback) ∷ [])
    × ((invoke answering 3 callback (with_args (hdl_value 7 ∷ native_value 4 ∷ [])) world).0
        ≡ ok (payload_value 3))
request_answered_example =
    request_answered answering 0 3 9 server 0 (param "hdl" connection_hdl) name_and_age content
      (hdl_value 7) (payload_value 3) 4 1 5 70_000 answering_future world world asked refl refl refl
      (refl, (refl, tt)) refl answering-IsReader refl refl refl (omega arith) refl
