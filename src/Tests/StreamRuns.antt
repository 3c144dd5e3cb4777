-- ===== src/Tests/StreamRuns.antt =====
-- Examples for streams, of a server and alone.
use py_obscura_proto.Base.{true, false, List, ◌++◌, ◌≡◌, refl, some, none, [], ◌∷◌}
use py_obscura_proto.Runtime.{
  World, Task, Value, bytes_value, operation, stream_write, stream_end, ok, native_value,
  none_value, hdl_value, value_error, text, with_args, Result, sync_wrapped, fire_and_forget,
  with_result, plain, forward_error,
}
use py_obscura_proto.Dispatcher.{invoke}
use py_obscura_proto.Dispatcher.Bodies.{run_body}
use py_obscura_proto.Dispatcher.Results.{with_flag}
use py_obscura_proto.Stream.{async_write, async_end, on_error as stream_on_error}
use py_obscura_proto.Server.{Server, start_stream, on_error}
use py_obscura_proto.Server.Streams.{both_set, stream_on_error_shared}
use py_obscura_proto.Executor.{get_request_executor, run_in_stream_executor, get_executor, on_pool}
use py_obscura_proto.Executor.Fifo.{contents, created}
use py_obscura_proto.Stream.Interleaved.{nothing, also, write_precedes_end}
use py_obscura_proto.Executor.Separation.{gets_request}
use py_obscura_proto.Tests.ExecutorRuns.{no_executors-IsValid}
use py_obscura_proto.Tests.{env, world, done_future}

abbrev server : Server
server = record {
  long_term_key = native_value 1;
  native = native_value 2;
  dispatcher = 5;
  port = none;
}

-- Function 2 raises, and function 1 returns the coroutine 5; handler 11 is set on the stream after 10.
abbrev set : World
set = both_set env 0 server (hdl_value 7) (native_value 4) (some 9) world refl 10 11

stream_on_error_shared_example :
    let flagged = with_flag 3 true set in
    let ended : Result Value × World = (ok none_value, with_flag 3 false flagged) in
    (invoke env 3 (sync_wrapped 5 (plain 2)) (with_args []) set ≡ ended)
    × (invoke env 3 (fire_and_forget 5 (plain 2) 1) (with_args []) set ≡ ended)
    × (invoke env 3 (with_result 5 (plain 2) 1 100_000) (with_args []) set ≡ ended)
    × ((invoke env 3 (fire_and_forget 5 (plain 1) 1) (with_args []) set).1.done_callbacks
        ≡ (9, forward_error 11) ∷ [])
unfolding start_stream on_error stream_on_error run_body
stream_on_error_shared_example =
    stream_on_error_shared env 0 server (hdl_value 7) (native_value 4) (some 9) world refl 3 1
      100_000 5 10 11 (plain 2) (plain 1) (with_args []) (value_error (text "bad")) done_future
      (with_flag 3 true set) (with_flag 3 true set) refl refl refl refl refl refl

abbrev no_bytes : Value
no_bytes = bytes_value []

-- Another thread takes the request pool between the two.
abbrev takes_request_pool : World → World
takes_request_pool v = record v { executors = (get_request_executor v.executors).0 }

write_precedes_end_example :
    let p = (get_executor world.executors).1 in
    let (r, u) = async_write (λ v. v) 3 no_bytes world in
    let v = takes_request_pool u in
    let (r', u') = async_end takes_request_pool 3 v in
    (r ≡ ok (on_pool p))
    × (r' ≡ ok (on_pool p))
    × (before mid : List Task) × (contents (u'.executors.pools p)
        ≡ before
          ++ operation (stream_write none_value no_bytes)
            ∷ (mid ++ operation (stream_end none_value) ∷ []))
unfolding get_executor async_write run_in_stream_executor
write_precedes_end_example =
    write_precedes_end 3 no_bytes world [] (λ v. v) takes_request_pool takes_request_pool
      no_executors-IsValid (created 1) (λ v. nothing refl)
      (λ v. also (nothing refl) (gets_request refl) tt)
      (λ v. also (nothing refl) (gets_request refl) tt)
