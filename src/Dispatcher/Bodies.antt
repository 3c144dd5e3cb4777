-- ===== src/Dispatcher/Bodies.antt =====
-- The functions that a dispatcher wraps (src/ObscuraProto/__init__.py): the wrapper of
-- `Stream.on_data`, the wrapper of the incoming stream decorators, the two unpacking wrappers.
use py_obscura_proto.Base.{ℕ, suc, none, some, List, [], ◌∷◌, Bool, true, ltb, ◌&&◌, if◌then◌else◌}
use py_obscura_proto.Runtime.{
  Env, Exec, Result, ok, raised, Value, bytes_value, list_value, bool_value, object_value,
  value_error, type_error, text, stream_value, Fn, Args, with_args, Body, plain, data_wrapper,
  stream_wrapper, unpacking, request_unpacking, update, ◌>>=◌, ◌>>◌, pure,
}
use py_obscura_proto.Unpack.{argument, nth, run_unpacking, run_request_unpacking}

-- `Stream(cpp_stream)`: a new object, without a dispatcher.
unfoldable pub new_stream : Value → Exec ℕ
new_stream cpp w = (
  ok w.next,
  record w {
    streams = update w.streams w.next (record { cpp = cpp; dispatcher = none });
    next = suc w.next;
  },
)

-- `stream.set_dispatcher(dispatcher)`
unfoldable pub set_dispatcher : ℕ → ℕ → Exec (Unit {0})
set_dispatcher s d w = (
  ok tt,
  record w { streams = update w.streams s (record (w.streams s) { dispatcher = some d }) },
)

-- `Stream(cpp_stream)`, `stream.set_dispatcher(self._dispatcher)`
unfoldable pub adopt_stream : ℕ → Value → Exec ℕ
unfolding new_stream set_dispatcher
adopt_stream d cpp = do s ← new_stream cpp; set_dispatcher s d; pure s

-- `wrapper(cpp_stream)` of the incoming stream decorators.
unfoldable pub run_stream_wrapper : Env → ℕ → Fn → Args → Exec Value
unfolding adopt_stream nth
run_stream_wrapper env d handler args = do
  cpp ← argument args 0
  s ← adopt_stream d cpp
  env.call handler (with_args (stream_value s ∷ []))

-- Every integer fits a byte.
abbrev pub are_bytes : List ℕ → Bool
are_bytes [] = true
are_bytes (n ∷ ns) = ltb n 256 && are_bytes ns

-- `bytes(v)`
unfoldable pub to_bytes : Env → Value → Result Value
to_bytes env (list_value ns) =
    if are_bytes ns
    then ok (bytes_value ns)
    else raised (value_error (text "bytes must be in range(0, 256)"))
to_bytes env (bytes_value bs) = ok (bytes_value bs)
to_bytes env (bool_value b) = ok (bytes_value (if b then 0 ∷ [] else []))
to_bytes env (object_value n) = elim (env.object_bytes n) [
  | raised e ↦ raised e
  | ok bs ↦ ok (bytes_value bs)
]
to_bytes env _ = raised (type_error (text "cannot convert object to bytes"))

-- `wrapper(data_list)` of `Stream.on_data`.
unfoldable pub run_data_wrapper : Env → Fn → Args → Exec Value
unfolding nth to_bytes
run_data_wrapper env handler args = do
  data_list ← argument args 0
  chunk ← λ w. (to_bytes env data_list, w)
  env.call handler (with_args (chunk ∷ []))

unfoldable pub run_body : Env → Body → Args → Exec Value
unfolding run_stream_wrapper run_data_wrapper
run_body env (plain f) args = env.call f args
run_body env (data_wrapper f) args = run_data_wrapper env f args
run_body env (stream_wrapper d f) args = run_stream_wrapper env d f args
run_body env (unpacking f receives_hdl) args = run_unpacking env f receives_hdl args
run_body env (request_unpacking f receives_hdl) args = run_request_unpacking env f receives_hdl args
