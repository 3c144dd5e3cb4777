-- ===== src/Tests.antt =====
-- A small world and its surroundings, for the examples in the children.
mod PollingRuns
mod ExecutorRuns
mod ResponseRuns
mod UnpackRuns
mod DispatcherRuns
mod IdentityRuns
mod StreamRuns
mod ServerRuns
mod ClientRuns
mod CodecRuns
mod RegistryRuns
mod EventLoopRuns
mod BuildRuns
mod ExampleRuns
mod EchoRuns
mod ProcessRuns
use py_obscura_proto.Base.{
  ℕ, zero, suc, String, Bool, true, false, Option, none, some, List, [], ◌∷◌,
}
use py_obscura_proto.Runtime.{
  World, Env, Exc, Result, ok, raised, Value, native_value, coroutine_value, bool_value,
  payload_value, none_value, object_value, value_error, text, Fn, Args, Call, Future, future_ready,
  future_get, Dispatcher, Pool, Executors, Param, Annotation, connection_hdl, payload_type, empty,
  str, int,
}

abbrev pub idle_pool : Pool
idle_pool = record { max_workers = 1; is_shut = false; queue = []; running = []; finished = [] }

abbrev pub no_executors : Executors
no_executors = record {
  pools = λ _. idle_pool;
  next_pool = 0;
  stream_executor = none;
  request_executor = none;
}

-- Every dispatcher has the loop 1 and the error handler 3.
abbrev pub attached : Dispatcher
attached = record { loop = some 1; error_handler = some 3; result_timeout = 5_000_000 }

abbrev pub world : World
world = record {
  now = 0;
  in_callback = λ _. false;
  dispatchers = λ _. attached;
  streams = λ _. record { cpp = none_value; dispatcher = none };
  next = 0;
  executors = no_executors;
  consumed = [];
  calls = [];
  logged = [];
  warned = 0;
  cancelled = [];
  done_callbacks = [];
  scheduled = [];
  user = [];
}

-- Done at 70 ms, with `True`.
abbrev pub done_future : Future
done_future = record {
  ident = 9;
  finish = some 70_000;
  outcome = ok (bool_value true);
  cancel = some (ok tt);
  attach = some (ok tt);
}

-- Never done.
abbrev pub stuck_future : Future
stuck_future = record done_future { finish = none }

-- Function 0 returns `True`, 1 a coroutine, 2 raises, and any other returns `None`.
abbrev pub called : Fn → Result Value
called zero = ok (bool_value true)
called (suc zero) = ok (coroutine_value 5)
called (suc (suc zero)) = raised (value_error (text "bad"))
called _ = ok none_value

abbrev pub param : String → Annotation → Param
param name annotation = record { name = name; annotation = annotation; has_default = false }

-- Function 0 takes a handle and a text, function 1 a parameter without a hint, 2 a payload, 3 a handle.
abbrev pub signature_of : Fn → List Param
signature_of zero = param "hdl" connection_hdl ∷ param "name" str ∷ []
signature_of (suc zero) = param "hdl" empty ∷ []
signature_of (suc (suc zero)) = param "packet" payload_type ∷ []
signature_of _ = param "hdl" connection_hdl ∷ []

abbrev pub answer : Call → Result Value
answer (future_ready f) = ok (bool_value true)
answer _ = ok (native_value 4)

abbrev pub env : Env
env = record {
  call = λ f _ w. (called f, w);
  signature = signature_of;
  reply = λ _ c. answer c;
  future_of = λ _ _ _. ok done_future;
  running_loop = λ _. none;
  default_loop = λ _. none;
  late = λ _. 10;
  object_truth = λ _. true;
  object_bytes = λ _. ok [];
  op_code = λ _. 0;
}
