-- ===== src/Runtime/State.antt =====
-- The state of the process, and what the program leaves to its surroundings.
use py_obscura_proto.Base.{ℕ, String, Bool, Option, List}
use py_obscura_proto.Runtime.Data.{Fn, Exc, Result, Value, Args, Future, DoneCallback}
use py_obscura_proto.Runtime.Calls.{Call}

-- A `_CallbackDispatcher` object. Times are counted in microseconds.
pub record Dispatcher : Type 0 where
  pub loop : Option ℕ
  pub error_handler : Option Fn
  pub result_timeout : ℕ

-- A `Stream` object: `_s`, and `_dispatcher`, which is `none` before `set_dispatcher`.
pub record StreamObject : Type 0 where
  pub cpp : Value
  pub dispatcher : Option ℕ

-- What is submitted to a thread pool: a call of the bindings, or the waiter `_fetch` of a future.
pub data Task : Type 0 where
  operation : Call → Task
  fetch : ℕ → Task

-- A `ThreadPoolExecutor`: `queue` is oldest first, `running` is what its workers are at.
pub record Pool : Type 0 where
  pub max_workers : ℕ
  pub is_shut : Bool
  pub queue : List Task
  pub running : List Task
  pub finished : List Task

-- The pools that were made, and the two module-level variables.
pub record Executors : Type 0 where
  pub pools : ℕ → Pool
  pub next_pool : ℕ
  pub stream_executor : Option ℕ
  pub request_executor : Option ℕ

-- `printed` is a line of an example: its text, and the values that are put in.
pub data LogLine : Type 0 where
  unpack_failed_log request_unpack_failed_log : Fn → Exc → LogLine
  starting stopping connecting server_started server_stopped : LogLine
  printed : String → List Value → LogLine

-- `calls` and the other records of events are newest first. `user` is what user functions keep.
pub record World : Type 0 where
  pub now : ℕ
  pub in_callback : ℕ → Bool
  pub dispatchers : ℕ → Dispatcher
  pub streams : ℕ → StreamObject
  pub next : ℕ
  pub executors : Executors
  pub consumed : List ℕ
  pub calls : List Call
  pub logged : List LogLine
  pub warned : ℕ
  pub cancelled : List ℕ
  pub done_callbacks : List (ℕ × DoneCallback)
  pub scheduled : List (ℕ × ℕ)
  pub user : List Value

pub data Annotation : Type 0 where
  connection_hdl payload_type payload_reader : Annotation
  str int uint float bool bytes : Annotation
  empty : Annotation
  other : ℕ → Annotation

-- A parameter that can be given by keyword; positional-only and variadic ones are not modelled.
pub record Param : Type 0 where
  pub name : String
  pub annotation : Annotation
  pub has_default : Bool

-- What the program does not implement. `reply` answers a call of the bindings from all the calls
-- that went before; `call` runs a user function; `future_of` is what `run_coroutine_threadsafe`
-- gives or raises; `object_truth` and `object_bytes` are what `bool` and `bytes` give for other objects;
-- `late` is how much longer than asked `time.sleep` takes, from when it begins.
pub record Env : Type 0 where
  pub call : Fn → Args → World → Result Value × World
  pub signature : Fn → List Param
  pub reply : List Call → Call → Result Value
  pub future_of : ℕ → ℕ → World → Result Future
  pub running_loop : ℕ → Option ℕ
  pub default_loop : ℕ → Option ℕ
  pub late : ℕ → ℕ
  pub object_truth : ℕ → Bool
  pub object_bytes : ℕ → Result (List ℕ)
  pub op_code : Value → ℕ
