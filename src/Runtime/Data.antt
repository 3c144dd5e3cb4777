-- ===== src/Runtime/Data.antt =====
-- Values, exceptions, futures, callbacks and the state of the process.
use py_obscura_proto.Base.{ℕ, String, Bool, true, false, Option, List, []}

-- A user function, by its identity.
abbrev pub Fn : Type 0
Fn = ℕ

-- What a message says: the constant text of the f-string and the values put into it.
mutual
  pub data Message : Type 0 where
    text : String → Message
    did_not_complete : ℕ → Message
    timed_out : String → ℕ → Message
    hdl_on_client : Fn → Message
    mixed_unpacking : Fn → Message
    unsupported_hint : String → Message
    missing_argument : String → Message
    unpack_failed : ℕ → Fn → Exc → Message
    not_a_payload : Fn → Message

  -- `exception` is any other subclass of `Exception`, `base_exception` what is none, such as
  -- `KeyboardInterrupt`. `diverged` is no Python exception: the rounds given to a loop ran out.
  pub data Exc : Type 0 where
    timeout_error logic_error type_error runtime_error value_error : Message → Exc
    exception base_exception : ℕ → Exc
    index_error diverged : Exc

-- Does `except Exception` catch it?
abbrev pub is_exception : Exc → Bool
is_exception (base_exception n) = false
is_exception diverged = false
is_exception _ = true

pub data Result {ℓ} (A : Type ℓ) : Type ℓ where
  ok : A → Result A
  raised : Exc → Result A

-- `list_value` is a list of integers that are not negative, `object_value` any other object,
-- `native_value` one that the bindings made, `stream_value` a `Stream`, `error_value` a caught exception,
-- and `error_payload` the payload with opcode 0 and the text of an exception.
pub data Value : Type 0 where
  none_value : Value
  bool_value : Bool → Value
  bytes_value list_value : List ℕ → Value
  payload_value coroutine_value hdl_value key_value native_value object_value : ℕ → Value
  stream_value : ℕ → Value
  error_value : Exc → Value
  error_payload : Exc → Value

pub record Args : Type 0 where
  pub positional : List Value
  pub keywords : List (String × Value)

abbrev pub with_args : List Value → Args
with_args vs = record { positional = vs; keywords = [] }

-- A future: when it is completed, if ever, and how. `cancel` and `attach` are what its `cancel` and
-- `add_done_callback` do when called, `none` where the object has no such method.
pub record Future : Type 0 where
  pub ident : ℕ
  pub finish : Option ℕ
  pub outcome : Result Value
  pub cancel : Option (Result (Unit {0}))
  pub attach : Option (Result (Unit {0}))

pub data DoneCallback : Type 0 where
  reap : DoneCallback
  forward_error : Fn → DoneCallback

-- What a dispatcher wraps: a user function as it is, the wrapper of `Stream.on_data`, the wrapper of
-- the incoming stream decorators with its dispatcher, and the two unpacking wrappers. The Boolean
-- is `receives_hdl_from_native`.
pub data Body : Type 0 where
  plain : Fn → Body
  data_wrapper : Fn → Body
  stream_wrapper : ℕ → Fn → Body
  unpacking : Fn → Bool → Body
  request_unpacking : Fn → Bool → Body

-- The closures that `_CallbackDispatcher` returns, with the variables that they capture: the
-- dispatcher `self`, what is wrapped, the loop, the timeout. `bare` is a function that is registered
-- without a dispatcher.
pub data Wrapped : Type 0 where
  bare : Body → Wrapped
  sync_wrapped : ℕ → Body → Wrapped
  fire_and_forget : ℕ → Body → ℕ → Wrapped
  with_result : ℕ → Body → ℕ → ℕ → Wrapped
  identity : ℕ → Fn → Option ℕ → ℕ → Wrapped

pub data ReadMethod : Type 0 where
  read_string read_int read_uint read_float read_bool read_bytes : ReadMethod
