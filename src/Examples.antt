-- ===== src/Examples.antt =====
-- The example programs (examples/): what they use besides the library.
pub mod RequestServer
pub mod RequestClient
pub mod WebSocket
pub mod Streaming
pub mod StreamOpcodes
pub mod AsyncBoth
pub mod FileTotal
pub mod Shutdown
pub mod Endings
pub mod Addition
pub mod Echo
use py_obscura_proto.Base.{ℕ, String, Bool, true, false, List, [], ◌∷◌, ◌++◌, ◌==◌, if◌then◌else◌}
use py_obscura_proto.Runtime.{
  World, Exec, Exc, base_exception, is_exception, Result, ok, raised, Value, bytes_value,
  error_value, printed, type_error, text, modify, pure, Fn,
}
use py_obscura_proto.Response.{Awaiting}

-- `Crypto.init()`; `PayloadBuilder(op).add_param(...).build()`; `a + b`; whether a value is a number; a
-- sleep and the wait for an event with its timeout, in microseconds, with what other threads do
-- meanwhile; `event.set()`; the opening, the writing and the reading of the key file; and how an `await`
-- of a started wait ends.
pub record Setting : Type 0 where
  pub init : Result ℕ
  pub build : ℕ → List Value → Result Value
  pub add : Value → Value → Result Value
  pub is_number : Value → ℕ → Bool
  pub sleeps : ℕ → Exec (Unit {0})
  pub waits : ℕ → ℕ → Exec Bool
  pub sets : ℕ → Exec (Unit {0})
  pub opens : Exec (Unit {0})
  pub saves : Value → Exec (Unit {0})
  pub loads : Exec Value
  pub is_file_not_found : Exc → Bool
  pub awaits : Awaiting → Exec Value
  -- How an endless loop of sleeps is ended.
  pub interrupted : World → Exc × World

-- `asyncio.CancelledError`, which is no `Exception`, is `base_exception 0`.
abbrev pub is_cancelled : Exc → Bool
is_cancelled (base_exception n) = n == 0
is_cancelled _ = false

abbrev pub print : String → List Value → Exec (Unit {0})
print line values = modify λ w. record w { logged = printed line values ∷ w.logged }

-- An answer that does not depend on the state.
abbrev pub given : {A : Type 0} → Result A → Exec A
given r w = (r, w)

-- `prefix + data` of two `bytes`.
unfoldable pub concat_bytes : List ℕ → Value → Result Value
concat_bytes start (bytes_value bs) = ok (bytes_value (start ++ bs))
concat_bytes start _ = raised (type_error (text "can't concat to bytes"))
