-- ===== src/Stream.antt =====
-- `Stream` (src/ObscuraProto/__init__.py): `s` is the object, by its place in the store.
pub mod Handlers
pub mod Order
pub mod Interleaved
use py_obscura_proto.Base.{ℕ, Option, none, some}
use py_obscura_proto.Runtime.{
  World, Env, Exec, ok, Value, Fn, Body, plain, data_wrapper, Wrapped, bare, StreamObject, Call,
  stream_write, stream_end, stream_cancel, get_stream_id, get_op_code, set_data_handler,
  set_end_handler, set_cancel_handler, native_call, pure, modify, ◌>>=◌, ◌>>◌,
}
use py_obscura_proto.Executor.{Submission, run_in_stream_executor}
use py_obscura_proto.Dispatcher.{wrap_fire_and_forget, set_error_handler}

-- `self._s`
abbrev pub cpp_of : ℕ → World → Value
cpp_of s w = (w.streams s).cpp

unfoldable pub stream_id : Env → ℕ → Exec Value
stream_id env s w = native_call env (get_stream_id (cpp_of s w)) w

unfoldable pub op_code : Env → ℕ → Exec Value
op_code env s w = native_call env (get_op_code (cpp_of s w)) w

unfoldable pub write : Env → ℕ → Value → Exec (Unit {0})
write env s chunk w = (do native_call env (stream_write (cpp_of s w) chunk); pure tt) w

unfoldable pub end : Env → ℕ → Exec (Unit {0})
end env s w = (do native_call env (stream_end (cpp_of s w)); pure tt) w

unfoldable pub cancel : Env → ℕ → Exec (Unit {0})
cancel env s w = (do native_call env (stream_cancel (cpp_of s w)); pure tt) w

unfoldable pub async_write : (World → World) → ℕ → Value → Exec Submission
async_write meanwhile s chunk w =
    run_in_stream_executor meanwhile (stream_write (cpp_of s w) chunk) w

unfoldable pub async_end : (World → World) → ℕ → Exec Submission
async_end meanwhile s w = run_in_stream_executor meanwhile (stream_end (cpp_of s w)) w

unfoldable pub async_cancel : (World → World) → ℕ → Exec Submission
async_cancel meanwhile s w = run_in_stream_executor meanwhile (stream_cancel (cpp_of s w)) w

-- `dispatcher.wrap_fire_and_forget(f) if dispatcher else f`
unfoldable pub wrap_for : Env → ℕ → ℕ → Body → Exec (Option Wrapped)
wrap_for env t s body w = elim (w.streams s).dispatcher [
  | none ↦ pure (some (bare body)) w
  | some d ↦ wrap_fire_and_forget env t d (some body) w
]

unfoldable pub on_data : Env → ℕ → ℕ → Fn → Exec Fn
unfolding wrap_for
on_data env t s handler w =
    (do
      wrapped ← wrap_for env t s (data_wrapper handler)
      native_call env (set_data_handler (cpp_of s w) wrapped)
      pure handler)
      w

unfoldable pub on_end : Env → ℕ → ℕ → Fn → Exec Fn
unfolding wrap_for
on_end env t s handler w =
    (do
      wrapped ← wrap_for env t s (plain handler)
      native_call env (set_end_handler (cpp_of s w) wrapped)
      pure handler)
      w

unfoldable pub on_cancel : Env → ℕ → ℕ → Fn → Exec Fn
unfolding wrap_for
on_cancel env t s handler w =
    (do
      wrapped ← wrap_for env t s (plain handler)
      native_call env (set_cancel_handler (cpp_of s w) wrapped)
      pure handler)
      w

-- `if dispatcher: dispatcher.set_error_handler(handler)`
unfoldable pub on_error : ℕ → Fn → Exec Fn
unfolding set_error_handler
on_error s handler w = elim (w.streams s).dispatcher [
  | none ↦ (ok handler, w)
  | some d ↦ (set_error_handler d (some handler) >> pure handler) w
]
