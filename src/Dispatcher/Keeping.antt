-- ===== src/Dispatcher/Keeping.antt =====
-- What user functions, calls of the bindings and the flag of a thread keep, every callback on it keeps.
use py_obscura_proto.Base.{ℕ, Bool, Option, none, some, [], ◌∷◌, arith}
use py_obscura_proto.Runtime.{
  World, Env, Exec, Exc, Value, coroutine_value, error_value, Args, with_args, Body, plain,
  data_wrapper, stream_wrapper, unpacking, Fn, request_unpacking, Wrapped, bare, sync_wrapped,
  fire_and_forget, with_result, identity, Future, ◌>>◌, pure, raise, Keeps, Keeps-option,
  Keeps-aside, Keeps-raise, IsStable, keeps_rules,
}
use py_obscura_proto.Callback.{set_callback_thread_flag}
use py_obscura_proto.Polling.{wait_future_with_polling}
use py_obscura_proto.Polling.Frame.{wait-IsAside}
use py_obscura_proto.Unpack.Keeping.{
  Keeps-argument, Keeps-run_unpacking, Keeps-run_request_unpacking,
}
use py_obscura_proto.Dispatcher.{
  invoke, guarded, report, run_coroutine_threadsafe, forward_errors, dispatch_and_forget,
  dispatch_and_wait, dispatch_identity,
}
use py_obscura_proto.Dispatcher.Bodies.{run_body, adopt_stream}

module _ {P : World → Type 0} {env : Env} (stable : IsStable P env) where
  pub Keeps-adopt_stream : (d : ℕ) (cpp : Value) → Keeps P (adopt_stream d cpp)
  unfolding adopt_stream
  Keeps-adopt_stream d cpp = Keeps-aside stable (adopt_stream d cpp) (λ w. ground arith)

  Keeps-schedule : (c loop : ℕ) → Keeps P (run_coroutine_threadsafe env c loop)
  unfolding run_coroutine_threadsafe
  Keeps-schedule c loop =
      Keeps-aside stable (run_coroutine_threadsafe env c loop) (λ w. ground arith)

  Keeps-forward_errors : (d : ℕ) (future : Future) → Keeps P (forward_errors d future)
  unfolding forward_errors
  Keeps-forward_errors d future = Keeps-aside stable (forward_errors d future) (λ w. ground arith)

  Keeps-wait :
      (future : Future) (timeout : ℕ) → Keeps P (wait_future_with_polling env future timeout)
  Keeps-wait future timeout =
      Keeps-aside stable (wait_future_with_polling env future timeout)
        (wait-IsAside env future timeout)

  Keeps-call : (f : Fn) (args : Args) → Keeps P (env.call f args)
  Keeps-call = stable.calls

  Keeps-report : (d : ℕ) (fallback : Value) (e : Exc) → Keeps P (report env d fallback e)
  unfolding report
  Keeps-report d fallback e = record {
    at = λ w.
        (Keeps-option {P = P} (w.dispatchers d).error_handler (raise e)
            (λ h. env.call h (with_args (error_value e ∷ [])) >> pure fallback) (Keeps-raise e)
            (λ h. search (keeps_rules, Keeps-call))).at
          w;
  }

  ruleset dispatch_rules =
      (keeps_rules, Keeps-call, Keeps-schedule, Keeps-forward_errors, Keeps-wait, Keeps-report)

  Keeps-dispatch_and_forget : (d loop : ℕ) (v : Value) → Keeps P (dispatch_and_forget env d loop v)
  unfolding dispatch_and_forget
  Keeps-dispatch_and_forget d loop (coroutine_value c) = search dispatch_rules
  Keeps-dispatch_and_forget d loop _ = search dispatch_rules

  Keeps-dispatch_and_wait :
      (d loop timeout : ℕ) (v : Value) → Keeps P (dispatch_and_wait env d loop timeout v)
  unfolding dispatch_and_wait
  Keeps-dispatch_and_wait d loop timeout (coroutine_value c) = search dispatch_rules
  Keeps-dispatch_and_wait d loop timeout _ = search dispatch_rules

  Keeps-dispatch_identity :
      (loop : Option ℕ) (timeout : ℕ) (v : Value) → Keeps P (dispatch_identity env loop timeout v)
  unfolding dispatch_identity
  Keeps-dispatch_identity (some loop) timeout (coroutine_value c) = search dispatch_rules
  Keeps-dispatch_identity none timeout (coroutine_value c) = search dispatch_rules
  Keeps-dispatch_identity (some loop) timeout _ = search dispatch_rules
  Keeps-dispatch_identity none timeout _ = search dispatch_rules

  Keeps-run_body : (body : Body) (args : Args) → Keeps P (run_body env body args)
  unfolding run_body
  Keeps-run_body (plain f) args = Keeps-call f args
  Keeps-run_body (data_wrapper f) args = search (keeps_rules, Keeps-argument stable, Keeps-call)
  Keeps-run_body (stream_wrapper d f) args =
      search (keeps_rules, Keeps-argument stable, Keeps-adopt_stream, Keeps-call)
  Keeps-run_body (unpacking f receives_hdl) args = Keeps-run_unpacking stable f receives_hdl args
  Keeps-run_body (request_unpacking f receives_hdl) args =
      Keeps-run_request_unpacking stable f receives_hdl args

  module _ (t : ℕ) (flags : (up : Bool) → Keeps P (set_callback_thread_flag t up)) where
    Keeps-guarded :
        (d : ℕ) (fallback : Value) (m : Exec Value)
        → Keeps P m
        → Keeps P (guarded env t d fallback m)
    unfolding guarded
    Keeps-guarded d fallback m km = search (dispatch_rules, flags)

    ruleset callback_rules = (
      keeps_rules, Keeps-call, Keeps-guarded, Keeps-run_body, Keeps-dispatch_and_forget,
      Keeps-dispatch_and_wait, Keeps-dispatch_identity,
    )

    -- A callback of any kind.
    pub Keeps-invoke : (callback : Wrapped) (args : Args) → Keeps P (invoke env t callback args)
    unfolding invoke
    Keeps-invoke (bare body) args = Keeps-run_body body args
    Keeps-invoke (sync_wrapped d body) args = search callback_rules
    Keeps-invoke (fire_and_forget d body loop) args = search callback_rules
    Keeps-invoke (with_result d body loop timeout) args = search callback_rules
    Keeps-invoke (identity d handler loop timeout) args = search callback_rules
