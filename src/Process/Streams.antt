-- ===== src/Process/Streams.antt =====
-- The methods of a stream keep what calls of the bindings, the pools and user functions keep.
use py_obscura_proto.Base.{ℕ, false, refl, ◌≡◌, Option, none, some}
use py_obscura_proto.Runtime.{
  World, Env, Exec, Value, Fn, Body, Call, is_get, native_call, pure, ◌>>=◌, ◌>>◌, Keeps,
  Keeps-bind, Keeps-reads, ok, Wrapped, bare, plain, data_wrapper, get_stream_id, get_op_code,
  stream_end, stream_cancel, stream_write, set_data_handler, set_end_handler, set_cancel_handler,
  Keeps-option, keeps_rules, Keeps-pure,
}
use py_obscura_proto.Executor.{run_in_stream_executor}
use py_obscura_proto.Dispatcher.{set_error_handler, wrap_fire_and_forget}
use py_obscura_proto.Stream
use py_obscura_proto.Stream.{wrap_for, cpp_of}
use py_obscura_proto.Process.{StreamMethod, run_stream, OnPools}
use py_obscura_proto.Process.{drop}
use py_obscura_proto.Process.Methods.{
  IsProcess, Keeps-native, Keeps-set_error_handler, Keeps-wrap_fire_and_forget, Keeps-submit,
}

module _ {P : World → Type 0} {env : Env} (process : IsProcess P env) where
  module _ (t : ℕ) (meanwhile : World → World) (on_pools : OnPools meanwhile) where
    Keeps-drop : {A : Type 0} (m : Exec A) → Keeps P m → Keeps P (drop m)
    Keeps-drop m km = Keeps-bind m (λ v. pure tt) km (λ v. Keeps-pure tt)

    -- The methods of a stream read its `_s` first.
    Keeps-called :
        (s : ℕ) (call : Value → Call)
        → ((v : Value) → is_get (call v) ≡ false)
        → Keeps P (λ w. native_call env (call (cpp_of s w)) w)
    Keeps-called s call no_get =
        Keeps-reads (λ w. native_call env (call (cpp_of s w)))
          (λ w. Keeps-native process (call (cpp_of s w)) (no_get (cpp_of s w)))

    Keeps-submitted :
        (s : ℕ) (call : Value → Call)
        → Keeps P (λ w. run_in_stream_executor meanwhile (call (cpp_of s w)) w)
    Keeps-submitted s call =
        Keeps-reads (λ w. run_in_stream_executor meanwhile (call (cpp_of s w)))
          (λ w. Keeps-submit process t meanwhile on_pools (call (cpp_of s w)))

    Keeps-wrap_for : (s : ℕ) (body : Body) → Keeps P (wrap_for env t s body)
    unfolding wrap_for
    Keeps-wrap_for s body =
        Keeps-reads
          (λ w u. elim (w.streams s).dispatcher [
            | none ↦ pure (some (bare body)) u
            | some d ↦ wrap_fire_and_forget env t d (some body) u
          ])
          (λ w.
            Keeps-option (w.streams s).dispatcher (pure (some (bare body)))
              (λ d. wrap_fire_and_forget env t d (some body)) (Keeps-pure _)
              (λ d. Keeps-wrap_fire_and_forget process t d (some body)))

    Keeps-registered :
        (s : ℕ) (body : Body) (f : Fn) (call : Value → Option Wrapped → Call)
        → ((v : Value) (wrapped : Option Wrapped) → is_get (call v wrapped) ≡ false)
        → Keeps P (λ w.
          (wrap_for env t s body >>= λ wrapped.
          native_call env (call (cpp_of s w) wrapped) >> pure f)
            w)
    Keeps-registered s body f call no_get =
        Keeps-reads
          (λ w. wrap_for env t s body >>= λ wrapped.
            native_call env (call (cpp_of s w) wrapped) >> pure f)
          (λ w. search (keeps_rules, Keeps-native process, Keeps-wrap_for, no_get))

    Keeps-on_error : (s : ℕ) (f : Fn) → Keeps P (Stream.on_error s f)
    unfolding Stream.on_error
    Keeps-on_error s f =
        Keeps-reads
          (λ w u. elim (w.streams s).dispatcher [
            | none ↦ (ok f, u)
            | some d ↦ (set_error_handler d (some f) >> pure f) u
          ])
          (λ w.
            Keeps-option (w.streams s).dispatcher (pure f)
              (λ d. set_error_handler d (some f) >> pure f) (Keeps-pure f)
              (λ d. search (keeps_rules, Keeps-set_error_handler process)))

    pub Keeps-run_stream : (s : ℕ) (m : StreamMethod) → Keeps P (run_stream env t meanwhile s m)
    unfolding run_stream Stream.stream_id Stream.op_code Stream.end Stream.cancel Stream.async_end
        Stream.async_cancel Stream.write Stream.async_write Stream.on_data Stream.on_end
        Stream.on_cancel
    Keeps-run_stream s StreamMethod.reads_id =
        Keeps-drop _ (Keeps-called s get_stream_id (λ v. refl))
    Keeps-run_stream s StreamMethod.reads_op_code =
        Keeps-drop _ (Keeps-called s get_op_code (λ v. refl))
    Keeps-run_stream s StreamMethod.ends = Keeps-drop _ (Keeps-called s stream_end (λ v. refl))
    Keeps-run_stream s StreamMethod.cancels =
        Keeps-drop _ (Keeps-called s stream_cancel (λ v. refl))
    Keeps-run_stream s (StreamMethod.writes chunk) =
        Keeps-drop _ (Keeps-called s (λ v. stream_write v chunk) (λ v. refl))
    Keeps-run_stream s StreamMethod.ends_async = Keeps-drop _ (Keeps-submitted s stream_end)
    Keeps-run_stream s StreamMethod.cancels_async = Keeps-drop _ (Keeps-submitted s stream_cancel)
    Keeps-run_stream s (StreamMethod.writes_async chunk) =
        Keeps-drop _ (Keeps-submitted s (λ v. stream_write v chunk))
    Keeps-run_stream s (StreamMethod.takes_data f) =
        Keeps-drop _ (Keeps-registered s (data_wrapper f) f set_data_handler (λ v x. refl))
    Keeps-run_stream s (StreamMethod.takes_end f) =
        Keeps-drop _ (Keeps-registered s (plain f) f set_end_handler (λ v x. refl))
    Keeps-run_stream s (StreamMethod.takes_cancel f) =
        Keeps-drop _ (Keeps-registered s (plain f) f set_cancel_handler (λ v x. refl))
    Keeps-run_stream s (StreamMethod.handles_errors f) = search (keeps_rules, Keeps-on_error)
