-- ===== src/Dispatcher/Isolation.antt =====
-- The flag is a thread's own: a callback on one thread leaves the flags of the others alone.
use py_obscura_proto.Base.{ℕ, ◌≡◌, refl, ◌∙◌, Bool, false, String, arith, ◌==◌}
use py_obscura_proto.Runtime.{World, Env, Fn, Args, Wrapped, Keeps, IsStable}
use py_obscura_proto.Callback.{set_callback_thread_flag, reject_in_callback}
use py_obscura_proto.Dispatcher.{invoke}
use py_obscura_proto.Dispatcher.Keeping.{Keeps-invoke}

-- User functions leave the flag of thread `o` alone: only wrappers write flags, each that of its thread.
abbrev pub KeepsCalls : ℕ → Env → Type 0
KeepsCalls o env =
    (f : Fn) (args : Args) (w : World) → (env.call f args w).1.in_callback o ≡ w.in_callback o

-- The flag of thread `o` is `up`.
abbrev Flag : ℕ → Bool → World → Type 0
Flag o up w = w.in_callback o ≡ up

Flag-IsStable : (o : ℕ) (up : Bool) (env : Env) → KeepsCalls o env → IsStable (Flag o up) env
Flag-IsStable o up env calls = record {
  aside = λ w u a h. ground (arith, a.same_flags);
  native = λ c plain. record { at = λ w h. h };
  calls = λ f args. record { at = λ w h. calls f args w ∙ h };
}

other-Flag :
    (o t : ℕ) (up up' : Bool)
    → (t == o) ≡ false
    → Keeps (Flag o up) (set_callback_thread_flag t up')
unfolding set_callback_thread_flag
other-Flag o t up up' other = record { at = λ w h. ground arith }

-- A callback of any kind on thread `t`, whatever it does, if user functions leave the flag of another
-- thread `o` alone: that flag is as before on every path, so the guard of a blocking method on `o` says
-- the same as before.
pub flags_apart :
    (env : Env) (t o : ℕ) (callback : Wrapped) (args : Args) (message : String) (w : World)
    → (t == o) ≡ false
    → KeepsCalls o env
    → let u = (invoke env t callback args w).1 in
      (u.in_callback o ≡ w.in_callback o)
      × ((reject_in_callback o message u).0 ≡ (reject_in_callback o message w).0)
unfolding reject_in_callback
flags_apart env t o callback args message w other calls =
    let stable = Flag-IsStable o (w.in_callback o) env calls in
    let kept =
      (Keeps-invoke stable t (λ up. other-Flag o t (w.in_callback o) up other) callback args).at w
        refl in
    (kept, ground arith)
