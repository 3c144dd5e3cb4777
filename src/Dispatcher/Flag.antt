-- ===== src/Dispatcher/Flag.antt =====
-- The "inside a callback" flag after a wrapped callback.
use py_obscura_proto.Base.{ℕ, ◌≡◌, Bool, true, false, arith}
use py_obscura_proto.Runtime.{
  World, Env, Args, Wrapped, bare, sync_wrapped, fire_and_forget, with_result, identity,
}
use py_obscura_proto.Dispatcher.{invoke}

abbrev pub is_bare : Wrapped → Bool
is_bare (bare body) = true
is_bare _ = false

-- After a call of any closure that a dispatcher made, on every path (the callback returned, raised, was
-- scheduled, timed out, or its error handler raised), the flag of the calling thread is down.
pub flag_cleared :
    (env : Env) (t : ℕ) (wrapped : Wrapped) (args : Args) (w : World)
    → is_bare wrapped ≡ false
    → (invoke env t wrapped args w).1.in_callback t ≡ false
unfolding invoke
flag_cleared env t (bare body) args w h = absurd (ground arith)
flag_cleared env t (sync_wrapped d body) args w h = ground arith
flag_cleared env t (fire_and_forget d body loop) args w h = ground arith
flag_cleared env t (with_result d body loop timeout) args w h = ground arith
flag_cleared env t (identity d handler loop timeout) args w h = ground arith
