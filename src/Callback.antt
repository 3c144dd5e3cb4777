-- ===== src/Callback.antt =====
-- The thread-local flag that marks a thread as being inside a callback, and the guard of the blocking
-- calls (src/ObscuraProto/__init__.py, `_in_callback_thread` to `_warn_if_event_loop_thread`).
-- `t` is the thread that runs the code.
pub mod Blocking
use py_obscura_proto.Base.{ℕ, ◌+◌, Bool, none, some, String, if◌then◌else◌}
use py_obscura_proto.Runtime.{World, Env, Exec, ok, raised, logic_error, text, modify, update}

abbrev pub in_callback_thread : ℕ → World → Bool
in_callback_thread t w = w.in_callback t

unfoldable pub set_callback_thread_flag : ℕ → Bool → Exec (Unit {0})
set_callback_thread_flag t value =
    modify λ w. record w { in_callback = update w.in_callback t value }

-- A warning is counted; it does not raise, as under Python's default filters.
unfoldable pub warn_if_event_loop_thread : Env → ℕ → Exec (Unit {0})
warn_if_event_loop_thread env t =
    modify λ w. elim (env.running_loop t) [ none ↦ w | some l ↦ record w { warned = w.warned + 1 } ]

-- `if _in_callback_thread(): raise LogicError(...)`
unfoldable pub reject_in_callback : ℕ → String → Exec (Unit {0})
reject_in_callback t message w =
    if in_callback_thread t w then (raised (logic_error (text message)), w) else (ok tt, w)
