-- ===== src/EventLoop.antt =====
-- What an event loop does with a future when its coroutine ends: the part of asyncio that
-- `_forward_error` and `_reap_future_result` (src/ObscuraProto/__init__.py) are called by. The done
-- callbacks run in the order in which they were attached, and an exception of one is logged by the loop.
pub mod Forwarding
use py_obscura_proto.Base.{ℕ, List, [], ◌∷◌, ◌++◌, ◌==◌, if◌then◌else◌}
use py_obscura_proto.Runtime.{
  World, Env, Exec, Result, ok, Value, none_value, Future, DoneCallback, try_except, pure, ◌>>=◌,
  ◌>>◌,
}
use py_obscura_proto.Polling.{run_done_callback}

-- The callbacks of future `f`, oldest first, from the record, newest first.
abbrev pub callbacks_of : ℕ → List (ℕ × DoneCallback) → List DoneCallback
callbacks_of f [] = []
callbacks_of f ((g, c) ∷ cs) =
    let rest = callbacks_of f cs in if f == g then rest ++ c ∷ [] else rest

unfoldable pub run_callbacks : Env → Result Value → List DoneCallback → Exec (Unit {0})
unfolding run_done_callback
run_callbacks env outcome [] = pure tt
run_callbacks env outcome (c ∷ cs) = do
  try_except (run_done_callback env c outcome) (λ _. pure none_value)
  run_callbacks env outcome cs

unfoldable pub complete_future : Env → Future → Exec (Unit {0})
unfolding run_callbacks
complete_future env future w =
    run_callbacks env future.outcome (callbacks_of future.ident w.done_callbacks) w
