-- ===== src/Polling/Cleanup.antt =====
-- Giving a future up raises nothing that its caller must handle.
use py_obscura_proto.Base.{◌≡◌, true, some, ◌∷◌, arith}
use py_obscura_proto.Runtime.{World, Exc, is_exception, ok, raised, Future, DoneCallback, reap}
use py_obscura_proto.Base.{ℕ, List}
use py_obscura_proto.Polling.{abandon_timed_out_future}

-- What the two methods raise, if they raise, is caught by `except Exception`.
pub record IsTame (future : Future) : Type 0 where
  pub cancel_tame : (e : Exc) → future.cancel ≡ some (raised e) → is_exception e ≡ true
  pub attach_tame : (e : Exc) → future.attach ≡ some (raised e) → is_exception e ≡ true

abbrev pub with_reaper : Future → List (ℕ × DoneCallback) → List (ℕ × DoneCallback)
with_reaper future old = elim future.attach [ some (ok _) ↦ (future.ident, reap) ∷ old | _ ↦ old ]

-- Whichever of the two methods a future lacks and whichever of them raise an `Exception`, giving it
-- up returns, takes no time, and attaches the reaper exactly if `add_done_callback` can do it.
pub abandon_swallows :
    (future : Future) (w : World)
    → IsTame future
    → ((abandon_timed_out_future future w).0 ≡ ok tt)
      × ((abandon_timed_out_future future w).1.now ≡ w.now)
      × ((abandon_timed_out_future future w).1.done_callbacks ≡ with_reaper future w.done_callbacks)
unfolding abandon_timed_out_future
abandon_swallows future w tame = grind (arith, tame.cancel_tame, tame.attach_tame)
