-- ===== src/Tests/EventLoopRuns.antt =====
-- Examples for futures whose coroutine ends when nobody waits any more.
use py_obscura_proto.Base.{true, ◌≡◌, refl, [], ◌∷◌, arith, zero, suc}
use py_obscura_proto.Runtime.{
  World, Env, ok, raised, Result, Value, error_value, none_value, coroutine_value, value_error,
  text, Fn, Args, with_args, plain, fire_and_forget, Future, timeout_error, did_not_complete,
}
use py_obscura_proto.Dispatcher.{invoke}
use py_obscura_proto.Dispatcher.Bodies.{run_body}
use py_obscura_proto.Dispatcher.Results.{with_flag}
use py_obscura_proto.Polling.{wait_future_with_polling, is_done}
use py_obscura_proto.EventLoop.{complete_future}
use py_obscura_proto.EventLoop.Forwarding.{async_error_forwarded, late_outcome_dropped}
use py_obscura_proto.Tests.{env, world, stuck_future}

-- Function 0 is async; the others record what they get.
abbrev recording : Fn → Args → World → Result Value × World
recording zero given w = (ok (coroutine_value 5), w)
recording (suc f) given w = (ok none_value, record w { user = given.positional })

abbrev failing_future : Future
failing_future = record stuck_future { outcome = raised (value_error (text "late")) }

abbrev failing : Env
failing = record env { call = recording; future_of = λ _ _ _. ok failing_future }

-- What the callback left, a minute later.
abbrev later : World
later = record (invoke failing 0 (fire_and_forget 0 (plain 0) 1) (with_args []) world).1 {
  now = 60_000_000;
}

async_error_forwarded_example :
    complete_future failing failing_future later
    ≡ (ok tt, record later { user = error_value (value_error (text "late")) ∷ [] })
unfolding run_body
async_error_forwarded_example =
    async_error_forwarded failing 0 0 1 5 3 (plain 0) (with_args []) failing_future world
      (with_flag 0 true world) later refl refl refl refl refl
      (λ e h. ground arith, λ given w e h. absurd (ground arith))

abbrev timed_out_world : World
timed_out_world = (wait_future_with_polling env failing_future 100_000 world).1

late_outcome_dropped_example :
    ((wait_future_with_polling env failing_future 100_000 world).0
      ≡ raised (timeout_error (did_not_complete 100_000)))
    × (complete_future env failing_future timed_out_world ≡ (ok tt, timed_out_world))
unfolding is_done
late_outcome_dropped_example =
    late_outcome_dropped env failing_future 100_000 world timed_out_world
      (record { can_cancel = refl; can_attach = refl }) refl refl refl
