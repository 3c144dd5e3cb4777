-- ===== src/Tests/DispatcherRuns.antt =====
-- Examples for the wrappers of a dispatcher.
use py_obscura_proto.Base.{
  ◌==◌, if◌then◌else◌, zero, suc, ◌≡◌, refl, true, false, some, [], ◌∷◌, arith,
}
use py_obscura_proto.Runtime.{
  update, logic_error, World, Env, ok, raised, none_value, coroutine_value, value_error, text,
  plain, with_args, sync_wrapped, fire_and_forget, with_result, Result, Value, Fn, Args, Future,
  error_value,
}
use py_obscura_proto.Dispatcher.{invoke}
use py_obscura_proto.Dispatcher.Bodies.{run_body}
use py_obscura_proto.Dispatcher.Flag.{flag_cleared}
use py_obscura_proto.Dispatcher.Results.{with_flag}
use py_obscura_proto.Dispatcher.Errors.{
  HasCalmHandler, IsContained, invoke-IsContained, error_handler_twice, returning,
}
use py_obscura_proto.Callback.{set_callback_thread_flag, reject_in_callback}
use py_obscura_proto.Dispatcher.Threads
use py_obscura_proto.Dispatcher.Threads.{guard_exact}
use py_obscura_proto.Dispatcher.Reference.{HasQuietHandler, reference, invoke-reference}
use py_obscura_proto.Polling.{wait_future_with_polling, is_done}
use py_obscura_proto.Tests.{env, world, done_future, called}

flag_cleared_example :
    (invoke env 0 (fire_and_forget 0 (plain 1) 1) (with_args []) world).1.in_callback 0 ≡ false
flag_cleared_example = flag_cleared env 0 (fire_and_forget 0 (plain 1) 1) (with_args []) world refl

abbrev flagged : World
flagged = with_flag 0 true world

-- Function 2 raises; the error handler 3 returns.
calm_handler : HasCalmHandler env 0 (plain 2) (with_args []) 3 flagged
unfolding run_body
calm_handler = record { registered = refl; calm = λ given w. (none_value, refl) }

invoke-IsContained_example :
    IsContained (invoke env 0 (sync_wrapped 0 (plain 2)) (with_args []) world).0
    × IsContained (invoke env 0 (fire_and_forget 0 (plain 2) 1) (with_args []) world).0
    × IsContained (invoke env 0 (with_result 0 (plain 2) 1 100_000) (with_args []) world).0
invoke-IsContained_example =
    invoke-IsContained env 0 0 3 (plain 2) (with_args []) 1 100_000 world calm_handler

-- The coroutine fails at once, and the error handler raises as well.
abbrev failed_future : Future
failed_future = record done_future {
  finish = some 0;
  outcome = raised (value_error (text "first"));
}

abbrev raising : Fn → Args → World → Result Value × World
raising zero _ w = (ok (coroutine_value 5), w)
raising (suc f) given w = (
  raised (value_error (text "second")),
  record w { user = error_value (value_error (text "seen")) ∷ w.user },
)

abbrev unlucky : Env
unlucky = record env { call = raising; future_of = λ _ _ _. ok failed_future }

abbrev scheduled_world : World
scheduled_world = record flagged { scheduled = (5, 1) ∷ [] }

abbrev seen_once : World
seen_once = record scheduled_world { user = error_value (value_error (text "seen")) ∷ [] }

error_handler_twice_example :
    let (r, u) =
      unlucky.call 3 (with_args (error_value (value_error (text "second")) ∷ [])) seen_once in
    invoke unlucky 0 (with_result 0 (plain 0) 1 100_000) (with_args []) world
    ≡ (returning none_value r, with_flag 0 false u)
unfolding run_body wait_future_with_polling is_done
error_handler_twice_example =
    error_handler_twice unlucky 0 0 3 (plain 0) (with_args []) 1 100_000 5 failed_future
      (value_error (text "first")) (value_error (text "second")) world flagged scheduled_world
      seen_once refl refl refl refl refl refl refl refl

-- Function 2 raises, and the error handler, function 3, records what it gets.
abbrev recording : Env
recording = record env {
  call = λ f given w.
      if f == 3 then (ok none_value, record w { user = given.positional }) else (called f, w);
}

raised_quiet :
    HasQuietHandler recording 0
      (run_body recording (plain 2) (with_args []) (with_flag 0 true world)).1
unfolding run_body
raised_quiet h q given u e x = absurd (ground arith)

invoke-reference_example :
    invoke recording 0 (with_result 0 (plain 2) 1 100_000) (with_args []) world
    ≡ reference recording 0 0 (plain 2) 1 100_000 (with_args []) world
invoke-reference_example =
    invoke-reference recording 0 0 (plain 2) 1 100_000 (with_args []) world raised_quiet

-- Threads 0 and 2 enter callbacks, and thread 0 leaves its one.
abbrev idle : Threads.Threads
idle = record { world = world; depth = λ _. 0 }

abbrev only_2 : Threads.Threads
only_2 = record {
  world = with_flag 0 false (with_flag 2 true (with_flag 0 true world));
  depth = update (update (update (λ _. 0) 0 1) 2 1) 0 0;
}

only_2-Reach : Threads.Reach 1 only_2
unfolding set_callback_thread_flag
only_2-Reach =
    Threads.steps
      (Threads.steps
        (Threads.steps (Threads.starts {s = idle} (λ t. refl) (λ t. refl))
          (Threads.enters 0 (omega arith) refl))
        (Threads.enters 2 (omega arith) refl))
      (Threads.leaves 0 0 refl refl)

guard_exact_example :
    reject_in_callback 2 "busy" only_2.world ≡ (raised (logic_error (text "busy")), only_2.world)
guard_exact_example = guard_exact 2 "busy" only_2-Reach
