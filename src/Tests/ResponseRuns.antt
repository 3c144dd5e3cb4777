-- ===== src/Tests/ResponseRuns.antt =====
-- Examples for the waiter, the registry and the event loop's side of a response.
use py_obscura_proto.Base.{[], ◌∷◌, ◌+◌, ◌≤◌, ◌≢◌, refl, some, arith}
use py_obscura_proto.Runtime.{
  ok, raised, diverged, future_get, update, native_value, timeout_error, timed_out,
}
use py_obscura_proto.Response.{claim_cpp_future, fetch_loop}
use py_obscura_proto.Response.SingleUse.{gets, IsSingleUse}
use py_obscura_proto.Response.Fetch.{fetch_ends, fetch-le-deadline, fetch_calls, LastCalls}
use py_obscura_proto.Response.Await.{
  Await, Inv, Reach, Reach-Inv, here, next, fetched, guard, publishes, posted, published, cancelled,
  returned, awaiting, pending, conclude, post, publish, cancel,
}
use py_obscura_proto.Response.Delivery.{CanReturn, response_deliverable}
use py_obscura_proto.Response.Race
use py_obscura_proto.Response.Race.{get_once}
use py_obscura_proto.Tests.{env, world}

world-IsSingleUse : IsSingleUse world
world-IsSingleUse = record {
  at_most_once = λ f. omega arith;
  registered = λ f h. absurd (omega arith);
}

answers_never_diverged : (cs : _) (c : _) → env.reply cs c ≢ raised diverged
answers_never_diverged cs c h = ground arith

fetch_ends_example : (fetch_loop 200 env 4 "async_request" 100 (some 100) world).0 ≢ raised diverged
fetch_ends_example =
    fetch_ends env 4 "async_request" 100 answers_never_diverged 200 100 world (omega arith)

fetch-le-deadline_example :
    (fetch_loop 200 env 4 "async_request" 100 (some 100) world).1.now ≤ 100 + 10
fetch-le-deadline_example =
    fetch-le-deadline env 4 "async_request" 100 10 (λ n. omega arith) 200 100 world (omega arith)

fetch_calls_example :
    LastCalls env 4 "async_request" 100
      (fetch_loop 200 env 4 "async_request" 100 (some 100) world).1.calls
fetch_calls_example = fetch_calls env 4 "async_request" 100 199 (some 100) world

-- The waiter has its outcome when the guard fires.
abbrev has_outcome : Await
has_outcome = record { waiter = posted (ok (native_value 4)); cell = pending; coroutine = awaiting }

fetched_first : Reach (some 100) "async_request" has_outcome
unfolding post
fetched_first = next here (fetched (ok (native_value 4)) refl refl)

abbrev given_up : Await
given_up = record has_outcome {
  cell = cancelled;
  coroutine = returned (raised (timeout_error (timed_out "async_request" 100)));
}

guard_wins : Reach (some 100) "async_request" given_up
unfolding cancel
guard_wins = next fetched_first (guard 100 refl refl refl)

late_publication :
    Reach (some 100) "async_request" (record given_up { waiter = published (ok (native_value 4)) })
unfolding publish
late_publication = next guard_wins (publishes (ok (native_value 4)) refl refl)

Reach-Inv_example :
    Inv (some 100) "async_request" (record given_up { waiter = published (ok (native_value 4)) })
Reach-Inv_example = Reach-Inv late_publication

response_deliverable_example :
    CanReturn (some 100) "async_request" has_outcome (ok (native_value 4))
unfolding conclude
response_deliverable_example = response_deliverable fetched_first refl (ok (native_value 4)) refl

-- Threads 1 and 2 both consume the future 4: thread 2 is first at the lock, and thread 1 is refused.
abbrev start : Race.Threads
start = record { world = world; phase = λ _. Race.elsewhere }

abbrev waiting : Race.Threads
waiting = record start { phase = update (update start.phase 1 (Race.calling 4)) 2 (Race.calling 4) }

abbrev taken : Race.Threads
taken = record waiting {
  world = record world { consumed = 4 ∷ [] };
  phase = update (update waiting.phase 2 (Race.getting 4)) 1 Race.elsewhere;
}

abbrev got : Race.Threads
got = record taken {
  world = record taken.world { calls = future_get 4 ∷ [] };
  phase = update taken.phase 2 Race.elsewhere;
}

both_called : Race.Reach env world waiting
both_called =
    Race.next (Race.next Race.here (Race.calls_it 1 4 refl refl)) (Race.calls_it 2 4 refl refl)

one_got : Race.Reach env world got
unfolding claim_cpp_future
one_got =
    Race.next
      (Race.next (Race.next both_called (Race.claims 2 4 refl refl refl))
        (Race.refused 1 4 _ refl refl refl))
      (Race.gets_it 2 4 refl refl)

get_once_example : gets 4 (future_get 4 ∷ []) ≤ 1
get_once_example = get_once world-IsSingleUse one_got 4
