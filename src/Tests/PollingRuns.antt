-- ===== src/Tests/PollingRuns.antt =====
-- Examples for the polling loop.
use py_obscura_proto.Base.{◌+◌, ◌≤◌, ◌≡◌, ◌⊎◌, refl, true, false, [], ◌∷◌, arith}
use py_obscura_proto.Runtime.{ok, raised, bool_value, reap, timeout_error, did_not_complete}
use py_obscura_proto.Polling.{wait_future_with_polling, is_done}
use py_obscura_proto.Polling.Timing.{IsCancellable, wait_ends, wait-le-timeout}
use py_obscura_proto.Tests.{env, world, stuck_future}

stuck_future-IsCancellable : IsCancellable stuck_future
stuck_future-IsCancellable = record { can_cancel = refl; can_attach = refl }

wait_ends_example :
    let (r, w') = wait_future_with_polling env stuck_future 100_000 world in
    ((r ≡ ok (bool_value true)) × (is_done stuck_future w'.now ≡ true) × (w'.done_callbacks ≡ []))
    ⊎ ((r ≡ raised (timeout_error (did_not_complete 100_000)))
        × (100_000 ≤ w'.now)
        × (is_done stuck_future w'.now ≡ false)
        × (w'.cancelled ≡ 9 ∷ [])
        × (w'.done_callbacks ≡ (9, reap) ∷ []))
wait_ends_example = wait_ends env stuck_future 100_000 stuck_future-IsCancellable world

wait-le-timeout_example :
    (wait_future_with_polling env stuck_future 100_000 world).1.now ≤ 0 + 100_000 + 10
wait-le-timeout_example = wait-le-timeout env stuck_future 100_000 10 (λ n. omega arith) world
