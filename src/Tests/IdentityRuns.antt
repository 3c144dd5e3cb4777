-- ===== src/Tests/IdentityRuns.antt =====
-- An example for the identity check.
use py_obscura_proto.Base.{◌≡◌, ◌⊎◌, refl, true, false, some, [], ◌∷◌}
use py_obscura_proto.Runtime.{ok, bool_value, coroutine_value, with_args, hdl_value, key_value}
use py_obscura_proto.Polling.{wait_future_with_polling, is_done, sleep}
use py_obscura_proto.Dispatcher.{invoke, dispatch_identity}
use py_obscura_proto.Dispatcher.Identity.{Approved, identity_fails_closed}
use py_obscura_proto.Dispatcher.Results.{with_flag}
use py_obscura_proto.Tests.{env, world}

-- Function 1 is async; its coroutine is done after 70 ms, with `True`.
identity_fails_closed_example :
    (bool_value true ≡ bool_value false)
    ⊎ ((bool_value true ≡ bool_value true)
        × Approved env (some 1) 100_000 (ok (coroutine_value 5)) (with_flag 0 true world))
unfolding invoke dispatch_identity wait_future_with_polling is_done sleep
identity_fails_closed_example =
    identity_fails_closed env 0 0 1 (some 1) 100_000 (with_args (hdl_value 7 ∷ key_value 1 ∷ []))
      world (bool_value true) refl
