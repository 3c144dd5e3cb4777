-- ===== src/Tests/RegistryRuns.antt =====
-- An example for a sequence of registrations.
use py_obscura_proto.Base.{◌≡◌, refl, some, none, [], ◌∷◌}
use py_obscura_proto.Server.Registry.{
  run, replay, table_of, payload, request, stream, client_identity,
}
use py_obscura_proto.Server.Registry.Refines.{IsBoundTo, run_refines}
use py_obscura_proto.Tests.{env, world}
use py_obscura_proto.Tests.ServerRuns.{server}

world-IsBoundTo : IsBoundTo env 0 5 (some 1) 5_000_000 world
world-IsBoundTo = record { binds = refl; waits = refl }

-- The second payload handler replaces the first.
run_refines_example :
    table_of 2
      (run env 0 server
        (payload 3 0 ∷ request 3 0 ∷ payload 3 3 ∷ stream 3 1 ∷ client_identity 1 ∷ [])
        world).calls
    ≡ replay env 5
        (some 1)
        5_000_000
        (payload 3 0 ∷ request 3 0 ∷ payload 3 3 ∷ stream 3 1 ∷ client_identity 1 ∷ [])
        (λ _. none)
run_refines_example =
    run_refines env 0 server 2 refl (some 1) 5_000_000
      (payload 3 0 ∷ request 3 0 ∷ payload 3 3 ∷ stream 3 1 ∷ client_identity 1 ∷ []) world
      world-IsBoundTo
