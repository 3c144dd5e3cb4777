-- ===== src/Tests/ProcessRuns.antt =====
-- A process that makes a server, asks it for a response, waits for it and runs a callback.
use py_obscura_proto.Base.{◌≡◌, refl, none, some, []}
use py_obscura_proto.Runtime.{
  World, Fn, Args, native_value, payload_value, with_args, with_result, plain, raised, logic_error,
  text,
}
use py_obscura_proto.Response.{consume_cpp_future}
use py_obscura_proto.Server.{Server, new_server}
use py_obscura_proto.Process.{
  ServerMethod, run_server, unused, OnPools, Reached, makes_server, serves, calls_back, waits,
  imported, stepped, IsImported, now, after,
}
use py_obscura_proto.Process.Sound.{IsSound, IsUserRun, Reached-IsSound}
use py_obscura_proto.Process.Consumed.{consumed_forever}
use py_obscura_proto.Dispatcher.{invoke}
use py_obscura_proto.Response.{fetch_loop}
use py_obscura_proto.Tests.{env, world}

abbrev alone : World → World
alone w = w

alone-OnPools : OnPools alone
alone-OnPools v = (v.executors, unused refl, refl)

calls-IsUserRun : (f : Fn) (args : Args) (w : World) → IsUserRun w (env.call f args w).1
calls-IsUserRun f args w = record {
  no_get = λ g. refl;
  same_consumed = refl;
  pool_uses = unused refl;
}

abbrev server : Server
server = record {
  long_term_key = native_value 4;
  native = native_value 4;
  dispatcher = 0;
  port = some 8080;
}

abbrev made : World
made = (new_server env none (some 8080) world).1

abbrev asked : World
asked =
    (run_server env 1 alone server (ServerMethod.requests (native_value 7) (payload_value 2) none)
      made).1

abbrev answered : World
answered = (fetch_loop 10 env 4 "async_request" 0 none asked).1

abbrev called_back : World
called_back = (invoke env 2 (with_result 0 (plain 1) 1 5_000_000) (with_args []) answered).1

world-IsImported : IsImported world
world-IsImported = record {
  no_calls = refl;
  none_consumed = refl;
  no_stream_pool = refl;
  no_request_pool = refl;
  no_pools = refl;
}

asked-Reached : Reached env asked
asked-Reached = stepped (stepped (imported world-IsImported) (makes_server none (some 8080) refl)) (
    serves 1 server (ServerMethod.requests (native_value 7) (payload_value 2) none) alone
      alone-OnPools refl)

called_back-Reached : Reached env called_back
called_back-Reached =
    stepped (stepped asked-Reached (waits 10 4 "async_request" 0 none refl))
      (calls_back 2 (with_result 0 (plain 1) 1 5_000_000) (with_args []) refl)

Reached-IsSound_example : IsSound called_back
Reached-IsSound_example = Reached-IsSound env calls-IsUserRun called_back-Reached

abbrev consumed : World
consumed = (consume_cpp_future env 4 asked).1

abbrev later : World
later = (invoke env 2 (with_result 0 (plain 1) 1 5_000_000) (with_args []) consumed).1

consumed_forever_example : consume_cpp_future env 4 later ≡ (
  raised (logic_error (text "CppPayloadFuture is single-use: get() may only be called once")),
  later,
)
consumed_forever_example =
    consumed_forever env calls-IsUserRun 4 asked-Reached
      (after now (calls_back 2 (with_result 0 (plain 1) 1 5_000_000) (with_args []) refl))
