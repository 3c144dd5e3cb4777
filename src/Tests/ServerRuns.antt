-- ===== src/Tests/ServerRuns.antt =====
-- Examples for the guards, requests and registrations of a server.
use mathlib.Core.Option
use py_obscura_proto.Base.{zero, suc, ◌≡◌, refl, true, false, some, none, [], ◌∷◌}
use py_obscura_proto.Runtime.{
  World, Env, ok, raised, Value, native_value, none_value, text, value_error, run, async_with, Fn,
  Args, with_args, plain, sync_wrapped, stop, pure, Result, ◌>>◌,
}
use py_obscura_proto.Dispatcher.{invoke}
use py_obscura_proto.Dispatcher.Bodies.{run_body}
use py_obscura_proto.Dispatcher.Results.{with_flag}
use py_obscura_proto.Server.{Server, stop_server, enter, exit}
use py_obscura_proto.Server.Guards.{nested_callback_unguarded}
use py_obscura_proto.Server.Lifecycle.{server_context}
use py_obscura_proto.Tests.{env, world}

abbrev pub server : Server
server = record {
  long_term_key = native_value 1;
  native = native_value 2;
  dispatcher = 5;
  port = none;
}

abbrev flagged : World
flagged = with_flag 0 true world

-- Function 0 returns `None`; any other calls it through a wrapper and stops the server.
abbrev nesting : Fn → Args → World → Result Value × World
nesting zero given w = (ok none_value, w)
nesting (suc f) given w =
    (do
      invoke (record env { call = λ _ _ u. (ok none_value, u) }) 0 (sync_wrapped 5 (plain 0))
          (with_args [])
      stop_server env 0 server
      pure none_value)
      w

abbrev nesting_env : Env
nesting_env = record env { call = nesting }

nested_callback_unguarded_example :
    (nesting_env.call 1 (with_args []) flagged).1.calls ≡ stop (native_value 2) ∷ []
unfolding invoke run_body stop_server
nested_callback_unguarded_example =
    nested_callback_unguarded nesting_env 0 server 1 (with_args []) (with_args [])
      (sync_wrapped 5 (plain 0)) none_value world (with_flag 0 false (with_flag 0 true flagged))
      refl (λ x. refl) refl

abbrev listening : Server
listening = record server { port = some 9001 }

-- A block that raises after the server has started.
abbrev failing_block : Server → World → Result (Unit {0}) × World
failing_block s w = (raised (value_error (text "in the block")), w)

server_context_example :
    let (r, u) = async_with (enter env 0 listening) (exit env 0 listening) failing_block world in
    (r ≡ raised (value_error (text "in the block")))
    × (u.calls ≡ stop (native_value 2) ∷ run (native_value 2) 9001 ∷ [])
server_context_example =
    server_context env 0 listening failing_block world 9001 refl (native_value 4) refl
