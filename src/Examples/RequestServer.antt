-- ===== src/Examples/RequestServer.antt =====
-- examples/request_response_example/server_example.py
use py_obscura_proto.Base.{ℕ, ◌==◌, [], ◌∷◌, none, if◌then◌else◌}
use py_obscura_proto.Runtime.{
  Env, Exec, ok, raised, Value, error_value, is_exception, Fn, try_finally, ◌>>=◌, ◌>>◌,
}
use py_obscura_proto.Server.{Server, new_server, on_anon_request, start, public_key, stop_server}
use py_obscura_proto.Examples.{Setting, is_cancelled, print, given}

abbrev pub op_add_request : ℕ
op_add_request = 0x1000

abbrev pub op_add_response : ℕ
op_add_response = 0x1001

abbrev pub server_port : ℕ
server_port = 9003

-- The handler, from its arguments.
unfoldable pub handle_add_request : Setting → Value → Value → Value → Exec Value
handle_add_request x hdl a b = do
  print "[SERVER] Received add request: {a} + {b}" (a ∷ b ∷ [])
  result ← given (x.add a b)
  print "[SERVER] Sending response: {result}" (result ∷ [])
  given (x.build op_add_response (result ∷ []))

module _ (env : Env) (t : ℕ) (x : Setting) where
  -- The body of the `try` statement.
  unfoldable pub serve : Server → Exec (Unit {0})
  unfolding start public_key
  serve server = do
    start env t server server_port
    print "[SERVER] Server started on port {port}." []
    x.opens
    key ← public_key env t server
    x.saves key
    print "[SERVER] Server public key saved to {public_key_path}" []
    print "[SERVER] Press Ctrl+C to stop the server." []
    λ w. let (e, u) = x.interrupted w in (raised e, u)

  -- The two `except` clauses.
  unfoldable pub serve_caught : Server → Exec (Unit {0})
  unfolding serve
  serve_caught server w =
      let (r, u) = serve server w in
      elim r [
        | ok v ↦ (ok v, u)
        | raised e ↦
            if is_cancelled e
            then print "[SERVER] Server stopping..." [] u
            else if is_exception e
            then print "[SERVER] An error occurred: {e}" (error_value e ∷ []) u
            else (raised e, u)
      ]

  -- The `finally` clause.
  unfoldable pub shutdown : Server → Exec (Unit {0})
  unfolding stop_server
  shutdown server = do
    print "[SYSTEM] Shutting down server..." []
    stop_server env t server
    print "[SYSTEM] Server shutdown complete." []

  -- With a handler of the identity `handler`.
  unfoldable pub main : Fn → Exec (Unit {0})
  unfolding new_server on_anon_request serve_caught shutdown
  main handler = do
    code ← given x.init
    if code == 0
        then (do
          print "[SYSTEM] Crypto library initialized." []
          server ← new_server env none none
          on_anon_request env t server op_add_request handler
          try_finally (serve_caught server) (shutdown server))
        else print "[SYSTEM] Failed to initialize crypto library!" []
