-- ===== src/Examples/RequestClient.antt =====
-- examples/request_response_example/client_example.py
use py_obscura_proto.Base.{ℕ, ◌==◌, [], ◌∷◌, none, some, if◌then◌else◌, Option}
use py_obscura_proto.Runtime.{
  World, Env, Exec, ok, raised, Exc, exception, is_exception, Value, error_value, Fn, plain,
  native_call, make_reader, read, read_int, try_except, try_finally, raise, pure, ◌>>=◌, ◌>>◌,
}
use py_obscura_proto.Client.{
  Client, new_client, on_ready, on_disconnect, connect_to, async_request, disconnect_client,
}
use py_obscura_proto.Examples.{Setting, print, given}
use py_obscura_proto.Examples.RequestServer.{op_add_request, op_add_response}

-- What the program makes: the numbers 5 and 7, the address, and the functions.
pub record Made : Type 0 where
  pub five : Value
  pub seven : Value
  pub uri : ℕ
  pub on_ready_fn : Fn
  pub on_disconnect_fn : Fn

module _ (env : Env) (t : ℕ) (x : Setting) (made : Made) (meanwhile : World → World) where
  unfoldable pub on_ready_handler : Exec (Unit {0})
  on_ready_handler = print "[CLIENT] Handshake complete. Ready to send data." []

  unfoldable pub on_disconnect_handler : Exec (Unit {0})
  on_disconnect_handler = print "[CLIENT] Disconnected from server." []

  -- The key file, with the two `except` clauses: without a key the program ends.
  unfoldable pub load_key : Exec (Option Value)
  load_key w =
      let (r, u) = x.loads w in
      elim r [
        | ok key ↦
            (print "[CLIENT] Server public key loaded from {public_key_path}" [] >> pure (some key))
              u
        | raised e ↦
            if x.is_file_not_found e
            then (print "[CLIENT] Error: Server public key file not found at {public_key_path}." []
                  >> pure none)
                u
            else if is_exception e
            then (print "[CLIENT] Error loading server public key: {e}" (error_value e ∷ [])
                  >> pure none)
                u
            else (raised e, u)
      ]

  -- `AssertionError`
  abbrev pub assertion_error : Exc
  assertion_error = exception 0

  unfoldable pub read_response : Value → Exec (Unit {0})
  read_response response = do
    print "[CLIENT] Received response from server." []
    if env.op_code response == op_add_response
        then (do
          reader ← native_call env (make_reader response)
          sum_result ← native_call env (read read_int reader)
          print "[CLIENT] Add result: {sum_result}" (sum_result ∷ [])
          if x.is_number sum_result 12 then pure tt else raise assertion_error)
        else print "[CLIENT] Received unexpected response opcode: {hex(response_payload.op_code)}"
            (response ∷ [])

  -- The `try` statement with its `except` clause; the last print is part of that clause.
  unfoldable pub ask : Client → Value → Exec (Unit {0})
  unfolding async_request read_response
  ask client request =
      try_except
        (do
          awaiting ← async_request env t client meanwhile request none
          response ← x.awaits awaiting
          read_response response)
        (λ e. do
          print "[CLIENT] An error occurred during the request: {e}" (error_value e ∷ [])
          print "[SYSTEM] Request-response exchange completed." [])

  unfoldable pub shutdown : Client → Exec (Unit {0})
  unfolding disconnect_client
  shutdown client = do
    print "[SYSTEM] Shutting down client..." []
    disconnect_client env t client
    print "[SYSTEM] Client shutdown complete." []

  unfoldable pub make_client_connected : Value → Exec Client
  unfolding new_client on_ready on_disconnect connect_to
  make_client_connected key = do
    client ← new_client env key none none
    on_ready env t client (some (plain made.on_ready_fn))
    on_disconnect env t client (some (plain made.on_disconnect_fn))
    connect_to env t client made.uri
    pure client

  unfoldable pub run_with : Option Value → Exec (Unit {0})
  unfolding make_client_connected ask shutdown
  run_with none = pure tt
  run_with (some key) = do
    client ← make_client_connected key
    x.sleeps 5_000_000
    print "[CLIENT] Sending add request (5 + 7)..." []
    request ← given (x.build op_add_request (made.five ∷ made.seven ∷ []))
    try_finally (ask client request) (shutdown client)

  unfoldable pub main : Exec (Unit {0})
  unfolding load_key run_with
  main = do
    code ← given x.init
    if code == 0
        then (do print "[SYSTEM] Crypto library initialized." []; key ← load_key; run_with key)
        else print "[SYSTEM] Failed to initialize crypto library!" []
