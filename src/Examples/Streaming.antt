-- ===== src/Examples/Streaming.antt =====
-- examples/streaming_example.py
use py_obscura_proto.Base.{ℕ, List, [], ◌∷◌, none, some}
use py_obscura_proto.Runtime.{Env, Exec, Value, Fn, plain, pure, ◌>>=◌, ◌>>◌}
use py_obscura_proto.Server.{new_server, on_incoming_stream, start, public_key, stop_server}
use py_obscura_proto.Client.{
  Client, new_client, on_ready, start_stream, connect_to, disconnect_client,
}
use py_obscura_proto.Stream.{stream_id, on_data, on_end, write, end}
use py_obscura_proto.Examples.{Setting, print, given, concat_bytes}

-- `b"echo: "`
abbrev pub echo_prefix : List ℕ
echo_prefix = 101 ∷ 99 ∷ 104 ∷ 111 ∷ 58 ∷ 32 ∷ []

-- `b"Hello "`, `b"streaming "` and `b"world!"`, the address, and the functions; a closure that is made
-- for a stream is one for each stream.
pub record Made : Type 0 where
  pub hello : Value
  pub streaming : Value
  pub world : Value
  pub uri : ℕ
  pub handle_stream_fn : Fn
  pub on_ready_fn : Fn
  pub server_on_data_fn : ℕ → Fn
  pub server_on_end_fn : ℕ → Fn
  pub client_on_data_fn : ℕ → Fn
  pub client_on_end_fn : ℕ → Fn

module _ (env : Env) (t : ℕ) (x : Setting) (made : Made) where
  -- The server's `on_data` and `on_end` of a stream.
  unfoldable pub server_on_data : ℕ → Value → Exec (Unit {0})
  unfolding concat_bytes write
  server_on_data stream chunk = do
    print "[SERVER] Received {len(data)} bytes: {data}" (chunk ∷ [])
    echo ← given (concat_bytes echo_prefix chunk)
    write env stream echo

  unfoldable pub server_on_end : ℕ → Exec (Unit {0})
  unfolding end
  server_on_end stream = do print "[SERVER] Client finished writing, echoing end" []; end env stream

  unfoldable pub handle_stream : ℕ → Exec (Unit {0})
  unfolding stream_id on_data on_end
  handle_stream stream = do
    ident ← stream_id env stream
    print "[SERVER] New incoming stream #{stream.stream_id}" (ident ∷ [])
    on_data env t stream (made.server_on_data_fn stream)
    on_end env t stream (made.server_on_end_fn stream)
    pure tt

  unfoldable pub client_on_data : Value → Exec (Unit {0})
  client_on_data chunk = print "[CLIENT] Echo received: {data}" (chunk ∷ [])

  unfoldable pub client_on_end : Exec (Unit {0})
  client_on_end = print "[CLIENT] Server finished writing" []

  unfoldable pub on_ready_handler : Client → Exec (Unit {0})
  unfolding start_stream on_data on_end write end
  on_ready_handler client = do
    print "[CLIENT] Connected. Starting stream..." []
    stream ← start_stream env t client none
    on_data env t stream (made.client_on_data_fn stream)
    on_end env t stream (made.client_on_end_fn stream)
    write env stream made.hello
    write env stream made.streaming
    write env stream made.world
    x.sleeps 200_000
    end env stream
    print "[CLIENT] Done writing" []

  unfoldable pub main : Exec (Unit {0})
  unfolding new_server on_incoming_stream start public_key new_client on_ready connect_to
      disconnect_client stop_server
  main = do
    given x.init
    server ← new_server env none none
    on_incoming_stream env t server made.handle_stream_fn
    start env t server 9006
    x.sleeps 100_000
    key ← public_key env t server
    client ← new_client env key none none
    on_ready env t client (some (plain made.on_ready_fn))
    connect_to env t client made.uri
    x.sleeps 1_000_000
    disconnect_client env t client
    stop_server env t server
    print "\nDone." []
