-- ===== src/Examples/StreamOpcodes.antt =====
-- examples/stream_opcode_example.py
use py_obscura_proto.Base.{ℕ, ◌+◌, List, [], ◌∷◌, ◌++◌, length, none, some}
use py_obscura_proto.Runtime.{
  Env, Exec, Result, ok, raised, Value, bytes_value, object_value, type_error, text, Fn, plain,
  pure, ◌>>=◌, ◌>>◌,
}
use py_obscura_proto.Server.{new_server, on_anon_stream, start, public_key, stop_server}
use py_obscura_proto.Client.{
  Client, new_client, on_ready, start_stream, connect_to, disconnect_client,
}
use py_obscura_proto.Stream.{op_code, on_data, on_end, write, end}
use py_obscura_proto.Examples.{Setting, print, given, concat_bytes}

abbrev pub chat_op : ℕ
chat_op = 0x3001

abbrev pub file_op : ℕ
file_op = 0x3002

-- `b"chat_ack: "`
abbrev pub ack_prefix : List ℕ
ack_prefix = 99 ∷ 104 ∷ 97 ∷ 116 ∷ 95 ∷ 97 ∷ 99 ∷ 107 ∷ 58 ∷ 32 ∷ []

-- `decode` of bytes, `f"received {total} bytes".encode()`, the texts that are sent, the address, and the
-- functions; a closure that is made for a stream is one for each stream.
pub record Made : Type 0 where
  pub decode : Value → Result Value
  pub received : ℕ → Value
  pub hello : Value
  pub chunk1 : Value
  pub chunk2 : Value
  pub uri : ℕ
  pub handle_chat_fn : Fn
  pub handle_file_fn : Fn
  pub on_ready_fn : Fn
  pub chat_on_data_fn : ℕ → Fn
  pub chat_on_end_fn : ℕ → Fn
  pub file_on_data_fn : ℕ → Fn
  pub file_on_end_fn : ℕ → Fn
  pub on_chat_ack_fn : Fn
  pub on_end_handler_fn : Fn
  pub on_file_ack_fn : Fn
  pub on_end_fn : Fn

-- `len(c)`
unfoldable pub size : Value → Result ℕ
size (bytes_value bs) = ok (length bs)
size _ = raised (type_error (text "object has no len()"))

-- `sum(len(c) for c in chunks)`, from `so_far` on.
unfoldable pub total_size : ℕ → List Value → Result ℕ
unfolding size
total_size so_far [] = ok so_far
total_size so_far (c ∷ cs) = elim (size c) [
  | raised e ↦ raised e
  | ok n ↦ total_size (so_far + n) cs
]

module _ (env : Env) (t : ℕ) (x : Setting) (made : Made) where
  unfoldable pub chat_on_data : ℕ → Value → Exec (Unit {0})
  unfolding concat_bytes write
  chat_on_data stream chunk = do
    msg ← given (made.decode chunk)
    print "[SERVER] Chat message: {msg}" (msg ∷ [])
    ack ← given (concat_bytes ack_prefix chunk)
    write env stream ack

  unfoldable pub chat_on_end : ℕ → Exec (Unit {0})
  unfolding end
  chat_on_end stream = do print "[SERVER] Chat stream closed" []; end env stream

  unfoldable pub handle_chat : ℕ → Exec (Unit {0})
  unfolding op_code on_data on_end
  handle_chat stream = do
    op ← op_code env stream
    print "[SERVER] Chat stream opened, op_code={stream.op_code:#x}" (op ∷ [])
    on_data env t stream (made.chat_on_data_fn stream)
    on_end env t stream (made.chat_on_end_fn stream)
    pure tt

  -- The variable `chunks` of a stream's closures goes in and out.
  unfoldable pub file_on_data : List Value → Value → Exec (List Value)
  file_on_data chunks chunk = do
    print "[SERVER] File chunk received ({len(data)} bytes)" (chunk ∷ [])
    pure (chunks ++ chunk ∷ [])

  unfoldable pub file_on_end : ℕ → List Value → Exec (Unit {0})
  unfolding total_size write end
  file_on_end stream chunks = do
    total ← given (total_size 0 chunks)
    print "[SERVER] File transfer complete, total {total} bytes" (object_value total ∷ [])
    write env stream (made.received total)
    end env stream

  unfoldable pub handle_file : ℕ → Exec (List Value)
  unfolding op_code on_data on_end
  handle_file stream = do
    op ← op_code env stream
    print "[SERVER] File stream opened, op_code={stream.op_code:#x}" (op ∷ [])
    on_data env t stream (made.file_on_data_fn stream)
    on_end env t stream (made.file_on_end_fn stream)
    pure []

  -- A stream of the client: its handlers are registered, `chunks` are written, and it is ended.
  unfoldable pub write_all : ℕ → List Value → Exec (Unit {0})
  unfolding write
  write_all stream [] = pure tt
  write_all stream (c ∷ cs) = do write env stream c; write_all stream cs

  unfoldable pub chat_session : Client → Exec (Unit {0})
  unfolding start_stream op_code on_data on_end write_all end
  chat_session client = do
    chat ← start_stream env t client (some chat_op)
    op ← op_code env chat
    print "[CLIENT] Chat stream, op_code={chat.op_code:#x}" (op ∷ [])
    on_data env t chat made.on_chat_ack_fn
    on_end env t chat made.on_end_handler_fn
    write_all chat (made.hello ∷ [])
    x.sleeps 100_000
    end env chat

  unfoldable pub file_session : Client → Exec (Unit {0})
  unfolding start_stream op_code on_data on_end write_all end
  file_session client = do
    file_stream ← start_stream env t client (some file_op)
    op ← op_code env file_stream
    print "[CLIENT] File stream, op_code={file_stream.op_code:#x}" (op ∷ [])
    on_data env t file_stream made.on_file_ack_fn
    on_end env t file_stream made.on_end_fn
    write_all file_stream (made.chunk1 ∷ made.chunk2 ∷ [])
    x.sleeps 100_000
    end env file_stream

  unfoldable pub on_ready_handler : Client → Exec (Unit {0})
  unfolding chat_session file_session
  on_ready_handler client = do
    print "[CLIENT] Connected. Opening chat and file streams..." []
    chat_session client
    file_session client
    print "[CLIENT] All streams done" []

  unfoldable pub main : Exec (Unit {0})
  unfolding new_server on_anon_stream start public_key new_client on_ready connect_to
      disconnect_client stop_server
  main = do
    given x.init
    server ← new_server env none none
    on_anon_stream env t server chat_op made.handle_chat_fn
    on_anon_stream env t server file_op made.handle_file_fn
    start env t server 9008
    x.sleeps 100_000
    key ← public_key env t server
    client ← new_client env key none none
    on_ready env t client (some (plain made.on_ready_fn))
    connect_to env t client made.uri
    x.sleeps 1_000_000
    disconnect_client env t client
    stop_server env t server
    print "\nDone." []
