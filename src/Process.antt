-- ===== src/Process.antt =====
-- What the threads of a process do with the library, one step after the other: the methods of the three
-- classes (src/ObscuraProto/__init__.py), the callbacks that C++ runs, the waiters of the request pool, the
-- workers of both pools, and the event loop. User code stands in the steps of others as `Env.call`.
pub mod Methods
pub mod Pools
pub mod Streams
pub mod Steps
pub mod Sound
pub mod Consumed
use py_obscura_proto.Base.{[], ℕ, ℤ, String, Option, none, ◌≡◌}
use py_obscura_proto.Runtime.{
  World, Env, Exec, Result, Value, Fn, Args, Body, Wrapped, Future, Executors, pure, ◌>>◌,
  native_call, future_ready,
}
use py_obscura_proto.Dispatcher.{invoke}
use py_obscura_proto.Executor.Separation.{Use}
use py_obscura_proto.Response.{fetch_loop, consume_cpp_future}
use py_obscura_proto.EventLoop.{complete_future}
use py_obscura_proto.Server
use py_obscura_proto.Client
use py_obscura_proto.Stream

-- The methods of `Server`, with their arguments.
pub data ServerMethod : Type 0 where
  attaches : Option ℕ → ServerMethod
  handles_errors : Fn → ServerMethod
  reads_public_key stops enters exits : ServerMethod
  starts : ℕ → ServerMethod
  opens closes : Option Body → ServerMethod
  sends sends_anonymous sends_identity asks asks_identity : Value → Value → ServerMethod
  requests requests_identity : Value → Value → Option ℤ → ServerMethod
  starts_stream starts_stream_async : Value → Option ℕ → ServerMethod
  resumes_stream : Result Value → ServerMethod
  takes_streams takes_payloads takes_anonymous_payloads identifies : Fn → ServerMethod
  takes_stream takes_anonymous_stream takes_payload takes_anonymous_payload : ℕ → Fn → ServerMethod
  takes_request takes_anonymous_request : ℕ → Fn → ServerMethod
  reads_identity : Value → ServerMethod

pub data ClientMethod : Type 0 where
  attaches : Option ℕ → ClientMethod
  handles_errors : Fn → ClientMethod
  disconnects enters exits : ClientMethod
  identifies sends : Value → ClientMethod
  connects : ℕ → ClientMethod
  asks : Value → Option ℕ → ClientMethod
  requests : Value → Option ℤ → ClientMethod
  starts_stream starts_stream_async : Option ℕ → ClientMethod
  resumes_stream : Result Value → ClientMethod
  takes_streams takes_payloads : Fn → ClientMethod
  takes_stream takes_payload takes_request : ℕ → Fn → ClientMethod
  readies disconnected : Option Body → ClientMethod

pub data StreamMethod : Type 0 where
  reads_id reads_op_code ends cancels ends_async cancels_async : StreamMethod
  writes writes_async : Value → StreamMethod
  takes_data takes_end takes_cancel handles_errors : Fn → StreamMethod

-- The result is for the caller.
abbrev pub drop : {A : Type 0} → Exec A → Exec (Unit {0})
drop m = m >> pure tt

module _ (env : Env) (t : ℕ) (meanwhile : World → World) where
  unfoldable pub run_server : Server.Server → ServerMethod → Exec (Unit {0})
  run_server s (attaches l) = Server.attach_event_loop env t s l
  run_server s (handles_errors f) = drop (Server.on_error env t s f)
  run_server s reads_public_key = drop (Server.public_key env t s)
  run_server s stops = Server.stop_server env t s
  run_server s enters = drop (Server.enter env t s)
  run_server s exits = drop (Server.exit env t s)
  run_server s (starts p) = Server.start env t s p
  run_server s (opens b) = drop (Server.on_open env t s b)
  run_server s (closes b) = drop (Server.on_close env t s b)
  run_server s (sends c v) = Server.send_payload env t s c v
  run_server s (sends_anonymous c v) = Server.send_to_anonymous env t s c v
  run_server s (sends_identity c v) = Server.send_identity env t s c v
  run_server s (asks c v) = drop (Server.sync_request env t s c v)
  run_server s (asks_identity c v) = drop (Server.sync_request_identity env t s c v)
  run_server s (requests c v limit) = drop (Server.async_request env t s meanwhile c v limit)
  run_server s (requests_identity c v limit) =
      drop (Server.async_request_identity env t s meanwhile c v limit)
  run_server s (starts_stream c op) = drop (Server.start_stream env t s c op)
  run_server s (starts_stream_async c op) = drop (Server.async_start_stream env t s meanwhile c op)
  run_server s (resumes_stream r) = drop (Server.resume_start_stream env t s r)
  run_server s (takes_streams f) = drop (Server.on_incoming_stream env t s f)
  run_server s (takes_payloads f) = drop (Server.default_payload_handler env t s f)
  run_server s (takes_anonymous_payloads f) = drop (Server.anon_default_payload_handler env t s f)
  run_server s (identifies f) = drop (Server.on_client_identity env t s f)
  run_server s (takes_stream op f) = drop (Server.on_stream env t s op f)
  run_server s (takes_anonymous_stream op f) = drop (Server.on_anon_stream env t s op f)
  run_server s (takes_payload op f) = drop (Server.on_payload env t s op f)
  run_server s (takes_anonymous_payload op f) = drop (Server.on_anon_payload env t s op f)
  run_server s (takes_request op f) = drop (Server.on_request env t s op f)
  run_server s (takes_anonymous_request op f) = drop (Server.on_anon_request env t s op f)
  run_server s (reads_identity c) = drop (Server.client_identity env t s c)

  unfoldable pub run_client : Client.Client → ClientMethod → Exec (Unit {0})
  run_client c (attaches l) = Client.attach_event_loop env t c l
  run_client c (handles_errors f) = drop (Client.on_error env t c f)
  run_client c disconnects = Client.disconnect_client env t c
  run_client c enters = drop (Client.enter env t c)
  run_client c exits = drop (Client.exit env t c)
  run_client c (identifies v) = Client.set_identity env t c v
  run_client c (sends v) = Client.send_payload env t c v
  run_client c (connects uri) = Client.connect_to env t c uri
  run_client c (asks v limit) = drop (Client.sync_request env t c v limit)
  run_client c (requests v limit) = drop (Client.async_request env t c meanwhile v limit)
  run_client c (starts_stream op) = drop (Client.start_stream env t c op)
  run_client c (starts_stream_async op) = drop (Client.async_start_stream env t c meanwhile op)
  run_client c (resumes_stream r) = drop (Client.resume_start_stream env t c r)
  run_client c (takes_streams f) = drop (Client.on_incoming_stream env t c f)
  run_client c (takes_payloads f) = drop (Client.default_payload_handler env t c f)
  run_client c (takes_stream op f) = drop (Client.on_stream env t c op f)
  run_client c (takes_payload op f) = drop (Client.on_payload env t c op f)
  run_client c (takes_request op f) = drop (Client.on_request env t c op f)
  run_client c (readies b) = drop (Client.on_ready env t c b)
  run_client c (disconnected b) = drop (Client.on_disconnect env t c b)

  unfoldable pub run_stream : ℕ → StreamMethod → Exec (Unit {0})
  run_stream s reads_id = drop (Stream.stream_id env s)
  run_stream s reads_op_code = drop (Stream.op_code env s)
  run_stream s ends = Stream.end env s
  run_stream s cancels = Stream.cancel env s
  run_stream s ends_async = drop (Stream.async_end meanwhile s)
  run_stream s cancels_async = drop (Stream.async_cancel meanwhile s)
  run_stream s (writes v) = Stream.write env s v
  run_stream s (writes_async v) = drop (Stream.async_write meanwhile s v)
  run_stream s (takes_data f) = drop (Stream.on_data env t s f)
  run_stream s (takes_end f) = drop (Stream.on_end env t s f)
  run_stream s (takes_cancel f) = drop (Stream.on_cancel env t s f)
  run_stream s (handles_errors f) = drop (Stream.on_error s f)

-- What other threads do with the pools.
pub data Uses (x : Executors) : Executors → Type 0 where
  unused : {y : Executors} → y ≡ x → Uses x y
  used : {y z : Executors} → Uses x y → Use y z → Uses x z

abbrev pub OnPools : (World → World) → Type 0
OnPools meanwhile =
    (v : World) → (x : Executors) × Uses v.executors x × (meanwhile v ≡ record v { executors = x })

-- A step of the process. `waits` is a waiter that is not interrupted, `looks` and `takes` are the parts of
-- one that is.
pub data Step (env : Env) (w : World) : World → Type 0 where
  makes_server :
      {u : World} (config : Option Value) (port : Option ℕ)
      → u ≡ (Server.new_server env config port w).1
      → Step env w u
  makes_client :
      {u : World} (key : Value) (config : Option Value) (uri : Option ℕ)
      → u ≡ (Client.new_client env key config uri w).1
      → Step env w u
  serves :
      {u : World} (t : ℕ) (server : Server.Server) (m : ServerMethod) (meanwhile : World → World)
      → OnPools meanwhile
      → u ≡ (run_server env t meanwhile server m w).1
      → Step env w u
  connects_to :
      {u : World} (t : ℕ) (client : Client.Client) (m : ClientMethod) (meanwhile : World → World)
      → OnPools meanwhile
      → u ≡ (run_client env t meanwhile client m w).1
      → Step env w u
  streams :
      {u : World} (t s : ℕ) (m : StreamMethod) (meanwhile : World → World)
      → OnPools meanwhile
      → u ≡ (run_stream env t meanwhile s m w).1
      → Step env w u
  calls_back :
      {u : World} (t : ℕ) (callback : Wrapped) (args : Args)
      → u ≡ (invoke env t callback args w).1
      → Step env w u
  waits :
      {u : World} (fuel f : ℕ) (what : String) (timeout : ℕ) (deadline : Option ℕ)
      → u ≡ (fetch_loop fuel env f what timeout deadline w).1
      → Step env w u
  looks : {u : World} (f : ℕ) → u ≡ (native_call env (future_ready f) w).1 → Step env w u
  takes : {u : World} (f : ℕ) → u ≡ (consume_cpp_future env f w).1 → Step env w u
  completes : {u : World} (future : Future) → u ≡ (complete_future env future w).1 → Step env w u
  works :
      {u : World} (x : Executors)
      → Use w.executors x
      → u ≡ record w { executors = x }
      → Step env w u

-- When the module has been imported: nothing was consumed yet, and there are no pools.
pub record IsImported (w : World) : Type 0 where
  pub no_calls : w.calls ≡ []
  pub none_consumed : w.consumed ≡ []
  pub no_stream_pool : w.executors.stream_executor ≡ none
  pub no_request_pool : w.executors.request_executor ≡ none
  pub no_pools : w.executors.next_pool ≡ 0

-- From the import of the module on.
pub data Reached (env : Env) : World → Type 0 where
  imported : {w : World} → IsImported w → Reached env w
  stepped : {w u : World} → Reached env w → Step env w u → Reached env u

-- From one moment to a later one.
pub data Later (env : Env) (w : World) : World → Type 0 where
  now : Later env w w
  after : {v u : World} → Later env w v → Step env v u → Later env w u
