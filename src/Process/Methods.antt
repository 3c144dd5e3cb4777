-- ===== src/Process/Methods.antt =====
-- The methods of the classes keep what calls of the bindings, the pools and user functions keep.
use py_obscura_proto.Base.{ℕ, ℤ, String, Bool, false, ◌≡◌, Option, none, some, ◌∷◌, arith}
use py_obscura_proto.Runtime.{
  World, Env, Value, Fn, Body, Call, is_get, native_call, LogLine, pure, modify, ◌>>◌, Keeps,
  Keeps-option, Keeps-aside, IsStable, keeps_rules, Executors, Keeps-pure,
}
use py_obscura_proto.Callback.{
  set_callback_thread_flag, reject_in_callback, warn_if_event_loop_thread,
}
use py_obscura_proto.Executor.{run_in_stream_executor}
use py_obscura_proto.Executor.Separation.{Use, Inv}
use py_obscura_proto.Response.{consume_cpp_future, await_cpp_future}
use py_obscura_proto.Unpack.{create_unpacking_handler}
use py_obscura_proto.Dispatcher.{
  new_dispatcher, set_error_handler, attach, wrap, wrap_fire_and_forget, wrap_identity,
}
use py_obscura_proto.Dispatcher.Bodies.{adopt_stream}
use py_obscura_proto.Dispatcher.Keeping.{Keeps-adopt_stream}
use py_obscura_proto.Server
use py_obscura_proto.Server.{log}
use py_obscura_proto.Client
use py_obscura_proto.Process.{
  ServerMethod, ClientMethod, run_server, run_client, OnPools, Uses, unused, used,
}
use py_obscura_proto.Process.Pools.{AfterUses, run-AfterUses, await-AfterUses}

-- An invariant that every part of the process keeps: what is left to show for one.
pub record IsProcess (P : World → Type 0) (env : Env) : Type 0 where
  pub stable : IsStable P env
  pub flags : (t : ℕ) (up : Bool) → Keeps P (set_callback_thread_flag t up)
  pub consumes : (f : ℕ) → Keeps P (consume_cpp_future env f)
  pub pools : (w : World) (x : Executors) → Use w.executors x → P w → P (record w { executors = x })
  pub known : (w : World) → P w → Inv w.executors

module _ {P : World → Type 0} {env : Env} (process : IsProcess P env) where
  Uses-keep :
      (w : World) {x : Executors} → Uses w.executors x → P w → P (record w { executors = x })
  Uses-keep w (unused e) h = rw (e) h
  Uses-keep w (used {y = y} {z = z} past next) h =
      process.pools (record w { executors = y }) z next (Uses-keep w past h)

  AfterUses-keep : (w u : World) → AfterUses w u → P w → P u
  AfterUses-keep w u (x, uses, e) h = rw (e) (Uses-keep w uses h)

  -- The statements of the methods.
  pub Keeps-native : (c : Call) → is_get c ≡ false → Keeps P (native_call env c)
  Keeps-native = process.stable.native

  Keeps-log : (line : LogLine) → Keeps P (log line)
  unfolding log
  Keeps-log line = Keeps-aside process.stable (log line) (λ w. ground arith)

  Keeps-logged : (line : LogLine) → Keeps P (modify (λ w. record w { logged = line ∷ w.logged }))
  Keeps-logged line =
      Keeps-aside process.stable (modify (λ w. record w { logged = line ∷ w.logged }))
        (λ w. ground arith)

  Keeps-warn : (t : ℕ) → Keeps P (warn_if_event_loop_thread env t)
  unfolding warn_if_event_loop_thread
  Keeps-warn t = Keeps-aside process.stable (warn_if_event_loop_thread env t) (λ w. ground arith)

  Keeps-reject : (t : ℕ) (message : String) → Keeps P (reject_in_callback t message)
  unfolding reject_in_callback
  Keeps-reject t message =
      Keeps-aside process.stable (reject_in_callback t message) (λ w. ground arith)

  Keeps-new_dispatcher : (timeout : ℕ) → Keeps P (new_dispatcher timeout)
  unfolding new_dispatcher
  Keeps-new_dispatcher timeout =
      Keeps-aside process.stable (new_dispatcher timeout) (λ w. ground arith)

  pub Keeps-set_error_handler : (d : ℕ) (h : Option Fn) → Keeps P (set_error_handler d h)
  unfolding set_error_handler
  Keeps-set_error_handler d h =
      Keeps-aside process.stable (set_error_handler d h) (λ w. ground arith)

  Keeps-attach : (t d : ℕ) (loop : Option ℕ) → Keeps P (attach env t d loop)
  unfolding attach
  Keeps-attach t d none = Keeps-aside process.stable (attach env t d none) (λ w. ground arith)
  Keeps-attach t d (some l) =
      Keeps-aside process.stable (attach env t d (some l)) (λ w. ground arith)

  Keeps-wrap : (t d : ℕ) (body : Option Body) → Keeps P (wrap env t d body)
  unfolding wrap
  Keeps-wrap t d none = search keeps_rules
  Keeps-wrap t d (some body) =
      Keeps-aside process.stable (wrap env t d (some body)) (λ w. ground arith)

  pub Keeps-wrap_fire_and_forget :
      (t d : ℕ) (body : Option Body) → Keeps P (wrap_fire_and_forget env t d body)
  unfolding wrap_fire_and_forget
  Keeps-wrap_fire_and_forget t d none = search keeps_rules
  Keeps-wrap_fire_and_forget t d (some body) =
      Keeps-aside process.stable (wrap_fire_and_forget env t d (some body)) (λ w. ground arith)

  Keeps-wrap_identity : (t d : ℕ) (f : Fn) → Keeps P (wrap_identity env t d f)
  unfolding wrap_identity
  Keeps-wrap_identity t d f =
      Keeps-aside process.stable (wrap_identity env t d f) (λ w. ground arith)

  Keeps-create :
      (f : Fn) (receives_hdl : Bool) → Keeps P (create_unpacking_handler env f receives_hdl)
  unfolding create_unpacking_handler
  Keeps-create f receives_hdl =
      Keeps-aside process.stable (create_unpacking_handler env f receives_hdl) (λ w. ground arith)

  Keeps-adopt : (d : ℕ) (cpp : Value) → Keeps P (adopt_stream d cpp)
  Keeps-adopt = Keeps-adopt_stream process.stable

  ruleset method_rules = (
    keeps_rules, Keeps-native, Keeps-log, Keeps-logged, Keeps-warn, Keeps-reject,
    Keeps-new_dispatcher, Keeps-set_error_handler, Keeps-attach, Keeps-wrap,
    Keeps-wrap_fire_and_forget, Keeps-wrap_identity, Keeps-create, Keeps-adopt,
  )

  Keeps-enter_server : (t : ℕ) (s : Server.Server) → Keeps P (Server.enter env t s)
  unfolding Server.enter Server.start
  Keeps-enter_server t s =
      Keeps-option s.port (pure s) (λ port. Server.start env t s port >> pure s) (Keeps-pure s)
        (λ port. search method_rules)

  Keeps-enter_client : (t : ℕ) (c : Client.Client) → Keeps P (Client.enter env t c)
  unfolding Client.enter Client.connect_to
  Keeps-enter_client t c =
      Keeps-option c.uri (pure c) (λ uri. Client.connect_to env t c uri >> pure c) (Keeps-pure c)
        (λ uri. search method_rules)

  module _ (t : ℕ) (meanwhile : World → World) (on_pools : OnPools meanwhile) where
    pub Keeps-submit : (op : Call) → Keeps P (run_in_stream_executor meanwhile op)
    Keeps-submit op = record {
      at = λ w h.
          AfterUses-keep w (run_in_stream_executor meanwhile op w).1
            (run-AfterUses meanwhile on_pools w (process.known w h) op) h;
    }

    Keeps-await :
        (future : Value) (timeout : Option ℤ) (what : String)
        → Keeps P (await_cpp_future meanwhile future timeout what)
    Keeps-await future timeout what = record {
      at = λ w h.
          AfterUses-keep w (await_cpp_future meanwhile future timeout what w).1
            (await-AfterUses meanwhile on_pools w (process.known w h) future timeout what) h;
    }

    ruleset async_rules = (method_rules, Keeps-submit, Keeps-await)

    pub Keeps-run_server :
        (s : Server.Server) (m : ServerMethod) → Keeps P (run_server env t meanwhile s m)
    unfolding run_server Server.attach_event_loop Server.on_error Server.public_key Server.start
        Server.stop_server Server.exit Server.on_open Server.on_close Server.send_payload
        Server.sync_request Server.async_request Server.start_stream Server.async_start_stream
        Server.resume_start_stream Server.on_incoming_stream Server.on_stream Server.on_anon_stream
        Server.on_payload Server.default_payload_handler Server.on_request Server.send_to_anonymous
        Server.on_anon_payload Server.anon_default_payload_handler Server.on_anon_request
        Server.on_client_identity Server.client_identity Server.send_identity
        Server.async_request_identity Server.sync_request_identity
    Keeps-run_server s ServerMethod.enters = search (method_rules, Keeps-enter_server)
    Keeps-run_server s _ = search async_rules depth 9

    pub Keeps-run_client :
        (c : Client.Client) (m : ClientMethod) → Keeps P (run_client env t meanwhile c m)
    unfolding run_client Client.attach_event_loop Client.on_error Client.connect_to
        Client.disconnect_client Client.exit Client.set_identity Client.send_payload
        Client.sync_request Client.async_request Client.start_stream Client.async_start_stream
        Client.resume_start_stream Client.on_incoming_stream Client.on_stream Client.on_ready
        Client.on_disconnect Client.on_payload Client.default_payload_handler Client.on_request
    Keeps-run_client c ClientMethod.enters = search (method_rules, Keeps-enter_client)
    Keeps-run_client c _ = search async_rules depth 9
