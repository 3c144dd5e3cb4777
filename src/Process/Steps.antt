-- ===== src/Process/Steps.antt =====
-- Every step of a process keeps what its parts keep.
use py_obscura_proto.Base.{
  ℕ, zero, suc, String, Option, none, some, List, [], ◌∷◌, ◌≡◌, refl, arith, false, min, ◌-◌, leb,
  if◌then◌else◌,
}
use py_obscura_proto.Runtime.{
  with_defaults, World, Env, Exec, Result, ok, raised, Value, Future, DoneCallback, Keeps,
  Keeps-bind, Keeps-pure, Keeps-try_except, key_value, keeps_rules, reap, forward_error,
  native_call, Keeps-reads, truth, future_ready, Keeps-if, Keeps-outcome, raise, Keeps-raise,
  Keeps-aside, Fn, Args, timeout_error, timed_out, Call, is_get,
}
use py_obscura_proto.Dispatcher.{new_dispatcher}
use py_obscura_proto.Polling.{run_done_callback, sleep, callback_poll_interval}
use py_obscura_proto.Response.{consume_cpp_future, fetch_loop}
use py_obscura_proto.EventLoop.{run_callbacks, complete_future, callbacks_of}
use py_obscura_proto.Dispatcher.Keeping.{Keeps-invoke}
use py_obscura_proto.Server.{new_server, config_or_default}
use py_obscura_proto.Client.{new_client, require_public_key}
use py_obscura_proto.Client
use py_obscura_proto.Process.{
  Step, Reached, makes_server, makes_client, serves, connects_to, streams, calls_back, waits, looks,
  takes, completes, works, imported, stepped, IsImported, Later, now, after,
}
use py_obscura_proto.Process.Methods.{IsProcess, Keeps-run_server, Keeps-run_client}
use py_obscura_proto.Process.Streams.{Keeps-run_stream}

module _ {P : World → Type 0} {env : Env} (process : IsProcess P env) where
  Keeps-native : (c : Call) → is_get c ≡ false → Keeps P (native_call env c)
  Keeps-native = process.stable.native

  Keeps-call : (f : Fn) (args : Args) → Keeps P (env.call f args)
  Keeps-call = process.stable.calls

  Keeps-made : (timeout : ℕ) → Keeps P (new_dispatcher timeout)
  unfolding new_dispatcher
  Keeps-made timeout = Keeps-aside process.stable (new_dispatcher timeout) (λ w. ground arith)

  Keeps-config : (config : Option Value) → Keeps P (config_or_default env config)
  unfolding config_or_default
  Keeps-config none = Keeps-native with_defaults refl
  Keeps-config (some c) = search keeps_rules

  Keeps-require : (key : Value) → Keeps P (require_public_key key)
  unfolding require_public_key
  Keeps-require (key_value k) = search keeps_rules
  Keeps-require _ = search keeps_rules

  Keeps-client_config : (config : Option Value) → Keeps P (Client.config_or_default env config)
  unfolding Client.config_or_default
  Keeps-client_config none = Keeps-native with_defaults refl
  Keeps-client_config (some c) = search keeps_rules

  ruleset made_rules =
      (Keeps-client_config, keeps_rules, Keeps-native, Keeps-made, Keeps-config, Keeps-require)

  Keeps-new_server :
      (config : Option Value) (port : Option ℕ) → Keeps P (new_server env config port)
  unfolding new_server
  Keeps-new_server config port = search made_rules

  Keeps-new_client :
      (key : Value) (config : Option Value) (uri : Option ℕ)
      → Keeps P (new_client env key config uri)
  unfolding new_client
  Keeps-new_client key config uri = search made_rules depth 9

  Keeps-run_done_callback :
      (c : DoneCallback) (outcome : Result Value) → Keeps P (run_done_callback env c outcome)
  unfolding run_done_callback
  Keeps-run_done_callback reap (ok v) = search keeps_rules
  Keeps-run_done_callback reap (raised e) = search keeps_rules
  Keeps-run_done_callback (forward_error h) outcome = search (keeps_rules, Keeps-call)

  Keeps-run_callbacks :
      (outcome : Result Value) (cs : List DoneCallback) → Keeps P (run_callbacks env outcome cs)
  unfolding run_callbacks
  Keeps-run_callbacks outcome [] = search keeps_rules
  Keeps-run_callbacks outcome (c ∷ cs) =
      Keeps-bind _ _ (Keeps-try_except _ _ (Keeps-run_done_callback c outcome) (λ e. Keeps-pure _))
        (λ v. Keeps-run_callbacks outcome cs)

  Keeps-complete_future : (future : Future) → Keeps P (complete_future env future)
  unfolding complete_future
  Keeps-complete_future future =
      Keeps-reads
        (λ w. run_callbacks env future.outcome (callbacks_of future.ident w.done_callbacks))
        (λ w. Keeps-run_callbacks future.outcome (callbacks_of future.ident w.done_callbacks))

  -- A statement whose answer is read by `elim`.
  Keeps-answered :
      (m : Exec Value) (k : Value → Exec Value)
      → Keeps P m
      → ((v : Value) → Keeps P (k v))
      → Keeps {A = Value} P
          (λ w. elim (m w).0 [ raised e ↦ (raised e, (m w).1) | ok v ↦ k v (m w).1 ])
  Keeps-answered m k km kk = record {
    at = λ w h.
        (Keeps-outcome (m w).0 (λ e. raise e) k (λ e. Keeps-raise e) kk).at (m w).1 (km.at w h);
  }

  sleep-keeps : (d : ℕ) (w : World) → P w → P (sleep env d w)
  unfolding sleep
  sleep-keeps d w = process.stable.aside w (sleep env d w) (ground arith)

  Keeps-fetch_loop :
      (fuel f : ℕ) (what : String) (timeout : ℕ) (deadline : Option ℕ)
      → Keeps P (fetch_loop fuel env f what timeout deadline)
  unfolding fetch_loop
  Keeps-fetch_loop zero f what timeout deadline = search keeps_rules
  Keeps-fetch_loop (suc fuel) f what timeout none =
      Keeps-answered (native_call env (future_ready f)) _ (Keeps-native (future_ready f) refl) (λ v.
        Keeps-if (truth env v) (consume_cpp_future env f)
          (λ u. fetch_loop fuel env f what timeout none (sleep env callback_poll_interval u))
          (process.consumes f)
          (record {
            at = λ u h.
                (Keeps-fetch_loop fuel f what timeout none).at (sleep env callback_poll_interval u)
                  (sleep-keeps callback_poll_interval u h);
          }))
  Keeps-fetch_loop (suc fuel) f what timeout (some deadline) =
      Keeps-answered (native_call env (future_ready f)) _ (Keeps-native (future_ready f) refl) (λ v.
        Keeps-if (truth env v) (consume_cpp_future env f) _ (process.consumes f) (
          Keeps-reads
            (λ u. λ w.
              if leb deadline u.now
              then raise (timeout_error (timed_out what timeout)) w
              else fetch_loop fuel env f what timeout (some deadline)
                  (sleep env (min callback_poll_interval (deadline - u.now)) w))
            (λ u.
              Keeps-if (leb deadline u.now) (raise (timeout_error (timed_out what timeout)))
                (λ w.
                  fetch_loop fuel env f what timeout (some deadline)
                    (sleep env (min callback_poll_interval (deadline - u.now)) w))
                (Keeps-raise _)
                (record {
                  at = λ w h.
                      (Keeps-fetch_loop fuel f what timeout (some deadline)).at
                        (sleep env (min callback_poll_interval (deadline - u.now)) w)
                        (sleep-keeps (min callback_poll_interval (deadline - u.now)) w h);
                }))))

  pub Step-keeps : {w u : World} → Step env w u → P w → P u
  Step-keeps {w} (makes_server config port e) h = rw (e) ((Keeps-new_server config port).at w h)
  Step-keeps {w} (makes_client key config uri e) h =
      rw (e) ((Keeps-new_client key config uri).at w h)
  Step-keeps {w} (serves t s m meanwhile on_pools e) h =
      rw (e) ((Keeps-run_server process t meanwhile on_pools s m).at w h)
  Step-keeps {w} (connects_to t c m meanwhile on_pools e) h =
      rw (e) ((Keeps-run_client process t meanwhile on_pools c m).at w h)
  Step-keeps {w} (streams t s m meanwhile on_pools e) h =
      rw (e) ((Keeps-run_stream process t meanwhile on_pools s m).at w h)
  Step-keeps {w} (calls_back t callback args e) h =
      rw (e) ((Keeps-invoke process.stable t (process.flags t) callback args).at w h)
  Step-keeps {w} (waits fuel f what timeout deadline e) h =
      rw (e) ((Keeps-fetch_loop fuel f what timeout deadline).at w h)
  Step-keeps {w} (looks f e) h = rw (e) ((Keeps-native (future_ready f) refl).at w h)
  Step-keeps {w} (takes f e) h = rw (e) ((process.consumes f).at w h)
  Step-keeps {w} (completes future e) h = rw (e) ((Keeps-complete_future future).at w h)
  Step-keeps {w} (works x done e) h = rw (e) (process.pools w x done h)

  -- What holds at the import holds at every moment of the process.
  pub Reached-keeps : ((w : World) → IsImported w → P w) → {w : World} → Reached env w → P w
  Reached-keeps start (imported {w} i) = start w i
  Reached-keeps start (stepped past step) = Step-keeps step (Reached-keeps start past)

  -- What holds at a moment holds at every later one.
  pub Later-keeps : {w u : World} → Later env w u → P w → P u
  Later-keeps now h = h
  Later-keeps (after past step) h = Step-keeps step (Later-keeps past h)
