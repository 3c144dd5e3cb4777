-- ===== src/Examples/Endings.antt =====
-- How the examples end that have no context managers.
use py_obscura_proto.Base.{
  ℕ, ◌≡◌, refl, ap, ◌∙◌, String, ◌&&◌, false, true, Bool, none, [], ◌∷◌, arith, inl, inr,
  if◌then◌else◌, ◌||◌,
}
use py_obscura_proto.Runtime.{
  World, Env, Exec, Exc, is_exception, Result, Result-cases, ok, raised, Value, Fn, stop,
  disconnect, printed, conclude, continue, try_finally, ◌>>=◌, ◌>>◌,
}
use py_obscura_proto.Callback.Blocking.{ended, ended_with}
use py_obscura_proto.Server.{Server, new_server, on_anon_request, stop_server}
use py_obscura_proto.Client.{Client, disconnect_client}
use py_obscura_proto.Examples.{Setting, is_cancelled, print}
use py_obscura_proto.Examples.RequestServer
use py_obscura_proto.Examples.RequestServer.{op_add_request, serve, serve_caught, shutdown}
use py_obscura_proto.Examples.WebSocket
use py_obscura_proto.Examples.WebSocket.{exchange, run_ready}

-- What the `except` clauses of the request server leave of how its `try` statement ended.
abbrev pub caught : Result (Unit {0}) → Result (Unit {0})
caught (ok v) = ok v
caught (raised e) = if is_cancelled e || is_exception e then ok tt else raised e

module _ (env : Env) (t : ℕ) (x : Setting) (server : Server) where
  serve_caught-serve :
      (w : World)
      → let (r, u) = serve env t x server w in
        let (r', u') = serve_caught env t x server w in
        (r' ≡ caught r) × (u'.calls ≡ u.calls) × (u'.in_callback ≡ u.in_callback)
  unfolding serve_caught
  serve_caught-serve w = elim (Result-cases (serve env t x server w).0) [
    | inl (v, q) ↦ ground arith
    | inr (e, q) ↦ ground arith
  ]

  shutdown_stops :
      (u : World)
      → u.in_callback t ≡ false
      → let (r, v) = shutdown env t x server u in
        (r ≡ ended tt (env.reply u.calls (stop server.native)))
        × (v.calls ≡ stop server.native ∷ u.calls)
  unfolding shutdown stop_server
  shutdown_stops u outside = elim (Result-cases (env.reply u.calls (stop server.native))) [
    | inl (v, q) ↦ ground arith
    | inr (e, q) ↦ ground arith
  ]

  conclude-ended :
      (r : Result (Unit {0})) (s : Result Value) → conclude r (ended tt s) ≡ ended_with r s
  conclude-ended r (ok v) = refl
  conclude-ended r (raised e) = refl

  finally_stops :
      (w : World)
      → let (r, u) = serve env t x server w in
        u.in_callback t ≡ false
        → let (r', u') = try_finally (serve_caught env t x server) (shutdown env t x server) w in
          (r' ≡ ended_with (caught r) (env.reply u.calls (stop server.native)))
          × (u'.calls ≡ stop server.native ∷ u.calls)
  finally_stops w outside =
      let (same_result, same_calls, same_flags) = serve_caught-serve w in
      let (r, u) = serve_caught env t x server w in
      let (result, calls) = shutdown_stops u (ap (λ flags. flags t) same_flags ∙ outside) in
      (
        ap (λ c. conclude r c) result
            ∙ conclude-ended r (env.reply u.calls (stop server.native))
            ∙ rw (same_result, same_calls) refl,
        calls ∙ ap (λ cs. stop server.native ∷ cs) same_calls,
      )

  -- The request server, once its handler is registered: whether it cannot listen, cannot save its key, is
  -- cancelled or fails, the stop is the last call of the bindings. The program ends without an exception,
  -- unless the stop raises one, or what ended it is neither an `Exception` nor the cancellation. The
  -- thread is to be outside of callbacks.
  pub request_server_ends :
      (handler f : Fn) (w created registered : World)
      → x.init ≡ ok 0
      → new_server env none none
          (record w { logged = printed "[SYSTEM] Crypto library initialized." [] ∷ w.logged })
        ≡ (ok server, created)
      → on_anon_request env t server op_add_request handler created ≡ (ok f, registered)
      → let (r, u) = serve env t x server registered in
        u.in_callback t ≡ false
        → let (r', u') = RequestServer.main env t x handler w in
          (r' ≡ ended_with (caught r) (env.reply u.calls (stop server.native)))
          × (u'.calls ≡ stop server.native ∷ u.calls)
  unfolding RequestServer.main
  request_server_ends handler f w created registered init makes registers outside =
      rw (init, makes, registers) (finally_stops registered outside)

module _ {A B : Type 0} (m : Exec A) (k : A → Exec B) (w : World) where
  bind-ok : (a : A) → (m w).0 ≡ ok a → (m >>= k) w ≡ k a (m w).1
  bind-ok a h = ap (λ r. continue r k (m w).1) h

  bind-raised : (e : Exc) → (m w).0 ≡ raised e → (m >>= k) w ≡ (raised e, (m w).1)
  bind-raised e h = ap (λ r. continue r k (m w).1) h

shutdown_order :
    (env : Env) (t : ℕ) (x : Setting) (made : WebSocket.Made) (server : Server) (client : Client)
    (line : String) (v : Value) (u : World)
    → u.in_callback t ≡ false
    → env.reply u.calls (disconnect client.native) ≡ ok v
    → ((print line [] >> WebSocket.shutdown env t x made server client) u).1.calls
      ≡ stop server.native ∷ disconnect client.native ∷ u.calls
unfolding stop_server disconnect_client WebSocket.shutdown
shutdown_order env t x made server client line v u outside disconnects =
    elim (Result-cases (env.reply (disconnect client.native ∷ u.calls) (stop server.native))) [
      | inl (a, q) ↦ ground arith
      | inr (e, q) ↦ ground arith
    ]

module _ (env : Env) (t : ℕ) (x : Setting) (made : WebSocket.Made) (server : Server)
    (client : Client) (w : World) where
  not_ready :
      w.in_callback t ≡ false
      → (run_ready env t x made server client false w).1.calls ≡ stop server.native ∷ w.calls
  unfolding run_ready stop_server
  not_ready outside = elim (Result-cases (env.reply w.calls (stop server.native))) [
    | inl (a, q) ↦ ground arith
    | inr (e, q) ↦ ground arith
  ]

  -- The websocket example from the wait for the handshake on. If the client did not become ready, the
  -- server is stopped and the client is not disconnected. If the exchange is done, the client is
  -- disconnected and then, unless that raises, the server stopped. If the exchange raises, neither is
  -- done.
  pub websocket_ends :
      let e = exchange env t x made client w in
      w.in_callback t ≡ false
      → e.1.in_callback t ≡ false
      → ((run_ready env t x made server client false w).1.calls ≡ stop server.native ∷ w.calls)
        × ((received : Bool × Bool) (v : Value)
            → e.0 ≡ ok received
            → env.reply e.1.calls (disconnect client.native) ≡ ok v
            → (run_ready env t x made server client true w).1.calls
              ≡ stop server.native ∷ disconnect client.native ∷ e.1.calls)
        × ((exc : Exc)
            → e.0 ≡ raised exc
            → run_ready env t x made server client true w ≡ (raised exc, e.1))
  unfolding run_ready
  websocket_ends before after =
      let exchanged : Exec (Bool × Bool) = exchange env t x made client in
      let rest : Bool × Bool → Exec (Unit {0}) = λ received.
        print (WebSocket.verdict env t x made (received.0 && received.1)) []
        >> WebSocket.shutdown env t x made server client in
      (
        not_ready before,
        λ received v done disconnects.
            ap (λ (p : Result (Unit {0}) × World). p.1.calls)
              (bind-ok exchanged rest w received done)
            ∙ shutdown_order env t x made server client _ v (exchanged w).1 after disconnects,
        λ exc fails. bind-raised exchanged rest w exc fails,
      )
