-- ===== src/Server/Registry/Refines.antt =====
-- Any sequence of registrations builds the table of the specification.
use py_obscura_proto.Base.{
  ℕ, ◌≡◌, refl, ◌∙◌, ap, true, ◌&&◌, Option, some, List, [], ◌∷◌, arith, inl, inr, Option-cases,
  Bool-cases,
}
use py_obscura_proto.Runtime.{
  World, Env, ok, native_value, Fn, Body, Wrapped, unpacking, Call, native_call, pure,
  stream_wrapper, register_op_handler, register_anon_op_handler, register_request_handler,
  register_anon_request_handler, register_stream_handler, register_anon_stream_handler,
  register_incoming_stream_handler, set_default_payload_handler, set_anon_default_payload_handler,
  set_client_identity_handler, ◌>>=◌, ◌>>◌, identity,
}
use py_obscura_proto.Dispatcher.{wrap, wrap_fire_and_forget, wrap_identity}
use py_obscura_proto.Unpack.{create_unpacking_handler, create_request_unpacking_handler}
use py_obscura_proto.Unpack.Payloads.{
  any_hint, is_payload, is_unpacked, create_unpacking_handler_accepts,
  create_unpacking_handler-mixed,
}
use py_obscura_proto.Stream.Handlers.{callback_for, bound_loop}
use py_obscura_proto.Server.{
  Server, on_payload, on_anon_payload, default_payload_handler, anon_default_payload_handler,
  on_request, on_anon_request, on_stream, on_anon_stream, on_incoming_stream, on_client_identity,
}
use py_obscura_proto.Server.Registry.{
  payload_slot, anon_payload_slot, request_slot, anon_request_slot, stream_slot, anon_stream_slot,
  default_slot, anon_default_slot, incoming_slot, identity_slot, Slot, entry, put_entry, table_of,
  Registration, perform, run, waiting_for, entry_for, replay, payload_entry, result_entry, payload,
  anon_payload, request, anon_request, stream, anon_stream, default_payload, anon_default, incoming,
  client_identity,
}

-- The dispatcher has, once bound, this loop and this timeout.
pub record IsBoundTo (env : Env) (t d : ℕ) (loop : Option ℕ) (timeout : ℕ) (w : World)
    : Type 0 where
  pub binds : bound_loop (w.dispatchers d).loop (env.running_loop t) ≡ loop
  pub waits : (w.dispatchers d).result_timeout ≡ timeout

module _ (env : Env) (t d : ℕ) (loop : Option ℕ) (timeout : ℕ) where
  -- The three wraps: the callback, no call of the bindings, and the dispatcher still bound.
  forget_lem :
      (body : Body) (w : World)
      → IsBoundTo env t d loop timeout w
      → let (r, u) = wrap_fire_and_forget env t d (some body) w in
        (r ≡ ok (some (callback_for d loop body)))
        × (u.calls ≡ w.calls)
        × IsBoundTo env t d loop timeout u
  unfolding wrap_fire_and_forget
  forget_lem body w b = elim (Option-cases (w.dispatchers d).loop) [
    | inl e ↦ elim (Option-cases (env.running_loop t)) [
      | inl f ↦ ground arith
      | inr (l, f) ↦ ground arith
    ]
    | inr (l, e) ↦ ground arith
  ]

  wait_lem :
      (body : Body) (w : World)
      → IsBoundTo env t d loop timeout w
      → let (r, u) = wrap env t d (some body) w in
        (r ≡ ok (some (waiting_for d loop timeout body)))
        × (u.calls ≡ w.calls)
        × IsBoundTo env t d loop timeout u
  unfolding wrap
  wait_lem body w b = elim (Option-cases (w.dispatchers d).loop) [
    | inl e ↦ elim (Option-cases (env.running_loop t)) [
      | inl f ↦ ground arith
      | inr (l, f) ↦ ground arith
    ]
    | inr (l, e) ↦ ground arith
  ]

  identity_lem :
      (f : Fn) (w : World)
      → IsBoundTo env t d loop timeout w
      → let (r, u) = wrap_identity env t d f w in
        (r ≡ ok (identity d f loop timeout))
        × (u.calls ≡ w.calls)
        × IsBoundTo env t d loop timeout u
  unfolding wrap_identity
  identity_lem f w b = elim (Option-cases (w.dispatchers d).loop) [
    | inl e ↦ elim (Option-cases (env.running_loop t)) [
      | inl f ↦ ground arith
      | inr (l, f) ↦ ground arith
    ]
    | inr (l, e) ↦ ground arith
  ]

  -- After a step the table has the entry of the specification and the dispatcher is still bound.
  abbrev Steps : ℕ → Option (Slot × Option Wrapped) → World → World → Type 0
  Steps k change w u =
      (table_of k u.calls ≡ put_entry change (table_of k w.calls))
      × IsBoundTo env t d loop timeout u

  module _ (k : ℕ) (register : Option Wrapped → Call) (slot : Slot)
      (registers : (c : Option Wrapped) → entry k (register c) ≡ some (slot, c)) where
    payload_step :
        (f : Fn) (w : World)
        → IsBoundTo env t d loop timeout w
        → Steps k
            (payload_entry env d loop timeout slot f)
            w
            ((do
              body ← create_unpacking_handler env f true
              wrapped ← wrap_fire_and_forget env t d (some body)
              native_call env (register wrapped)
              pure f)
              w).1
    payload_step f w b =
        let body = unpacking f true in
        let (made, kept, bound) = forget_lem body w b in
        let c = some (callback_for d loop body) in
        elim (Bool-cases
          (any_hint is_payload (env.signature f) && any_hint is_unpacked (env.signature f))) [
            | inl mixed ↦
                ground (arith, create_unpacking_handler-mixed env f w (ground arith) (ground arith))
            | inr fine ↦
                let accepted =
                  (create_unpacking_handler_accepts env f true w).1 (ground arith, fine) in
                ground (arith, registers c)
          ]

    result_step :
        (f : Fn) (body : Body) (w : World)
        → IsBoundTo env t d loop timeout w
        → Steps k
            (result_entry env d loop timeout slot body)
            w
            ((do wrapped ← wrap env t d (some body); native_call env (register wrapped); pure f)
              w).1
    result_step f body w b =
        let (made, kept, bound) = wait_lem body w b in
        let c = some (waiting_for d loop timeout body) in ground (arith, registers c)

    identity_step :
        (f : Fn) (w : World)
        → IsBoundTo env t d loop timeout w
        → Steps k
            (some (slot, some (identity d f loop timeout)))
            w
            ((do
              wrapped ← wrap_identity env t d f
              native_call env (register (some wrapped))
              pure f)
              w).1
    identity_step f w b =
        let (made, kept, bound) = identity_lem f w b in
        ground (arith, registers (some (identity d f loop timeout)))

module _ (env : Env) (t : ℕ) (server : Server) (k : ℕ) (made_by : server.native ≡ native_value k)
    (loop : Option ℕ) (timeout : ℕ) where
  abbrev Bound : World → Type 0
  Bound = IsBoundTo env t server.dispatcher loop timeout

  perform_step :
      (reg : Registration) (w : World)
      → Bound w
      → Steps env t server.dispatcher loop timeout k
          (entry_for env server.dispatcher loop timeout reg)
          w
          (perform env t server reg w)
  unfolding perform create_request_unpacking_handler on_payload on_anon_payload
      default_payload_handler anon_default_payload_handler on_request on_anon_request on_stream
      on_anon_stream on_incoming_stream on_client_identity
  perform_step (payload op f) w b =
      payload_step env t server.dispatcher loop timeout k (register_op_handler server.native op)
        (payload_slot op) (λ c. ground arith) f w b
  perform_step (anon_payload op f) w b =
      payload_step env t server.dispatcher loop timeout k
        (register_anon_op_handler server.native op) (anon_payload_slot op) (λ c. ground arith) f w b
  perform_step (request op f) w b =
      result_step env t server.dispatcher loop timeout k (register_request_handler server.native op)
        (request_slot op) (λ c. ground arith) f (create_request_unpacking_handler f true) w b
  perform_step (anon_request op f) w b =
      result_step env t server.dispatcher loop timeout k
        (register_anon_request_handler server.native op) (anon_request_slot op) (λ c. ground arith)
        f (create_request_unpacking_handler f true) w b
  perform_step (stream op f) w b =
      result_step env t server.dispatcher loop timeout k (register_stream_handler server.native op)
        (stream_slot op) (λ c. ground arith) f (stream_wrapper server.dispatcher f) w b
  perform_step (anon_stream op f) w b =
      result_step env t server.dispatcher loop timeout k
        (register_anon_stream_handler server.native op) (anon_stream_slot op) (λ c. ground arith) f
        (stream_wrapper server.dispatcher f) w b
  perform_step (default_payload f) w b =
      payload_step env t server.dispatcher loop timeout k
        (set_default_payload_handler server.native) (default_slot) (λ c. ground arith) f w b
  perform_step (anon_default f) w b =
      payload_step env t server.dispatcher loop timeout k
        (set_anon_default_payload_handler server.native) (anon_default_slot) (λ c. ground arith) f w
        b
  perform_step (incoming f) w b =
      result_step env t server.dispatcher loop timeout k
        (register_incoming_stream_handler server.native) (incoming_slot) (λ c. ground arith) f
        (stream_wrapper server.dispatcher f) w b
  perform_step (client_identity f) w b =
      identity_step env t server.dispatcher loop timeout k
        (set_client_identity_handler server.native) (identity_slot) (λ c. ground arith) f w b

  -- Whatever registrations a program makes, in whatever order, repeated, or rejected: the calls of the
  -- bindings that the server makes register, for each slot, the callback that the specification has there,
  -- for the loop and the timeout of the server's dispatcher.
  pub run_refines :
      (regs : List Registration) (w : World)
      → Bound w
      → table_of k (run env t server regs w).calls
        ≡ replay env server.dispatcher loop timeout regs (table_of k w.calls)
  unfolding run
  run_refines [] w b = refl
  run_refines (reg ∷ regs) w b =
      let (e, bound) = perform_step reg w b in
      run_refines regs (perform env t server reg w) bound
      ∙ ap (replay env server.dispatcher loop timeout regs) e
