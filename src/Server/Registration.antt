-- ===== src/Server/Registration.antt =====
-- Registration of payload and request handlers at a server.
use py_obscura_proto.Base.{ℕ, ◌≡◌, true, false, ◌&&◌, some, ◌∷◌, arith}
use py_obscura_proto.Runtime.{
  World, Env, raised, Fn, unpacking, register_op_handler, type_error, mixed_unpacking,
}
use py_obscura_proto.Unpack.Payloads.{
  any_hint, is_payload, is_unpacked, create_unpacking_handler-mixed,
  create_unpacking_handler_accepts,
}
use py_obscura_proto.Stream.Handlers.{callback_for, bound_loop, wrap_fire_and_forget_lem}
use py_obscura_proto.Server.{Server, on_payload, default_payload_handler}

module _ (env : Env) (t opcode : ℕ) (server : Server) (handler : Fn) (w : World) where
  -- `Server.on_payload` of a handler without both a `Payload` and a hint to unpack makes one call of the
  -- bindings, which registers the unpacking wrapper under the operation code: fire-and-forget for the
  -- loop of the dispatcher, else for the one that runs on the thread.
  pub on_payload_registers :
      (any_hint is_payload (env.signature handler) && any_hint is_unpacked (env.signature handler))
        ≡ false
      → let d = server.dispatcher in
        let loop = bound_loop (w.dispatchers d).loop (env.running_loop t) in
        (on_payload env t server opcode handler w).1.calls
        ≡ register_op_handler server.native opcode
            (some (callback_for d loop (unpacking handler true)))
          ∷ w.calls
  unfolding on_payload
  on_payload_registers h = ground (
    arith,
    wrap_fire_and_forget_lem env t server.dispatcher (unpacking handler true) w,
    (create_unpacking_handler_accepts env handler true w).1,
  )

  -- A handler with both a `Payload` and a hint to unpack is rejected by `Server.on_payload` and by
  -- `default_payload_handler` with `TypeError`, and nothing changes: no callback is registered.
  pub mixed_rejected :
      any_hint is_payload (env.signature handler) ≡ true
      → any_hint is_unpacked (env.signature handler) ≡ true
      → (on_payload env t server opcode handler w
          ≡ (raised (type_error (mixed_unpacking handler)), w))
        × (default_payload_handler env t server handler w
            ≡ (raised (type_error (mixed_unpacking handler)), w))
  unfolding on_payload default_payload_handler
  mixed_rejected p u = ground (arith, create_unpacking_handler-mixed env handler w p u)
