-- ===== src/Server/EndToEnd.antt =====
-- From the registration of a handler at a server to its run on an I/O thread.
use py_obscura_proto.Base.{
  ℕ, ◌≡◌, refl, ◌∙◌, true, false, ◌&&◌, Option, none, some, List, [], ◌∷◌, arith,
}
use py_obscura_proto.Runtime.{
  World, Env, ok, Value, native_value, Fn, with_args, Wrapped, Param, Body, Args, connection_hdl,
  make_reader, register_op_handler, unpacking,
}
use py_obscura_proto.Dispatcher.{invoke}
use py_obscura_proto.Dispatcher.Bodies.{run_body}
use py_obscura_proto.Dispatcher.Results.{with_flag, is_coroutine, invoke_transparent}
use py_obscura_proto.Unpack.{is_empty}
use py_obscura_proto.Unpack.Payloads.{any_hint, is_payload, is_unpacked, AllReadable}
use py_obscura_proto.Unpack.Codec.{
  Content, reads, IsReader, Fits, bindings, read_calls, Fits-AllReadable,
}
use py_obscura_proto.Unpack.Roundtrip.{payload_roundtrip}
use py_obscura_proto.Stream.Handlers.{callback_for, bound_loop}
use py_obscura_proto.Server.{Server, on_payload}
use py_obscura_proto.Server.Registration.{on_payload_registers}

no_payload : (ps : List Param) → AllReadable ps → any_hint is_payload ps ≡ false
no_payload [] h = refl
no_payload (p ∷ ps) h = ground (arith, no_payload ps h.1)

pub invoke-callback_for :
    (env : Env) (t d : ℕ) (loop : Option ℕ) (body : Body) (args : Args) (v : Value) (w u : World)
    → run_body env body args (with_flag t true w) ≡ (ok v, u)
    → is_coroutine v ≡ false
    → invoke env t (callback_for d loop body) args w ≡ (ok v, with_flag t false u)
invoke-callback_for env t d none body args v w u h n =
    (invoke_transparent env t d body args w u 0 0 v h n).0
invoke-callback_for env t d (some l) body args v w u h n =
    (invoke_transparent env t d body args w u l 0 v h n).1

-- `Server.on_payload` of a handler with the handle first and readable hints after it, at least one,
-- makes one call of the bindings, which registers a callback. Whenever that callback is run later, on
-- any thread, for a payload that was built for the handler and not read before, the handler is called
-- with the flag of the thread up and with the handle and the values of the payload; if it returns a
-- value that is no coroutine, C++ gets it, and the flag is down again.
pub payload_delivered :
    (env : Env) (t t' opcode : ℕ) (server : Server) (handler : Fn) (p : Param) (ps : List Param)
    (content : Content) (packet conn v : Value) (r : ℕ) (w later after : World)
    → env.signature handler ≡ p ∷ ps
    → p.annotation ≡ connection_hdl
    → is_empty ps ≡ false
    → Fits ps content
    → env.reply later.calls (make_reader packet) ≡ ok (native_value r)
    → reads r later.calls ≡ 0
    → IsReader env r content
    → env.call handler
        (record { positional = []; keywords = (p.name, conn) ∷ bindings ps content })
        (record (with_flag t' true later) {
          calls = read_calls r content (make_reader packet ∷ later.calls);
        })
      ≡ (ok v, after)
    → is_coroutine v ≡ false
    → (callback : Wrapped) × ((on_payload env t server opcode handler w).1.calls
        ≡ register_op_handler server.native opcode (some callback) ∷ w.calls)
      × (invoke env t' callback (with_args (conn ∷ packet ∷ [])) later
          ≡ (ok v, with_flag t' false after))
unfolding run_body
payload_delivered env t t' opcode server handler p ps content packet conn v r w later after signed
      takes_hdl some_params fits made fresh reader ran plain =
    let d = server.dispatcher in
    let loop = bound_loop (w.dispatchers d).loop (env.running_loop t) in
    let accepted : (any_hint is_payload (env.signature handler)
          && any_hint is_unpacked (env.signature handler))
        ≡ false =
      rw signed (ground (arith, no_payload ps (Fits-AllReadable ps content fits))) in
    (
      callback_for d loop (unpacking handler true),
      on_payload_registers env t opcode server handler w accepted,
      invoke-callback_for env t' d loop (unpacking handler true) (with_args (conn ∷ packet ∷ [])) v
          later after
          (payload_roundtrip env handler p ps content packet conn [] r (with_flag t' true later)
              signed takes_hdl some_params fits made fresh reader
            ∙ ran)
          plain,
    )
