-- ===== src/Server/Answers.antt =====
-- From the registration of an async request handler at a server to the answer that C++ sends.
use py_obscura_proto.Base.{List, true, ℕ, ◌+◌, ◌≤◌, ◌≡◌, ◌∙◌, ap, some, [], ◌∷◌, arith}
use py_obscura_proto.Runtime.{
  World, Env, Result, ok, Value, native_value, coroutine_value, Fn, with_args, Param,
  connection_hdl, Future, with_result, request_unpacking, register_request_handler, continue,
  Wrapped,
}
use py_obscura_proto.Dispatcher.{invoke, wrap}
use py_obscura_proto.Dispatcher.Bodies.{run_body}
use py_obscura_proto.Dispatcher.Results.{with_flag, invoke_waits}
use py_obscura_proto.Unpack.{check_response, create_request_unpacking_handler}
use py_obscura_proto.Unpack.Codec.{Content, reads, IsReader, Fits, bindings, read_calls}
use py_obscura_proto.Unpack.Roundtrip.{request_roundtrip}
use py_obscura_proto.Server.{Server, on_request}

module _ (env : Env) (t opcode : ℕ) (server : Server) (handler : Fn) (w : World) (loop : ℕ) where
  -- On a dispatcher with a loop, `Server.on_request` makes one call of the bindings.
  pub on_request_registers :
      (w.dispatchers server.dispatcher).loop ≡ some loop
      → (on_request env t server opcode handler w).1.calls
        ≡ register_request_handler server.native opcode (
            some (
              with_result server.dispatcher
                (request_unpacking handler true)
                loop
                (w.dispatchers server.dispatcher).result_timeout))
          ∷ w.calls
  unfolding on_request wrap create_request_unpacking_handler
  on_request_registers h = ground arith

-- A server whose dispatcher has a loop, and an async request handler with the handle first and readable
-- hints after it, registered by `Server.on_request`. Whenever a request that was built for the handler
-- comes in later, on any thread, and was not read before: if the coroutine that the handler returns for
-- the handle and the values of the request is scheduled and returns within the timeout that the
-- dispatcher had at the registration, C++ gets what it returned, whatever that is.
pub request_answered :
    (env : Env) (t t' opcode : ℕ) (server : Server) (handler : Fn) (p : Param) (ps : List Param)
    (content : Content) (conn v : Value) (r loop c done : ℕ) (future : Future)
    (w later after : World)
    → (w.dispatchers server.dispatcher).loop ≡ some loop
    → env.signature handler ≡ p ∷ ps
    → p.annotation ≡ connection_hdl
    → Fits ps content
    → reads r later.calls ≡ 0
    → IsReader env r content
    → env.call handler
        (record { positional = []; keywords = (p.name, conn) ∷ bindings ps content })
        (record (with_flag t' true later) { calls = read_calls r content later.calls })
      ≡ (ok (coroutine_value c), after)
    → env.future_of c loop after ≡ ok future
    → future.finish ≡ some done
    → done ≤ after.now + (w.dispatchers server.dispatcher).result_timeout
    → future.outcome ≡ ok v
    → (callback : Wrapped) × ((on_request env t server opcode handler w).1.calls
        ≡ register_request_handler server.native opcode (some callback) ∷ w.calls)
      × ((invoke env t' callback (with_args (conn ∷ native_value r ∷ [])) later).0 ≡ ok v)
unfolding run_body check_response
request_answered env t t' opcode server handler p ps content conn v r loop c done future w later
      after bound signed takes_hdl fits fresh reader ran made finishes in_time returns =
    let d = server.dispatcher in
    let timeout = (w.dispatchers d).result_timeout in
    let body = request_unpacking handler true in
    let unpacked =
      request_roundtrip env handler p ps content conn [] r (with_flag t' true later) signed
        takes_hdl fits fresh reader
      ∙ ap (λ (q : Result Value × World). continue q.0 (check_response handler) q.1) ran in
    (
      with_result d body loop timeout,
      on_request_registers env t opcode server handler w loop bound,
      invoke_waits env t' d body (with_args (conn ∷ native_value r ∷ [])) later after loop timeout c
          done v future unpacked made finishes in_time returns,
    )
