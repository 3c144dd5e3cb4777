-- ===== src/Examples/Addition.antt =====
-- The request of examples/request_response_example, from the registration of its handler to the answer.
use py_obscura_proto.Base.{
  ℕ, ◌≡◌, refl, ap, ◌∙◌, true, false, Option, none, some, [], ◌∷◌, arith, Option-cases, inl, inr,
}
use py_obscura_proto.Runtime.{
  World, Env, Result, ok, Value, native_value, payload_value, Fn, Args, with_args, connection_hdl,
  int, Wrapped, Body, sync_wrapped, with_result, request_unpacking, register_anon_request_handler,
  read_int, continue, printed,
}
use py_obscura_proto.Dispatcher.{invoke, wrap}
use py_obscura_proto.Dispatcher.Bodies.{run_body}
use py_obscura_proto.Dispatcher.Results.{with_flag, invoke_transparent}
use py_obscura_proto.Unpack.{check_response, create_request_unpacking_handler}
use py_obscura_proto.Unpack.Codec.{Content, reads, IsReader, read_calls}
use py_obscura_proto.Unpack.Roundtrip.{request_roundtrip}
use py_obscura_proto.Stream.Handlers.{bound_loop}
use py_obscura_proto.Server.{Server, on_anon_request}
use py_obscura_proto.Examples.{Setting}
use py_obscura_proto.Examples.RequestServer.{op_add_request, op_add_response, handle_add_request}

-- The closure of a callback with a result: for a loop, or without one.
abbrev pub answering : ℕ → Option ℕ → ℕ → Body → Wrapped
answering d none timeout body = sync_wrapped d body
answering d (some l) timeout body = with_result d body l timeout

wrap-answering :
    (env : Env) (t d : ℕ) (body : Body) (w : World)
    → let (r, u) = wrap env t d (some body) w in
      (r
        ≡ ok (
            some (
              answering d
                (bound_loop (w.dispatchers d).loop (env.running_loop t))
                (w.dispatchers d).result_timeout
                body)))
      × (u.calls ≡ w.calls)
unfolding wrap
wrap-answering env t d body w = elim (Option-cases (w.dispatchers d).loop) [
  | inl q ↦ elim (Option-cases (env.running_loop t)) [
    | inl q' ↦ ground arith
    | inr (l, q') ↦ ground arith
  ]
  | inr (l, q) ↦ ground arith
]

invoke-answering :
    (env : Env) (t d timeout : ℕ) (loop : Option ℕ) (body : Body) (args : Args) (k : ℕ)
    (w u : World)
    → run_body env body args (with_flag t true w) ≡ (ok (payload_value k), u)
    → invoke env t (answering d loop timeout body) args w
      ≡ (ok (payload_value k), with_flag t false u)
invoke-answering env t d timeout none body args k w u h =
    (invoke_transparent env t d body args w u 0 0 (payload_value k) h refl).0
invoke-answering env t d timeout (some l) body args k w u h =
    let (in_sync, forgets, waits) =
      invoke_transparent env t d body args w u l timeout (payload_value k) h refl in
    waits

-- The handler of the example, registered by `Server.on_anon_request` with the hints of its source.
-- Whenever a request with two numbers comes in later, on any thread, and was not read before, C++ gets
-- the payload that was built from their sum, if it could be built.
pub sum_answered :
    (env : Env) (t t' : ℕ) (x : Setting) (server : Server) (handler : Fn) (conn a b s : Value)
    (r k : ℕ) (w later : World)
    → env.signature handler
      ≡ record { name = "hdl"; annotation = connection_hdl; has_default = false }
        ∷ record { name = "a"; annotation = int; has_default = false }
        ∷ record { name = "b"; annotation = int; has_default = false }
        ∷ []
    → ((u : World)
        → env.call handler
            (record { positional = []; keywords = ("hdl", conn) ∷ ("a", a) ∷ ("b", b) ∷ [] })
            u
          ≡ handle_add_request x conn a b u)
    → reads r later.calls ≡ 0
    → IsReader env r ((read_int, a) ∷ (read_int, b) ∷ [])
    → x.add a b ≡ ok s
    → x.build op_add_response (s ∷ []) ≡ ok (payload_value k)
    → (callback : Wrapped) × ((on_anon_request env t server op_add_request handler w).1.calls
        ≡ register_anon_request_handler server.native op_add_request (some callback) ∷ w.calls)
      × ((invoke env t' callback (with_args (conn ∷ native_value r ∷ [])) later).0
          ≡ ok (payload_value k))
unfolding run_body on_anon_request check_response handle_add_request
    create_request_unpacking_handler
sum_answered env t t' x server handler conn a b s r k w later signed ran fresh reader added built =
    let d = server.dispatcher in
    let loop = bound_loop (w.dispatchers d).loop (env.running_loop t) in
    let timeout = (w.dispatchers d).result_timeout in
    let body = request_unpacking handler true in
    let content : Content = (read_int, a) ∷ (read_int, b) ∷ [] in
    let u = with_flag t' true later in
    let unpacked =
      request_roundtrip env handler _ _ content conn [] r u signed refl (refl, (refl, tt)) fresh
        reader in
    let v = record u { calls = read_calls r content later.calls } in
    let done = record v {
      logged =
          printed "[SERVER] Sending response: {result}" (s ∷ [])
          ∷ printed "[SERVER] Received add request: {a} + {b}" (a ∷ b ∷ [])
          ∷ v.logged;
    } in
    let summed : handle_add_request x conn a b v ≡ (ok (payload_value k), done) =
      rw (added, built) refl in
    let answered =
      unpacked
      ∙ ap (λ (q : Result Value × World). continue q.0 (check_response handler) q.1)
          (ran v ∙ summed) in
    (
      answering d loop timeout body,
      ground (arith, wrap-answering env t d body w),
      ap (λ (p : Result Value × World). p.0)
          (invoke-answering env t' d timeout loop body (with_args (conn ∷ native_value r ∷ [])) k
            later done answered),
    )
