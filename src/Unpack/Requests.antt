-- ===== src/Unpack/Requests.antt =====
-- Request handlers: what the wrapper answers.
use py_obscura_proto.Base.{◌≡◌, Bool, true, false, List, [], ◌∷◌, arith, inl, inr}
use py_obscura_proto.Runtime.{
  World, Env, Exc, continue, is_exception, Result-cases, ok, raised, Value, payload_value,
  coroutine_value, error_payload, Fn, Args, Param, request_unpack_failed_log,
}
use py_obscura_proto.Unpack.{
  Keywords, Unpacked, keywords, failed, check_response, unpack_request, answer_request,
  call_keywords, read_params, run_request_unpacking, request_plan, hdl_keyword, nth,
}

-- What the wrapper may return: a payload, or the coroutine that the dispatcher takes over.
abbrev pub is_response : Value → Bool
is_response (payload_value p) = true
is_response (error_payload e) = true
is_response (coroutine_value c) = true
is_response _ = false

check_response-ok :
    (handler : Fn) (r v : Value) (w w' : World)
    → check_response handler r w ≡ (ok v, w')
    → is_response v ≡ true
unfolding check_response
check_response-ok handler (payload_value p) v w w' h = ground arith
check_response-ok handler (coroutine_value c) v w w' h = ground arith
check_response-ok handler (error_payload e) v w w' h = ground arith
check_response-ok handler _ v w w' h = absurd (ground arith)

-- What the unpacking hands on when it has failed is an error payload.
abbrev IsAnswer : Unpacked → Type 0
IsAnswer (keywords kw) = Unit
IsAnswer (failed v) = is_response v ≡ true

module _ (env : Env) (handler : Fn) where
  unpack_request-IsAnswer :
      (reader : Value) (ps : List Param) (kw : Keywords) (w w' : World) (x : Unpacked)
      → unpack_request env handler reader ps kw w ≡ (ok x, w')
      → IsAnswer x
  unfolding unpack_request
  unpack_request-IsAnswer reader ps kw w w' (keywords lw) h = tt
  unpack_request-IsAnswer reader ps kw w w' (failed v) h = ground arith

  answer_request-ok :
      (x : Unpacked) (v : Value) (w w' : World)
      → IsAnswer x
      → answer_request env handler x w ≡ (ok v, w')
      → is_response v ≡ true
  unfolding answer_request
  answer_request-ok (failed u) v w w' a h = ground arith
  answer_request-ok (keywords kw) v w w' a h =
      elim (Result-cases (call_keywords env handler kw w).0) [
        | inr (e, q) ↦ absurd (ground arith)
        | inl (r, q) ↦
            check_response-ok handler r v (call_keywords env handler kw w).1 w' (ground arith)
      ]

  respond :
      (reader : Value) (ps : List Param) (kw : Keywords) (v : Value) (w w' : World)
      → let (r, u) = unpack_request env handler reader ps kw w in
        continue r (answer_request env handler) u ≡ (ok v, w') → is_response v ≡ true
  respond reader ps kw v w w' h =
      let m = unpack_request env handler reader ps kw w in
      elim (Result-cases m.0) [
        | inr (e, q) ↦ absurd (ground arith)
        | inl (x, q) ↦
            answer_request-ok x v m.1 w'
              (unpack_request-IsAnswer reader ps kw w m.1 x (ground arith)) (ground arith)
      ]

  response_typed :
      (receives_hdl : Bool) (vs : List Value) (kw : Keywords) (v : Value) (w w' : World)
      → run_request_unpacking env handler receives_hdl (record { positional = vs; keywords = kw }) w
        ≡ (ok v, w')
      → is_response v ≡ true
  unfolding run_request_unpacking nth
  response_typed true [] kw v w w' h = absurd (ground arith)
  response_typed true (a ∷ []) kw v w w' h = absurd (ground arith)
  response_typed true (a ∷ b ∷ vs) kw v w w' h =
      let plan = request_plan true (env.signature handler) in
      respond b plan.unpack_params (hdl_keyword plan.hdl_param a) v w w' h
  response_typed false [] kw v w w' h = absurd (ground arith)
  response_typed false (a ∷ vs) kw v w w' h = respond a (env.signature handler) [] v w w' h

-- Whatever a request handler returns, its unpacking wrapper returns a payload or a coroutine, or raises.
pub is_response-run_request_unpacking :
    (env : Env) (handler : Fn) (receives_hdl : Bool) (args : Args) (v : Value) (w w' : World)
    → run_request_unpacking env handler receives_hdl args w ≡ (ok v, w')
    → is_response v ≡ true
is_response-run_request_unpacking env handler receives_hdl args v w w' =
    response_typed env handler receives_hdl args.positional args.keywords v w w'

-- If a parameter of a server's request handler cannot be read, with an `Exception`, the handler is not
-- run: the peer is answered with an error payload that carries the exception, and it is logged.
pub request_unpack_failure :
    (env : Env) (handler : Fn) (conn reader : Value) (rest : List Value) (e : Exc) (w u : World)
    → let plan = request_plan true (env.signature handler) in
      read_params env true reader plan.unpack_params (hdl_keyword plan.hdl_param conn) w
        ≡ (raised e, u)
      → is_exception e ≡ true
      → run_request_unpacking env handler true
          (record { positional = conn ∷ reader ∷ rest; keywords = [] })
          w
        ≡ (
          ok (error_payload e),
          record u { logged = request_unpack_failed_log handler e ∷ u.logged },
        )
unfolding run_request_unpacking nth
request_unpack_failure env handler conn reader rest e w u h x = ground arith
