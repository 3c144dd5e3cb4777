-- ===== src/Unpack/Roundtrip.antt =====
-- Build and unpack: a handler gets the values that its payload or request was built from.
use py_obscura_proto.Base.{
  ℕ, ◌≡◌, refl, sym, ap, ◌∙◌, true, false, none, some, List, [], ◌∷◌, arith,
}
use py_obscura_proto.Runtime.{
  World, Env, Result, ok, Value, native_value, Fn, make_reader, connection_hdl, Param, native_call,
  continue, ◌>>=◌,
}
use py_obscura_proto.Unpack.{
  Keywords, is_empty, read_params, run_unpacking, run_request_unpacking, check_response,
  unpack_request, answer_request, keywords, nth, request_plan,
}
use py_obscura_proto.Unpack.Reads.{keys, names, missing-names}
use py_obscura_proto.Unpack.Payloads.{call_keywords_ok, handler_called}
use py_obscura_proto.Unpack.Codec.{
  Content, reads, IsReader, Fits, bindings, read_calls, Fits-AllReadable, keys-bindings, read_rest,
}

-- A server's payload handler with the handle first and readable hints after it, at least one, and a
-- payload that was built for them, with a reader that was not read before: the handler is called once,
-- with the handle and with each value that the payload was built from under the name of its parameter.
pub payload_roundtrip :
    (env : Env) (handler : Fn) (p : Param) (ps : List Param) (content : Content)
    (packet conn : Value) (rest : List Value) (r : ℕ) (w : World)
    → env.signature handler ≡ p ∷ ps
    → p.annotation ≡ connection_hdl
    → is_empty ps ≡ false
    → Fits ps content
    → env.reply w.calls (make_reader packet) ≡ ok (native_value r)
    → reads r w.calls ≡ 0
    → IsReader env r content
    → run_unpacking env handler true (record { positional = conn ∷ packet ∷ rest; keywords = [] }) w
      ≡ env.call handler
          (record { positional = []; keywords = (p.name, conn) ∷ bindings ps content })
          (record w { calls = read_calls r content (make_reader packet ∷ w.calls) })
payload_roundtrip env handler p ps content packet conn rest r w signed takes_hdl some_params fits
      made fresh reader =
    let done =
      read_rest env false r content reader ps [] content ((p.name, conn) ∷ [])
        (native_call env (make_reader packet) w).1 refl fresh fits in
    (handler_called env handler p ps takes_hdl (Fits-AllReadable ps content fits) signed packet conn
      (native_value r) rest w some_params made done).0

unpack_request-ok :
    (env : Env) (handler : Fn) (reader : Value) (ps : List Param) (kw kw' : Keywords) (w u : World)
    → read_params env true reader ps kw w ≡ (ok kw', u)
    → unpack_request env handler reader ps kw w ≡ (ok (keywords kw'), u)
unfolding unpack_request
unpack_request-ok env handler reader ps kw kw' w u h = rw (h, unpack_request)

pub request_plan-hdl :
    (p : Param) (ps : List Param)
    → p.annotation ≡ connection_hdl
    → request_plan true (p ∷ ps)
      ≡ record { hdl_param = some p.name; payload_param = none; unpack_params = ps }
request_plan-hdl p ps h = ground arith

-- A server's request handler with the handle first and readable hints after it, and a request that was
-- built for them and not read before: the handler is called once, with the handle and with each value of
-- the request under the name of its parameter, and what it returns is checked and is the answer.
pub request_roundtrip :
    (env : Env) (handler : Fn) (p : Param) (ps : List Param) (content : Content) (conn : Value)
    (rest : List Value) (r : ℕ) (w : World)
    → env.signature handler ≡ p ∷ ps
    → p.annotation ≡ connection_hdl
    → Fits ps content
    → reads r w.calls ≡ 0
    → IsReader env r content
    → run_request_unpacking env handler true
        (record { positional = conn ∷ native_value r ∷ rest; keywords = [] })
        w
      ≡ (env.call handler
              (record { positional = []; keywords = (p.name, conn) ∷ bindings ps content })
            >>= check_response handler)
          (record w { calls = read_calls r content w.calls })
unfolding run_request_unpacking nth answer_request
request_roundtrip env handler p ps content conn rest r w signed takes_hdl fits fresh reader =
    let kw : Keywords = (p.name, conn) ∷ bindings ps content in
    let u = record w { calls = read_calls r content w.calls } in
    let done =
      read_rest env true r content reader ps [] content ((p.name, conn) ∷ []) w refl fresh fits in
    let named : keys kw ≡ names (env.signature handler) =
      ap (λ l. p.name ∷ l) (keys-bindings ps content fits) ∙ sym (ap names signed) in
    rw signed (
      rw (request_plan-hdl p ps takes_hdl) (
        rw (unpack_request-ok env handler (native_value r) ps ((p.name, conn) ∷ []) kw w u done) (
          ap (λ (q : Result Value × World). continue q.0 (check_response handler) q.1)
            (call_keywords_ok env handler p ps kw u
              (missing-names [] (env.signature handler) kw named)))))
