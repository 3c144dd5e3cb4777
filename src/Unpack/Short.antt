-- ===== src/Unpack/Short.antt =====
-- Payloads and requests with fewer values than the handler has parameters to read.
use py_obscura_proto.Base.{
  ap, sym, ◌+◌, ℕ, ◌≡◌, refl, ◌∙◌, Bool, true, false, none, some, List, [], ◌∷◌, ◌++◌, arith,
  length, inl, inr,
}
use py_obscura_proto.Runtime.{
  World, Env, Exc, is_exception, Result, Result-cases, ok, raised, Value, native_value, Fn, Call,
  read, make_reader, ReadMethod, connection_hdl, Param, native_call, type_error, unpack_failed,
  unpack_failed_log, request_unpack_failed_log, error_payload, continue,
}
use py_obscura_proto.Unpack.{
  Keywords, type_map, is_empty, read_hint, read_params, run_unpacking, run_request_unpacking,
  unpack_payload, call_keywords, nth,
}
use py_obscura_proto.Unpack.Payloads.{AllReadable, the_plan}
use py_obscura_proto.Unpack.Requests.{request_unpack_failure}
use py_obscura_proto.Unpack.Roundtrip.{request_plan-hdl}
use py_obscura_proto.Unpack.Codec.{
  Content, get_elem?, reads, IsReader, Fits, bindings, read_calls, read_hint-readable,
  read_params-read, read_rest,
}

-- A read past the end of the content raises `end`.
pub record IsAtEnd (env : Env) (r : ℕ) (content : Content) (end : Exc) : Type 0 where
  pub stops :
      (cs : List Call) (m : ReadMethod)
      → get_elem? content (reads r cs) ≡ none
      → env.reply cs (read m (native_value r)) ≡ raised end

module _ (env : Env) (takes_reader : Bool) (reader : Value) where
  read_params-append :
      (qs ps : List Param) (kw kw' : Keywords) (w u : World)
      → read_params env takes_reader reader qs kw w ≡ (ok kw', u)
      → read_params env takes_reader reader (qs ++ ps) kw w
        ≡ read_params env takes_reader reader ps kw' u
  unfolding read_params
  read_params-append [] ps kw kw' w u h =
      ap
        (λ (q : Result Keywords × World). continue q.0 (read_params env takes_reader reader ps) q.1)
        h
  read_params-append (q ∷ qs) ps kw kw' w u h =
      let hint = read_hint env takes_reader q.annotation q.name reader w in
      elim (Result-cases hint.0) [
        | inr (e, x) ↦ absurd (ground arith)
        | inl (v, x) ↦
            let done : read_hint env takes_reader q.annotation q.name reader w ≡ (ok v, hint.1) =
              ground arith in
            let kw₁ = kw ++ (q.name, v) ∷ [] in
            read_params-read env takes_reader reader v q (qs ++ ps) kw w done
            ∙ read_params-append qs ps kw₁ kw' hint.1 u
                (sym (read_params-read env takes_reader reader v q qs kw w done) ∙ h)
      ]

  read_params-raised :
      (q : Param) (ps : List Param) (kw : Keywords) (e : Exc) (w u : World)
      → read_hint env takes_reader q.annotation q.name reader w ≡ (raised e, u)
      → read_params env takes_reader reader (q ∷ ps) kw w ≡ (raised e, u)
  unfolding read_params
  read_params-raised q ps kw e w u h = ground arith

reads-read_calls :
    (r : ℕ) (content : Content) (cs : List Call)
    → reads r (read_calls r content cs) ≡ length content + reads r cs
reads-read_calls r [] cs = omega arith
reads-read_calls r ((m, v) ∷ content) cs =
    ground (arith, reads-read_calls r content (read m (native_value r) ∷ cs))

get_elem?-length : (content : Content) → get_elem? content (length content) ≡ none
get_elem?-length [] = refl
get_elem?-length (_ ∷ content) = get_elem?-length content

module _ (env : Env) (r : ℕ) (content : Content) (end : Exc) (qs more : List Param) (q : Param)
    (m : ReadMethod) where
  read_short :
      (takes_reader : Bool) (kw : Keywords) (w : World)
      → IsReader env r content
      → IsAtEnd env r content end
      → Fits qs content
      → type_map q.annotation ≡ some m
      → reads r w.calls ≡ 0
      → read_params env takes_reader (native_value r) (qs ++ q ∷ more) kw w
        ≡ (raised end, record w { calls = read m (native_value r) ∷ read_calls r content w.calls })
  read_short takes_reader kw w reader at_end fits readable fresh =
      let u = record w { calls = read_calls r content w.calls } in
      let start = read_rest env takes_reader r content reader qs [] content kw w refl fresh fits in
      let stop : env.reply u.calls (read m (native_value r)) ≡ raised end =
        at_end.stops u.calls m
          (ground (arith, reads-read_calls r content w.calls, get_elem?-length content)) in
      read_params-append env takes_reader (native_value r) qs (q ∷ more) kw
        (kw ++ bindings qs content) w u start
      ∙ read_params-raised env takes_reader (native_value r) q more (kw ++ bindings qs content) end
          u (record w { calls = read m (native_value r) ∷ read_calls r content w.calls })
          (read_hint-readable env takes_reader q.annotation m q.name (native_value r) u readable
            ∙ rw stop)

unpack_payload_failed :
    (env : Env) (handler : Fn) (packet reader : Value) (ps : List Param) (kw : Keywords) (e : Exc)
    (w u : World)
    → is_empty ps ≡ false
    → env.reply w.calls (make_reader packet) ≡ ok reader
    → read_params env false reader ps kw (native_call env (make_reader packet) w).1 ≡ (raised e, u)
    → is_exception e ≡ true
    → unpack_payload env handler packet ps kw w ≡ (
      raised (type_error (unpack_failed (env.op_code packet) handler e)),
      record u { logged = unpack_failed_log handler e ∷ u.logged },
    )
unfolding unpack_payload
unpack_payload_failed env handler packet reader [] kw e w u some_params made h caught = cc
unpack_payload_failed env handler packet reader (p ∷ ps) kw e w u some_params made h caught =
    ground arith

is_empty-middle : (qs more : List Param) (q : Param) → is_empty (qs ++ q ∷ more) ≡ false
is_empty-middle [] more q = refl
is_empty-middle (_ ∷ qs) more q = refl

-- A server's payload handler with the handle first and readable hints after it, and a payload that was
-- built for only the first of them, whose reader raises an `Exception` past its end: the handler is not
-- called, the wrapper raises `TypeError` with the opcode, the handler and what the reader raised, and
-- this is logged.
pub payload_too_short :
    (env : Env) (handler : Fn) (p q : Param) (qs more : List Param) (content : Content)
    (m : ReadMethod) (end : Exc) (packet conn : Value) (rest : List Value) (r : ℕ) (w : World)
    → env.signature handler ≡ p ∷ (qs ++ q ∷ more)
    → p.annotation ≡ connection_hdl
    → AllReadable (qs ++ q ∷ more)
    → Fits qs content
    → type_map q.annotation ≡ some m
    → env.reply w.calls (make_reader packet) ≡ ok (native_value r)
    → reads r w.calls ≡ 0
    → IsReader env r content
    → IsAtEnd env r content end
    → is_exception end ≡ true
    → run_unpacking env handler true (record { positional = conn ∷ packet ∷ rest; keywords = [] }) w
      ≡ (
        raised (type_error (unpack_failed (env.op_code packet) handler end)),
        record w {
          calls = read m (native_value r) ∷ read_calls r content (make_reader packet ∷ w.calls);
          logged = unpack_failed_log handler end ∷ w.logged;
        },
      )
unfolding run_unpacking nth
payload_too_short env handler p q qs more content m end packet conn rest r w signed takes_hdl
      readable fits hint made fresh reader at_end caught =
    let u = (native_call env (make_reader packet) w).1 in
    let failed =
      read_short env r content end qs more q m false ((p.name, conn) ∷ []) u reader at_end fits hint
        fresh in
    rw (the_plan env handler p (qs ++ q ∷ more) takes_hdl readable signed) (
      ap (λ (x : Result Keywords × World). continue x.0 (call_keywords env handler) x.1)
        (unpack_payload_failed env handler packet (native_value r) (qs ++ q ∷ more)
          ((p.name, conn) ∷ []) end w
          (record u { calls = read m (native_value r) ∷ read_calls r content u.calls })
          (is_empty-middle qs more q) made failed caught))

-- A server's request handler with the handle first and readable hints after it, and a request that was
-- built for only the first of them, whose reader raises an `Exception` past its end: the handler is not
-- called, the peer is answered with an error payload that carries what the reader raised, and this is
-- logged.
pub request_too_short :
    (env : Env) (handler : Fn) (p q : Param) (qs more : List Param) (content : Content)
    (m : ReadMethod) (end : Exc) (conn : Value) (rest : List Value) (r : ℕ) (w : World)
    → env.signature handler ≡ p ∷ (qs ++ q ∷ more)
    → p.annotation ≡ connection_hdl
    → Fits qs content
    → type_map q.annotation ≡ some m
    → reads r w.calls ≡ 0
    → IsReader env r content
    → IsAtEnd env r content end
    → is_exception end ≡ true
    → run_request_unpacking env handler true
        (record { positional = conn ∷ native_value r ∷ rest; keywords = [] })
        w
      ≡ (
        ok (error_payload end),
        record w {
          calls = read m (native_value r) ∷ read_calls r content w.calls;
          logged = request_unpack_failed_log handler end ∷ w.logged;
        },
      )
request_too_short env handler p q qs more content m end conn rest r w signed takes_hdl fits hint
      fresh reader at_end caught =
    request_unpack_failure env handler conn (native_value r) rest end w
      (record w { calls = read m (native_value r) ∷ read_calls r content w.calls })
      (rw signed (
        rw (request_plan-hdl p (qs ++ q ∷ more) takes_hdl) (
          read_short env r content end qs more q m true ((p.name, conn) ∷ []) w reader at_end fits
            hint fresh)))
      caught
