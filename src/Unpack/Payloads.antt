-- ===== src/Unpack/Payloads.antt =====
-- Payload handlers: which are accepted, when they are called and with what.
use mathlib.Core.List.{append_assoc, append-nil}
use py_obscura_proto.Base.{
  ◌≡◌, ◌↔◌, refl, sym, ap, ◌∙◌, Bool, true, false, ◌||◌, ◌&&◌, not, none, some, List, [], ◌∷◌, ◌++◌,
  arith,
}
use py_obscura_proto.Runtime.{
  World, Env, Result, ok, raised, Value, Fn, unpacking, Annotation, connection_hdl, payload_type,
  empty, Param, native_call, make_reader, type_error, hdl_on_client, mixed_unpacking,
}
use py_obscura_proto.Unpack.{
  Keywords, Plan, type_map, classify_param, classify_from, classify, is_some, is_empty, missing,
  read_params, create_unpacking_handler, run_unpacking, unpack_and_call, unpack_payload,
  call_keywords, nth,
}
use py_obscura_proto.Unpack.Reads.{All, keys, names, read_params_lem, missing-names}

-- Whether a handle, a `Payload`, or a hint to unpack stands in a signature.
abbrev pub is_hdl : Annotation → Bool
is_hdl connection_hdl = true
is_hdl _ = false

abbrev pub is_payload : Annotation → Bool
is_payload payload_type = true
is_payload _ = false

abbrev pub is_unpacked : Annotation → Bool
is_unpacked connection_hdl = false
is_unpacked payload_type = false
is_unpacked empty = false
is_unpacked _ = true

abbrev pub any_hint : (Annotation → Bool) → List Param → Bool
any_hint test [] = false
any_hint test (p ∷ ps) = test p.annotation || any_hint test ps

is_empty-append : (ps : List Param) (p : Param) → is_empty (ps ++ p ∷ []) ≡ false
is_empty-append [] p = refl
is_empty-append (_ ∷ ps) p = refl

-- One round of the loop, in terms of the three tests.
classify_param_lem :
    (p : Param) (a : Annotation) (plan : Plan)
    → let next = classify_param p a plan in
      (is_some next.hdl_param ≡ (is_hdl a || is_some plan.hdl_param))
      × (is_some next.payload_param ≡ (is_payload a || is_some plan.payload_param))
      × (is_empty next.unpack_params ≡ (not (is_unpacked a) && is_empty plan.unpack_params))
classify_param_lem p connection_hdl plan = (refl, refl, refl)
classify_param_lem p payload_type plan = (refl, refl, refl)
classify_param_lem p empty plan = (refl, refl, refl)
classify_param_lem p _ plan = (refl, refl, is_empty-append plan.unpack_params p)

classify_from_lem :
    (ps : List Param) (plan : Plan)
    → let last = classify_from plan ps in
      (is_some last.hdl_param ≡ (any_hint is_hdl ps || is_some plan.hdl_param))
      × (is_some last.payload_param ≡ (any_hint is_payload ps || is_some plan.payload_param))
      × (is_empty last.unpack_params
          ≡ (not (any_hint is_unpacked ps) && is_empty plan.unpack_params))
unfolding classify_from
classify_from_lem [] plan = (refl, refl, refl)
classify_from_lem (p ∷ ps) plan = ground (
  arith,
  classify_param_lem p p.annotation plan,
  classify_from_lem ps (classify_param p p.annotation plan),
)

-- A payload handler is accepted exactly if it has no handle on a client and does not have both a
-- `Payload` and a hint to unpack; registering it changes nothing.
pub create_unpacking_handler_accepts :
    (env : Env) (handler : Fn) (receives_hdl : Bool) (w : World)
    → let ps = env.signature handler in
      (create_unpacking_handler env handler receives_hdl w
        ≡ (ok (unpacking handler receives_hdl), w))
      ↔ (((any_hint is_hdl ps && not receives_hdl) ≡ false)
          × ((any_hint is_payload ps && any_hint is_unpacked ps) ≡ false))
unfolding create_unpacking_handler
create_unpacking_handler_accepts env handler receives_hdl w =
    let start : Plan = record { hdl_param = none; payload_param = none; unpack_params = [] } in
    ground (arith, classify_from_lem (env.signature handler) start)

-- The two rejections.
pub create_unpacking_handler-hdl :
    (env : Env) (handler : Fn) (w : World)
    → any_hint is_hdl (env.signature handler) ≡ true
    → create_unpacking_handler env handler false w
      ≡ (raised (type_error (hdl_on_client handler)), w)
unfolding create_unpacking_handler
create_unpacking_handler-hdl env handler w h =
    let start : Plan = record { hdl_param = none; payload_param = none; unpack_params = [] } in
    ground (arith, classify_from_lem (env.signature handler) start)

pub create_unpacking_handler-mixed :
    (env : Env) (handler : Fn) (w : World)
    → any_hint is_payload (env.signature handler) ≡ true
    → any_hint is_unpacked (env.signature handler) ≡ true
    → create_unpacking_handler env handler true w
      ≡ (raised (type_error (mixed_unpacking handler)), w)
unfolding create_unpacking_handler
create_unpacking_handler-mixed env handler w p u =
    let start : Plan = record { hdl_param = none; payload_param = none; unpack_params = [] } in
    ground (arith, classify_from_lem (env.signature handler) start)

-- Each parameter of the signature has a hint that is read from the payload.
abbrev pub AllReadable : List Param → Type 0
AllReadable = All (λ p. is_some (type_map p.annotation) ≡ true)

classify_param_readable :
    (p : Param) (a : Annotation) (plan : Plan)
    → is_some (type_map a) ≡ true
    → classify_param p a plan ≡ record plan { unpack_params = plan.unpack_params ++ p ∷ [] }
classify_param_readable p connection_hdl plan h = absurd (ground arith)
classify_param_readable p payload_type plan h = absurd (ground arith)
classify_param_readable p empty plan h = absurd (ground arith)
classify_param_readable p _ plan h = refl

classify_from_readable :
    (ps : List Param) (plan : Plan)
    → AllReadable ps
    → classify_from plan ps ≡ record plan { unpack_params = plan.unpack_params ++ ps }
unfolding classify_from
classify_from_readable [] plan h = ground (arith, append-nil plan.unpack_params)
classify_from_readable (p ∷ ps) plan (h, hs) = rw (classify_param_readable p p.annotation plan h) (
    classify_from_readable ps (record plan { unpack_params = plan.unpack_params ++ p ∷ [] }) hs
    ∙ ap (λ l. record plan { unpack_params = l }) (append_assoc plan.unpack_params (p ∷ []) ps))

module _ (env : Env) (handler : Fn) (p : Param) (ps : List Param) where
  -- The world and the result of reading `ps` from a new reader of `packet`.
  abbrev pub readings : Value → Value → Keywords → World → Result Keywords × World
  readings packet reader kw w =
      read_params env false reader ps kw (native_call env (make_reader packet) w).1

  unpack_payload_ok :
      (packet reader : Value) (qs : List Param) (kw : Keywords) (w : World) {kw' : Keywords}
      {w' : World}
      → is_empty qs ≡ false
      → env.reply w.calls (make_reader packet) ≡ ok reader
      → read_params env false reader qs kw (native_call env (make_reader packet) w).1 ≡ (ok kw', w')
      → unpack_payload env handler packet qs kw w ≡ (ok kw', w')
  unfolding unpack_payload
  unpack_payload_ok packet reader [] kw w none_left made done = cc
  unpack_payload_ok packet reader (q ∷ qs) kw w some_left made done = ground arith

  pub call_keywords_ok :
      (kw : Keywords) (w : World)
      → missing (env.signature handler) kw ≡ none
      → call_keywords env handler kw w
        ≡ env.call handler (record { positional = []; keywords = kw }) w
  unfolding call_keywords
  call_keywords_ok kw w h = rw (h, call_keywords)

  module _ (takes_hdl : p.annotation ≡ connection_hdl) (readable : AllReadable ps)
      (signed : env.signature handler ≡ p ∷ ps) where
    pub the_plan :
        classify (env.signature handler)
        ≡ record { hdl_param = some p.name; payload_param = none; unpack_params = ps }
    unfolding classify classify_from
    the_plan = rw (signed, takes_hdl) (classify_from_readable ps _ readable)

    -- A server handler whose first parameter is the handle and whose others, at least one, have readable
    -- hints: if the reader is made and every read succeeds, the handler is called once, by keywords
    -- only, with the handle and with the values read, under the names of its parameters in the order of
    -- the signature.
    pub handler_called :
        (packet conn reader : Value) (rest : List Value) (w : World) {kw : Keywords} {w' : World}
        → is_empty ps ≡ false
        → env.reply w.calls (make_reader packet) ≡ ok reader
        → readings packet reader ((p.name, conn) ∷ []) w ≡ (ok kw, w')
        → (run_unpacking env handler true
              (record { positional = conn ∷ packet ∷ rest; keywords = [] })
              w
            ≡ env.call handler (record { positional = []; keywords = kw }) w')
          × (keys kw ≡ names (env.signature handler))
    unfolding run_unpacking nth
    handler_called packet conn reader rest w {kw} {w'} some_params made done =
        let (ks, cs) = read_params_lem env reader false ps ((p.name, conn) ∷ []) _ done in
        let named : keys kw ≡ names (env.signature handler) = ks ∙ sym (ap names signed) in
        (
          rw the_plan (
              unfold unpack_and_call in
              rw (unpack_payload_ok packet reader ps ((p.name, conn) ∷ []) w some_params made done)
                (call_keywords_ok kw w' (missing-names [] (env.signature handler) kw named))),
          named,
        )
