-- ===== src/Unpack.antt =====
-- The wrappers that call a handler by its type hints (src/ObscuraProto/__init__.py,
-- `_create_unpacking_handler` and `_create_request_unpacking_handler`).
pub mod Reads
pub mod Payloads
pub mod Unhinted
pub mod Requests
pub mod Codec
pub mod Short
pub mod Keeping
pub mod Roundtrip
use py_obscura_proto.Base.{
  ℕ, zero, suc, String, str_eq, Bool, true, false, not, ◌&&◌, ◌||◌, Option, none, some, List, [],
  ◌∷◌, ◌++◌, if◌then◌else◌,
}
use py_obscura_proto.Runtime.{
  World, Env, Exec, Exc, Result, ok, raised, Value, none_value, payload_value, coroutine_value,
  error_payload, Fn, Args, Body, unpacking, request_unpacking, Annotation, connection_hdl,
  payload_type, payload_reader, str, int, uint, float, bool, bytes, empty, other, Param, ReadMethod,
  read_string, read_int, read_uint, read_float, read_bool, read_bytes, read, make_reader,
  native_call, type_error, index_error, hdl_on_client, mixed_unpacking, unsupported_hint,
  missing_argument, unpack_failed, not_a_payload, unpack_failed_log, request_unpack_failed_log,
  ◌>>=◌, ◌>>◌, pure, raise, modify, try_except,
}

abbrev pub Keywords : Type 0
Keywords = List (String × Value)

-- `type_map`
abbrev pub type_map : Annotation → Option ReadMethod
type_map str = some read_string
type_map int = some read_int
type_map uint = some read_uint
type_map float = some read_float
type_map bool = some read_bool
type_map bytes = some read_bytes
type_map _ = none

-- The locals `hdl_param`, `payload_param` and `unpack_params`; of the first two, the names.
pub record Plan : Type 0 where
  pub hdl_param : Option String
  pub payload_param : Option String
  pub unpack_params : List Param

-- One round of the loop over `params.values()`: of several handle parameters the last one stays.
abbrev pub classify_param : Param → Annotation → Plan → Plan
classify_param p connection_hdl plan = record plan { hdl_param = some p.name }
classify_param p payload_type plan = record plan { payload_param = some p.name }
classify_param p empty plan = plan
classify_param p _ plan = record plan { unpack_params = plan.unpack_params ++ p ∷ [] }

unfoldable pub classify_from : Plan → List Param → Plan
classify_from plan [] = plan
classify_from plan (p ∷ ps) = classify_from (classify_param p p.annotation plan) ps

unfoldable pub classify : List Param → Plan
unfolding classify_from
classify = classify_from (record { hdl_param = none; payload_param = none; unpack_params = [] })

abbrev pub is_some {ℓ} : {A : Type ℓ} → Option A → Bool
is_some none = false
is_some (some _) = true

abbrev pub is_empty {ℓ} : {A : Type ℓ} → List A → Bool
is_empty [] = true
is_empty (_ ∷ _) = false

-- `_create_unpacking_handler`, up to the wrapper that it returns.
unfoldable pub create_unpacking_handler : Env → Fn → Bool → Exec Body
unfolding classify
create_unpacking_handler env handler receives_hdl w =
    let plan = classify (env.signature handler) in
    if is_some plan.hdl_param && not receives_hdl
    then (raised (type_error (hdl_on_client handler)), w)
    else if is_some plan.payload_param && not (is_empty plan.unpack_params)
    then (raised (type_error (mixed_unpacking handler)), w)
    else (ok (unpacking handler receives_hdl), w)

-- `_create_request_unpacking_handler` checks nothing when it is called.
unfoldable pub create_request_unpacking_handler : Fn → Bool → Body
create_request_unpacking_handler handler receives_hdl = request_unpacking handler receives_hdl

unfoldable pub has_key : String → Keywords → Bool
has_key k [] = false
has_key k ((j, _) ∷ kw) = str_eq k j || has_key k kw

-- The first parameter without a default that a call by keywords leaves open.
unfoldable pub missing : List Param → Keywords → Option String
unfolding has_key
missing [] kw = none
missing (p ∷ ps) kw =
    let rest = missing ps kw in if p.has_default || has_key p.name kw then rest else some p.name

-- `handler(**handler_kwargs)`: Python refuses the call if a parameter is left open.
unfoldable pub call_keywords : Env → Fn → Keywords → Exec Value
unfolding missing
call_keywords env handler kw w = elim (missing (env.signature handler) kw) [
  | some name ↦ (raised (type_error (missing_argument name)), w)
  | none ↦ env.call handler (record { positional = []; keywords = kw }) w
]

-- One round of the unpacking loops. `takes_reader` is whether a `PayloadReader` hint is allowed.
abbrev pub read_hint : Env → Bool → Annotation → String → Value → Exec Value
read_hint env true payload_reader name reader w = (ok reader, w)
read_hint env _ annotation name reader w = elim (type_map annotation) [
  | some method ↦ native_call env (read method reader) w
  | none ↦ (raised (type_error (unsupported_hint name)), w)
]

unfoldable pub read_params : Env → Bool → Value → List Param → Keywords → Exec Keywords
read_params env takes_reader reader [] kw w = (ok kw, w)
read_params env takes_reader reader (p ∷ ps) kw w =
    let (r, w') = read_hint env takes_reader p.annotation p.name reader w in
    elim r [
      | raised e ↦ (raised e, w')
      | ok v ↦ read_params env takes_reader reader ps (kw ++ (p.name, v) ∷ []) w'
    ]

unfoldable pub nth : List Value → ℕ → Option Value
nth [] i = none
nth (v ∷ vs) zero = some v
nth (v ∷ vs) (suc i) = nth vs i

-- `args[0]` and `args[1]`
abbrev pub argument : Args → ℕ → Exec Value
argument args i w = elim (nth args.positional i) [
  | none ↦ (raised index_error, w)
  | some v ↦ (ok v, w)
]

abbrev pub hdl_keyword : Option String → Value → Keywords
hdl_keyword none h = []
hdl_keyword (some name) h = (name, h) ∷ []

-- The `try` block of the unpacking, with its handler.
unfoldable pub unpack_payload : Env → Fn → Value → List Param → Keywords → Exec Keywords
unfolding read_params
unpack_payload env handler packet [] kw w = (ok kw, w)
unpack_payload env handler packet (p ∷ ps) kw w =
    (do
      reader ← native_call env (make_reader packet)
      try_except (read_params env false reader (p ∷ ps) kw) (λ e u. (
        raised (type_error (unpack_failed (env.op_code packet) handler e)),
        record u { logged = unpack_failed_log handler e ∷ u.logged },
      )))
      w

-- The rest of `unpacking_wrapper`, once the arguments are read.
unfoldable pub unpack_and_call : Env → Fn → Plan → Value → Value → Exec Value
unfolding unpack_payload call_keywords
unpack_and_call env handler plan h packet w =
    let kw = hdl_keyword plan.hdl_param h in
    elim plan.payload_param [
      | some name ↦ call_keywords env handler (kw ++ (name, packet) ∷ []) w
      | none ↦
          (unpack_payload env handler packet plan.unpack_params kw >>= call_keywords env handler) w
    ]

-- `unpacking_wrapper(*args)`
unfoldable pub run_unpacking : Env → Fn → Bool → Args → Exec Value
unfolding unpack_and_call classify
run_unpacking env handler true args = do
  h ← argument args 0
  packet ← argument args 1
  unpack_and_call env handler (classify (env.signature handler)) h packet
run_unpacking env handler false args = do
  packet ← argument args 0
  unpack_and_call env handler (classify (env.signature handler)) none_value packet

-- The locals of `_create_request_unpacking_handler`: the handle counts only as the first parameter.
abbrev pub request_plan : Bool → List Param → Plan
request_plan false ps = record { hdl_param = none; payload_param = none; unpack_params = ps }
request_plan true [] = record { hdl_param = none; payload_param = none; unpack_params = [] }
request_plan true (p ∷ ps) = elim p.annotation [
  | connection_hdl ↦ record { hdl_param = some p.name; payload_param = none; unpack_params = ps }
  | _ ↦ record { hdl_param = none; payload_param = none; unpack_params = p ∷ ps }
]

-- The `isinstance` test and the one before it.
unfoldable pub check_response : Fn → Value → Exec Value
check_response handler (coroutine_value c) = pure (coroutine_value c)
check_response handler (payload_value p) = pure (payload_value p)
check_response handler (error_payload e) = pure (error_payload e)
check_response handler _ = raise (type_error (not_a_payload handler))

-- What the unpacking of a request ends with: the keywords, or the payload that is returned at once.
pub data Unpacked : Type 0 where
  keywords : Keywords → Unpacked
  failed : Value → Unpacked

unfoldable pub unpack_request : Env → Fn → Value → List Param → Keywords → Exec Unpacked
unfolding read_params
unpack_request env handler reader ps kw =
    try_except (do kw' ← read_params env true reader ps kw; pure (keywords kw'))
      (λ e u. (
        ok (failed (error_payload e)),
        record u { logged = request_unpack_failed_log handler e ∷ u.logged },
      ))

unfoldable pub answer_request : Env → Fn → Unpacked → Exec Value
unfolding call_keywords check_response
answer_request env handler (failed v) = pure v
answer_request env handler (keywords kw) = do
  response ← call_keywords env handler kw
  check_response handler response

-- `unpacking_request_wrapper(*args)`
unfoldable pub run_request_unpacking : Env → Fn → Bool → Args → Exec Value
unfolding unpack_request answer_request
run_request_unpacking env handler true args = do
  h ← argument args 0
  reader ← argument args 1
  let plan = request_plan true (env.signature handler)
  unpacked ← unpack_request env handler reader plan.unpack_params (hdl_keyword plan.hdl_param h)
  answer_request env handler unpacked
run_request_unpacking env handler false args = do
  reader ← argument args 0
  let plan = request_plan false (env.signature handler)
  unpacked ← unpack_request env handler reader plan.unpack_params []
  answer_request env handler unpacked
