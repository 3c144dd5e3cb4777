-- ===== src/Unpack/Keeping.antt =====
-- What user functions and calls of the bindings keep, the unpacking wrappers keep.
use py_obscura_proto.Base.{ℕ, refl, Bool, true, false, String, List, [], ◌∷◌, ◌++◌, arith}
use py_obscura_proto.Runtime.{
  World, Env, Result, Value, coroutine_value, payload_value, error_payload, Fn, Args, Param,
  Annotation, payload_reader, native_call, make_reader, read, ReadMethod, ◌>>=◌, Keeps, Keeps-bind,
  keeps_rules, Keeps-try_except, IsStable, Keeps-aside, Keeps-option, Keeps-outcome, Keeps-raise,
  raise, LogLine, type_error, unsupported_hint, missing_argument,
}
use py_obscura_proto.Unpack.{
  Keywords, Plan, Unpacked, keywords, failed, read_hint, read_params, argument, call_keywords,
  type_map, missing, unpack_payload, unpack_and_call, run_unpacking, check_response, unpack_request,
  answer_request, run_request_unpacking, hdl_keyword,
}

module _ {P : World → Type 0} {env : Env} (stable : IsStable P env) where
  pub Keeps-argument : (args : Args) (i : ℕ) → Keeps P (argument args i)
  Keeps-argument args i = Keeps-aside stable (argument args i) (λ w. ground arith)

  Keeps-check_response : (f : Fn) (v : Value) → Keeps P (check_response f v)
  unfolding check_response
  Keeps-check_response f (coroutine_value c) = search keeps_rules
  Keeps-check_response f (payload_value c) = search keeps_rules
  Keeps-check_response f (error_payload c) = search keeps_rules
  Keeps-check_response f _ = search keeps_rules

  Keeps-reader : (v : Value) → Keeps P (native_call env (make_reader v))
  Keeps-reader v = stable.native (make_reader v) refl

  Keeps-read : (m : ReadMethod) (v : Value) → Keeps P (native_call env (read m v))
  Keeps-read m v = stable.native (read m v) refl

  Keeps-read_hint :
      (takes_reader : Bool) (a : Annotation) (name : String) (reader : Value)
      → Keeps P (read_hint env takes_reader a name reader)
  Keeps-read_hint true payload_reader name reader = search keeps_rules
  Keeps-read_hint _ a name reader =
      Keeps-option (type_map a) (raise (type_error (unsupported_hint name)))
        (λ m. native_call env (read m reader)) (Keeps-raise _) (λ m. Keeps-read m reader)

  Keeps-read_params :
      (takes_reader : Bool) (reader : Value) (ps : List Param) (kw : Keywords)
      → Keeps P (read_params env takes_reader reader ps kw)
  unfolding read_params
  Keeps-read_params takes_reader reader [] kw = search keeps_rules
  Keeps-read_params takes_reader reader (p ∷ ps) kw = record {
    at = λ w h.
        let (r, u) = read_hint env takes_reader p.annotation p.name reader w in
        (Keeps-outcome r raise
            (λ v. read_params env takes_reader reader ps (kw ++ (p.name, v) ∷ [])) Keeps-raise
            (λ v. Keeps-read_params takes_reader reader ps (kw ++ (p.name, v) ∷ []))).at
          u ((Keeps-read_hint takes_reader p.annotation p.name reader).at w h);
  }

  Keeps-call_keywords : (f : Fn) (kw : Keywords) → Keeps P (call_keywords env f kw)
  unfolding call_keywords
  Keeps-call_keywords f kw =
      Keeps-option (missing (env.signature f) kw)
        (env.call f (record { positional = []; keywords = kw }))
        (λ name. raise (type_error (missing_argument name)))
        (stable.calls f (record { positional = []; keywords = kw })) (λ name. Keeps-raise _)

  -- A raise that is logged first.
  Keeps-logged :
      {A : Type 0} (r : Result A) (line : LogLine)
      → Keeps P (λ w. (r, record w { logged = line ∷ w.logged }))
  Keeps-logged r line =
      Keeps-aside stable (λ w. (r, record w { logged = line ∷ w.logged })) (λ w. ground arith)

  ruleset unpack_rules = (
    keeps_rules, Keeps-argument, Keeps-check_response, Keeps-reader, Keeps-read_params,
    Keeps-call_keywords, Keeps-logged,
  )

  Keeps-unpack_payload :
      (f : Fn) (packet : Value) (ps : List Param) (kw : Keywords)
      → Keeps P (unpack_payload env f packet ps kw)
  unfolding unpack_payload
  Keeps-unpack_payload f packet [] kw = search unpack_rules
  Keeps-unpack_payload f packet (p ∷ ps) kw =
      Keeps-bind (native_call env (make_reader packet)) _ (Keeps-reader packet) (λ reader.
        Keeps-try_except (read_params env false reader (p ∷ ps) kw) _
          (Keeps-read_params false reader (p ∷ ps) kw) (λ e. Keeps-logged _ _))

  Keeps-unpack_and_call :
      (f : Fn) (plan : Plan) (h packet : Value) → Keeps P (unpack_and_call env f plan h packet)
  unfolding unpack_and_call
  Keeps-unpack_and_call f plan h packet =
      let kw = hdl_keyword plan.hdl_param h in
      Keeps-option plan.payload_param
        (unpack_payload env f packet plan.unpack_params kw >>= call_keywords env f)
        (λ name. call_keywords env f (kw ++ (name, packet) ∷ []))
        (search (unpack_rules, Keeps-unpack_payload))
        (λ name. Keeps-call_keywords f (kw ++ (name, packet) ∷ []))

  pub Keeps-run_unpacking :
      (f : Fn) (receives_hdl : Bool) (args : Args) → Keeps P (run_unpacking env f receives_hdl args)
  unfolding run_unpacking
  Keeps-run_unpacking f true args = search (unpack_rules, Keeps-unpack_and_call)
  Keeps-run_unpacking f false args = search (unpack_rules, Keeps-unpack_and_call)

  Keeps-unpack_request :
      (f : Fn) (reader : Value) (ps : List Param) (kw : Keywords)
      → Keeps P (unpack_request env f reader ps kw)
  unfolding unpack_request
  Keeps-unpack_request f reader ps kw = search unpack_rules

  Keeps-answer_request : (f : Fn) (unpacked : Unpacked) → Keeps P (answer_request env f unpacked)
  unfolding answer_request
  Keeps-answer_request f (failed v) = search unpack_rules
  Keeps-answer_request f (keywords kw) = search unpack_rules

  pub Keeps-run_request_unpacking :
      (f : Fn) (receives_hdl : Bool) (args : Args)
      → Keeps P (run_request_unpacking env f receives_hdl args)
  unfolding run_request_unpacking
  Keeps-run_request_unpacking f true args =
      search (unpack_rules, Keeps-unpack_request, Keeps-answer_request)
  Keeps-run_request_unpacking f false args =
      search (unpack_rules, Keeps-unpack_request, Keeps-answer_request)
