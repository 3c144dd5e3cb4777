-- ===== src/Unpack/Unhinted.antt =====
-- A required parameter without a type hint is never bound.
use py_obscura_proto.Base.{
  ◌≡◌, ◌≢◌, ◌⊎◌, refl, sym, ap, ◌∙◌, String, str_eq, Bool, true, false, ◌||◌, Option, none, some,
  List, [], ◌∷◌, ◌++◌, arith, inl, inr, Option-cases,
}
use py_obscura_proto.Runtime.{
  World, Env, Exec, Result, Result-cases, ok, raised, continue, payload_reader, Value, Fn, Args,
  empty, connection_hdl, payload_type, Annotation, Param, native_call, make_reader, none_value,
}
use py_obscura_proto.Unpack.{
  Keywords, Plan, classify_param, classify_from, classify, has_key, missing, read_hint, read_params,
  nth, run_unpacking, unpack_and_call, unpack_payload, call_keywords, hdl_keyword,
}
use py_obscura_proto.Unpack.Reads.{
  All, keys, names, has_name, read_params_lem, requires, missing-ne_none, has_key-eq,
}

-- The same surroundings, but for what user functions do.
abbrev pub with_call : Env → (Fn → Args → Exec Value) → Env
with_call env other = record env { call = other }

-- The run raises, and the run with other user functions ends in the same way and state.
pub record IsRefusal (p q : Result Value × World) : Type 0 where
  pub raises : (v : Value) → p.0 ≢ ok v
  pub alike : q ≡ p

read_hint_alike :
    (env : Env) (other : Fn → Args → Exec Value) (takes_reader : Bool) (a : Annotation)
    (name : String) (reader : Value) (w : World)
    → read_hint (with_call env other) takes_reader a name reader w
      ≡ read_hint env takes_reader a name reader w
read_hint_alike env other true payload_reader name reader w = refl
read_hint_alike env other true _ name reader w = refl
read_hint_alike env other false _ name reader w = refl

read_params_alike :
    (env : Env) (other : Fn → Args → Exec Value) (takes_reader : Bool) (reader : Value)
    (ps : List Param) (kw : Keywords) (w : World)
    → read_params (with_call env other) takes_reader reader ps kw w
      ≡ read_params env takes_reader reader ps kw w
unfolding read_params
read_params_alike env other takes_reader reader [] kw w = refl
read_params_alike env other takes_reader reader (p ∷ ps) kw w =
    let hint = read_hint env takes_reader p.annotation p.name reader w in
    rw (read_hint_alike env other takes_reader p.annotation p.name reader w, read_params)
      (elim (Result-cases hint.0) [
        | inr (e, q) ↦ rw (q, read_params) refl
        | inl (v, q) ↦
            rw (q, read_params)
              (read_params_alike env other takes_reader reader ps (kw ++ (p.name, v) ∷ []) hint.1)
      ])

unpack_payload_alike :
    (env : Env) (other : Fn → Args → Exec Value) (handler : Fn) (packet : Value) (ps : List Param)
    (kw : Keywords) (w : World)
    → unpack_payload (with_call env other) handler packet ps kw w
      ≡ unpack_payload env handler packet ps kw w
unfolding unpack_payload
unpack_payload_alike env other handler packet [] kw w = refl
unpack_payload_alike env other handler packet (p ∷ ps) kw w =
    elim (Result-cases (env.reply w.calls (make_reader packet))) [
      | inr (e, q) ↦ rw (q) refl
      | inl (reader, q) ↦ rw (q) (
          rw
            (read_params_alike env other false reader (p ∷ ps) kw
              (native_call env (make_reader packet) w).1)
            refl)
    ]

-- What follows is refused wherever it is run, so that the sequence is.
bind_refused :
    {A : Type 0} (m : Result A × World) {f g : A → Exec Value}
    → ((a : A) (u : World) → m ≡ (ok a, u) → IsRefusal (f a u) (g a u))
    → IsRefusal (continue m.0 f m.1) (continue m.0 g m.1)
bind_refused (ok a, u) refuses = refuses a u refl
bind_refused (raised e, u) refuses = record { raises = λ v h. ground arith; alike = refl }

module _ (k : String) where
  -- Every parameter of this name lacks a type hint.
  abbrev pub Unhinted : List Param → Type 0
  Unhinted = All (λ p. (p.annotation ≡ empty) ⊎ (str_eq k p.name ≡ false))

  abbrev named : Option String → Bool
  named none = false
  named (some j) = str_eq k j

  -- Whether the plan binds the name.
  abbrev binds : Plan → Bool
  binds plan =
      named plan.hdl_param || named plan.payload_param || has_name k (names plan.unpack_params)

  has_name-snoc :
      (ps : List Param) (p : Param)
      → has_name k (names (ps ++ p ∷ [])) ≡ (has_name k (names ps) || str_eq k p.name)
  has_name-snoc [] p = ground arith
  has_name-snoc (q ∷ ps) p = ground (arith, has_name-snoc ps p)

  binds-classify_param :
      (p : Param) (a : Annotation) (plan : Plan)
      → (a ≡ empty) ⊎ (str_eq k p.name ≡ false)
      → binds plan ≡ false
      → binds (classify_param p a plan) ≡ false
  binds-classify_param p connection_hdl plan h b = ground arith
  binds-classify_param p payload_type plan h b = ground arith
  binds-classify_param p empty plan h b = b
  binds-classify_param p _ plan h b = ground (arith, has_name-snoc plan.unpack_params p)

  binds-classify_from :
      (ps : List Param) (plan : Plan)
      → Unhinted ps
      → binds plan ≡ false
      → binds (classify_from plan ps) ≡ false
  unfolding classify_from
  binds-classify_from [] plan h b = b
  binds-classify_from (p ∷ ps) plan (h, hs) b =
      binds-classify_from ps (classify_param p p.annotation plan) hs
        (binds-classify_param p p.annotation plan h b)

  has_name-append : (js ks : List String) → has_name k (js ++ ks) ≡ (has_name k js || has_name k ks)
  has_name-append [] ks = refl
  has_name-append (j ∷ js) ks = ground (arith, has_name-append js ks)

  module _ (env : Env) (other : Fn → Args → Exec Value) (handler : Fn) where
    unpack_payload-keys :
        (packet : Value) (ps : List Param) (kw : Keywords) (w : World) {kw' : Keywords} {w' : World}
        → unpack_payload env handler packet ps kw w ≡ (ok kw', w')
        → has_key k kw' ≡ (has_key k kw || has_name k (names ps))
    unfolding unpack_payload
    unpack_payload-keys packet [] kw w h = ground arith
    unpack_payload-keys packet (p ∷ ps) kw w {kw'} {w'} h =
        elim (Result-cases (env.reply w.calls (make_reader packet))) [
          | inr (e, q) ↦ absurd (ground arith)
          | inl (reader, q) ↦
              let u = (native_call env (make_reader packet) w).1 in
              elim (Result-cases (read_params env false reader (p ∷ ps) kw u).0) [
                | inr (e, x) ↦ absurd (ground arith)
                | inl (lw, x) ↦
                    has_key-eq k kw'
                    ∙ ap (has_name k)
                        (read_params_lem env reader false (p ∷ ps) kw u {kw' = kw'} {w' = w'}
                          (ground arith)).0
                    ∙ has_name-append (keys kw) (names (p ∷ ps))
                    ∙ ap (λ b. b || has_name k (names (p ∷ ps))) (sym (has_key-eq k kw))
              ]
        ]

    call_refused :
        (kw : Keywords) (w : World)
        → requires k (env.signature handler) ≡ true
        → has_key k kw ≡ false
        → IsRefusal
            (call_keywords env handler kw w)
            (call_keywords (with_call env other) handler kw w)
    unfolding call_keywords
    call_refused kw w r h = elim (Option-cases (missing (env.signature handler) kw)) [
      | inl q ↦ absurd (missing-ne_none k (env.signature handler) kw r h q)
      | inr (name, q) ↦ record { raises = λ v e. ground arith; alike = ground arith }
    ]

    -- `handler_kwargs` before the unpacking binds what the plan binds.
    has_key-hdl_keyword : (o : Option String) (h : Value) → has_key k (hdl_keyword o h) ≡ named o
    unfolding has_key
    has_key-hdl_keyword none h = refl
    has_key-hdl_keyword (some j) h = ground arith

    has_key-append :
        (kw : Keywords) (j : String) (v : Value)
        → has_key k (kw ++ (j, v) ∷ []) ≡ (has_key k kw || str_eq k j)
    unfolding has_key
    has_key-append [] j v = ground arith
    has_key-append ((i, u) ∷ kw) j v = ground (arith, has_key-append kw j v)

    unpack_and_call_refused :
        (plan : Plan) (h packet : Value) (w : World)
        → requires k (env.signature handler) ≡ true
        → binds plan ≡ false
        → IsRefusal
            (unpack_and_call env handler plan h packet w)
            (unpack_and_call (with_call env other) handler plan h packet w)
    unfolding unpack_and_call
    unpack_and_call_refused plan h packet w r b =
        let kw = hdl_keyword plan.hdl_param h in
        elim (Option-cases plan.payload_param) [
          | inr (j, q) ↦ rw (q) (
              call_refused (kw ++ (j, packet) ∷ []) w r
                (ground (arith, has_key-append kw j packet, has_key-hdl_keyword plan.hdl_param h)))
          | inl q ↦ rw (q) (
              rw (unpack_payload_alike env other handler packet plan.unpack_params kw w) (
                bind_refused (unpack_payload env handler packet plan.unpack_params kw w) (λ lw u e.
                  call_refused lw u r (
                    ground (
                      arith,
                      unpack_payload-keys packet plan.unpack_params kw w {kw' = lw} {w' = u} e,
                      has_key-hdl_keyword plan.hdl_param h,
                    )))))
        ]

    module _ (r : requires k (env.signature handler) ≡ true)
        (u : Unhinted (env.signature handler)) where
      classified : binds (classify (env.signature handler)) ≡ false
      unfolding classify
      classified = binds-classify_from (env.signature handler) _ u refl

      refused :
          (h packet : Value) (w : World)
          → let plan = classify (env.signature handler) in
            IsRefusal
              (unpack_and_call env handler plan h packet w)
              (unpack_and_call (with_call env other) handler plan h packet w)
      refused h packet w =
          unpack_and_call_refused (classify (env.signature handler)) h packet w r classified

      never_called :
          (receives_hdl : Bool) (vs : List Value) (kw : Keywords) (w : World)
          → let args : Args = record { positional = vs; keywords = kw } in
            IsRefusal
              (run_unpacking env handler receives_hdl args w)
              (run_unpacking (with_call env other) handler receives_hdl args w)
      unfolding run_unpacking nth
      never_called true [] kw w = record { raises = λ v e. ground arith; alike = refl }
      never_called true (a ∷ []) kw w = record { raises = λ v e. ground arith; alike = refl }
      never_called true (a ∷ b ∷ vs) kw w = refused a b w
      never_called false [] kw w = record { raises = λ v e. ground arith; alike = refl }
      never_called false (a ∷ vs) kw w = refused none_value a w

-- A payload handler with a required parameter `k` that has no type hint is never run: on a server or a
-- client, whatever the arguments and whatever the reader answers, the wrapper raises, and it ends in the
-- same way and in the same state whatever user functions would do.
pub Unhinted-never_called :
    (k : String) (env : Env) (other : Fn → Args → Exec Value) (handler : Fn) (receives_hdl : Bool)
    (args : Args) (w : World)
    → requires k (env.signature handler) ≡ true
    → Unhinted k (env.signature handler)
    → IsRefusal
        (run_unpacking env handler receives_hdl args w)
        (run_unpacking (with_call env other) handler receives_hdl args w)
Unhinted-never_called k env other handler receives_hdl args w r u =
    never_called k env other handler r u receives_hdl args.positional args.keywords w
