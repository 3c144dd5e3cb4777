-- ===== src/Unpack/Reads.antt =====
-- The loop that reads one value for each parameter: which reads it makes, in which order, and which
-- keywords it binds.
use py_obscura_proto.Base.{
  ◌≡◌, refl, sym, ap, ◌∙◌, String, str_eq, Bool, true, false, ◌||◌, ◌&&◌, not, ◌≢◌, none, some,
  List, [], ◌∷◌, ◌++◌, arith, eq_iff, inl, inr,
}
use mathlib.Core.List.{append_assoc, append-nil}
use py_obscura_proto.Runtime.{
  World, Env, Result-cases, ok, Value, Call, Annotation, payload_reader, str, Param, read,
}
use py_obscura_proto.Unpack.{Keywords, type_map, has_key, missing, read_hint, read_params}

abbrev pub All {ℓ κ} : {A : Type ℓ} → (A → Type κ) → List A → Type κ
All P [] = Unit
All P (x ∷ xs) = P x × All P xs

abbrev pub keys : Keywords → List String
keys [] = []
keys ((k, _) ∷ kw) = k ∷ keys kw

abbrev pub names : List Param → List String
names [] = []
names (p ∷ ps) = p.name ∷ names ps

keys-append : (kw lw : Keywords) → keys (kw ++ lw) ≡ keys kw ++ keys lw
keys-append [] lw = refl
keys-append ((k, _) ∷ kw) lw = ap (λ l. k ∷ l) (keys-append kw lw)

-- The calls of the bindings after the hints of `ps` are read in order, newest first.
abbrev pub hint_calls : Bool → Annotation → Value → List Call → List Call
hint_calls true payload_reader reader cs = cs
hint_calls _ annotation reader cs = elim (type_map annotation) [
  | some method ↦ read method reader ∷ cs
  | none ↦ cs
]

abbrev pub calls_after : Bool → Value → List Param → List Call → List Call
calls_after takes_reader reader [] cs = cs
calls_after takes_reader reader (p ∷ ps) cs =
    calls_after takes_reader reader ps (hint_calls takes_reader p.annotation reader cs)

module _ (env : Env) (reader : Value) where
  calls-read_hint :
      (takes_reader : Bool) (a : Annotation) (name : String) (w : World)
      → (read_hint env takes_reader a name reader w).1.calls
        ≡ hint_calls takes_reader a reader w.calls
  calls-read_hint true payload_reader name w = refl
  calls-read_hint true _ name w = refl
  calls-read_hint false str name w = refl
  calls-read_hint false _ name w = refl

  module _ (takes_reader : Bool) where
    -- When the loop succeeds, it has made one read for each parameter, in the order of the signature
    -- and by the method of its hint, and the new keywords are the names of the parameters in order.
    pub read_params_lem :
        (ps : List Param) (kw : Keywords) (w : World) {kw' : Keywords} {w' : World}
        → read_params env takes_reader reader ps kw w ≡ (ok kw', w')
        → (keys kw' ≡ keys kw ++ names ps) × (w'.calls ≡ calls_after takes_reader reader ps w.calls)
    unfolding read_params
    read_params_lem [] kw w h = ground (arith, append-nil (keys kw))
    read_params_lem (p ∷ ps) kw w {kw'} {w'} h =
        let (r, u) = read_hint env takes_reader p.annotation p.name reader w in
        elim (Result-cases r) [
          | inr (e, q) ↦ absurd (ground arith)
          | inl (v, q) ↦
              let (ks, cs) =
                read_params_lem ps (kw ++ (p.name, v) ∷ []) u {kw' = kw'} {w' = w'}
                  (ground arith) in
              (
                ks
                    ∙ ap (λ l. l ++ names ps) (keys-append kw ((p.name, v) ∷ []))
                    ∙ append_assoc (keys kw) (p.name ∷ []) (names ps),
                cs
                    ∙ ap (calls_after takes_reader reader ps)
                        (calls-read_hint takes_reader p.annotation p.name w),
              )
        ]

abbrev pub has_name : String → List String → Bool
has_name k [] = false
has_name k (j ∷ js) = str_eq k j || has_name k js

pub has_key-eq : (k : String) (kw : Keywords) → has_key k kw ≡ has_name k (keys kw)
unfolding has_key
has_key-eq k [] = refl
has_key-eq k ((j, v) ∷ kw) = ap (λ b. str_eq k j || b) (has_key-eq k kw)

has_name-middle : (k : String) (js ks : List String) → has_name k (js ++ k ∷ ks) ≡ true
has_name-middle k [] ks = ground (arith, eq_iff k k)
has_name-middle k (j ∷ js) ks = ground (arith, has_name-middle k js ks)

-- The parameters of a list are all bound if their names stand last among the keys.
names_bound :
    (js : List String) (ps : List Param) (kw : Keywords)
    → keys kw ≡ js ++ names ps
    → All (λ p. has_key p.name kw ≡ true) ps
names_bound js [] kw e = tt
names_bound js (p ∷ ps) kw e = (
  has_key-eq p.name kw ∙ ap (has_name p.name) e ∙ has_name-middle p.name js (names ps),
  names_bound (js ++ p.name ∷ []) ps kw (e ∙ sym (append_assoc js (p.name ∷ []) (names ps))),
)

missing-eq_none :
    (ps : List Param) (kw : Keywords)
    → All (λ p. has_key p.name kw ≡ true) ps
    → missing ps kw ≡ none
unfolding missing
missing-eq_none [] kw h = refl
missing-eq_none (p ∷ ps) kw h = ground (arith, missing-eq_none ps kw h.1)

-- A call with the names of all parameters, in any case behind other keys, leaves none open.
pub missing-names :
    (js : List String) (ps : List Param) (kw : Keywords)
    → keys kw ≡ js ++ names ps
    → missing ps kw ≡ none
missing-names js ps kw e = missing-eq_none ps kw (names_bound js ps kw e)

-- A parameter that must be given and is not.
abbrev pub requires : String → List Param → Bool
requires k [] = false
requires k (p ∷ ps) = (str_eq k p.name && not p.has_default) || requires k ps

pub missing-ne_none :
    (k : String) (ps : List Param) (kw : Keywords)
    → requires k ps ≡ true
    → has_key k kw ≡ false
    → missing ps kw ≢ none
unfolding missing
missing-ne_none k [] kw r h = ground arith
missing-ne_none k (p ∷ ps) kw r h = ground (arith, eq_iff k p.name, missing-ne_none k ps kw)
