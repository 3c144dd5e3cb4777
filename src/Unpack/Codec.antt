-- ===== src/Unpack/Codec.antt =====
-- A payload as the values that it was built from. The format is C++'s: it enters as what a reader answers.
use mathlib.Core.List.{append_assoc, append-nil}
use py_obscura_proto.Base.{
  ℕ, zero, suc, ◌≡◌, refl, sym, ap, ◌∙◌, String, Bool, true, false, Option, none, some, List, [],
  ◌∷◌, ◌++◌, arith, length, ◌==◌, if◌then◌else◌,
}
use py_obscura_proto.Runtime.{
  World, Env, Result, ok, Value, native_value, Call, read, ReadMethod, Annotation, payload_reader,
  str, Param, native_call,
}
use py_obscura_proto.Unpack.{Keywords, type_map, read_hint, read_params}
use py_obscura_proto.Unpack.Reads.{keys, names}
use py_obscura_proto.Unpack.Payloads.{AllReadable}

-- What a payload holds: a value for each parameter, with the method that reads it.
abbrev pub Content : Type 0
Content = List (ReadMethod × Value)

abbrev pub get_elem? {ℓ} : {A : Type ℓ} → List A → ℕ → Option A
get_elem? [] i = none
get_elem? (x ∷ xs) zero = some x
get_elem? (x ∷ xs) (suc i) = get_elem? xs i

-- How often reader `r` was read.
abbrev pub reads : ℕ → List Call → ℕ
reads r [] = 0
reads r (read m (native_value s) ∷ cs) = let n = reads r cs in if r == s then suc n else n
reads r (_ ∷ cs) = reads r cs

-- `r` is a reader of this content: the n-th read, by the method with which the n-th value was added,
-- gives that value.
pub record IsReader (env : Env) (r : ℕ) (content : Content) : Type 0 where
  pub answers :
      (cs : List Call) (m : ReadMethod) (v : Value)
      → get_elem? content (reads r cs) ≡ some (m, v)
      → env.reply cs (read m (native_value r)) ≡ ok v

-- The content was built for these parameters: as many values, each with the method of its hint.
abbrev pub Fits : List Param → Content → Type 0
Fits [] [] = Unit
Fits (p ∷ ps) ((m, v) ∷ content) = (type_map p.annotation ≡ some m) × Fits ps content
Fits _ _ = ⊥

-- Each parameter bound to its value.
abbrev pub bindings : List Param → Content → Keywords
bindings (p ∷ ps) ((m, v) ∷ content) = (p.name, v) ∷ bindings ps content
bindings _ _ = []

-- The calls of the bindings after the content was read once, newest first.
abbrev pub read_calls : ℕ → Content → List Call → List Call
read_calls r [] cs = cs
read_calls r ((m, v) ∷ content) cs = read_calls r content (read m (native_value r) ∷ cs)

pub Fits-AllReadable : (ps : List Param) (content : Content) → Fits ps content → AllReadable ps
Fits-AllReadable [] [] f = tt
Fits-AllReadable (p ∷ ps) ((m, v) ∷ content) f = (ground arith, Fits-AllReadable ps content f.1)
Fits-AllReadable [] (_ ∷ _) f = absurd f
Fits-AllReadable (p ∷ ps) [] f = absurd f

pub keys-bindings :
    (ps : List Param) (content : Content) → Fits ps content → keys (bindings ps content) ≡ names ps
keys-bindings [] [] f = refl
keys-bindings (p ∷ ps) ((m, v) ∷ content) f = ap (λ l. p.name ∷ l) (keys-bindings ps content f.1)
keys-bindings [] (_ ∷ _) f = absurd f
keys-bindings (p ∷ ps) [] f = absurd f

get_elem?-middle :
    (before after : Content) (x : ReadMethod × Value)
    → get_elem? (before ++ x ∷ after) (length before) ≡ some x
get_elem?-middle [] after x = refl
get_elem?-middle (y ∷ before) after x = get_elem?-middle before after x

length-snoc :
    (before : Content) (x : ReadMethod × Value) → length (before ++ x ∷ []) ≡ suc (length before)
length-snoc [] x = refl
length-snoc (y ∷ before) x = ap suc (length-snoc before x)

pub read_hint-readable :
    (env : Env) (takes_reader : Bool) (a : Annotation) (m : ReadMethod) (name : String)
    (reader : Value) (w : World)
    → type_map a ≡ some m
    → read_hint env takes_reader a name reader w ≡ native_call env (read m reader) w
read_hint-readable env true payload_reader m name reader w h = absurd (ground arith)
read_hint-readable env true _ m name reader w h = ground arith
read_hint-readable env false str m name reader w h = ground arith
read_hint-readable env false _ m name reader w h = ground arith

pub read_params-read :
    (env : Env) (takes_reader : Bool) (reader v : Value) (p : Param) (ps : List Param)
    (kw : Keywords) (w : World) {u : World}
    → read_hint env takes_reader p.annotation p.name reader w ≡ (ok v, u)
    → read_params env takes_reader reader (p ∷ ps) kw w
      ≡ read_params env takes_reader reader ps (kw ++ (p.name, v) ∷ []) u
unfolding read_params
read_params-read env takes_reader reader v p ps kw w h =
    rw (h, read_params)
      (ap
        (λ (q : Result Value × World).
          read_params env takes_reader reader ps (kw ++ (p.name, v) ∷ []) q.1)
        h)

module _ (env : Env) (takes_reader : Bool) (r : ℕ) (content : Content)
    (reader : IsReader env r content) where
  -- Reading the rest of the content by the rest of the hints binds each parameter to its value.
  pub read_rest :
      (ps : List Param) (before rest : Content) (kw : Keywords) (w : World)
      → content ≡ before ++ rest
      → reads r w.calls ≡ length before
      → Fits ps rest
      → read_params env takes_reader (native_value r) ps kw w
        ≡ (ok (kw ++ bindings ps rest), record w { calls = read_calls r rest w.calls })
  unfolding read_params
  read_rest [] before [] kw w e n f = rw append-nil refl
  read_rest [] before (_ ∷ _) kw w e n f = absurd f
  read_rest (p ∷ ps) before [] kw w e n f = absurd f
  read_rest (p ∷ ps) before ((m, v) ∷ rest) kw w e n f =
      let u = record w { calls = read m (native_value r) ∷ w.calls } in
      let answer : env.reply w.calls (read m (native_value r)) ≡ ok v =
        reader.answers w.calls m v (rw (e, n) (get_elem?-middle before rest (m, v))) in
      let later =
        read_rest ps (before ++ (m, v) ∷ []) rest (kw ++ (p.name, v) ∷ []) u
          (e ∙ sym (append_assoc before ((m, v) ∷ []) rest))
          (ground (arith, length-snoc before (m, v))) f.1 in
      let hint : read_hint env takes_reader p.annotation p.name (native_value r) w ≡ (ok v, u) =
        read_hint-readable env takes_reader p.annotation m p.name (native_value r) w f.0
        ∙ rw answer in
      read_params-read env takes_reader (native_value r) v p ps kw w hint
      ∙ later
      ∙ ap (λ l. (ok l, record u { calls = read_calls r rest u.calls }))
          (append_assoc kw ((p.name, v) ∷ []) (bindings ps rest))
