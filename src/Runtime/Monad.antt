-- ===== src/Runtime/Monad.antt =====
-- Statements as functions from the state: what was written before a raise stays written.
use py_obscura_proto.Base.{
  [], ℕ, ◌≡◌, refl, Bool, true, false, ◌∷◌, ◌==◌, if◌then◌else◌, inl, inr, ◌⊎◌,
}
use py_obscura_proto.Runtime.Data.{
  Exc, is_exception, Result, ok, raised, Value, none_value, bool_value, object_value, bytes_value,
  list_value,
}
use py_obscura_proto.Runtime.Calls.{Call}
use py_obscura_proto.Runtime.State.{World, Env}

abbrev pub Exec {ℓ} : Type ℓ → Type ℓ
Exec A = World → Result A × World

abbrev pub pure {ℓ} : {A : Type ℓ} → A → Exec A
pure a w = (ok a, w)

abbrev pub raise {ℓ} : {A : Type ℓ} → Exc → Exec A
raise e w = (raised e, w)

abbrev pub modify : (World → World) → Exec (Unit {0})
modify f w = (ok tt, f w)

module _ {ℓ κ} {A : Type ℓ} {B : Type κ} where
  abbrev pub continue : Result A → (A → Exec B) → Exec B
  continue (ok a) f w = f a w
  continue (raised e) f w = (raised e, w)

  infixl 5 ◌>>=◌
  abbrev pub ◌>>=◌ : Exec A → (A → Exec B) → Exec B
  ◌>>=◌ m f w = let (r, w') = m w in continue r f w'

infixl 5 ◌>>◌
abbrev pub ◌>>◌ {ℓ κ} : {A : Type ℓ} {B : Type κ} → Exec A → Exec B → Exec B
m >> k = m >>= λ _. k

module _ {ℓ} {A : Type ℓ} where
  abbrev pub handle_with : (Exc → Exec A) → Result A → Exec A
  handle_with handler (ok a) w = (ok a, w)
  handle_with handler (raised e) w = if is_exception e then handler e w else (raised e, w)

  -- `try: m` with `except Exception as e: handler(e)`.
  abbrev pub try_except : Exec A → (Exc → Exec A) → Exec A
  try_except m handler w = let (r, w') = m w in handle_with handler r w'

  abbrev pub conclude : Result A → Result (Unit {0}) → Result A
  conclude r (ok _) = r
  conclude r (raised e) = raised e

  -- `try: m` with `finally: cleanup`: an exception of `cleanup` replaces the result.
  abbrev pub try_finally : Exec A → Exec (Unit {0}) → Exec A
  try_finally m cleanup w = let (r, w') = m w in let (c, w'') = cleanup w' in (conclude r c, w'')

-- An exception that `__aexit__` suppresses ends with the statement.
abbrev pub suppress : Bool → Result (Unit {0}) → Result (Unit {0})
suppress suppressed (ok u) = ok u
suppress true (raised e) = ok tt
suppress false (raised e) = raised e

-- `async with`: `exit` is run on every way out of the block, and not if `enter` raises.
abbrev pub async_with {ℓ} :
    {A : Type ℓ} → Exec A → Exec Bool → (A → Exec (Unit {0})) → Exec (Unit {0})
async_with enter exit block = do
  a ← enter
  λ w. let (r, u) = block a w in (exit >>= λ suppressed v. (suppress suppressed r, v)) u

-- `f(i) := a`
abbrev pub update {ℓ} : {A : Type ℓ} → (ℕ → A) → ℕ → A → ℕ → A
update f i a j = if i == j then a else f j

-- A call of the bindings.
abbrev pub native_call : Env → Call → Exec Value
native_call env c w = (env.reply w.calls c, record w { calls = c ∷ w.calls })

-- `bool(v)`
abbrev pub truth : Env → Value → Bool
truth env none_value = false
truth env (bool_value b) = b
truth env (bytes_value []) = false
truth env (list_value []) = false
truth env (object_value n) = env.object_truth n
truth env _ = true

pub Result-cases {ℓ} :
    {A : Type ℓ} (r : Result A) → ((a : A) × (r ≡ ok a)) ⊎ ((e : Exc) × (r ≡ raised e))
Result-cases (ok a) = inl (a, refl)
Result-cases (raised e) = inr (e, refl)
