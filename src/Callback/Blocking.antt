-- ===== src/Callback/Blocking.antt =====
-- What a blocking method is to do, for a thread that is inside a callback or not.
use py_obscura_proto.Base.{
  ◌≡◌, String, Bool, true, false, List, ◌∷◌, if◌then◌else◌, arith, inl, inr,
}
use py_obscura_proto.Runtime.{
  World, Exec, async_with, Result-cases, Call, Result, ok, raised, Value, logic_error, text,
}

-- Its calls of the bindings, newest first.
abbrev pub blocking_calls : Bool → Call → List Call → List Call
blocking_calls inside c cs = if inside then cs else c ∷ cs

-- Its result, from the message of the guard and from what it returns where it may block.
abbrev pub blocking_result {ℓ} : {A : Type ℓ} → Bool → String → Result A → Result A
blocking_result inside message r = if inside then raised (logic_error (text message)) else r

-- The end of a method that calls the bindings and returns `a`.
abbrev pub ended {ℓ} : {A : Type ℓ} → A → Result Value → Result A
ended a (ok v) = ok a
ended a (raised e) = raised e

abbrev pub sync_message : String
sync_message = "sync_request cannot be called from a callback/IO thread"

-- How an `async with` statement ends when the block ended with `r` and the blocking call with `s`.
abbrev pub ended_with : Result (Unit {0}) → Result Value → Result (Unit {0})
ended_with r (ok v) = r
ended_with r (raised e) = raised e

module _ {A : Type 0} (enter : Exec A) (exit : Exec Bool) (block : A → Exec (Unit {0})) where
  -- `async with` whose `__aexit__` is a blocking method that suppresses nothing.
  pub async_with-blocking :
      (inside : Bool) (message : String) (s : Result Value) (a : A) (w v : World)
      → enter w ≡ (ok a, v)
      → let (r, u) = block a v in
        (exit u).0 ≡ blocking_result inside message (ended false s)
        → let (r', u') = async_with enter exit block w in
          (r' ≡ blocking_result inside message (ended_with r s)) × (u' ≡ (exit u).1)
  async_with-blocking true message s a w v e h = ground arith
  async_with-blocking false message (ok x) a w v e h = elim (Result-cases (block a v).0) [
    | inl (y, q) ↦ ground arith
    | inr (y, q) ↦ ground arith
  ]
  async_with-blocking false message (raised x) a w v e h = ground arith
