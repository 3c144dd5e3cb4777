-- ===== src/Response/Delivery.antt =====
-- A response that the waiter has is not lost on the way to the coroutine.
use py_obscura_proto.Base.{ℕ, ◌≡◌, ◌⊎◌, inl, inr, refl, String, Option, some, arith}
use py_obscura_proto.Runtime.{Result, Value}
use py_obscura_proto.Response.Await.{
  Waiter, working, posted, published, dead, Cell, pending, set, cancelled, invalid, awaiting,
  returned, Await, conclude, publishes, resumes, publish, Reach, Step, outcome, Reach-Inv,
}

Cell-cases :
    (c : Cell)
    → (c ≡ pending) ⊎ (c ≡ cancelled) ⊎ (c ≡ invalid) ⊎ ((r : Result Value) × (c ≡ set r))
Cell-cases pending = inl refl
Cell-cases cancelled = inr (inl refl)
Cell-cases invalid = inr (inr (inl refl))
Cell-cases (set r) = inr (inr (inr (r, refl)))

Waiter-outcome :
    (v : Waiter) {r : Result Value} → outcome v ≡ some r → (v ≡ posted r) ⊎ (v ≡ published r)
Waiter-outcome working h = ground arith
Waiter-outcome (posted q) h = ground arith
Waiter-outcome (published q) h = ground arith
Waiter-outcome dead h = ground arith

-- From a state to a later one.
pub data Later (timeout : Option ℕ) (what : String) (s : Await) : Await → Type 0 where
  now : Later timeout what s s
  after : {u v : Await} → Later timeout what s u → Step timeout what u v → Later timeout what s v

-- Some order of steps from `s` makes the coroutine return `r`.
abbrev pub CanReturn : Option ℕ → String → Await → Result Value → Type 0
CanReturn timeout what s r = (u : Await) × Later timeout what s u × (u.coroutine ≡ returned r)

module _ {timeout : Option ℕ} {what : String} {s u : Await} (later : Later timeout what s u) where
  from_set :
      (r : Result Value)
      → u.coroutine ≡ awaiting
      → u.cell ≡ set r
      → CanReturn timeout what s (conclude timeout what r)
  from_set r a c = (
    record u { coroutine = returned (conclude timeout what r) },
    after later (resumes r a c refl),
    refl,
  )

-- In any state that the three parties reach, while the coroutine waits, an outcome that the waiter has
-- can still reach it: some order of steps from this state on makes the coroutine return that outcome, as
-- `_await_cpp_future` concludes it.
pub response_deliverable :
    {timeout : Option ℕ} {what : String} {s : Await}
    → Reach timeout what s
    → s.coroutine ≡ awaiting
    → (r : Result Value) → outcome s.waiter ≡ some r
    → CanReturn timeout what s (conclude timeout what r)
unfolding publish
response_deliverable {s} reached a r h = elim (Waiter-outcome s.waiter h) [
  | inl p ↦ elim (Cell-cases s.cell) [
    | inl c ↦
        from_set
          (after now
            (publishes {u = record s { waiter = published r; cell = set r }} r p (ground arith)))
          r a refl
    | inr (inl c) ↦ absurd ((Reach-Inv reached).cancelled_after c a)
    | inr (inr (inl c)) ↦ absurd ((Reach-Inv reached).valid c)
    | inr (inr (inr (q, c))) ↦ absurd (ground (arith, (Reach-Inv reached).set_once q c))
  ]
  | inr p ↦ elim (Cell-cases s.cell) [
    | inl c ↦ absurd (ground (arith, (Reach-Inv reached).pending_before c))
    | inr (inl c) ↦ absurd ((Reach-Inv reached).cancelled_after c a)
    | inr (inr (inl c)) ↦ absurd ((Reach-Inv reached).valid c)
    | inr (inr (inr (q, c))) ↦ from_set now r a (ground (arith, (Reach-Inv reached).set_once q c))
  ]
]
