-- ===== src/Process/Pools.antt =====
-- What a submission of the program does to the pools, with other threads in between: no more than a
-- sequence of uses.
use py_obscura_proto.Base.{
  Option, ℕ, ℤ, String, ◌<◌, ◌≤◌, ◌≡◌, refl, sym, ◌∙◌, inl, inr, Option-cases, arith, ap,
}
use py_obscura_proto.Runtime.{
  World, Value, Call, Executors, Task, operation, fetch, update, ok, raised, Result, Exc,
}
use py_obscura_proto.Executor.{
  get_executor, get_request_executor, shutdown_executors, enqueue, submit, run_in_stream_executor,
  on_pool, on_default_thread,
}
use py_obscura_proto.Executor.Separation.{
  Use, Inv, gets_stream, gets_request, shuts, submits, begins, completes,
}
use py_obscura_proto.Response.{await_cpp_future, future_ident}
use py_obscura_proto.Process.{Uses, unused, used, OnPools}

Uses-trans : {x y z : Executors} → Uses x y → Uses y z → Uses x z
Uses-trans a (unused e) = rw e a
Uses-trans a (used b u) = used (Uses-trans a b) u

-- Pools are never forgotten.
Use-next : {x y : Executors} → Use x y → x.next_pool ≤ y.next_pool
unfolding get_executor get_request_executor shutdown_executors
Use-next (gets_stream e) = ground arith
Use-next (gets_request e) = ground arith
Use-next (shuts e) = ground arith
Use-next (submits p t q made h e) = ground arith
Use-next (begins p q made h e) = ground arith
Use-next (completes p i q made h e) = ground arith

Uses-next : {x y : Executors} → Uses x y → x.next_pool ≤ y.next_pool
Uses-next (unused e) = ground arith
Uses-next (used past u) = omega (arith, Uses-next past, Use-next u)

-- `u` is `w` after uses of the pools.
abbrev pub AfterUses : World → World → Type 0
AfterUses w u = (x : Executors) × Uses w.executors x × (u ≡ record w { executors = x })

AfterUses-trans : {w v u : World} → AfterUses w v → AfterUses v u → AfterUses w u
AfterUses-trans (x, a, e) (y, b, f) = (
  y,
  Uses-trans a (rw (sym (ap (λ (s : World). s.executors) e)) b),
  f ∙ ap (λ (s : World). record s { executors = y }) e,
)

submit-AfterUses :
    (p : ℕ) (t : Task) (w : World) → p < w.executors.next_pool → AfterUses w (submit p t w).1
unfolding submit
submit-AfterUses p t w made = elim (Option-cases (enqueue t (w.executors.pools p))) [
  | inl e ↦ (w.executors, unused refl, ground arith)
  | inr (q, e) ↦
      let x = record w.executors { pools = update w.executors.pools p q } in
      (x, used (unused refl) (submits p t q made e refl), ground arith)
]

-- A pool is got, other threads use the pools, and a task is submitted to it.
got_and_submitted :
    (meanwhile : World → World) (p : ℕ) (t : Task) (w : World) (x : Executors)
    → OnPools meanwhile
    → Use w.executors x
    → p < x.next_pool
    → AfterUses w (submit p t (meanwhile (record w { executors = x }))).1
got_and_submitted meanwhile p t w x on_pools got made =
    let v = record w { executors = x } in
    let (y, uses, e) = on_pools v in
    let still : p < (meanwhile v).executors.next_pool = ground (arith, Uses-next uses) in
    AfterUses-trans (x, used (unused refl) got, refl)
      (AfterUses-trans (y, uses, e) (submit-AfterUses p t (meanwhile v) still))

stream-made : (x : Executors) → Inv x → (get_executor x).1 < (get_executor x).0.next_pool
unfolding get_executor
stream-made x inv = elim (Option-cases x.stream_executor) [
  | inl e ↦ ground arith
  | inr (p, e) ↦ ground (arith, inv.valid.stream_known p e)
]

request-made :
    (x : Executors) → Inv x → (get_request_executor x).1 < (get_request_executor x).0.next_pool
unfolding get_request_executor
request-made x inv = elim (Option-cases x.request_executor) [
  | inl e ↦ ground arith
  | inr (p, e) ↦ ground (arith, inv.valid.request_known p e)
]

-- Both outcomes of the submission leave the world that it left.
placed-AfterUses :
    (w : World) {A B : Type 0} (ran : Result A × World) (placed : A → B) (refused : Exc → B)
    → AfterUses w ran.1
    → AfterUses w
        (elim ran.0 as (λ _. Result B × World) [
          | ok a ↦ (ok (placed a), ran.1)
          | raised e ↦ (ok (refused e), ran.1)
        ]).1
placed-AfterUses w (ok a, u) placed refused uses = uses
placed-AfterUses w (raised e, u) placed refused uses = uses

module _ (meanwhile : World → World) (on_pools : OnPools meanwhile) (w : World)
    (inv : Inv w.executors) where
  pub run-AfterUses : (op : Call) → AfterUses w (run_in_stream_executor meanwhile op w).1
  unfolding run_in_stream_executor
  run-AfterUses op =
      let (x, p) = get_executor w.executors in
      let ran = submit p (operation op) (meanwhile (record w { executors = x })) in
      placed-AfterUses w ran (λ _. on_pool p) (λ _. on_default_thread op)
        (got_and_submitted meanwhile p (operation op) w x on_pools (gets_stream refl)
          (stream-made w.executors inv))

  pub await-AfterUses :
      (future : Value) (timeout : Option ℤ) (what : String)
      → AfterUses w (await_cpp_future meanwhile future timeout what w).1
  unfolding await_cpp_future
  await-AfterUses future timeout what =
      let (x, p) = get_request_executor w.executors in
      got_and_submitted meanwhile p (fetch (future_ident future)) w x on_pools (gets_request refl)
        (request-made w.executors inv)
