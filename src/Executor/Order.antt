-- ===== src/Executor/Order.antt =====
-- The order in which the stream pool of the module runs operations, over every interleaving of the
-- functions that make, hand out and shut down pools, of submissions and of workers.
use mathlib.Core.List.{append-nil}
use py_obscura_proto.Base.{
  ℕ, ◌<◌, ◌≤◌, ◌≡◌, inl, inr, refl, some, List, [], ◌∷◌, ◌++◌, ◌==◌, Bool-cases, arith,
  if◌then◌else◌, ltb,
}
use py_obscura_proto.Runtime.{Executors, Pool, Task}
use py_obscura_proto.Executor.{
  get_executor, get_request_executor, shutdown_executors, shut_down, new_pool,
}
use py_obscura_proto.Executor.Fifo.{
  contents, contents-begin, contents-complete, contents-enqueue, max_workers-enqueue,
  max_workers-begin, max_workers-complete,
}
use py_obscura_proto.Executor.Separation.{
  gets_stream, gets_request, shuts, submits, begins, completes, Reached, imported, used,
  Reached-Inv,
}

-- The tasks submitted to pool `p` so far, oldest first.
unfoldable pub log : (p : ℕ) {x : Executors} → Reached x → List Task
log p (imported a b c) = []
log p (used r (submits o t q made h e)) = if o == p then log p r ++ t ∷ [] else log p r
log p (used r _) = log p r

contents-shut_down : (p : Pool) → contents (shut_down p) ≡ contents p
unfolding shut_down
contents-shut_down p = simp append-nil

-- A step that submits nothing: a pool that is there keeps its workers and what it has been given, and
-- one that is made is empty.
record Renews (x y : Executors) : Type 0 where
  kept : (p : ℕ) → p < x.next_pool → contents (y.pools p) ≡ contents (x.pools p)
  same : (p : ℕ) → p < x.next_pool → (y.pools p).max_workers ≡ (x.pools p).max_workers
  made : (p : ℕ) → x.next_pool ≤ p → p < y.next_pool → contents (y.pools p) ≡ []
  grows : x.next_pool ≤ y.next_pool

get_executor-Renews : (x : Executors) → Renews x (get_executor x).0
unfolding get_executor new_pool
get_executor-Renews x = record {
  kept = λ p h. ground arith;
  same = λ p h. ground arith;
  made = λ p h h'. ground arith;
  grows = ground arith;
}

get_request_executor-Renews : (x : Executors) → Renews x (get_request_executor x).0
unfolding get_request_executor new_pool
get_request_executor-Renews x = record {
  kept = λ p h. ground arith;
  same = λ p h. ground arith;
  made = λ p h h'. ground arith;
  grows = ground arith;
}

shutdown_executors-Renews : (x : Executors) → Renews x (shutdown_executors x)
unfolding shutdown_executors
shutdown_executors-Renews x = record {
  kept = λ p h. ground (arith, contents-shut_down (x.pools p));
  same = λ p h. ground arith;
  made = λ p h h'. ground arith;
  grows = ground arith;
}

-- What is submitted is submitted to a pool that is there.
log-fresh : {x : Executors} (p : ℕ) (r : Reached x) → x.next_pool ≤ p → log p r ≡ []
unfolding log
log-fresh p (imported a b c) h = refl
log-fresh p (used {x} r (gets_stream e)) h =
    log-fresh p r (ground (arith, (get_executor-Renews x).grows))
log-fresh p (used {x} r (gets_request e)) h =
    log-fresh p r (ground (arith, (get_request_executor-Renews x).grows))
log-fresh p (used {x} r (shuts e)) h =
    log-fresh p r (ground (arith, (shutdown_executors-Renews x).grows))
log-fresh p (used r (submits o t q made h' e)) h = ground (arith, log-fresh p r)
log-fresh p (used r (begins o q made h' e)) h = log-fresh p r (ground arith)
log-fresh p (used r (completes o i q made h' e)) h = log-fresh p r (ground arith)

-- A pool with one worker, of those made so far, keeps the order.
abbrev Ordered : ℕ → (x : Executors) → List Task → Type 0
Ordered p x ts = p < x.next_pool → (x.pools p).max_workers ≡ 1 → contents (x.pools p) ≡ ts

renewed-Ordered :
    {x y z : Executors} (p : ℕ) (r : Reached x)
    → Ordered p x (log p r)
    → Renews x y
    → z ≡ y
    → Ordered p z (log p r)
renewed-Ordered {x} {y} p r ordered renews e h one = elim (Bool-cases (ltb p x.next_pool)) [
  | inl old ↦ ground (arith, ordered, renews.kept p, renews.same p)
  | inr young ↦ ground (arith, renews.made p, log-fresh p r)
]

log-Ordered : {x : Executors} (p : ℕ) (r : Reached x) → Ordered p x (log p r)
unfolding log
log-Ordered p (imported a b c) h one = absurd (omega arith)
log-Ordered p (used {x} r (gets_stream e)) h one =
    renewed-Ordered p r (log-Ordered p r) (get_executor-Renews x) e h one
log-Ordered p (used {x} r (gets_request e)) h one =
    renewed-Ordered p r (log-Ordered p r) (get_request_executor-Renews x) e h one
log-Ordered p (used {x} r (shuts e)) h one =
    renewed-Ordered p r (log-Ordered p r) (shutdown_executors-Renews x) e h one
log-Ordered p (used {x} r (submits o t q made h e)) k one = ground (
  arith,
  log-Ordered p r,
  contents-enqueue t (x.pools o) q h,
  max_workers-enqueue t (x.pools o) q h,
)
log-Ordered p (used {x} r (begins o q made h e)) k one =
    ground
      (arith, log-Ordered p r, contents-begin (x.pools o) q h, max_workers-begin (x.pools o) q h)
log-Ordered p (used {x} r (completes o i q made h e)) k one = ground (
  arith,
  log-Ordered p r,
  contents-complete i (x.pools o) q,
  max_workers-complete i (x.pools o) q h,
  (Reached-Inv r).busy o made,
)

-- Whatever threads do with the pools since the import, what the present stream pool has finished, has
-- under way and has waiting is, in this order, exactly what was submitted to it: its operations end in the
-- order of their submission, and none is lost or run twice.
pub stream_fifo :
    {x : Executors} (p : ℕ) (r : Reached x)
    → x.stream_executor ≡ some p
    → contents (x.pools p) ≡ log p r
stream_fifo p r stream =
    let (made, single) = (Reached-Inv r).valid.stream_known p stream in log-Ordered p r made single
