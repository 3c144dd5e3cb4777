-- ===== src/Executor/Separation.antt =====
-- The two pools of the module side by side, over every interleaving of the functions that make, hand out
-- and shut down pools, of submissions and of workers.
use py_obscura_proto.Base.{ℕ, ◌<◌, ◌≤◌, ◌≡◌, ◌≢◌, none, some, List, [], ◌∷◌, length, arith}
use py_obscura_proto.Runtime.{Pool, Executors, Task, update}
use py_obscura_proto.Executor.{
  request_executor_max_workers, enqueue, begin, complete, get_executor, get_request_executor,
  shutdown_executors,
}
use py_obscura_proto.Executor.Fifo.{
  begin-IsBusy, complete-IsBusy, max_workers-begin, max_workers-complete,
}
use py_obscura_proto.Executor.Lifecycle.{IsValid, executors-IsValid}

-- A step of any thread, on the variables or on a pool that was made.
pub data Use (x : Executors) : Executors → Type 0 where
  gets_stream : {y : Executors} → y ≡ (get_executor x).0 → Use x y
  gets_request : {y : Executors} → y ≡ (get_request_executor x).0 → Use x y
  shuts : {y : Executors} → y ≡ shutdown_executors x → Use x y
  submits :
      {y : Executors} (p : ℕ) (t : Task) (q : Pool)
      → p < x.next_pool
      → enqueue t (x.pools p) ≡ some q
      → y ≡ record x { pools = update x.pools p q }
      → Use x y
  begins :
      {y : Executors} (p : ℕ) (q : Pool)
      → p < x.next_pool
      → begin (x.pools p) ≡ some q
      → y ≡ record x { pools = update x.pools p q }
      → Use x y
  completes :
      {y : Executors} (p i : ℕ) (q : Pool)
      → p < x.next_pool
      → complete i (x.pools p) ≡ some q
      → y ≡ record x { pools = update x.pools p q }
      → Use x y

-- From the import of the module on.
pub data Reached : Executors → Type 0 where
  imported :
      {x : Executors}
      → x.stream_executor ≡ none
      → x.request_executor ≡ none
      → x.next_pool ≡ 0
      → Reached x
  used : {x y : Executors} → Reached x → Use x y → Reached y

pub record Inv (x : Executors) : Type 0 where
  pub valid : IsValid x
  pub apart : (p : ℕ) → x.stream_executor ≡ some p → x.request_executor ≢ some p
  pub busy : (p : ℕ) → p < x.next_pool → length (x.pools p).running ≤ (x.pools p).max_workers

-- A submission leaves the workers alone.
enqueue-running :
    (t : Task) (p q : Pool)
    → enqueue t p ≡ some q
    → (q.running ≡ p.running) × (q.max_workers ≡ p.max_workers)
unfolding enqueue
enqueue-running t p q h = ground arith

-- Another pool in the place of one with as many workers.
replaced-Inv :
    (x : Executors) (p : ℕ) (q : Pool)
    → Inv x
    → p < x.next_pool
    → q.max_workers ≡ (x.pools p).max_workers
    → length q.running ≤ q.max_workers
    → Inv (record x { pools = update x.pools p q })
replaced-Inv x p q inv made same within = record {
  valid = record {
    stream_known = λ s e. ground (arith, inv.valid.stream_known s);
    request_known = λ s e. ground (arith, inv.valid.request_known s);
  };
  apart = inv.apart;
  busy = λ s h. ground (arith, inv.busy s);
}

pub Use-Inv : {x y : Executors} → Inv x → Use x y → Inv y
unfolding get_executor get_request_executor shutdown_executors
Use-Inv {x} inv (gets_stream e) = record {
  valid = ground (arith, executors-IsValid x inv.valid);
  apart = λ p h h'. ground (arith, inv.apart p, inv.valid.request_known p);
  busy = λ p h. ground (arith, inv.busy p);
}
Use-Inv {x} inv (gets_request e) = record {
  valid = ground (arith, executors-IsValid x inv.valid);
  apart = λ p h h'. ground (arith, inv.apart p, inv.valid.stream_known p);
  busy = λ p h. ground (arith, inv.busy p);
}
Use-Inv {x} inv (shuts e) = record {
  valid = ground (arith, executors-IsValid x inv.valid);
  apart = λ p h h'. ground (arith, inv.apart p);
  busy = λ p h. ground (arith, inv.busy p);
}
Use-Inv {x} inv (submits p t q made h e) =
    let (same, as_many) = enqueue-running t (x.pools p) q h in
    rw e (replaced-Inv x p q inv made as_many (ground (arith, inv.busy p made)))
Use-Inv {x} inv (begins p q made h e) = rw e (
    replaced-Inv x p q inv made (max_workers-begin (x.pools p) q h)
      (begin-IsBusy (x.pools p) q (record { within = inv.busy p made }) h).within)
Use-Inv {x} inv (completes p i q made h e) = rw e (
    replaced-Inv x p q inv made (max_workers-complete i (x.pools p) q h)
      (complete-IsBusy i (x.pools p) q (record { within = inv.busy p made }) h).within)

pub Reached-Inv : {x : Executors} → Reached x → Inv x
Reached-Inv (imported a b c) = record {
  valid = record {
    stream_known = λ p e. absurd (ground arith);
    request_known = λ p e. absurd (ground arith);
  };
  apart = λ p e. absurd (ground arith);
  busy = λ p h. absurd (ground arith);
}
Reached-Inv (used r u) = Use-Inv (Reached-Inv r) u

-- Whatever threads do with the pools since the import, where both variables are set: they name different
-- pools, the request pool has at most four tasks under way, and if the stream pool has a task waiting
-- and none under way, a worker takes the oldest, however busy the request pool is.
pub pools_separate :
    {x : Executors} (s r : ℕ) (t : Task) (ts : List Task)
    → Reached x
    → x.stream_executor ≡ some s
    → x.request_executor ≡ some r
    → (x.pools s).running ≡ []
    → (x.pools s).queue ≡ t ∷ ts
    → (s ≢ r)
      × (length (x.pools r).running ≤ request_executor_max_workers)
      × (begin (x.pools s) ≡ some (record (x.pools s) { running = t ∷ []; queue = ts }))
unfolding begin
pools_separate s r t ts reached stream request idle waiting =
    let inv = Reached-Inv reached in
    (
      λ e. inv.apart s stream (ground arith),
      ground (arith, inv.busy r, inv.valid.request_known r),
      ground (arith, inv.valid.stream_known s),
    )
