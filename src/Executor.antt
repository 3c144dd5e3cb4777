-- ===== src/Executor.antt =====
-- The two module-level thread pools (src/ObscuraProto/__init__.py, `_get_executor` to
-- `_run_in_stream_executor`). What the code uses of `ThreadPoolExecutor` is here as well: `submit`
-- appends to a queue or raises after a shutdown, a free worker takes the oldest task, and
-- `shutdown(wait=True)` returns when all tasks have been run. The lock makes each of the functions
-- one step.
pub mod Fifo
pub mod Lifecycle
pub mod Separation
pub mod Order
use py_obscura_proto.Base.{
  ℕ, zero, suc, ◌+◌, Bool, true, false, Option, none, some, List, [], ◌∷◌, ◌++◌, length, ltb, ◌||◌,
  if◌then◌else◌,
}
use py_obscura_proto.Runtime.{
  World, Exec, Exc, ok, raised, Call, Pool, Executors, Task, operation, runtime_error, text, update,
  ◌>>=◌, ◌>>◌, pure, modify,
}

abbrev pub stream_executor_max_workers : ℕ
stream_executor_max_workers = 1

abbrev pub request_executor_max_workers : ℕ
request_executor_max_workers = 4

-- `ThreadPoolExecutor(max_workers=n)`
unfoldable pub new_pool : ℕ → Pool
new_pool n = record { max_workers = n; is_shut = false; queue = []; running = []; finished = [] }

-- `submit`, `none` where it raises.
unfoldable pub enqueue : Task → Pool → Option Pool
enqueue t p = if p.is_shut then none else some (record p { queue = p.queue ++ t ∷ [] })

-- A free worker takes the oldest task, if there is one.
unfoldable pub begin : Pool → Option Pool
begin p =
    if ltb (length p.running) p.max_workers
    then (elim p.queue [
      | [] ↦ none
      | t ∷ ts ↦ some (record p { running = p.running ++ t ∷ []; queue = ts })
    ])
    else none

-- The list without its entry `i`, and that entry.
unfoldable pub take_out : ℕ → List Task → Option (Task × List Task)
take_out i [] = none
take_out zero (t ∷ ts) = some (t, ts)
take_out (suc i) (t ∷ ts) = elim (take_out i ts) [ none ↦ none | some (u, us) ↦ some (u, t ∷ us) ]

-- The task `i` of the running ones ends.
unfoldable pub complete : ℕ → Pool → Option Pool
unfolding take_out
complete i p = elim (take_out i p.running) [
  | none ↦ none
  | some (t, rest) ↦ some (record p { running = rest; finished = p.finished ++ t ∷ [] })
]

-- `shutdown(wait=True)`
unfoldable pub shut_down : Pool → Pool
shut_down p = record p {
  is_shut = true;
  queue = [];
  running = [];
  finished = p.finished ++ p.running ++ p.queue;
}

-- `_executor is None or _executor._shutdown`
unfoldable pub is_unusable : Executors → Option ℕ → Bool
is_unusable x none = true
is_unusable x (some p) = (x.pools p).is_shut

unfoldable pub add_pool : ℕ → Executors → Executors
unfolding new_pool
add_pool n x = record x {
  pools = update x.pools x.next_pool (new_pool n);
  next_pool = suc x.next_pool;
}

unfoldable pub or_zero : Option ℕ → ℕ
or_zero none = 0
or_zero (some p) = p

-- `_get_executor` on the module's variables: the new variables, and the pool that is returned.
unfoldable pub get_executor : Executors → Executors × ℕ
unfolding is_unusable add_pool or_zero
get_executor x =
    if is_unusable x x.stream_executor
    then (
      record (add_pool stream_executor_max_workers x) { stream_executor = some x.next_pool },
      x.next_pool,
    )
    else (x, or_zero x.stream_executor)

unfoldable pub get_request_executor : Executors → Executors × ℕ
unfolding is_unusable add_pool or_zero
get_request_executor x =
    if is_unusable x x.request_executor
    then (
      record (add_pool request_executor_max_workers x) { request_executor = some x.next_pool },
      x.next_pool,
    )
    else (x, or_zero x.request_executor)

unfoldable pub shut_pool : ℕ → Executors → Executors
unfolding shut_down
shut_pool p x = record x { pools = update x.pools p (shut_down (x.pools p)) }

-- The two tests of `_shutdown_executors`, on one variable each.
unfoldable pub shutdown_stream : Executors → Executors
unfolding is_unusable shut_pool
shutdown_stream x =
    if is_unusable x x.stream_executor
    then x
    else record (shut_pool (or_zero x.stream_executor) x) { stream_executor = none }

unfoldable pub shutdown_request : Executors → Executors
unfolding is_unusable shut_pool
shutdown_request x =
    if is_unusable x x.request_executor
    then x
    else record (shut_pool (or_zero x.request_executor) x) { request_executor = none }

unfoldable pub shutdown_executors : Executors → Executors
unfolding shutdown_stream shutdown_request
shutdown_executors x = shutdown_request (shutdown_stream x)

-- Where a submitted operation runs: on a pool, or on the default executor of the loop.
pub data Submission : Type 0 where
  on_pool : ℕ → Submission
  on_default_thread : Call → Submission

-- `executor.submit(fn, *args)`
unfoldable pub submit : ℕ → Task → Exec (Unit {0})
unfolding enqueue
submit p t w = elim (enqueue t (w.executors.pools p)) [
  | none ↦ (raised (runtime_error (text "cannot schedule new futures after shutdown")), w)
  | some q ↦
      (ok tt, record w { executors = record w.executors { pools = update w.executors.pools p q } })
]

-- `_run_in_stream_executor`, up to the point where the coroutine waits: `meanwhile` is what other
-- threads do between `_get_executor()` and `submit`. The handler of `RuntimeError` is the last
-- case: `submit` raises nothing else.
unfoldable pub run_in_stream_executor : (World → World) → Call → Exec Submission
unfolding get_executor submit
run_in_stream_executor meanwhile op w =
    let (x, p) = get_executor w.executors in
    let (r, w') = submit p (operation op) (meanwhile (record w { executors = x })) in
    elim r [ ok _ ↦ (ok (on_pool p), w') | raised _ ↦ (ok (on_default_thread op), w') ]
