-- ===== src/Executor/Lifecycle.antt =====
-- The pools that the module hands out: usable, single, renewed after a shutdown; and the submission
-- of a stream operation.
use mathlib.Core.List.{append-nil}
use py_obscura_proto.Base.{ℕ, ◌<◌, ◌≡◌, false, some, [], ◌∷◌, ◌++◌, arith, if◌then◌else◌}
use py_obscura_proto.Runtime.{World, ok, Call, Executors, operation}
use py_obscura_proto.Executor.{
  stream_executor_max_workers, request_executor_max_workers, get_executor, get_request_executor,
  shutdown_executors, on_pool, on_default_thread, run_in_stream_executor,
}

-- The two variables name pools that exist, with one worker and with four.
pub record IsValid (x : Executors) : Type 0 where
  pub stream_known :
      (p : ℕ)
      → x.stream_executor ≡ some p
      → (p < x.next_pool) × ((x.pools p).max_workers ≡ stream_executor_max_workers)
  pub request_known :
      (p : ℕ)
      → x.request_executor ≡ some p
      → (p < x.next_pool) × ((x.pools p).max_workers ≡ request_executor_max_workers)

get_executor-IsValid : (x : Executors) → IsValid x → IsValid (get_executor x).0
unfolding get_executor
get_executor-IsValid x v = record {
  stream_known = λ p e. ground (arith, v.stream_known p);
  request_known = λ p e. ground (arith, v.request_known p);
}

get_request_executor-IsValid : (x : Executors) → IsValid x → IsValid (get_request_executor x).0
unfolding get_request_executor
get_request_executor-IsValid x v = record {
  stream_known = λ p e. ground (arith, v.stream_known p);
  request_known = λ p e. ground (arith, v.request_known p);
}

shutdown_executors-IsValid : (x : Executors) → IsValid x → IsValid (shutdown_executors x)
unfolding shutdown_executors
shutdown_executors-IsValid x v = record {
  stream_known = λ p e. ground (arith, v.stream_known p);
  request_known = λ p e. ground (arith, v.request_known p);
}

-- The three functions keep the two variables naming pools that exist, the stream pool with one
-- worker and the request pool with four.
pub executors-IsValid :
    (x : Executors)
    → IsValid x
    → IsValid (get_executor x).0
      × IsValid (get_request_executor x).0
      × IsValid (shutdown_executors x)
executors-IsValid x v =
    (get_executor-IsValid x v, get_request_executor-IsValid x v, shutdown_executors-IsValid x v)

-- If the two variables name pools that exist, `_get_executor` returns a pool that takes tasks and has
-- one worker, remembers it, and returns the same one when it is asked again.
pub get_executor_usable :
    (x : Executors)
    → IsValid x
    → let (x', p) = get_executor x in
      ((x'.pools p).is_shut ≡ false)
      × ((x'.pools p).max_workers ≡ 1)
      × (x'.stream_executor ≡ some p)
      × (get_executor x' ≡ (x', p))
unfolding get_executor
get_executor_usable x v = grind (arith, v.stream_known)

-- After the shutdown at exit, whatever was there before, `_get_executor` makes a pool of its own.
pub get_executor-shutdown :
    (x : Executors)
    → IsValid x
    → let (x', p) = get_executor (shutdown_executors x) in
      (p ≡ x.next_pool) × ((x'.pools p).is_shut ≡ false) × ((x'.pools p).queue ≡ [])
unfolding get_executor shutdown_executors
get_executor-shutdown x v = grind (arith, v.stream_known)

module _ (meanwhile : World → World) (op : Call) (w : World) where
  -- The pool that `_get_executor` returns, and the state in which `submit` finds it.
  abbrev pub target : ℕ
  target = (get_executor w.executors).1

  abbrev pub found : World
  found = meanwhile (record w { executors = (get_executor w.executors).0 })

  -- Submitting a stream operation never raises. It becomes the last task of the stream pool; if that
  -- pool was shut down in the meantime it goes to the default executor and no queue changes.
  pub run_in_stream_executor_total :
      let shut = (found.executors.pools target).is_shut in
      let (r, w') = run_in_stream_executor meanwhile op w in
      (r ≡ ok (if shut then on_default_thread op else on_pool target))
      × ((w'.executors.pools target).queue
          ≡ (found.executors.pools target).queue ++ (if shut then [] else operation op ∷ []))
  unfolding run_in_stream_executor
  run_in_stream_executor_total = ground (arith, append-nil (found.executors.pools target).queue)
