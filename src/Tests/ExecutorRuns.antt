-- ===== src/Tests/ExecutorRuns.antt =====
-- Examples for the thread pools.
use py_obscura_proto.Base.{◌≡◌, refl, [], ◌∷◌, arith}
use py_obscura_proto.Runtime.{
  Executors, update, native_value, Pool, Task, operation, stream_write, stream_end, bytes_value,
}
use py_obscura_proto.Executor.{
  get_request_executor, get_executor, enqueue, begin, complete, take_out,
}
use py_obscura_proto.Executor.Fifo.{contents}
use py_obscura_proto.Executor.Order.{log, stream_fifo}
use py_obscura_proto.Executor.Lifecycle.{IsValid}
use py_obscura_proto.Executor.Separation.{
  Reached, imported, used, gets_stream, gets_request, submits, begins, completes,
}
use py_obscura_proto.Tests.{no_executors, idle_pool}

abbrev first : Task
first = operation (stream_write (native_value 4) (bytes_value (1 ∷ [])))

abbrev second : Task
second = operation (stream_end (native_value 4))

abbrev pub one_queued : Pool
one_queued = record idle_pool { queue = first ∷ [] }

abbrev pub two_queued : Pool
two_queued = record idle_pool { queue = first ∷ second ∷ [] }

pub no_executors-IsValid : IsValid no_executors
no_executors-IsValid = record {
  stream_known = λ p e. absurd (ground arith);
  request_known = λ p e. absurd (ground arith);
}

abbrev both_made : Executors
both_made = (get_request_executor (get_executor no_executors).0).0

abbrev stream_waits : Executors
stream_waits = record both_made { pools = update both_made.pools 0 one_queued }

stream_waits-Reached : Reached stream_waits
unfolding get_executor get_request_executor enqueue
stream_waits-Reached =
    used (used (used (imported refl refl refl) (gets_stream refl)) (gets_request refl))
      (submits 0 first one_queued (omega arith) refl refl)

-- The stream pool with both operations, and with one done and one under way.
abbrev both_wait : Executors
both_wait = record both_made { pools = update stream_waits.pools 0 two_queued }

abbrev at_work : Pool → Executors
at_work p = record both_made { pools = update both_wait.pools 0 p }

abbrev one_runs : Pool
one_runs = record idle_pool { running = first ∷ []; queue = second ∷ [] }

abbrev one_done : Pool
one_done = record idle_pool { finished = first ∷ []; queue = second ∷ [] }

one_done-Reached : Reached (record both_made { pools = update (at_work one_runs).pools 0 one_done })
unfolding get_executor get_request_executor enqueue begin complete take_out
one_done-Reached =
    used
      (used
        (used stream_waits-Reached
          (submits {y = both_wait} 0 second two_queued (omega arith) refl refl))
        (begins {y = at_work one_runs} 0 one_runs (omega arith) refl refl))
      (completes 0 0 one_done (omega arith) refl refl)

stream_fifo_example : contents one_done ≡ log 0 one_done-Reached
unfolding get_executor get_request_executor
stream_fifo_example = stream_fifo 0 one_done-Reached refl
