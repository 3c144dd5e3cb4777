-- ===== src/Stream/Order.antt =====
-- The order of stream operations through the stream pool, end to end.
use mathlib.Core.List.{append_assoc}
use mathlib.Core.Path.{subst}
use py_obscura_proto.Base.{ℕ, ◌≡◌, refl, ◌∙◌, ap, sym, false, some, List, [], ◌∷◌, ◌++◌, arith}
use py_obscura_proto.Runtime.{
  World, ok, Value, Call, Task, Pool, Executors, operation, stream_write, stream_end, update,
}
use py_obscura_proto.Executor.{get_executor, run_in_stream_executor, on_pool, enqueue, submit}
use py_obscura_proto.Executor.Fifo.{History, submitted, contents, fifo_order}
use py_obscura_proto.Executor.Lifecycle.{IsValid, get_executor_usable}
use py_obscura_proto.Stream.{async_write, async_end, cpp_of}

-- The pool with one more task, and the world in which pool `p` is it.
abbrev pub with_task : Task → Pool → Pool
with_task t p = record p { queue = p.queue ++ t ∷ [] }

abbrev pub given : ℕ → Task → Executors → World → World
given p t x w = record w {
  executors = record x { pools = update x.pools p (with_task t (x.pools p)) };
}

pub enqueue_open : (t : Task) (p : Pool) → p.is_shut ≡ false → enqueue t p ≡ some (with_task t p)
unfolding enqueue
enqueue_open t p h = ground arith

run_open :
    (op : Call) (w : World)
    → let (x, p) = get_executor w.executors in
      (x.pools p).is_shut ≡ false
      → run_in_stream_executor (λ u. u) op w ≡ (ok (on_pool p), given p (operation op) x w)
unfolding run_in_stream_executor submit
run_open op w shut =
    let (x, p) = get_executor w.executors in
    ground (arith, enqueue_open (operation op) (x.pools p) shut)

run_usable :
    (op : Call) (w : World) (x : Executors) (p : ℕ)
    → get_executor w.executors ≡ (x, p)
    → (x.pools p).is_shut ≡ false
    → run_in_stream_executor (λ u. u) op w ≡ (ok (on_pool p), given p (operation op) x w)
run_usable op w x p got shut =
    subst
      (λ (g : Executors × ℕ).
        (g.0.pools g.1).is_shut ≡ false
        → run_in_stream_executor (λ u. u) op w ≡ (ok (on_pool g.1), given g.1 (operation op) g.0 w))
      got (run_open op w) shut

given_pool :
    (p : ℕ) (t : Task) (x : Executors) (w : World)
    → (given p t x w).executors.pools p ≡ with_task t (x.pools p)
given_pool p t x w = ground arith

-- Once the pool of `x` was got, it is got again after a submission to it.
got_again :
    (op : Call) (x : Executors) (w : World)
    → IsValid x
    → let (x', p) = get_executor x in
      let y = (given p (operation op) x' w).executors in get_executor y ≡ (y, p)
unfolding get_executor
got_again op x w v = grind (arith, v.stream_known)

-- A write and then the end of the same stream, through the stream pool and with no other thread acting in
-- between: both go to the one pool of one worker, and what it has finished, is at and has waiting is what
-- was submitted before, then the write, then the end. So the end never overtakes the write.
pub async_end-async_write :
    (s : ℕ) (chunk : Value) (w : World) (ts : List Task)
    → IsValid w.executors
    → History ts ((get_executor w.executors).0.pools (get_executor w.executors).1)
    → let p = (get_executor w.executors).1 in
      let (r, u) = async_write (λ v. v) s chunk w in
      let (r', u') = async_end (λ v. v) s u in
      (r ≡ ok (on_pool p))
      × (r' ≡ ok (on_pool p))
      × (contents (u'.executors.pools p)
          ≡ ts
            ++ operation (stream_write (cpp_of s w) chunk)
              ∷ operation (stream_end (cpp_of s w))
              ∷ [])
unfolding async_write async_end
async_end-async_write s chunk w ts v past =
    let x = (get_executor w.executors).0 in
    let p = (get_executor w.executors).1 in
    let (open_pool, one, kept, same) = get_executor_usable w.executors v in
    let writing = stream_write (cpp_of s w) chunk in
    let ending = stream_end (cpp_of s w) in
    let u = given p (operation writing) x w in
    let first : run_in_stream_executor (λ v. v) writing w ≡ (ok (on_pool p), u) =
      run_usable writing w x p refl open_pool in
    let second : run_in_stream_executor (λ v. v) ending u
        ≡ (ok (on_pool p), given p (operation ending) u.executors u) =
      run_usable ending u u.executors p (got_again writing w.executors w v)
        (ground (arith, given_pool p (operation writing) x w)) in
    let before =
      submitted (operation writing) past (enqueue_open (operation writing) (x.pools p) open_pool)
        refl in
    let after =
      submitted {us = ts ++ operation writing ∷ operation ending ∷ []} (operation ending) before
        (enqueue_open (operation ending) (with_task (operation writing) (x.pools p)) open_pool)
        (sym (append_assoc ts (operation writing ∷ []) (operation ending ∷ []))) in
    let pool : (given p (operation ending) u.executors u).executors.pools p
        ≡ with_task (operation ending) (with_task (operation writing) (x.pools p)) =
      given_pool p (operation ending) u.executors u
      ∙ ap (with_task (operation ending)) (given_pool p (operation writing) x w) in
    rw first (rw second (refl, refl, ap contents pool ∙ fifo_order after one))
