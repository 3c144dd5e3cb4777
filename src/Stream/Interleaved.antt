-- ===== src/Stream/Interleaved.antt =====
-- The order of stream operations, whatever other threads do with the pools in between.
use mathlib.Core.List.{append_assoc, append-nil}
use py_obscura_proto.Base.{
  ℕ, ◌<◌, ◌≡◌, refl, ◌∙◌, ap, sym, false, Bool-cases, inl, inr, some, List, [], ◌∷◌, ◌++◌, ◌==◌,
  arith,
}
use py_obscura_proto.Runtime.{
  World, ok, Value, Call, Task, Pool, Executors, operation, stream_write, stream_end, update,
}
use py_obscura_proto.Executor.{
  get_executor, get_request_executor, run_in_stream_executor, on_pool, enqueue, submit,
}
use py_obscura_proto.Executor.Fifo.{
  History, submitted, begun, completed, contents, fifo_order, begin-eq_some, complete-eq_some,
}
use py_obscura_proto.Executor.Lifecycle.{IsValid, get_executor_usable}
use py_obscura_proto.Executor.Separation.{
  Use, gets_stream, gets_request, shuts, submits, begins, completes,
}
use py_obscura_proto.Stream.{async_write, async_end, cpp_of}
use py_obscura_proto.Stream.Order.{with_task, enqueue_open}

-- What other threads do with the pools before the shutdown at exit.
abbrev pub IsOpen : {x y : Executors} → Use x y → Type 0
IsOpen (shuts e) = ⊥
IsOpen _ = Unit

pub data Meanwhile (x : Executors) : Executors → Type 0 where
  nothing : {y : Executors} → y ≡ x → Meanwhile x y
  also : {y z : Executors} → Meanwhile x y → (step : Use y z) → IsOpen step → Meanwhile x z

-- The stream pool is `p`, which was given the tasks `ts`.
record Streams (p : ℕ) (ts : List Task) (x : Executors) : Type 0 where
  pub made : p < x.next_pool
  pub named : x.stream_executor ≡ some p
  pub takes : (x.pools p).is_shut ≡ false
  pub single : (x.pools p).max_workers ≡ 1
  pub history : History ts (x.pools p)

module _ (p : ℕ) where
  got_Streams : {ts : List Task} {x : Executors} → Streams p ts x → get_executor x ≡ (x, p)
  unfolding get_executor
  got_Streams {x} h = ground (arith, h.named, h.takes)

  -- Another pool in the place of `p`, or of one of the others.
  replaced :
      {ts us : List Task} {x y : Executors} (q : Pool)
      → Streams p ts x
      → History us q
      → q.is_shut ≡ false
      → q.max_workers ≡ 1
      → y ≡ record x { pools = update x.pools p q }
      → Streams p us y
  replaced {x} q s h open_pool one e = rw e (record {
    made = s.made;
    named = s.named;
    takes = ground arith;
    single = ground arith;
    history = let here : update x.pools p q p ≡ q = ground arith in rw here h;
  })

  -- A pool other than `p` changes nothing for `p`.
  elsewhere :
      {ts : List Task} {x y : Executors} (o : ℕ) (q : Pool)
      → Streams p ts x
      → (o == p) ≡ false
      → y ≡ record x { pools = update x.pools o q }
      → Streams p ts y
  elsewhere {x} o q s other e =
      let here : update x.pools o q p ≡ x.pools p = ground arith in
      rw e (record {
        made = s.made;
        named = s.named;
        takes = rw here s.takes;
        single = rw here s.single;
        history = rw here s.history;
      })

  -- The tasks that `p` was given, and then some more.
  abbrev More : List Task → Executors → Type 0
  More ts y = (more : List Task) × Streams p (ts ++ more) y

  unchanged-More : {ts : List Task} {y : Executors} → Streams p ts y → More ts y
  unchanged-More {ts} s = ([], rw (append-nil ts) s)

  renewed :
      {ts : List Task} {x y : Executors} (o : ℕ) (q : Pool)
      → Streams p ts x
      → (History ts (x.pools o) → History ts q)
      → q.is_shut ≡ (x.pools o).is_shut
      → q.max_workers ≡ (x.pools o).max_workers
      → y ≡ record x { pools = update x.pools o q }
      → Streams p ts y
  renewed {ts} {x} o q s next open_pool one e = elim (Bool-cases (o == p)) [
    | inl h ↦
        let same : o ≡ p = ground arith in
        replaced q s (next (rw same s.history)) (ground (arith, s.takes)) (ground (arith, s.single))
          (rw (sym same) e)
    | inr h ↦ elsewhere o q s h e
  ]

  Use-More :
      {ts : List Task} {x y : Executors}
      → Streams p ts x
      → (step : Use x y) → IsOpen step
      → More ts y
  unfolding get_request_executor enqueue
  Use-More {x} s (gets_stream e) open_step = unchanged-More (rw (e, got_Streams s) s)
  Use-More {x} {y} s (gets_request e) open_step =
      let here : y.pools p ≡ x.pools p = ground (arith, s.made) in
      unchanged-More (record {
        made = ground (arith, s.made);
        named = ground (arith, s.named);
        takes = rw here s.takes;
        single = rw here s.single;
        history = rw here s.history;
      })
  Use-More s (shuts e) open_step = absurd open_step
  Use-More {ts} {x} s (submits o t q made h e) open_step = elim (Bool-cases (o == p)) [
    | inl same ↦
        let here : o ≡ p = ground arith in
        (
          t ∷ [],
          replaced q s (submitted t s.history (rw (sym here) h) refl) (ground arith)
              (ground (arith, s.single)) (rw (sym here) e),
        )
    | inr other ↦ unchanged-More (elsewhere o q s other e)
  ]
  Use-More {x} s (begins o q made h e) open_step =
      let (t, rest, a, b, c) = begin-eq_some (x.pools o) q h in
      unchanged-More (renewed o q s (λ past. begun past h) (ground arith) (ground arith) e)
  Use-More {x} s (completes o i q made h e) open_step =
      let (t, rest, a, b) = complete-eq_some i (x.pools o) q h in
      unchanged-More (renewed o q s (λ past. completed i past h) (ground arith) (ground arith) e)

  Meanwhile-More : {ts : List Task} {x y : Executors} → Streams p ts x → Meanwhile x y → More ts y
  Meanwhile-More s (nothing e) = unchanged-More (rw e s)
  Meanwhile-More {ts} s (also past step open_step) =
      let (before, s') = Meanwhile-More s past in
      let (more, s'') = Use-More s' step open_step in
      (before ++ more, rw (sym (append_assoc ts before more)) s'')

  module _ {ts : List Task} (meanwhile : World → World)
      (others : (v : World) → Meanwhile v.executors (meanwhile v).executors) (op : Call)
      (w : World) where
    -- The submission of a stream operation, with the tasks that others submit before it.
    run_Streams :
        Streams p ts (get_executor w.executors).0
        → (get_executor w.executors).1 ≡ p
        → let (r, u) = run_in_stream_executor meanwhile op w in
          (r ≡ ok (on_pool p))
          × (before : List Task) × Streams p ((ts ++ before) ++ operation op ∷ []) u.executors
    unfolding run_in_stream_executor submit
    run_Streams s got =
        let found = meanwhile (record w { executors = (get_executor w.executors).0 }) in
        let (before, s') =
          Meanwhile-More s (others (record w { executors = (get_executor w.executors).0 })) in
        let q = with_task (operation op) (found.executors.pools p) in
        let queued = enqueue_open (operation op) (found.executors.pools p) s'.takes in
        let u : World = record found {
          executors = record found.executors { pools = update found.executors.pools p q };
        } in
        let ran : run_in_stream_executor meanwhile op w ≡ (ok (on_pool p), u) =
          ground (arith, queued) in
        rw ran (
          refl,
          before,
          replaced q s' (submitted (operation op) s'.history queued refl) s'.takes s'.single refl,
        )

    -- The same where the stream pool is there already.
    run_again :
        Streams p ts w.executors
        → let (r, u) = run_in_stream_executor meanwhile op w in
          (r ≡ ok (on_pool p))
          × (before : List Task) × Streams p ((ts ++ before) ++ operation op ∷ []) u.executors
    run_again s =
        run_Streams (rw (got_Streams s) s) (ap (λ (g : Executors × ℕ). g.1) (got_Streams s))

regroup :
    (a b c : List Task) (x y : Task)
    → (((a ++ x ∷ []) ++ b) ++ c) ++ y ∷ [] ≡ a ++ x ∷ ((b ++ c) ++ y ∷ [])
regroup [] b c x y = refl
regroup (t ∷ a) b c x y = ap (λ l. t ∷ l) (regroup a b c x y)

got-Streams :
    (x : Executors) (ts : List Task)
    → IsValid x
    → History ts ((get_executor x).0.pools (get_executor x).1)
    → Streams (get_executor x).1 ts (get_executor x).0
unfolding get_executor
got-Streams x ts v past =
    let (open_pool, one, named, same) = get_executor_usable x v in
    record {
      made = grind (arith, v.stream_known);
      named = named;
      takes = open_pool;
      single = one;
      history = past;
    }

-- `stream.async_write(chunk)` and then `stream.async_end()`, before the shutdown at exit, from pools that
-- exist and a known past of the stream pool. Other threads may act on the pools between the two calls,
-- and in each between getting the pool and the submission. Both go to the same pool of one worker, and
-- what it has finished, is at and has waiting is what was submitted before the write, the write, what
-- others submitted after it, and the end. So the end never overtakes the write.
pub write_precedes_end :
    (s : ℕ) (chunk : Value) (w : World) (ts : List Task)
    (meanwhile between meanwhile' : World → World)
    → IsValid w.executors
    → History ts ((get_executor w.executors).0.pools (get_executor w.executors).1)
    → ((v : World) → Meanwhile v.executors (meanwhile v).executors)
    → ((v : World) → Meanwhile v.executors (between v).executors)
    → ((v : World) → Meanwhile v.executors (meanwhile' v).executors)
    → let p = (get_executor w.executors).1 in
      let (r, u) = async_write meanwhile s chunk w in
      let v = between u in
      let (r', u') = async_end meanwhile' s v in
      (r ≡ ok (on_pool p))
      × (r' ≡ ok (on_pool p))
      × (before mid : List Task) × (contents (u'.executors.pools p)
          ≡ (ts ++ before)
            ++ operation (stream_write (cpp_of s w) chunk)
              ∷ (mid ++ operation (stream_end (cpp_of s v)) ∷ []))
unfolding async_write async_end
write_precedes_end s chunk w ts meanwhile between meanwhile' valid past others others' others'' =
    let p = (get_executor w.executors).1 in
    let writing = stream_write (cpp_of s w) chunk in
    let u = (run_in_stream_executor meanwhile writing w).1 in
    let v = between u in
    let ending = stream_end (cpp_of s v) in
    let (r, before, first) =
      run_Streams p meanwhile others writing w (got-Streams w.executors ts valid past) refl in
    let (more, waiting) = Meanwhile-More p first (others' u) in
    let (r', more', second) = run_again p meanwhile' others'' ending v waiting in
    (
      r,
      r',
      before,
      more ++ more',
      fifo_order second.history second.single
          ∙ regroup (ts ++ before) more more' (operation writing) (operation ending),
    )
