-- ===== src/Executor/Fifo.antt =====
-- What a pool does with the tasks submitted to it, over every interleaving of submissions and
-- workers.
use mathlib.Core.List.{append_assoc, append-nil, Perm}
use mathlib.Core.List.Perm
use py_obscura_proto.Base.{
  Option-cases, inl, inr, ℕ, zero, suc, ◌<◌, ◌≤◌, ◌≡◌, refl, ◌∙◌, sym, ap, some, List, [], ◌∷◌,
  ◌++◌, length, arith,
}
use py_obscura_proto.Runtime.{Pool, Task}
use py_obscura_proto.Executor.{new_pool, enqueue, begin, take_out, complete, shut_down}

-- The pools that can be reached, with the tasks submitted so far, oldest first.
pub data History : List Task → Pool → Type 0 where
  created : (n : ℕ) → History [] (new_pool n)
  submitted :
      {ts us : List Task} {p q : Pool} (t : Task)
      → History ts p
      → enqueue t p ≡ some q
      → us ≡ ts ++ t ∷ []
      → History us q
  begun : {ts : List Task} {p q : Pool} → History ts p → begin p ≡ some q → History ts q
  completed :
      {ts : List Task} {p q : Pool} (i : ℕ) → History ts p → complete i p ≡ some q → History ts q
  shut : {ts : List Task} {p q : Pool} → History ts p → q ≡ shut_down p → History ts q

-- What a pool has been given: what is finished, what the workers are at, what waits.
abbrev pub contents : Pool → List Task
contents p = p.finished ++ p.running ++ p.queue

pub record IsBusy (p : Pool) : Type 0 where
  pub within : length p.running ≤ p.max_workers

length-snoc {ℓ} : {A : Type ℓ} (xs : List A) (x : A) → length (xs ++ x ∷ []) ≡ suc (length xs)
length-snoc [] x = refl
length-snoc (y ∷ xs) x = ap suc (length-snoc xs x)

length-take_out :
    (i : ℕ) (ts : List Task) (t : Task) (rest : List Task)
    → take_out i ts ≡ some (t, rest)
    → length ts ≡ suc (length rest)
unfolding take_out
length-take_out zero [] t rest h = ground arith
length-take_out (suc i) [] t rest h = ground arith
length-take_out zero (u ∷ ts) t rest h = ground arith
length-take_out (suc i) (u ∷ ts) t rest h = elim (Option-cases (take_out i ts)) [
  | inl e ↦ cc (rw e at h)
  | inr ((v, vs), e) ↦ ground (arith, length-take_out i ts v vs e)
]

-- What `begin` and `complete` did, if they did anything.
pub begin-eq_some :
    (p q : Pool)
    → begin p ≡ some q
    → (t : Task) × (ts : List Task) × (p.queue ≡ t ∷ ts)
      × (length p.running < p.max_workers)
      × (q ≡ record p { running = p.running ++ t ∷ []; queue = ts })
unfolding begin
begin-eq_some p q h = go p.queue refl
  where
    go :
        (l : List Task)
        → p.queue ≡ l
        → (t : Task) × (ts : List Task) × (p.queue ≡ t ∷ ts)
          × (length p.running < p.max_workers)
          × (q ≡ record p { running = p.running ++ t ∷ []; queue = ts })
    go [] e = ground arith
    go (t ∷ ts) e = (t, ts, e, ground arith, ground arith)

pub complete-eq_some :
    (i : ℕ) (p q : Pool)
    → complete i p ≡ some q
    → (t : Task) × (rest : List Task) × (take_out i p.running ≡ some (t, rest))
      × (q ≡ record p { running = rest; finished = p.finished ++ t ∷ [] })
unfolding complete
complete-eq_some i p q h = elim (Option-cases (take_out i p.running)) [
  | inl e ↦ absurd (ground arith)
  | inr ((t, ts), e) ↦ (t, ts, e, ground arith)
]

pub begin-IsBusy : (p q : Pool) → IsBusy p → begin p ≡ some q → IsBusy q
begin-IsBusy p q b h =
    let (t, ts, e, room, d) = begin-eq_some p q h in ground (arith, length-snoc p.running t)

pub complete-IsBusy : (i : ℕ) (p q : Pool) → IsBusy p → complete i p ≡ some q → IsBusy q
complete-IsBusy i p q b h =
    let (t, ts, e, d) = complete-eq_some i p q h in
    ground (arith, b.within, length-take_out i p.running t ts e)

-- A pool never has more tasks under way than it has workers.
pub History-IsBusy : {ts : List Task} {p : Pool} → History ts p → IsBusy p
unfolding new_pool enqueue shut_down
History-IsBusy (created n) = omega arith
History-IsBusy (submitted t h e _) = ground (arith, (History-IsBusy h).within)
History-IsBusy (begun {p} {q} h e) = begin-IsBusy p q (History-IsBusy h) e
History-IsBusy (completed {p} {q} i h e) = complete-IsBusy i p q (History-IsBusy h) e
History-IsBusy (shut h e) = ground arith

-- A list of at most one task is empty once a task is taken out, and was that task.
take_out_single :
    (i : ℕ) (l : List Task) (t : Task) (rest : List Task)
    → length l ≤ 1
    → take_out i l ≡ some (t, rest)
    → (l ≡ t ∷ []) × (rest ≡ [])
unfolding take_out
take_out_single zero [] t rest b h = ground arith
take_out_single (suc i) [] t rest b h = ground arith
take_out_single zero (u ∷ []) t rest b h = ground arith
take_out_single (suc i) (u ∷ []) t rest b h = ground arith
take_out_single i (u ∷ v ∷ l) t rest b h = absurd (omega arith)

pub contents-begin : (p q : Pool) → begin p ≡ some q → contents q ≡ contents p
contents-begin p q h =
    let (t, ts, e, room, d) = begin-eq_some p q h in rw d (rw e (simp append_assoc))

pub contents-complete :
    (i : ℕ) (p q : Pool) → length p.running ≤ 1 → complete i p ≡ some q → contents q ≡ contents p
contents-complete i p q b h =
    let (t, ts, e, d) = complete-eq_some i p q h in
    let (one, nothing) = take_out_single i p.running t ts b e in
    ground (arith, append-nil (p.finished ++ t ∷ []), d, one, nothing)

pub contents-enqueue :
    (t : Task) (p q : Pool) → enqueue t p ≡ some q → contents q ≡ contents p ++ t ∷ []
unfolding enqueue
contents-enqueue t p q h = ground (arith, append_assoc (p.finished ++ p.running) p.queue (t ∷ []))

pub max_workers-enqueue :
    (t : Task) (p q : Pool) → enqueue t p ≡ some q → q.max_workers ≡ p.max_workers
unfolding enqueue
max_workers-enqueue t p q h = ground arith

pub max_workers-begin : (p q : Pool) → begin p ≡ some q → q.max_workers ≡ p.max_workers
max_workers-begin p q h = let (t, ts, e, room, d) = begin-eq_some p q h in ground arith

pub max_workers-complete :
    (i : ℕ) (p q : Pool) → complete i p ≡ some q → q.max_workers ≡ p.max_workers
max_workers-complete i p q h = let (t, ts, e, d) = complete-eq_some i p q h in ground arith

-- The single worker of the stream pool: what is finished, under way and waiting is, in this order,
-- exactly what was submitted, so that operations are finished in the order of their submission.
pub fifo_order : {ts : List Task} {p : Pool} → History ts p → p.max_workers ≡ 1 → contents p ≡ ts
unfolding new_pool shut_down
fifo_order (created n) one = refl
fifo_order (submitted {p} {q} t h e u) one =
    contents-enqueue t p q e
    ∙ ap (λ l. l ++ t ∷ []) (fifo_order h (omega (arith, max_workers-enqueue t p q e)))
    ∙ sym u
fifo_order (begun {p} {q} h e) one =
    contents-begin p q e ∙ fifo_order h (omega (arith, max_workers-begin p q e))
fifo_order (completed {p} {q} i h e) one =
    let kept : p.max_workers ≡ 1 = omega (arith, max_workers-complete i p q e) in
    contents-complete i p q (omega (arith, History-IsBusy h, kept)) e ∙ fifo_order h kept
fifo_order (shut {p} {q} h e) one =
    let kept : p.max_workers ≡ 1 = ground arith in rw e (simp append-nil (fifo_order h kept))

perm-take_out :
    (i : ℕ) (l : List Task) (t : Task) (rest : List Task)
    → take_out i l ≡ some (t, rest)
    → Perm l (t ∷ rest)
unfolding take_out
perm-take_out zero [] t rest h = absurd (ground arith)
perm-take_out (suc i) [] t rest h = absurd (ground arith)
perm-take_out zero (u ∷ l) t rest h =
    let e : t ∷ rest ≡ u ∷ l = ground arith in rw e (Perm.refl (u ∷ l))
perm-take_out (suc i) (u ∷ l) t rest h = elim (Option-cases (take_out i l)) [
  | inl e ↦ absurd (ground arith)
  | inr ((v, vs), e) ↦
      let d : t ∷ rest ≡ v ∷ u ∷ vs = ground arith in
      rw d (Perm.trans (Perm.cons u (perm-take_out i l v vs e)) (Perm.swap v u vs))
]

perm-complete : (i : ℕ) (p q : Pool) → complete i p ≡ some q → Perm (contents q) (contents p)
perm-complete i p q h =
    let (t, ts, e, d) = complete-eq_some i p q h in
    rw d (
      rw (append_assoc p.finished (t ∷ []) ts) (
        Perm.append_right p.queue
          (Perm.append_left p.finished (Perm.symm (perm-take_out i p.running t ts e)))))

-- However many workers a pool has, what is finished, under way and waiting is, up to order, what was
-- submitted: no task is lost or run twice.
pub contents-perm : {ts : List Task} {p : Pool} → History ts p → Perm (contents p) ts
unfolding new_pool shut_down
contents-perm (created n) = Perm.refl []
contents-perm (submitted {ts} {p} {q} t h e u) =
    rw (contents-enqueue t p q e, u) (Perm.append_right (t ∷ []) (contents-perm h))
contents-perm (begun {p} {q} h e) = rw (contents-begin p q e) (contents-perm h)
contents-perm (completed {p} {q} i h e) = Perm.trans (perm-complete i p q e) (contents-perm h)
contents-perm (shut {p} {q} h e) = rw e (simp append-nil (contents-perm h))
