-- ===== src/Response/Await.antt =====
-- `_await_cpp_future` as three parties: the waiter on a request worker, the callbacks of the event
-- loop, and the coroutine that awaits `result_future`. Every order of their steps is a `Reach`.
use py_obscura_proto.Base.{
  ℕ, ◌≡◌, ◌≢◌, ◌⊎◌, inl, inr, String, Bool, true, false, Option, none, some, arith, if◌then◌else◌,
}
use py_obscura_proto.Runtime.{is_exception, Result, ok, raised, Value, timeout_error, timed_out}

-- `_fetch`: at work, with its outcome handed to `call_soon_threadsafe`, with `_publish` run, or dead
-- of an exception that `except Exception` does not catch.
pub data Waiter : Type 0 where
  working : Waiter
  posted published : Result Value → Waiter
  dead : Waiter

-- `result_future`. `invalid` is what `set_result` on a future that is done leads to.
pub data Cell : Type 0 where
  pending : Cell
  set : Result Value → Cell
  cancelled : Cell
  invalid : Cell

-- The coroutine: `cancelled_outside` is where its task was cancelled by another.
pub data Coroutine : Type 0 where
  awaiting : Coroutine
  returned : Result Value → Coroutine
  cancelled_outside : Coroutine

pub record Await : Type 0 where
  pub waiter : Waiter
  pub cell : Cell
  pub coroutine : Coroutine

abbrev pub start : Await
start = record { waiter = working; cell = pending; coroutine = awaiting }

-- How `_fetch` ends, from the result of its `try` block.
unfoldable pub post : Result Value → Waiter
post (ok v) = posted (ok v)
post (raised e) = if is_exception e then posted (raised e) else dead

-- `_publish(value, exc)`
unfoldable pub publish : Result Value → Cell → Cell
publish r cancelled = cancelled
publish r pending = set r
publish r (set _) = invalid
publish r invalid = invalid

-- `future.cancel()` of a future that may be done.
unfoldable pub cancel : Cell → Cell
cancel pending = cancelled
cancel c = c

-- What the last statements of `_await_cpp_future` make of the outcome of `result_future`: with a
-- timeout, any timeout error is replaced by its own.
unfoldable pub conclude : Option ℕ → String → Result Value → Result Value
conclude none what r = r
conclude (some t) what (raised (timeout_error m)) = raised (timeout_error (timed_out what t))
conclude (some t) what r = r

-- `timeout` is the effective timeout. `fetched r`: the waiter's `try` block ends with `r`. `guard`:
-- the timer of `asyncio.wait_for` fires, possibly between the publication and the wake-up.
pub data Step (timeout : Option ℕ) (what : String) (s : Await) : Await → Type 0 where
  fetched :
      {u : Await} (r : Result Value)
      → s.waiter ≡ working
      → u ≡ record s { waiter = post r }
      → Step timeout what s u
  publishes :
      {u : Await} (r : Result Value)
      → s.waiter ≡ posted r
      → u ≡ record s { waiter = published r; cell = publish r s.cell }
      → Step timeout what s u
  resumes :
      {u : Await} (r : Result Value)
      → s.coroutine ≡ awaiting
      → s.cell ≡ set r
      → u ≡ record s { coroutine = returned (conclude timeout what r) }
      → Step timeout what s u
  guard :
      {u : Await} (t : ℕ)
      → timeout ≡ some t
      → s.coroutine ≡ awaiting
      → u ≡ record s {
        cell = cancel s.cell;
        coroutine = returned (raised (timeout_error (timed_out what t)));
      }
      → Step timeout what s u
  interrupted :
      {u : Await}
      → s.coroutine ≡ awaiting
      → u ≡ record s { cell = cancel s.cell; coroutine = cancelled_outside }
      → Step timeout what s u

pub data Reach (timeout : Option ℕ) (what : String) : Await → Type 0 where
  here : Reach timeout what start
  next : {s u : Await} → Reach timeout what s → Step timeout what s u → Reach timeout what u

-- What the outcome of the waiter is, once it has one.
abbrev pub outcome : Waiter → Option (Result Value)
outcome working = none
outcome dead = none
outcome (posted r) = some r
outcome (published r) = some r

abbrev pub is_published : Waiter → Bool
is_published (published r) = true
is_published _ = false

pub record Inv (timeout : Option ℕ) (what : String) (s : Await) : Type 0 where
  pub valid : s.cell ≢ invalid
  pub set_once : (r : Result Value) → s.cell ≡ set r → s.waiter ≡ published r
  pub pending_before : s.cell ≡ pending → (is_published s.waiter ≡ false) × (s.coroutine ≡ awaiting)
  pub cancelled_after : s.cell ≡ cancelled → s.coroutine ≢ awaiting
  pub honest :
      (r : Result Value)
      → s.coroutine ≡ returned r
      → ((q : Result Value) × (s.waiter ≡ published q) × (r ≡ conclude timeout what q))
        ⊎ ((t : ℕ) × (timeout ≡ some t) × (r ≡ raised (timeout_error (timed_out what t))))

start-Inv : (timeout : Option ℕ) (what : String) → Inv timeout what start
start-Inv timeout what = record {
  valid = λ e. ground arith;
  set_once = λ r e. ground arith;
  pending_before = λ e. ground arith;
  cancelled_after = λ e. ground arith;
  honest = λ r e. absurd (ground arith);
}

module _ {timeout : Option ℕ} {what : String} {s : Await} (inv : Inv timeout what s) where
  open inv use {valid, set_once, pending_before, cancelled_after, honest}

  Step-honest :
      {u : Await}
      → Step timeout what s u
      → (r : Result Value) → u.coroutine ≡ returned r
      → ((q : Result Value) × (u.waiter ≡ published q) × (r ≡ conclude timeout what q))
        ⊎ ((t : ℕ) × (timeout ≡ some t) × (r ≡ raised (timeout_error (timed_out what t))))
  Step-honest (fetched p w e) r h = elim (honest r (ground arith)) [
    | inl (q, a, b) ↦ absurd (ground arith)
    | inr (t, a, b) ↦ inr (t, a, b)
  ]
  Step-honest (publishes p w e) r h = elim (honest r (ground arith)) [
    | inl (q, a, b) ↦ absurd (ground arith)
    | inr (t, a, b) ↦ inr (t, a, b)
  ]
  Step-honest (resumes p w c e) r h = inl (p, ground (arith, set_once p), ground arith)
  Step-honest (guard t w c e) r h = inr (t, w, ground arith)
  Step-honest (interrupted w e) r h = absurd (ground arith)

  -- Between the post and the publication the cell is not set.
  posted-not_set : (p q : Result Value) → s.waiter ≡ posted p → s.cell ≢ set q
  posted-not_set p q h e = ground (arith, set_once q)

  Step-valid : {u : Await} → Step timeout what s u → u.cell ≢ invalid
  unfolding publish cancel
  Step-valid (fetched p w e) h = absurd (ground (arith, valid))
  Step-valid (publishes p w e) h = grind (arith, valid, posted-not_set)
  Step-valid (resumes p w c e) h = absurd (ground (arith, valid))
  Step-valid (guard t w c e) h = grind (arith, valid)
  Step-valid (interrupted w e) h = grind (arith, valid)

  Step-set_once :
      {u : Await}
      → Step timeout what s u
      → (r : Result Value) → u.cell ≡ set r
      → u.waiter ≡ published r
  unfolding publish cancel
  Step-set_once (fetched p w e) r h = absurd (ground (arith, set_once r))
  Step-set_once (publishes p w e) r h = grind (arith, posted-not_set)
  Step-set_once (resumes p w c e) r h = ground (arith, set_once r)
  Step-set_once (guard t w c e) r h = grind (arith, set_once)
  Step-set_once (interrupted w e) r h = grind (arith, set_once)

  Step-pending :
      {u : Await}
      → Step timeout what s u
      → u.cell ≡ pending
      → (is_published u.waiter ≡ false) × (u.coroutine ≡ awaiting)
  unfolding post publish cancel
  Step-pending (fetched p w e) h = grind (arith, pending_before)
  Step-pending (publishes p w e) h = grind (arith, pending_before)
  Step-pending (resumes p w c e) h = grind (arith, pending_before)
  Step-pending (guard t w c e) h = grind (arith, pending_before)
  Step-pending (interrupted w e) h = grind (arith, pending_before)

  Step-cancelled : {u : Await} → Step timeout what s u → u.cell ≡ cancelled → u.coroutine ≢ awaiting
  unfolding publish cancel
  Step-cancelled (fetched p w e) h = grind (arith, cancelled_after)
  Step-cancelled (publishes p w e) h = grind (arith, cancelled_after)
  Step-cancelled (resumes p w c e) h = grind (arith, cancelled_after)
  Step-cancelled (guard t w c e) h = grind (arith, cancelled_after)
  Step-cancelled (interrupted w e) h = grind (arith, cancelled_after)

  pub Step-Inv : {u : Await} → Step timeout what s u → Inv timeout what u
  Step-Inv st = record {
    valid = Step-valid st;
    set_once = Step-set_once st;
    pending_before = Step-pending st;
    cancelled_after = Step-cancelled st;
    honest = Step-honest st;
  }

-- In every order of the steps: `result_future` is never completed twice and never after its
-- cancellation; it is pending only while the coroutine waits; and what the coroutine returns is the
-- outcome of the waiter or the timeout error of the guard, the latter only under a timeout.
pub Reach-Inv :
    {timeout : Option ℕ} {what : String} {s : Await} → Reach timeout what s → Inv timeout what s
Reach-Inv {timeout} {what} here = start-Inv timeout what
Reach-Inv (next r st) = Step-Inv (Reach-Inv r) st
