-- ===== src/Polling/Frame.antt =====
-- What the polling loop leaves alone, and what it can return.
use py_obscura_proto.Base.{
  ℕ, zero, suc, ◌+◌, ◌-◌, min, ◌≡◌, refl, arith, leb, if-elim, true, Bool-cases, inl, inr,
}
use py_obscura_proto.Runtime.{
  World, Env, Exc, Result, ok, Value, Future, timeout_error, IsAside, did_not_complete, raise, ◌>>◌,
}
use py_obscura_proto.Polling.{
  poll, sleep, callback_poll_interval, is_done, wait_future_with_polling, abandon_timed_out_future,
}

-- The dispatchers are as before, and what a wait is not about.
abbrev Same : World → World → Type 0
Same w u = (u.dispatchers ≡ w.dispatchers) × IsAside w u

aside :
    {w u : World}
    → u.in_callback ≡ w.in_callback
    → u.executors ≡ w.executors
    → u.consumed ≡ w.consumed
    → u.calls ≡ w.calls
    → IsAside w u
aside a b c d = record { same_flags = a; same_pools = b; same_consumed = c; same_calls = d }

module _ (env : Env) (future : Future) where
  give_up-Same :
      (e : Exc) (w : World) → Same w ((abandon_timed_out_future future >> raise {A = Value} e) w).1
  unfolding abandon_timed_out_future
  give_up-Same e w = ground arith

  poll-Same :
      (fuel timeout deadline : ℕ) (w : World) → Same w (poll fuel env future timeout deadline w).1
  unfolding poll
  poll-Same zero timeout deadline w = (refl, aside refl refl refl refl)
  poll-Same (suc fuel) timeout deadline w =
      if-elim (λ (r : Result Value × World). Same w r.1) (is_done future w.now)
        (refl, aside refl refl refl refl)
        (if-elim (λ (r : Result Value × World). Same w r.1) (leb deadline w.now)
          (give_up-Same (timeout_error (did_not_complete timeout)) w)
          (let u = sleep env (min callback_poll_interval (deadline - w.now)) w in
            let (kept, ih) = poll-Same fuel timeout deadline u in
            (kept, aside ih.same_flags ih.same_pools ih.same_consumed ih.same_calls)))

  -- Waiting leaves the dispatchers alone.
  pub dispatchers-wait :
      (timeout : ℕ) (w : World)
      → (wait_future_with_polling env future timeout w).1.dispatchers ≡ w.dispatchers
  unfolding wait_future_with_polling
  dispatchers-wait timeout w = (poll-Same (suc timeout) timeout _ w).0

  -- And the flags, the pools, the registry and the calls.
  pub wait-IsAside :
      (timeout : ℕ) (w : World) → IsAside w (wait_future_with_polling env future timeout w).1
  unfolding wait_future_with_polling
  wait-IsAside timeout w = (poll-Same (suc timeout) timeout _ w).1

  -- The wait has a value: the one of the future, which is done.
  abbrev IsAnswer : Value → Result Value × World → Type 0
  IsAnswer v r = r.0 ≡ ok v → (future.outcome ≡ ok v) × (is_done future r.1.now ≡ true)

  give_up-IsAnswer :
      (e : Exc) (w : World) (v : Value)
      → IsAnswer v ((abandon_timed_out_future future >> raise {A = Value} e) w)
  unfolding abandon_timed_out_future
  give_up-IsAnswer e w v h = absurd (ground arith)

  done-IsAnswer :
      (w : World) (v : Value) → is_done future w.now ≡ true → IsAnswer v (future.outcome, w)
  done-IsAnswer w v done h = (h, done)

  poll-IsAnswer :
      (fuel timeout deadline : ℕ) (w : World) (v : Value)
      → IsAnswer v (poll fuel env future timeout deadline w)
  unfolding poll
  poll-IsAnswer zero timeout deadline w v = λ h. ground arith
  poll-IsAnswer (suc fuel) timeout deadline w v = elim (Bool-cases (is_done future w.now)) [
    | inl done ↦ rw (done) (done-IsAnswer w v done)
    | inr not_done ↦ rw (not_done) (
        if-elim (IsAnswer v) (leb deadline w.now)
          (give_up-IsAnswer (timeout_error (did_not_complete timeout)) w v)
          (poll-IsAnswer fuel timeout deadline
            (sleep env (min callback_poll_interval (deadline - w.now)) w) v))
  ]

  -- A wait returns only what the future returned, and only when it is done.
  pub wait-ok :
      (timeout : ℕ) (w : World) (v : Value)
      → let (r, u) = wait_future_with_polling env future timeout w in
        r ≡ ok v → (future.outcome ≡ ok v) × (is_done future u.now ≡ true)
  unfolding wait_future_with_polling
  wait-ok timeout w v h = poll-IsAnswer (suc timeout) timeout (w.now + timeout) w v h
