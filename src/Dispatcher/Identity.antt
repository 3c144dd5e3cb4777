-- ===== src/Dispatcher/Identity.antt =====
-- The identity check fails closed.
use py_obscura_proto.Base.{
  ℕ, ◌≡◌, ◌⊎◌, refl, true, false, Option, none, some, arith, inl, inr, Bool-cases, ◌∷◌,
}
use py_obscura_proto.Runtime.{
  World, Env, Exc, Result, Result-cases, ok, raised, Value, bool_value, coroutine_value, Fn, Args,
  identity, Future, truth, continue, ◌>>=◌, Exec,
}
use py_obscura_proto.Polling.{is_done, wait_future_with_polling}
use py_obscura_proto.Polling.Frame.{wait-ok}
use py_obscura_proto.Dispatcher.{invoke, guarded, report, dispatch_identity}
use py_obscura_proto.Dispatcher.Results.{with_flag, is_coroutine}

-- The verdict of the user's handler, which returned at `u`: a value that is true and no coroutine; or a
-- coroutine whose future has returned a value that is true by the time at which the wait for it ends.
abbrev pub Approved : Env → Option ℕ → ℕ → Result Value → World → Type 0
Approved env loop timeout r u =
    ((v : Value) × (r ≡ ok v) × (is_coroutine v ≡ false) × (truth env v ≡ true))
    ⊎ ((c l : ℕ) × (future : Future) × (v : Value) × (r ≡ ok (coroutine_value c))
        × (loop ≡ some l)
        × (env.future_of c l u ≡ ok future)
        × (future.outcome ≡ ok v)
        × (is_done future
              (wait_future_with_polling env future timeout
                (record u { scheduled = (c, l) ∷ u.scheduled })).1.now
            ≡ true)
        × (truth env v ≡ true))

module _ (env : Env) where
  dispatch_identity-Approved :
      (loop : Option ℕ) (timeout : ℕ) (r v : Value) (u : World)
      → (dispatch_identity env loop timeout r u).0 ≡ ok v
      → (v ≡ bool_value false) ⊎ ((v ≡ bool_value true) × Approved env loop timeout (ok r) u)
  unfolding dispatch_identity
  dispatch_identity-Approved none timeout (coroutine_value c) v u h = absurd (ground arith)
  dispatch_identity-Approved (some l) timeout (coroutine_value c) v u h =
      elim (Result-cases (env.future_of c l u)) [
        | inr (e, q) ↦ absurd (ground arith)
        | inl (future, q) ↦
            let w = record u { scheduled = (c, l) ∷ u.scheduled } in
            elim (Result-cases (wait_future_with_polling env future timeout w).0) [
              | inr (e, x) ↦ absurd (ground arith)
              | inl (a, x) ↦ elim (Bool-cases (truth env a)) [
                | inl accepts ↦ inr (
                  ground arith,
                  inr (
                      let (returned, done) = wait-ok env future timeout w a x in
                      (c, l, future, a, refl, refl, q, returned, done, accepts)),
                )
                | inr rejects ↦ inl (ground arith)
              ]
            ]
      ]
  dispatch_identity-Approved none timeout r v u h = elim (Bool-cases (truth env r)) [
    | inl accepts ↦ inr (ground arith, inl (r, refl, refl, accepts))
    | inr rejects ↦ inl (ground arith)
  ]
  dispatch_identity-Approved (some l) timeout r v u h = elim (Bool-cases (truth env r)) [
    | inl accepts ↦ inr (ground arith, inl (r, refl, refl, accepts))
    | inr rejects ↦ inl (ground arith)
  ]

report-ok :
    (env : Env) (d : ℕ) (fallback v : Value) (e : Exc) (w : World)
    → (report env d fallback e w).0 ≡ ok v
    → v ≡ fallback
unfolding report
report-ok env d fallback v e w h = ground arith

-- What a guarded callback returns is its own result, or the fallback.
guarded-ok :
    (env : Env) (t d : ℕ) (fallback v : Value) (m : Exec Value) (w : World)
    → (guarded env t d fallback m w).0 ≡ ok v
    → ((m (with_flag t true w)).0 ≡ ok v) ⊎ (v ≡ fallback)
unfolding guarded
guarded-ok env t d fallback v m w h = elim (Result-cases (m (with_flag t true w)).0) [
  | inl (a, q) ↦ inl (ground arith)
  | inr (e, q) ↦ inr (ground (arith, report-ok env d fallback v e (m (with_flag t true w)).1))
]

-- The identity wrapper answers `True` only where the user's handler approved the client: it returned a
-- true value, or its coroutine was scheduled and has returned one when the wait for it ends. Where the
-- handler raises, cannot be scheduled, fails, or has not answered by then, the answer is `False` or an
-- exception; and no answer is anything but a Boolean.
pub identity_fails_closed :
    (env : Env) (t d : ℕ) (handler : Fn) (loop : Option ℕ) (timeout : ℕ) (args : Args) (w : World)
    (v : Value)
    → (invoke env t (identity d handler loop timeout) args w).0 ≡ ok v
    → let (r, u) = env.call handler args (with_flag t true w) in
      (v ≡ bool_value false) ⊎ ((v ≡ bool_value true) × Approved env loop timeout r u)
unfolding invoke
identity_fails_closed env t d handler loop timeout args w v h =
    elim (guarded-ok env t d (bool_value false) v
      (env.call handler args >>= dispatch_identity env loop timeout) w h) [
        | inr q ↦ inl q
        | inl q ↦
            go (env.call handler args (with_flag t true w)).0
              (env.call handler args (with_flag t true w)).1 q
      ]
  where
    go :
        (r : Result Value) (u : World)
        → (continue r (dispatch_identity env loop timeout) u).0 ≡ ok v
        → (v ≡ bool_value false) ⊎ ((v ≡ bool_value true) × Approved env loop timeout r u)
    go (ok r) u q = dispatch_identity-Approved env loop timeout r v u q
    go (raised e) u q = absurd (ground arith)
