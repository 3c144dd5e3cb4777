-- ===== src/Dispatcher/Errors.antt =====
-- Where the exceptions of a wrapped callback go.
use py_obscura_proto.Base.{
  ℕ, ◌≡◌, refl, ◌∙◌, true, false, none, some, arith, Bool-cases, [], ◌∷◌, inl, inr,
}
use py_obscura_proto.Runtime.{
  World, Env, Exc, is_exception, Result, Result-cases, ok, raised, Value, coroutine_value,
  none_value, error_value, Fn, Args, with_args, Body, sync_wrapped, fire_and_forget, with_result,
  Future, Exec, try_except, continue, ◌>>=◌,
}
use py_obscura_proto.Polling.{wait_future_with_polling}
use py_obscura_proto.Polling.Frame.{dispatchers-wait}
use py_obscura_proto.Dispatcher.{invoke, guarded, report, dispatch_and_forget, dispatch_and_wait}
use py_obscura_proto.Dispatcher.Bodies.{run_body}
use py_obscura_proto.Dispatcher.Results.{with_flag}

-- An error handler `h` that returns whatever it is called with, and stays registered at `d` while the
-- callback runs from `w`.
pub record HasCalmHandler (env : Env) (d : ℕ) (body : Body) (args : Args) (h : Fn) (w : World)
    : Type 0 where
  pub registered : ((run_body env body args w).1.dispatchers d).error_handler ≡ some h
  pub calm : (given : Args) (w : World) → (v : Value) × ((env.call h given w).0 ≡ ok v)

-- The result is not an exception that `except Exception` would catch.
abbrev pub IsContained : Result Value → Type 0
IsContained r = (e : Exc) → r ≡ raised e → is_exception e ≡ false

module _ (env : Env) (t d : ℕ) (h : Fn)
    (calm : (given : Args) (w : World) → (v : Value) × ((env.call h given w).0 ≡ ok v)) where
  report_calm :
      (fallback : Value) (e : Exc) (w : World)
      → (w.dispatchers d).error_handler ≡ some h
      → (report env d fallback e w).0 ≡ ok fallback
  unfolding report
  report_calm fallback e w q = let (v, r) = calm (with_args (error_value e ∷ [])) w in ground arith

  guarded_calm :
      (fallback : Value) (m : Exec Value) (w : World)
      → ((e : Exc)
          → (m (with_flag t true w)).0 ≡ raised e
          → is_exception e ≡ true
          → ((m (with_flag t true w)).1.dispatchers d).error_handler ≡ some h)
      → IsContained (guarded env t d fallback m w).0
  unfolding guarded
  guarded_calm fallback m w q e p = elim (Result-cases (m (with_flag t true w)).0) [
    | inl (v, x) ↦ ground arith
    | inr (e', x) ↦ elim (Bool-cases (is_exception e')) [
      | inl caught ↦
          ground (arith, report_calm fallback e' (m (with_flag t true w)).1 (q e' x caught))
      | inr not_caught ↦ ground arith
    ]
  ]

  dispatchers-forget :
      (loop : ℕ) (v : Value) (w : World)
      → (dispatch_and_forget env d loop v w).1.dispatchers ≡ w.dispatchers
  unfolding dispatch_and_forget
  dispatchers-forget loop (coroutine_value c) w = ground arith
  dispatchers-forget loop _ w = refl

  -- Where the wait raises an exception, the error handler is the one that was there.
  registered-wait :
      (loop timeout : ℕ) (v : Value) (w : World) (e : Exc)
      → (w.dispatchers d).error_handler ≡ some h
      → (dispatch_and_wait env d loop timeout v w).0 ≡ raised e
      → is_exception e ≡ true
      → ((dispatch_and_wait env d loop timeout v w).1.dispatchers d).error_handler ≡ some h
  unfolding dispatch_and_wait
  registered-wait loop timeout (coroutine_value c) w e q r x =
      let u = record w { scheduled = (c, loop) ∷ w.scheduled } in
      elim (Result-cases (env.future_of c loop w)) [
        | inr (e', y) ↦ ground arith
        | inl (future, y) ↦
            let (o, u') = wait_future_with_polling env future timeout u in
            let kept : u'.dispatchers ≡ w.dispatchers = dispatchers-wait env future timeout u in
            elim (Result-cases o) [
              | inl (v, z) ↦ ground arith
              | inr (e', z) ↦ elim (Bool-cases (is_exception e')) [
                | inl caught ↦
                    absurd (ground (arith, report_calm none_value e' u' (ground (arith, kept))))
                | inr not_caught ↦ ground arith
              ]
            ]
      ]
  registered-wait loop timeout _ w e q r x = q

  -- The handler is registered when `m` raises, and so it is when what follows raises.
  registered-bind :
      (m : Exec Value) (k : Value → Exec Value) (w : World)
      → ((m w).1.dispatchers d).error_handler ≡ some h
      → ((v : Value) (u : World) (e : Exc)
          → (u.dispatchers d).error_handler ≡ some h
          → (k v u).0 ≡ raised e
          → is_exception e ≡ true
          → ((k v u).1.dispatchers d).error_handler ≡ some h)
      → (e : Exc) → ((m >>= k) w).0 ≡ raised e
      → is_exception e ≡ true
      → (((m >>= k) w).1.dispatchers d).error_handler ≡ some h
  registered-bind m k w q keep e r x = go (m w).0 (m w).1 q r
    where
      go :
          (a : Result Value) (u : World)
          → (u.dispatchers d).error_handler ≡ some h
          → (continue a k u).0 ≡ raised e
          → ((continue a k u).1.dispatchers d).error_handler ≡ some h
      go (ok v) u p y = keep v u e p y x
      go (raised e') u p y = p

-- With an error handler that returns, and that stays registered while the callback runs, no exception
-- that `except Exception` catches leaves a wrapped callback: not one of the callback, of the
-- scheduling, of the coroutine, or of the wait.
pub invoke-IsContained :
    (env : Env) (t d : ℕ) (h : Fn) (body : Body) (args : Args) (loop timeout : ℕ) (w : World)
    → HasCalmHandler env d body args h (with_flag t true w)
    → IsContained (invoke env t (sync_wrapped d body) args w).0
      × IsContained (invoke env t (fire_and_forget d body loop) args w).0
      × IsContained (invoke env t (with_result d body loop timeout) args w).0
unfolding invoke
invoke-IsContained env t d h body args loop timeout w calm =
    let m = run_body env body args in
    let u = with_flag t true w in
    let forget = dispatch_and_forget env d loop in
    let wait = dispatch_and_wait env d loop timeout in
    (
      guarded_calm env t d h calm.calm none_value m w (λ e r x. calm.registered),
      guarded_calm env t d h calm.calm none_value (m >>= forget) w (
          registered-bind env t d h calm.calm m forget u (calm.registered)
            (λ v v' e q r x. rw (dispatchers-forget env t d h calm.calm loop v v') q)),
      guarded_calm env t d h calm.calm none_value (m >>= wait) w (
          registered-bind env t d h calm.calm m wait u (calm.registered)
            (registered-wait env t d h calm.calm loop timeout)),
    )

abbrev pub returning : Value → Result Value → Result Value
returning fallback (ok v) = ok fallback
returning fallback (raised e) = raised e

pub try_raised :
    (m : Exec Value) (handler : Exc → Exec Value) (w : World) {e : Exc} {u : World}
    → m w ≡ (raised e, u)
    → is_exception e ≡ true
    → try_except m handler w ≡ handler e u
try_raised m handler w h x = rw h (rw x)

-- Without an error handler a guarded callback raises what it raised.
pub guarded_unhandled :
    (env : Env) (t d : ℕ) (fallback : Value) (m : Exec Value) (w : World) {e : Exc} {u : World}
    → m (with_flag t true w) ≡ (raised e, u)
    → is_exception e ≡ true
    → (u.dispatchers d).error_handler ≡ none
    → guarded env t d fallback m w ≡ (raised e, with_flag t false u)
unfolding guarded report
guarded_unhandled env t d fallback m w h x q =
    rw (try_raised m (report env d fallback) (with_flag t true w) h x) (rw (q, report))

pub raised-bind :
    (m : Exec Value) (k : Value → Exec Value) (w : World) {e : Exc} {u : World}
    → m w ≡ (raised e, u)
    → (m >>= k) w ≡ (raised e, u)
raised-bind m k w h = rw h

pub report_lem :
    (env : Env) (d : ℕ) (h : Fn) (fallback : Value) (e : Exc) (w : World)
    → (w.dispatchers d).error_handler ≡ some h
    → report env d fallback e w
      ≡ (let (r, u) = env.call h (with_args (error_value e ∷ [])) w in (returning fallback r, u))
unfolding report
report_lem env d h fallback e w q =
    rw (q, report) (go (env.call h (with_args (error_value e ∷ [])) w))
  where
    go :
        (p : Result Value × World)
        → continue p.0 (λ _ u. (ok fallback, u)) p.1 ≡ (returning fallback p.0, p.1)
    go (ok v, u) = refl
    go (raised x, u) = refl

-- With an error handler a guarded callback that raises gives it the exception.
pub guarded_handled :
    (env : Env) (t d : ℕ) (h : Fn) (fallback : Value) (m : Exec Value) (w : World) {e : Exc}
    {u : World}
    → m (with_flag t true w) ≡ (raised e, u)
    → is_exception e ≡ true
    → (u.dispatchers d).error_handler ≡ some h
    → guarded env t d fallback m w ≡ (
        let (r, v) = env.call h (with_args (error_value e ∷ [])) u in
        (returning fallback r, with_flag t false v))
unfolding guarded
guarded_handled env t d h fallback m w {e} {u} raises x q =
    rw (try_raised m (report env d fallback) (with_flag t true w) raises x)
      (rw (report_lem env d h fallback e u q))

wait_fails :
    (env : Env) (d : ℕ) (h : Fn) (loop timeout c : ℕ) (future : Future) (first second : Exc)
    (u u₁ u₂ : World)
    → env.future_of c loop u ≡ ok future
    → wait_future_with_polling env future timeout (record u { scheduled = (c, loop) ∷ u.scheduled })
      ≡ (raised first, u₁)
    → is_exception first ≡ true
    → (u₁.dispatchers d).error_handler ≡ some h
    → env.call h (with_args (error_value first ∷ [])) u₁ ≡ (raised second, u₂)
    → dispatch_and_wait env d loop timeout (coroutine_value c) u ≡ (raised second, u₂)
unfolding dispatch_and_wait
wait_fails env d h loop timeout c future first second u u₁ u₂ made waited x r called = rw made (
    try_raised (wait_future_with_polling env future timeout) (report env d none_value) _ waited x
    ∙ report_lem env d h none_value first u₁ r
    ∙ rw called)

-- If the coroutine of a request handler fails and the error handler, which stays registered, itself
-- raises, both with an `Exception`, the outer
-- `except` calls the error handler a second time, with its own exception.
pub error_handler_twice :
    (env : Env) (t d : ℕ) (h : Fn) (body : Body) (args : Args) (loop timeout c : ℕ)
    (future : Future) (first second : Exc) (w u u₁ u₂ : World)
    → run_body env body args (with_flag t true w) ≡ (ok (coroutine_value c), u)
    → env.future_of c loop u ≡ ok future
    → wait_future_with_polling env future timeout (record u { scheduled = (c, loop) ∷ u.scheduled })
      ≡ (raised first, u₁)
    → is_exception first ≡ true
    → (u₁.dispatchers d).error_handler ≡ some h
    → env.call h (with_args (error_value first ∷ [])) u₁ ≡ (raised second, u₂)
    → is_exception second ≡ true
    → (u₂.dispatchers d).error_handler ≡ some h
    → let (r, u₃) = env.call h (with_args (error_value second ∷ [])) u₂ in
      invoke env t (with_result d body loop timeout) args w
      ≡ (returning none_value r, with_flag t false u₃)
unfolding invoke
error_handler_twice env t d h body args loop timeout c future first second w u u₁ u₂ ran made waited
      x r called y q =
    let retry = dispatch_and_wait env d loop timeout in
    let m = run_body env body args >>= retry in
    let inner : retry (coroutine_value c) u ≡ (raised second, u₂) =
      wait_fails env d h loop timeout c future first second u u₁ u₂ made waited x r called in
    let outer : m (with_flag t true w) ≡ (raised second, u₂) = rw ran inner in
    rw (try_raised m (report env d none_value) (with_flag t true w) outer y)
      (rw (report_lem env d h none_value second u₂ q))
