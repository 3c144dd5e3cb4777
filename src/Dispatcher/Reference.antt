-- ===== src/Dispatcher/Reference.antt =====
-- The wrapper of a callback with a result against a reference in one piece.
use py_obscura_proto.Base.{
  ℕ, ◌≡◌, refl, ◌∙◌, ap, true, false, Option, none, some, [], ◌∷◌, arith, if◌then◌else◌, inl, inr,
  Option-cases,
}
use py_obscura_proto.Runtime.{
  World, Env, Exec, Exc, is_exception, Result, Result-cases, ok, raised, Value, coroutine_value,
  none_value, error_value, Fn, Args, with_args, Body, with_result, pure, handle_with, continue,
  ◌>>=◌,
}
use py_obscura_proto.Polling.{wait_future_with_polling}
use py_obscura_proto.Polling.Frame.{dispatchers-wait}
use py_obscura_proto.Dispatcher.{invoke, report, run_coroutine_threadsafe, dispatch_and_wait}
use py_obscura_proto.Dispatcher.Bodies.{run_body}
use py_obscura_proto.Dispatcher.Results.{with_flag}
use py_obscura_proto.Dispatcher.Errors.{returning, report_lem}

-- The error handler that is registered at `d` in this world, if there is one, raises no `Exception`.
abbrev pub HasQuietHandler : Env → ℕ → World → Type 0
HasQuietHandler env d w =
    (h : Fn)
    → (w.dispatchers d).error_handler ≡ some h
    → (given : Args) (u : World) (e : Exc) → (env.call h given u).0 ≡ raised e
    → is_exception e ≡ false

module _ (env : Env) (d : ℕ) where
  -- A coroutine is scheduled and waited for; any other value is the result.
  abbrev pub settle : ℕ → ℕ → Value → Exec Value
  settle loop timeout (coroutine_value c) = do
    future ← run_coroutine_threadsafe env c loop
    wait_future_with_polling env future timeout
  settle loop timeout v = pure v

  -- What C++ gets for the outcome of the callback: an `Exception` goes to the error handler, if there is
  -- one, and then the answer is `None`; any other outcome is the answer.
  abbrev pub answer_for : Option Fn → Result Value → World → Result Value × World
  answer_for handler (ok v) w = (ok v, w)
  answer_for none (raised e) w = (raised e, w)
  answer_for (some h) (raised e) w =
      if is_exception e
      then (let (r, u) = env.call h (with_args (error_value e ∷ [])) w in
          (returning none_value r, u))
      else (raised e, w)

  handled : Result Value → World → Result Value × World
  handled r w = handle_with (report env d none_value) r w

  handled_lem :
      (r : Result Value) (w : World) → handled r w ≡ answer_for (w.dispatchers d).error_handler r w
  unfolding handled report
  handled_lem (ok v) w = refl
  handled_lem (raised e) w = elim (Option-cases (w.dispatchers d).error_handler) [
    | inl q ↦ ground arith
    | inr (h, q) ↦ ground (arith, report_lem env d h none_value e w q)
  ]

  handled_twice :
      (r : Result Value) (w : World)
      → HasQuietHandler env d w
      → (let (r', w') = handled r w in handled r' w') ≡ handled r w
  unfolding handled report
  handled_twice (ok v) w quiet = refl
  handled_twice (raised e) w quiet = elim (Option-cases (w.dispatchers d).error_handler) [
    | inl q ↦ ground arith
    | inr (h, q) ↦
        let given = with_args (error_value e ∷ []) in
        elim (Result-cases (env.call h given w).0) [
          | inl (v, x) ↦ ground (arith, report_lem env d h none_value e w q)
          | inr (e', x) ↦
              ground (arith, report_lem env d h none_value e w q, quiet h q given w e' x)
        ]
  ]

  -- The inner `try` changes nothing, where the outer one has the same handler.
  handled-wait :
      (loop timeout : ℕ) (v : Value) (w : World)
      → HasQuietHandler env d w
      → (let (r, u) = dispatch_and_wait env d loop timeout v w in handled r u)
        ≡ (let (r, u) = settle loop timeout v w in handled r u)
  unfolding dispatch_and_wait handled
  handled-wait loop timeout (coroutine_value c) w quiet =
      elim (Result-cases (env.future_of c loop w)) [
        | inl (future, x) ↦
            let u = record w { scheduled = (c, loop) ∷ w.scheduled } in
            let (r, u') = wait_future_with_polling env future timeout u in
            let same : u'.dispatchers ≡ w.dispatchers = dispatchers-wait env future timeout u in
            rw x (handled_twice r u' (λ h q. quiet h (ground (arith, same, q))))
        | inr (e, x) ↦ ground arith
      ]
  handled-wait loop timeout _ w quiet = refl

  handled-bind :
      (loop timeout : ℕ) (r : Result Value) (w : World)
      → HasQuietHandler env d w
      → (let (r', w') = continue r (dispatch_and_wait env d loop timeout) w in handled r' w')
        ≡ (let (r', w') = continue r (settle loop timeout) w in handled r' w')
  handled-bind loop timeout (ok v) w quiet = handled-wait loop timeout v w quiet
  handled-bind loop timeout (raised e) w quiet = refl

-- The reference: run the callback with the flag up, schedule a coroutine and wait for it, look at the
-- outcome once, and take the flag down.
abbrev pub reference : Env → ℕ → ℕ → Body → ℕ → ℕ → Args → Exec Value
reference env t d body loop timeout args w =
    let (r, u) = (run_body env body args >>= settle env d loop timeout) (with_flag t true w) in
    let (r', u') = answer_for env d (u.dispatchers d).error_handler r u in
    (r', with_flag t false u')

-- Where the error handler that the dispatcher has when the callback has run, if there is one, raises no
-- `Exception`, the wrapper of a callback with a result does what the reference does, on every path: the
-- callback returned, raised, was scheduled or not, completed, failed or timed out, with an error handler
-- or without. The inner `try` of the source adds nothing.
pub invoke-reference :
    (env : Env) (t d : ℕ) (body : Body) (loop timeout : ℕ) (args : Args) (w : World)
    → HasQuietHandler env d (run_body env body args (with_flag t true w)).1
    → invoke env t (with_result d body loop timeout) args w
      ≡ reference env t d body loop timeout args w
unfolding invoke handled
invoke-reference env t d body loop timeout args w quiet =
    let (b, u) = run_body env body args (with_flag t true w) in
    let (r, u') = continue b (settle env d loop timeout) u in
    ap (λ (p : Result Value × World). (p.0, with_flag t false p.1))
      (handled-bind env d loop timeout b u quiet ∙ handled_lem env d r u')
