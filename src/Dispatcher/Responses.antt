-- ===== src/Dispatcher/Responses.antt =====
-- What C++ gets for a request, from the wrapper that `wrap` makes of an unpacking request handler.
use py_obscura_proto.Base.{
  ℕ, ◌≡◌, ◌⊎◌, refl, Bool, true, false, some, arith, inl, inr, Option-cases, Bool-cases, [], ◌∷◌,
}
use py_obscura_proto.Runtime.{
  World, Env, Exc, Exec, is_exception, Result, Result-cases, ok, raised, Value, payload_value,
  error_payload, coroutine_value, error_value, none_value, Fn, Args, with_args, with_result,
  request_unpacking, Future, continue, ◌>>=◌,
}
use py_obscura_proto.Polling.{wait_future_with_polling}
use py_obscura_proto.Polling.Frame.{wait-ok}
use py_obscura_proto.Unpack.{run_request_unpacking}
use py_obscura_proto.Unpack.Requests.{is_response, is_response-run_request_unpacking}
use py_obscura_proto.Dispatcher.{invoke, guarded, report, dispatch_and_wait}
use py_obscura_proto.Dispatcher.Bodies.{run_body}
use py_obscura_proto.Dispatcher.Results.{with_flag}

abbrev pub is_payload : Value → Bool
is_payload (payload_value p) = true
is_payload (error_payload e) = true
is_payload _ = false

module _ (env : Env) (d loop timeout : ℕ) where
  abbrev scheduled_at : ℕ → World → World
  scheduled_at c u = record u { scheduled = (c, loop) ∷ u.scheduled }

  -- How the exception `e` comes about, in state `x`: the unpacking wrapper has ended with `r` in state
  -- `u`, and raised it; or its coroutine cannot be scheduled, or the wait for it fails, or the error
  -- handler that is called with this failure raises.
  pub data Failed (u : World) (e : Exc) (x : World) : Result Value → Type 0 where
    unpacking_raised : x ≡ u → Failed u e x (raised e)
    unscheduled :
        (c : ℕ)
        → env.future_of c loop u ≡ raised e
        → x ≡ scheduled_at c u
        → Failed u e x (ok (coroutine_value c))
    wait_failed :
        (c : ℕ) (future : Future)
        → env.future_of c loop u ≡ ok future
        → wait_future_with_polling env future timeout (scheduled_at c u) ≡ (raised e, x)
        → Failed u e x (ok (coroutine_value c))
    handler_failed :
        (c : ℕ) (future : Future) (first : Exc) (y : World) (h : Fn)
        → env.future_of c loop u ≡ ok future
        → wait_future_with_polling env future timeout (scheduled_at c u) ≡ (raised first, y)
        → (y.dispatchers d).error_handler ≡ some h
        → env.call h (with_args (error_value first ∷ [])) y ≡ (raised e, x)
        → Failed u e x (ok (coroutine_value c))

  -- Where C++ can get `v` from, if the unpacking wrapper ended with `r` in state `u`.
  pub data Answer (u : World) (v : Value) (r : Result Value) : Type 0 where
    handed_on : r ≡ ok v → is_payload v ≡ true → Answer u v r
    awaited :
        (c : ℕ) (future : Future)
        → r ≡ ok (coroutine_value c)
        → env.future_of c loop u ≡ ok future
        → future.outcome ≡ ok v
        → Answer u v r
    reported :
        (e : Exc) (x : World) (h : Fn)
        → Failed u e x r
        → is_exception e ≡ true
        → (x.dispatchers d).error_handler ≡ some h
        → v ≡ none_value
        → Answer u v r

  report-registered :
      (e : Exc) (x : World) (v : Value)
      → (report env d none_value e x).0 ≡ ok v
      → (h : Fn) × ((x.dispatchers d).error_handler ≡ some h) × (v ≡ none_value)
  unfolding report
  report-registered e x v r = elim (Option-cases (x.dispatchers d).error_handler) [
    | inl q ↦ absurd (ground arith)
    | inr (h, q) ↦ (h, q, ground arith)
  ]

  -- A plain answer is handed on as it is, and a coroutine is waited for.
  dispatch_and_wait-Answer :
      (r v : Value) (u : World)
      → is_response r ≡ true
      → (dispatch_and_wait env d loop timeout r u).0 ≡ ok v
      → Answer u v (ok r)
  unfolding dispatch_and_wait
  dispatch_and_wait-Answer (coroutine_value c) v u a h =
      elim (Result-cases (env.future_of c loop u)) [
        | inr (e, q) ↦ absurd (ground arith)
        | inl (future, q) ↦
            let m = wait_future_with_polling env future timeout (scheduled_at c u) in
            elim (Result-cases m.0) [
              | inl (b, x) ↦
                  awaited c future refl q
                    (ground (arith, (wait-ok env future timeout (scheduled_at c u) b x).0))
              | inr (e, x) ↦ elim (Bool-cases (is_exception e)) [
                | inr critical ↦ absurd (ground arith)
                | inl caught ↦
                    let (g, registered, nothing) = report-registered e m.1 v (ground arith) in
                    reported e m.1 g (wait_failed c future q (ground arith)) caught registered
                      nothing
              ]
            ]
      ]
  dispatch_and_wait-Answer (payload_value p) v u a h = handed_on (ground arith) (ground arith)
  dispatch_and_wait-Answer (error_payload e) v u a h = handed_on (ground arith) (ground arith)
  dispatch_and_wait-Answer _ v u a h = absurd (ground arith)

  dispatch_and_wait-Failed :
      (r : Value) (e : Exc) (u x : World)
      → dispatch_and_wait env d loop timeout r u ≡ (raised e, x)
      → Failed u e x (ok r)
  unfolding dispatch_and_wait report
  dispatch_and_wait-Failed (coroutine_value c) e u x h =
      elim (Result-cases (env.future_of c loop u)) [
        | inr (g, q) ↦ unscheduled c (ground arith) (ground arith)
        | inl (future, q) ↦
            let m = wait_future_with_polling env future timeout (scheduled_at c u) in
            elim (Result-cases m.0) [
              | inl (b, y) ↦ absurd (ground arith)
              | inr (g, y) ↦ elim (Bool-cases (is_exception g)) [
                | inr critical ↦ wait_failed c future q (ground arith)
                | inl plain ↦ elim (Option-cases (m.1.dispatchers d).error_handler) [
                  | inl unhandled ↦ wait_failed c future q (ground arith)
                  | inr (f, registered) ↦
                      elim (Result-cases (env.call f (with_args (error_value g ∷ [])) m.1).0) [
                        | inl (b, z) ↦ absurd (ground arith)
                        | inr (k, z) ↦
                            handler_failed c future g m.1 f q (ground arith) registered
                              (ground arith)
                      ]
                ]
              ]
            ]
      ]
  dispatch_and_wait-Failed _ e u x h = absurd (ground arith)

  -- A callback that returns, returned itself, or its failure was given to the error handler.
  guarded-Answer :
      (t : ℕ) (v : Value) (m : Exec Value) (w : World)
      → (guarded env t d none_value m w).0 ≡ ok v
      → let (q, x) = m (with_flag t true w) in
        (q ≡ ok v)
        ⊎ ((e : Exc) × (h : Fn) × (q ≡ raised e)
            × (is_exception e ≡ true)
            × ((x.dispatchers d).error_handler ≡ some h)
            × (v ≡ none_value))
  unfolding guarded
  guarded-Answer t v m w h =
      let x = (m (with_flag t true w)).1 in
      elim (Result-cases (m (with_flag t true w)).0) [
        | inl (a, q) ↦ inl (ground arith)
        | inr (e, q) ↦ elim (Bool-cases (is_exception e)) [
          | inr critical ↦ absurd (ground arith)
          | inl caught ↦
              let (g, registered, nothing) = report-registered e x v (ground arith) in
              inr (e, g, q, caught, registered, nothing)
        ]
      ]

  -- Both ways in which the wrapper returns, by how the unpacking wrapper ended.
  answered :
      (r : Result Value) (u : World) (v : Value)
      → ((a : Value) → r ≡ ok a → is_response a ≡ true)
      → let (q, x) = continue r (dispatch_and_wait env d loop timeout) u in
        (q ≡ ok v)
          ⊎ ((e : Exc) × (h : Fn) × (q ≡ raised e)
              × (is_exception e ≡ true)
              × ((x.dispatchers d).error_handler ≡ some h)
              × (v ≡ none_value))
        → Answer u v r
  answered (ok a) u v typed (inl q) = dispatch_and_wait-Answer a v u (typed a refl) q
  answered (ok a) u v typed (inr (e, h, q, caught, registered, nothing)) =
      let x = (dispatch_and_wait env d loop timeout a u).1 in
      reported e x h (dispatch_and_wait-Failed a e u x (ground arith)) (ground arith) registered
        nothing
  answered (raised e) u v typed (inl q) = absurd (ground arith)
  answered (raised g) u v typed (inr (e, h, q, caught, registered, nothing)) =
      reported g u h (unpacking_raised refl) (ground arith) registered nothing

-- What C++ gets for a request from a wrapper that waits, whatever the request handler and the error
-- handler do, if it gets a value at all: the payload, or the error payload, that the unpacking wrapper
-- returned; or the value, of any type, of the coroutine that it returned; or `None`, and this only where
-- the unpacking wrapper, the scheduling, the wait or the error handler called for a failed wait raised an
-- `Exception`, and an error handler was registered then.
pub request_response_typed :
    (env : Env) (t d loop timeout : ℕ) (handler : Fn) (receives_hdl : Bool) (args : Args)
    (w : World) (v : Value)
    → (invoke env t (with_result d (request_unpacking handler receives_hdl) loop timeout) args w).0
      ≡ ok v
    → let (r, u) = run_request_unpacking env handler receives_hdl args (with_flag t true w) in
      Answer env d loop timeout u v r
unfolding invoke run_body
request_response_typed env t d loop timeout handler receives_hdl args w v h =
    let m = run_request_unpacking env handler receives_hdl args in
    let x = m (with_flag t true w) in
    answered env d loop timeout x.0 x.1 v
      (λ a e.
        is_response-run_request_unpacking env handler receives_hdl args a (with_flag t true w) x.1
          (ground arith))
      (guarded-Answer env d loop timeout t v (m >>= dispatch_and_wait env d loop timeout) w h)
