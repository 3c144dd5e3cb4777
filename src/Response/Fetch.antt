-- ===== src/Response/Fetch.antt =====
-- The waiter on a request worker: it ends, it does not hold its worker long after the deadline, and it
-- calls `get()` only on a future that has just said that it is ready.
use mathlib.Core.Option
use py_obscura_proto.Base.{
  ℕ, ◌/◌, ℤ, pos, zero, suc, ◌+◌, ◌-◌, ◌≤◌, ◌<◌, min, ◌≡◌, ◌≢◌, ◌⊎◌, inl, inr, String, true, some,
  none, List, ◌∷◌, Option, arith, refl, Bool-cases, ◌||◌, leb, ◌↔◌, negsuc,
}
use py_obscura_proto.Runtime.{
  World, Env, Call, Result-cases, raised, diverged, future_ready, future_get, truth, native_call,
}
use py_obscura_proto.Polling.{sleep, callback_poll_interval}
use py_obscura_proto.Response.{
  fetch_loop, consume_cpp_future, is_ready, effective_timeout, request_timeout_ms,
}

module _ (env : Env) (f : ℕ) (what : String) (timeout : ℕ) where
  -- The world of the next round.
  abbrev asked : World → World
  asked w = (native_call env (future_ready f) w).1

  abbrev woken : ℕ → World → World
  woken deadline w = sleep env (min callback_poll_interval (deadline - w.now)) (asked w)

  module _ (answers : (cs : List Call) (c : Call) → env.reply cs c ≢ raised diverged) where
    -- With a deadline, more rounds than microseconds are left are enough: the waiter ends. No answer of
    -- the bindings is taken to be the mark of an exhausted loop.
    pub fetch_ends :
        (fuel deadline : ℕ) (w : World)
        → deadline - w.now < fuel
        → (fetch_loop fuel env f what timeout (some deadline) w).0 ≢ raised diverged
    unfolding fetch_loop
    fetch_ends zero deadline w enough = absurd (omega arith)
    fetch_ends (suc fuel) deadline w enough = ground (
      arith,
      fetch_ends fuel deadline (woken deadline w),
      answers w.calls (future_ready f),
      answers (future_ready f ∷ w.calls) (future_get f),
    )

  module _ (δ : ℕ) (punctual : (n : ℕ) → env.late n ≤ δ) where
    -- If a sleep is never more than `δ` late, a waiter that starts by its deadline has left its worker
    -- by the deadline and `δ`, whether or not the future ever becomes ready.
    pub fetch-le-deadline :
        (fuel deadline : ℕ) (w : World)
        → w.now ≤ deadline + δ
        → (fetch_loop fuel env f what timeout (some deadline) w).1.now ≤ deadline + δ
    unfolding fetch_loop
    fetch-le-deadline zero deadline w before = before
    fetch-le-deadline (suc fuel) deadline w before =
        ground (arith, punctual w.now, fetch-le-deadline fuel deadline (woken deadline w))

  -- The last calls of the bindings were a `ready()` that said yes and a `get()`, or a `ready()`.
  abbrev pub LastCalls : List Call → Type 0
  LastCalls calls =
      (cs : List Call) × (((calls ≡ future_get f ∷ future_ready f ∷ cs)
          × (is_ready env (env.reply cs (future_ready f)) ≡ true))
        ⊎ (calls ≡ future_ready f ∷ cs))

  consume_calls :
      (w : World) (cs : List Call)
      → w.calls ≡ future_ready f ∷ cs
      → is_ready env (env.reply cs (future_ready f)) ≡ true
      → LastCalls (consume_cpp_future env f w).1.calls
  unfolding consume_cpp_future
  consume_calls w cs e yes_ready = (cs, ground arith)

  -- However the waiter ends, the last calls of the bindings are a `ready()` that answered yes and then a
  -- `get()`, or a `ready()`: a future that has not just said that it is ready is not consumed.
  pub fetch_calls :
      (fuel : ℕ) (deadline : Option ℕ) (w : World)
      → LastCalls (fetch_loop (suc fuel) env f what timeout deadline w).1.calls
  unfolding fetch_loop
  fetch_calls zero none w = elim (Bool-cases (is_ready env (env.reply w.calls (future_ready f)))) [
    | inl says_yes ↦ (w.calls, ground arith)
    | inr says_no ↦ (w.calls, ground arith)
  ]
  fetch_calls zero (some d) w = (w.calls, ground arith)
  fetch_calls (suc fuel) none w = elim (Result-cases (env.reply w.calls (future_ready f))) [
    | inr (e, h) ↦ (w.calls, ground arith)
    | inl (v, h) ↦ elim (Bool-cases (truth env v)) [
      | inl says_yes ↦ (w.calls, ground arith)
      | inr says_no ↦
          let (cs, last) = fetch_calls fuel none (sleep env callback_poll_interval (asked w)) in
          (cs, ground arith)
    ]
  ]
  fetch_calls (suc fuel) (some d) w = elim (Result-cases (env.reply w.calls (future_ready f))) [
    | inr (e, h) ↦ (w.calls, ground arith)
    | inl (v, h) ↦ elim (Bool-cases (truth env v || leb d w.now)) [
      | inl stops ↦ (w.calls, ground arith)
      | inr goes_on ↦ let (cs, last) = fetch_calls fuel (some d) (woken d w) in (cs, ground arith)
    ]
  ]

-- The timeout in milliseconds that goes to the C++ layer and the timeout of the Python-side guard come
-- from one value: neither is there for `None` and for what is not positive, and otherwise the first is
-- the second in whole milliseconds.
pub request_timeout_ms_lem :
    (t : Option ℤ)
    → (request_timeout_ms t ≡ Option.map (λ n. n / 1000) (effective_timeout t))
      × ((effective_timeout t ≢ none) ↔ ((n : ℕ) × (t ≡ some (pos n)) × (0 < n)))
unfolding request_timeout_ms effective_timeout
request_timeout_ms_lem none = (refl, (λ h. absurd (h refl), λ h. absurd (ground arith)))
request_timeout_ms_lem (some (pos zero)) =
    (refl, (λ h. absurd (h refl), λ (n, e, q). absurd (ground arith)))
request_timeout_ms_lem (some (pos (suc m))) =
    (refl, (λ h. (suc m, refl, omega arith), λ h. ground arith))
request_timeout_ms_lem (some (negsuc m)) =
    (refl, (λ h. absurd (h refl), λ h. absurd (ground arith)))
