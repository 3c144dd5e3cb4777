-- ===== src/Response/SingleUse.antt =====
-- `get()` is called at most once on each future.
use py_obscura_proto.Base.{
  ℕ, suc, ◌≤◌, ◌<◌, ◌≡◌, true, List, [], ◌∷◌, contains, ◌==◌, if◌then◌else◌, arith,
}
use py_obscura_proto.Runtime.{World, Env, Call, future_get, raised, logic_error, text}
use py_obscura_proto.Response.{consume_cpp_future}

-- How often `get()` was called on `f`.
abbrev pub gets : ℕ → List Call → ℕ
gets f [] = 0
gets f (future_get g ∷ cs) = if f == g then suc (gets f cs) else gets f cs
gets f (_ ∷ cs) = gets f cs

pub record IsSingleUse (w : World) : Type 0 where
  pub at_most_once : (f : ℕ) → gets f w.calls ≤ 1
  pub registered : (f : ℕ) → 0 < gets f w.calls → contains f w.consumed ≡ true

-- Consuming any future, for the first time or again, leaves every future with at most one `get()`
-- and every future with one in the registry.
pub consume-IsSingleUse :
    (env : Env) (f : ℕ) (w : World) → IsSingleUse w → IsSingleUse (consume_cpp_future env f w).1
unfolding consume_cpp_future
consume-IsSingleUse env f w s = record {
  at_most_once = λ g. ground (arith, s.at_most_once g, s.registered g);
  registered = λ g h. ground (arith, s.at_most_once g, s.registered g);
}

-- After a future was consumed, whatever its `get()` did, consuming it again raises `LogicError` and
-- changes nothing.
pub consume_twice :
    (env : Env) (f : ℕ) (w : World)
    → let w' = (consume_cpp_future env f w).1 in
      consume_cpp_future env f w' ≡ (
        raised (logic_error (text "CppPayloadFuture is single-use: get() may only be called once")),
        w',
      )
unfolding consume_cpp_future
consume_twice env f w = ground arith
