-- ===== src/Runtime/Keeping.antt =====
-- Invariants of statements, one rule for each way to put statements together, and what an invariant has to
-- allow so that callbacks keep it.
use py_obscura_proto.Base.{Option, none, some, Bool, true, false, ◌≡◌, if-elim, if◌then◌else◌}
use py_obscura_proto.Runtime.Data.{Exc, is_exception, Result, ok, raised, Fn, Args}
use py_obscura_proto.Runtime.Calls.{Call, future_get}
use py_obscura_proto.Runtime.State.{World, Env}
use py_obscura_proto.Runtime.Monad.{
  Exec, continue, handle_with, try_except, try_finally, ◌>>=◌, pure, raise, native_call,
}

-- `m` keeps `P`, whether it returns or raises.
pub record Keeps {A : Type 0} (P : World → Type 0) (m : Exec A) : Type 0 where
  pub at : (w : World) → P w → P (m w).1

module _ {P : World → Type 0} {A : Type 0} where
  pub Keeps-pure : (a : A) → Keeps P (pure a)
  Keeps-pure a = record { at = λ w h. h }

  pub Keeps-raise : (e : Exc) → Keeps P (raise {A = A} e)
  Keeps-raise e = record { at = λ w h. h }

  pub Keeps-result : (r : Result A) → Keeps P (λ w. (r, w))
  Keeps-result r = record { at = λ w h. h }

  pub Keeps-if :
      (b : Bool) (m n : Exec A) → Keeps P m → Keeps P n → Keeps P (λ w. if b then m w else n w)
  Keeps-if b m n km kn = record {
    at = λ w h. if-elim (λ (p : Result A × World). P p.1) b (km.at w h) (kn.at w h);
  }

  Keeps-handle_with :
      (handler : Exc → Exec A) (r : Result A)
      → ((e : Exc) → Keeps P (handler e))
      → Keeps P (handle_with handler r)
  Keeps-handle_with handler (ok a) kh = record { at = λ w h. h }
  Keeps-handle_with handler (raised e) kh = record {
    at = λ w h. if-elim (λ (p : Result A × World). P p.1) (is_exception e) ((kh e).at w h) h;
  }

  pub Keeps-try_except :
      (m : Exec A) (handler : Exc → Exec A)
      → Keeps P m
      → ((e : Exc) → Keeps P (handler e))
      → Keeps P (try_except m handler)
  Keeps-try_except m handler km kh = record {
    at = λ w h. let (r, u) = m w in (Keeps-handle_with handler r kh).at u (km.at w h);
  }

  pub Keeps-try_finally :
      (m : Exec A) (cleanup : Exec (Unit {0}))
      → Keeps P m
      → Keeps P cleanup
      → Keeps P (try_finally m cleanup)
  Keeps-try_finally m cleanup km kc = record { at = λ w h. kc.at (m w).1 (km.at w h) }

  -- A statement that reads the state first.
  pub Keeps-reads : (m : World → Exec A) → ((v : World) → Keeps P (m v)) → Keeps P (λ w. m w w)
  Keeps-reads m km = record { at = λ w h. (km w).at w h }

module _ {P : World → Type 0} {A B : Type 0} where
  Keeps-continue :
      (r : Result A) (k : A → Exec B) → ((a : A) → Keeps P (k a)) → Keeps P (continue r k)
  Keeps-continue (ok a) k kk = kk a
  Keeps-continue (raised e) k kk = record { at = λ w h. h }

  pub Keeps-bind :
      (m : Exec A) (k : A → Exec B) → Keeps P m → ((a : A) → Keeps P (k a)) → Keeps P (m >>= k)
  Keeps-bind m k km kk = record {
    at = λ w h. let (r, u) = m w in (Keeps-continue r k kk).at u (km.at w h);
  }

module _ {P : World → Type 0} {X A : Type 0} where
  pub Keeps-option :
      (o : Option X) (m : Exec A) (k : X → Exec A)
      → Keeps P m
      → ((x : X) → Keeps P (k x))
      → Keeps {A = A} P (λ w. elim o [ none ↦ m w | some x ↦ k x w ])
  Keeps-option none m k km kk = km
  Keeps-option (some x) m k km kk = kk x

  pub Keeps-outcome :
      (r : Result X) (m : Exc → Exec A) (k : X → Exec A)
      → ((e : Exc) → Keeps P (m e))
      → ((x : X) → Keeps P (k x))
      → Keeps {A = A} P (λ w. elim r [ raised e ↦ m e w | ok x ↦ k x w ])
  Keeps-outcome (raised e) m k km kk = km e
  Keeps-outcome (ok x) m k km kk = kk x

pub ruleset keeps_rules =
    (Keeps-pure, Keeps-raise, Keeps-result, Keeps-bind, Keeps-try_except, Keeps-try_finally)

-- `u` differs from `w` at most in what is logged, warned, cancelled and scheduled, in the time, in the
-- objects, and in what user functions keep.
pub record IsAside (w u : World) : Type 0 where
  pub same_flags : u.in_callback ≡ w.in_callback
  pub same_pools : u.executors ≡ w.executors
  pub same_consumed : u.consumed ≡ w.consumed
  pub same_calls : u.calls ≡ w.calls

-- `get()` of a future that the bindings made.
abbrev pub is_get : Call → Bool
is_get (future_get f) = true
is_get _ = false

-- An invariant that is about flags, pools and futures only, that user functions keep, and that no call of
-- the bindings but `get()` can break.
pub record IsStable (P : World → Type 0) (env : Env) : Type 0 where
  pub aside : (w u : World) → IsAside w u → P w → P u
  pub native : (c : Call) → is_get c ≡ false → Keeps P (native_call env c)
  pub calls : (f : Fn) (args : Args) → Keeps P (env.call f args)

module _ {P : World → Type 0} {env : Env} (stable : IsStable P env) where
  -- A statement that only writes what the invariant is not about.
  pub Keeps-aside : {A : Type 0} (m : Exec A) → ((w : World) → IsAside w (m w).1) → Keeps P m
  Keeps-aside m only = record { at = λ w h. stable.aside w (m w).1 (only w) h }
