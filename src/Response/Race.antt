-- ===== src/Response/Race.antt =====
-- Several threads that consume futures at the same time: the lock makes the look into the registry and the
-- entry one step, and `get()` is called after the lock is released.
use py_obscura_proto.Base.{ℕ, ◌≤◌, ◌≡◌, true, contains, arith}
use py_obscura_proto.Runtime.{World, Env, Exc, ok, raised, future_get, native_call, update}
use py_obscura_proto.Response.{claim_cpp_future}
use py_obscura_proto.Response.SingleUse.{gets, IsSingleUse}

-- Where a thread is in `_consume_cpp_future(f)`: `calling` before the lock, `getting` after it. The others
-- are not in it.
pub data Phase : Type 0 where
  elsewhere : Phase
  calling getting : ℕ → Phase

pub record Threads : Type 0 where
  pub world : World
  pub phase : ℕ → Phase

-- A step of any thread.
pub data Step (env : Env) (s : Threads) : Threads → Type 0 where
  calls_it :
      {u : Threads} (t f : ℕ)
      → s.phase t ≡ elsewhere
      → u ≡ record s { phase = update s.phase t (calling f) }
      → Step env s u
  claims :
      {u : Threads} (t f : ℕ)
      → s.phase t ≡ calling f
      → (claim_cpp_future f s.world).0 ≡ ok tt
      → u
        ≡ record s { world = (claim_cpp_future f s.world).1; phase = update s.phase t (getting f) }
      → Step env s u
  refused :
      {u : Threads} (t f : ℕ) (e : Exc)
      → s.phase t ≡ calling f
      → (claim_cpp_future f s.world).0 ≡ raised e
      → u ≡ record s { phase = update s.phase t elsewhere }
      → Step env s u
  gets_it :
      {u : Threads} (t f : ℕ)
      → s.phase t ≡ getting f
      → u ≡ record s {
        world = (native_call env (future_get f) s.world).1;
        phase = update s.phase t elsewhere;
      }
      → Step env s u

pub data Reach (env : Env) (w : World) : Threads → Type 0 where
  here : Reach env w (record { world = w; phase = λ _. elsewhere })
  next : {s u : Threads} → Reach env w s → Step env s u → Reach env w u

-- A thread that is past the lock is alone there with its future, which is registered and not got.
pub record Inv (s : Threads) : Type 0 where
  pub single : IsSingleUse s.world
  pub claimed :
      (t f : ℕ)
      → s.phase t ≡ getting f
      → (contains f s.world.consumed ≡ true) × (gets f s.world.calls ≡ 0)
  pub alone : (t t' f : ℕ) → s.phase t ≡ getting f → s.phase t' ≡ getting f → t ≡ t'

module _ {env : Env} {s : Threads} (inv : Inv s) where
  Step-Inv : {u : Threads} → Step env s u → Inv u
  unfolding claim_cpp_future
  Step-Inv (calls_it t f p e) = record {
    single = record {
      at_most_once = λ g. ground (arith, inv.single.at_most_once g);
      registered = λ g q. ground (arith, inv.single.at_most_once g, inv.single.registered g);
    };
    claimed = λ t' f' h. ground (arith, inv.claimed t' f');
    alone = λ t' t'' f' h h'. ground (arith, inv.alone t' t'' f');
  }
  Step-Inv (claims t f p r e) = record {
    single = record {
      at_most_once = λ g. ground (arith, inv.single.at_most_once g);
      registered = λ g q. ground (arith, inv.single.at_most_once g, inv.single.registered g);
    };
    claimed = λ t' f' h. ground (arith, inv.claimed t' f', inv.single.registered f');
    alone = λ t' t'' f' h h'.
        ground (arith, inv.alone t' t'' f', inv.claimed t' f', inv.claimed t'' f');
  }
  Step-Inv (refused t f x p r e) = record {
    single = record {
      at_most_once = λ g. ground (arith, inv.single.at_most_once g);
      registered = λ g q. ground (arith, inv.single.at_most_once g, inv.single.registered g);
    };
    claimed = λ t' f' h. ground (arith, inv.claimed t' f');
    alone = λ t' t'' f' h h'. ground (arith, inv.alone t' t'' f');
  }
  Step-Inv (gets_it t f p e) = record {
    single = record {
      at_most_once = λ g. ground (arith, inv.single.at_most_once g, inv.claimed t f);
      registered = λ g q.
          ground (arith, inv.single.at_most_once g, inv.single.registered g, inv.claimed t f);
    };
    claimed = λ t' f' h. ground (arith, inv.claimed t' f', inv.alone t t' f);
    alone = λ t' t'' f' h h'. ground (arith, inv.alone t' t'' f');
  }

threads-Inv : {env : Env} {w : World} {s : Threads} → IsSingleUse w → Reach env w s → Inv s
threads-Inv single here = record {
  single = single;
  claimed = λ t f h. absurd (ground arith);
  alone = λ t t' f h h'. absurd (ground arith);
}
threads-Inv single (next r st) = Step-Inv (threads-Inv single r) st

-- However many threads consume futures at the same time, and in whatever order their steps come: `get()`
-- is called at most once on each future, if that held at the start and the futures that were got were
-- registered.
pub get_once :
    {env : Env} {w : World} {s : Threads}
    → IsSingleUse w
    → Reach env w s
    → (f : ℕ) → gets f s.world.calls ≤ 1
get_once single reached f = (threads-Inv single reached).single.at_most_once f
