-- ===== src/Dispatcher/Threads.antt =====
-- The flag over every interleaving of threads that enter and leave callbacks: the two ends of a wrapper,
-- and whatever else a thread does in between, are steps of their own.
use py_obscura_proto.Base.{ℕ, zero, suc, ◌<◌, ◌≡◌, refl, String, true, false, not, ◌==◌, arith}
use py_obscura_proto.Runtime.{World, ok, update}
use py_obscura_proto.Callback.{set_callback_thread_flag, reject_in_callback}
use py_obscura_proto.Callback.Blocking.{blocking_result}

-- `depth t` is how many wrappers thread `t` is in.
pub record Threads : Type 0 where
  pub world : World
  pub depth : ℕ → ℕ

-- A step of any thread, where no thread is in more than `limit` wrappers.
pub data Step (limit : ℕ) (s : Threads) : Threads → Type 0 where
  enters :
      {u : Threads} (t : ℕ)
      → s.depth t < limit
      → u ≡ record s {
        world = (set_callback_thread_flag t true s.world).1;
        depth = update s.depth t (suc (s.depth t));
      }
      → Step limit s u
  leaves :
      {u : Threads} (t n : ℕ)
      → s.depth t ≡ suc n
      → u ≡ record s {
        world = (set_callback_thread_flag t false s.world).1;
        depth = update s.depth t n;
      }
      → Step limit s u
  does :
      {u : Threads} (w : World)
      → w.in_callback ≡ s.world.in_callback
      → u ≡ record s { world = w }
      → Step limit s u

-- From a state in which no thread is in a wrapper and no flag is up.
pub data Reach (limit : ℕ) : Threads → Type 0 where
  starts :
      {s : Threads}
      → ((t : ℕ) → s.depth t ≡ 0)
      → ((t : ℕ) → s.world.in_callback t ≡ false)
      → Reach limit s
  steps : {s u : Threads} → Reach limit s → Step limit s u → Reach limit u

-- Outside all wrappers the flag is down.
pub outside :
    {limit : ℕ} {s : Threads}
    → Reach limit s
    → (t : ℕ) → s.depth t ≡ 0
    → s.world.in_callback t ≡ false
unfolding set_callback_thread_flag
outside (starts d f) t h = f t
outside (steps r (enters t' below e)) t h = ground (arith, outside r t)
outside (steps r (leaves t' n here e)) t h = ground (arith, outside r t)
outside (steps r (does w same e)) t h = ground (arith, outside r t)

-- Where wrappers are not nested, it is up inside.
inside :
    {s : Threads}
    → Reach 1 s
    → (t n : ℕ) → s.depth t ≡ suc n
    → (n ≡ 0) × (s.world.in_callback t ≡ true)
unfolding set_callback_thread_flag
inside (starts d f) t n h = absurd (ground (arith, d t))
inside (steps {s} r (enters t' below e)) t n h = ground (arith, inside r t n)
inside (steps {s} r (leaves t' m here e)) t n h = ground (arith, inside r t n, inside r t' m here)
inside (steps r (does w same e)) t n h = ground (arith, inside r t n)

-- From a state with no callback and no flag up, whatever threads enter and leave callbacks, and in
-- whatever order, as long as no callback runs inside another one on its thread and nothing else writes a
-- flag: the guard of a blocking method on a thread raises exactly if the thread is in a callback, and
-- changes nothing.
pub guard_exact :
    {s : Threads} (t : ℕ) (message : String)
    → Reach 1 s
    → reject_in_callback t message s.world
      ≡ (blocking_result (not (s.depth t == 0)) message (ok tt), s.world)
unfolding reject_in_callback
guard_exact {s} t message r = go (s.depth t) refl
  where
    go :
        (n : ℕ)
        → s.depth t ≡ n
        → reject_in_callback t message s.world
          ≡ (blocking_result (not (s.depth t == 0)) message (ok tt), s.world)
    go zero h = ground (arith, outside r t h)
    go (suc n) h = ground (arith, inside r t n h)
