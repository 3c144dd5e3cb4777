-- ===== src/Process/Sound.antt =====
-- What holds of the futures and of the pools at every moment of a process.
use py_obscura_proto.Base.{ℕ, ◌≡◌, refl, ap, arith, false, ◌∷◌, List}
use py_obscura_proto.Runtime.{
  World, Env, Fn, Args, Call, future_get, Executors, Keeps, IsStable, is_get, native_call,
}
use py_obscura_proto.Callback.{set_callback_thread_flag}
use py_obscura_proto.Executor.Separation.{Use, Inv, Use-Inv, Reached-Inv}
use py_obscura_proto.Executor.Separation
use py_obscura_proto.Response.{consume_cpp_future}
use py_obscura_proto.Response.SingleUse.{gets, IsSingleUse, consume-IsSingleUse}
use py_obscura_proto.Process.{Uses, unused, used, Reached, IsImported}
use py_obscura_proto.Process.Methods.{IsProcess}
use py_obscura_proto.Process.Steps.{Reached-keeps}

-- Each future is got at most once, and the pools are as the module declares them.
pub record IsSound (w : World) : Type 0 where
  pub futures : IsSingleUse w
  pub pools : Inv w.executors

-- What a user function may do before it returns: anything but touch the futures of the bindings and
-- the pools other than by what the library does with them.
pub record IsUserRun (w u : World) : Type 0 where
  pub no_get : (f : ℕ) → gets f u.calls ≡ gets f w.calls
  pub same_consumed : u.consumed ≡ w.consumed
  pub pool_uses : Uses w.executors u.executors

-- What `IsSingleUse` reads.
same_gets-IsSingleUse :
    (w u : World)
    → ((f : ℕ) → gets f u.calls ≡ gets f w.calls)
    → u.consumed ≡ w.consumed
    → IsSingleUse w
    → IsSingleUse u
same_gets-IsSingleUse w u no_get same s = record {
  at_most_once = λ f. ground (arith, no_get f, s.at_most_once f);
  registered = λ f h. ground (arith, no_get f, s.registered f);
}

Uses-Inv : {x y : Executors} → Uses x y → Inv x → Inv y
Uses-Inv (unused e) inv = rw (e) inv
Uses-Inv (used past next) inv = Use-Inv (Uses-Inv past inv) next

gets-other : (c : Call) → is_get c ≡ false → (f : ℕ) (cs : List Call) → gets f (c ∷ cs) ≡ gets f cs
gets-other (future_get g) other f cs = absurd (ground arith)
gets-other _ other f cs = refl

consume-executors :
    (env : Env) (f : ℕ) (w : World) → (consume_cpp_future env f w).1.executors ≡ w.executors
unfolding consume_cpp_future
consume-executors env f w = ground arith

native-IsSound : (env : Env) (c : Call) → is_get c ≡ false → Keeps IsSound (native_call env c)
native-IsSound env c no_get = record {
  at = λ w h. record {
    futures =
        same_gets-IsSingleUse w (native_call env c w).1 (λ f. gets-other c no_get f w.calls) refl
          h.futures;
    pools = h.pools;
  };
}

module _ (env : Env)
    (user : (f : Fn) (args : Args) (w : World) → IsUserRun w (env.call f args w).1) where
  Sound-IsStable : IsStable IsSound env
  Sound-IsStable = record {
    aside = λ w u a h. record {
      futures = same_gets-IsSingleUse w u (λ f. ap (gets f) a.same_calls) a.same_consumed h.futures;
      pools = rw (a.same_pools) h.pools;
    };
    native = native-IsSound env;
    calls = λ f args. record {
      at = λ w h.
          let run = user f args w in
          record {
            futures =
                same_gets-IsSingleUse w (env.call f args w).1 run.no_get run.same_consumed
                  h.futures;
            pools = Uses-Inv run.pool_uses h.pools;
          };
    };
  }

  pub Sound-IsProcess : IsProcess IsSound env
  unfolding set_callback_thread_flag
  Sound-IsProcess = record {
    stable = Sound-IsStable;
    flags = λ t up. record {
      at = λ w h. record {
        futures = record {
          at_most_once = h.futures.at_most_once;
          registered = h.futures.registered;
        };
        pools = h.pools;
      };
    };
    consumes = λ f. record {
      at = λ w h. record {
        futures = consume-IsSingleUse env f w h.futures;
        pools = rw (consume-executors env f w) h.pools;
      };
    };
    pools = λ w x next h. record {
      futures = record { at_most_once = h.futures.at_most_once; registered = h.futures.registered };
      pools = Use-Inv h.pools next;
    };
    known = λ w h. h.pools;
  }

  imported-IsSound : (w : World) → IsImported w → IsSound w
  imported-IsSound w i = record {
    futures = record {
      at_most_once = λ f. ground (arith, i.no_calls);
      registered = λ f h. ground (arith, i.no_calls);
    };
    pools = Reached-Inv (Separation.imported i.no_stream_pool i.no_request_pool i.no_pools);
  }

  -- Whatever user functions do that leave the futures of the bindings alone and use the pools as the
  -- library does: at every moment since the import, whichever methods, callbacks, waiters, workers and
  -- done-callbacks of any threads have run, `get()` was called at most once on each future and only on a
  -- registered one, the two variables name different pools with one worker and with four, and no pool
  -- runs more tasks than it has workers.
  pub Reached-IsSound : {w : World} → Reached env w → IsSound w
  Reached-IsSound = Reached-keeps Sound-IsProcess imported-IsSound
