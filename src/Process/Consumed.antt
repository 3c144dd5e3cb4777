-- ===== src/Process/Consumed.antt =====
-- The registry of consumed futures never forgets one.
use py_obscura_proto.Base.{ℕ, ◌≡◌, true, contains, arith}
use py_obscura_proto.Runtime.{World, Env, Fn, Args, raised, logic_error, text}
use py_obscura_proto.Callback.{set_callback_thread_flag}
use py_obscura_proto.Response.{consume_cpp_future}
use py_obscura_proto.Process.{Reached, Later}
use py_obscura_proto.Process.Methods.{IsProcess}
use py_obscura_proto.Process.Steps.{Later-keeps}
use py_obscura_proto.Process.Sound.{IsSound, IsUserRun, Sound-IsProcess, Reached-IsSound}

record IsConsumed (f : ℕ) (w : World) : Type 0 where
  sound : IsSound w
  registered : contains f w.consumed ≡ true

consume-registered :
    (env : Env) (f g : ℕ) (w : World)
    → contains f w.consumed ≡ true
    → contains f (consume_cpp_future env g w).1.consumed ≡ true
unfolding consume_cpp_future
consume-registered env f g w h = ground arith

consume-own :
    (env : Env) (f : ℕ) (w : World) → contains f (consume_cpp_future env f w).1.consumed ≡ true
unfolding consume_cpp_future
consume-own env f w = ground arith

consume-again :
    (env : Env) (f : ℕ) (w : World)
    → contains f w.consumed ≡ true
    → consume_cpp_future env f w ≡ (
      raised (logic_error (text "CppPayloadFuture is single-use: get() may only be called once")),
      w,
    )
unfolding consume_cpp_future
consume-again env f w h = ground arith

module _ (env : Env)
    (user : (f : Fn) (args : Args) (w : World) → IsUserRun w (env.call f args w).1) where
  Consumed-IsProcess : (f : ℕ) → IsProcess (IsConsumed f) env
  unfolding set_callback_thread_flag
  Consumed-IsProcess f =
      let all = Sound-IsProcess env user in
      record {
        stable = record {
          aside = λ w u a h. record {
            sound = all.stable.aside w u a h.sound;
            registered = ground (arith, a.same_consumed, h.registered);
          };
          native = λ c no_get. record {
            at = λ w h. record {
              sound = (all.stable.native c no_get).at w h.sound;
              registered = h.registered;
            };
          };
          calls = λ g args. record {
            at = λ w h. record {
              sound = (all.stable.calls g args).at w h.sound;
              registered = ground (arith, (user g args w).same_consumed, h.registered);
            };
          };
        };
        flags = λ t up. record {
          at = λ w h. record { sound = (all.flags t up).at w h.sound; registered = h.registered };
        };
        consumes = λ g. record {
          at = λ w h. record {
            sound = (all.consumes g).at w h.sound;
            registered = consume-registered env f g w h.registered;
          };
        };
        pools =
            λ w x next h. record { sound = all.pools w x next h.sound; registered = h.registered };
        known = λ w h. all.known w h.sound;
      }

  -- If user functions leave the futures of the bindings alone and use the pools as the library does: when a
  -- future was consumed, whatever its `get()` did, consuming it raises `LogicError` and changes nothing, at
  -- every later moment of the process.
  pub consumed_forever :
      (f : ℕ) {w u : World}
      → Reached env w
      → Later env (consume_cpp_future env f w).1 u
      → consume_cpp_future env f u ≡ (
        raised (logic_error (text "CppPayloadFuture is single-use: get() may only be called once")),
        u,
      )
  consumed_forever f {w} {u} reached later =
      let first : IsConsumed f (consume_cpp_future env f w).1 = record {
        sound = ((Sound-IsProcess env user).consumes f).at w (Reached-IsSound env user reached);
        registered = consume-own env f w;
      } in
      consume-again env f u (Later-keeps (Consumed-IsProcess f) later first).registered
