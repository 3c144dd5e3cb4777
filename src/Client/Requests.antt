-- ===== src/Client/Requests.antt =====
-- Requests with a timeout below a millisecond, of a client and of a server.
use py_obscura_proto.Base.{ℕ, zero, suc, pos, ◌+◌, ◌<◌, ◌≡◌, some, ◌∷◌, arith}
use py_obscura_proto.Runtime.{World, Env, ok, Value, server_async_request, client_async_request}
use py_obscura_proto.Response.{Awaiting, Place, effective_timeout, request_timeout_ms}
use py_obscura_proto.Server
use py_obscura_proto.Server.{Server}
use py_obscura_proto.Server.Requests.{requested}
use py_obscura_proto.Client
use py_obscura_proto.Client.{Client}

-- A wait that started at `now`, with the guard and the waiter's deadline at `n` microseconds.
abbrev pub guarded_by : ℕ → ℕ → Value → Place → Awaiting
guarded_by n now future place = record {
  future = future;
  what = "async_request";
  timeout = some n;
  deadline = some (now + n);
  place = place;
}

sub_ms : (n : ℕ) → 0 < n → n < 1000 → request_timeout_ms (some (pos n)) ≡ some 0
unfolding request_timeout_ms
sub_ms zero p q = absurd (omega arith)
sub_ms (suc n) p q = ground arith

-- `Server.async_request` and `Client.async_request` with a positive timeout below a millisecond, where the
-- bindings return a future and no other thread acts while the waiter is submitted: each forwards 0 as
-- `timeout_ms` in its one call of the bindings, and arms the guard and the waiter with the timeout itself.
pub sub_ms_forwarded :
    (env : Env) (t : ℕ) (server : Server) (client : Client) (conn packet future answer : Value)
    (n : ℕ) (w : World)
    → 0 < n
    → n < 1000
    → let of_server = server_async_request server.native conn packet (some 0) in
      let of_client = client_async_request client.native packet (some 0) in
      env.reply w.calls of_server ≡ ok future
      → env.reply w.calls of_client ≡ ok answer
      → let (r, u) = Server.async_request env t server (λ x. x) conn packet (some (pos n)) w in
        let (s, v) = Client.async_request env t client (λ x. x) packet (some (pos n)) w in
        ((p : Place) × (r ≡ ok (guarded_by n w.now future p)))
        × (u.calls ≡ of_server ∷ w.calls)
        × ((p : Place) × (s ≡ ok (guarded_by n w.now answer p)))
        × (v.calls ≡ of_client ∷ w.calls)
unfolding Server.async_request Client.async_request effective_timeout
sub_ms_forwarded env t server client conn packet future answer zero w p q h h' =
    absurd (omega arith)
sub_ms_forwarded env t server client conn packet future answer (suc n) w p q h h' =
    let timeout = some (pos (suc n)) in
    let (a, b) =
      requested env (server_async_request server.native conn packet (some 0)) future timeout
        "async_request" w h in
    let (c, d) =
      requested env (client_async_request client.native packet (some 0)) answer timeout
        "async_request" w h' in
    rw (sub_ms (suc n) p q) (a, b, c, d)
