-- ===== src/Tests/ClientRuns.antt =====
-- An example for the requests of a server and a client.
use py_obscura_proto.Base.{pos, ◌≡◌, refl, none, some, [], ◌∷◌, arith}
use py_obscura_proto.Runtime.{
  ok, server_async_request, client_async_request, hdl_value, native_value, payload_value,
}
use py_obscura_proto.Response.{Place}
use py_obscura_proto.Server
use py_obscura_proto.Client
use py_obscura_proto.Client.{Client}
use py_obscura_proto.Client.Requests.{guarded_by, sub_ms_forwarded}
use py_obscura_proto.Tests.{env, world}
use py_obscura_proto.Tests.ServerRuns.{server}

abbrev client : Client
client = record { native = native_value 2; dispatcher = 5; uri = none }

-- Half a millisecond.
sub_ms_forwarded_example :
    let of_server = server_async_request server.native (hdl_value 7) (payload_value 1) (some 0) in
    let of_client = client_async_request client.native (payload_value 1) (some 0) in
    let (r, u) =
      Server.async_request env 0 server
        (λ x. x)
        (hdl_value 7)
        (payload_value 1)
        (some (pos 500))
        world in
    let (s, v) =
      Client.async_request env 0 client (λ x. x) (payload_value 1) (some (pos 500)) world in
    ((p : Place) × (r ≡ ok (guarded_by 500 0 (native_value 4) p)))
    × (u.calls ≡ of_server ∷ [])
    × ((p : Place) × (s ≡ ok (guarded_by 500 0 (native_value 4) p)))
    × (v.calls ≡ of_client ∷ [])
sub_ms_forwarded_example =
    sub_ms_forwarded env 0 server client (hdl_value 7) (payload_value 1) (native_value 4)
      (native_value 4) 500 world (omega arith) (omega arith) refl refl
