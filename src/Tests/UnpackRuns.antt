-- ===== src/Tests/UnpackRuns.antt =====
-- Examples for the unpacking wrappers.
use py_obscura_proto.Base.{inl, refl, some, true, [], ◌∷◌}
use py_obscura_proto.Runtime.{
  Env, World, update, ok, none_value, native_value, hdl_value, payload_value, with_args,
}
use py_obscura_proto.Unpack.{
  run_unpacking, run_request_unpacking, read_params, check_response, call_keywords, missing,
  has_key, nth, unpack_request, answer_request,
}
use py_obscura_proto.Unpack.Unhinted.{IsRefusal, with_call, Unhinted-never_called}
use py_obscura_proto.Dispatcher.{invoke, guarded, report}
use py_obscura_proto.Dispatcher.Bodies.{run_body}
use py_obscura_proto.Dispatcher.Results.{with_flag}
use py_obscura_proto.Dispatcher.Responses.{Answer, request_response_typed}
use py_obscura_proto.Tests.{attached, env, world}

-- Function 1 takes `hdl` without a hint.
Unhinted-never_called_example :
    IsRefusal (run_unpacking env 1 true (with_args (hdl_value 7 ∷ payload_value 1 ∷ [])) world) (
      run_unpacking
        (with_call env (λ f given w. (ok none_value, record w { user = none_value ∷ [] })))
        1
        true
        (with_args (hdl_value 7 ∷ payload_value 1 ∷ []))
        world)
Unhinted-never_called_example =
    Unhinted-never_called "hdl" env
      (λ f given w. (ok none_value, record w { user = none_value ∷ [] })) 1 true
      (with_args (hdl_value 7 ∷ payload_value 1 ∷ [])) world refl (inl refl, tt)

-- A request handler that returns no payload, on a server with an error handler.
abbrev idle_answer : Env
idle_answer = record env { call = λ f given w. (ok none_value, w) }

abbrev guarded_world : World
guarded_world = record world {
  dispatchers = update world.dispatchers 5 (record attached { error_handler = some 9 });
}

request_response_typed_example :
    let (r, u) =
      run_request_unpacking idle_answer 3 true
        (with_args (hdl_value 7 ∷ native_value 4 ∷ []))
        (with_flag 1 true guarded_world) in
    Answer idle_answer 5 3 100 u none_value r
unfolding run_request_unpacking unpack_request answer_request read_params nth call_keywords missing
    has_key check_response invoke guarded report run_body
request_response_typed_example =
    request_response_typed idle_answer 1 5 3 100 3 true
      (with_args (hdl_value 7 ∷ native_value 4 ∷ [])) guarded_world none_value refl
