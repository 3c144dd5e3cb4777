-- ===== src/Examples/Echo.antt =====
-- The echo of examples/streaming_example.py, from the registration of the handlers to the calls of the
-- bindings.
use py_obscura_proto.Base.{
  ℕ, ◌≡◌, refl, ap, ◌∙◌, true, Option, some, List, [], ◌∷◌, ◌++◌, arith, Option-cases, inl, inr,
}
use py_obscura_proto.Runtime.{
  World, Env, Call, StreamObject, Result, ok, Value, bytes_value, list_value, none_value, with_args,
  Wrapped, data_wrapper, plain, get_stream_id, set_data_handler, set_end_handler, stream_write,
  stream_end, pure, ◌>>◌, printed, Fn,
}
use py_obscura_proto.Dispatcher.{invoke, wrap_fire_and_forget}
use py_obscura_proto.Dispatcher.Bodies.{run_body, are_bytes, to_bytes}
use py_obscura_proto.Dispatcher.Results.{with_flag}
use py_obscura_proto.Stream.{cpp_of, on_data, on_end}
use py_obscura_proto.Stream.Handlers.{
  callback_for, bound_loop, wrap_fire_and_forget_lem, stream_handlers_wrapped,
}
use py_obscura_proto.Server.EndToEnd.{invoke-callback_for}
use py_obscura_proto.Examples.{Setting}
use py_obscura_proto.Examples.Streaming.{
  Made, echo_prefix, server_on_data, server_on_end, handle_stream,
}

on_data_keeps :
    (env : Env) (t s d : ℕ) (f : Fn) (w : World)
    → (w.streams s).dispatcher ≡ some d
    → (on_data env t s f w).1.streams ≡ w.streams
unfolding on_data wrap_fire_and_forget
on_data_keeps env t s d f w h = elim (Option-cases (w.dispatchers d).loop) [
  | inl q ↦ elim (Option-cases (env.running_loop t)) [
    | inl q' ↦ ground arith
    | inr (l, q') ↦ ground arith
  ]
  | inr (l, q) ↦ ground arith
]

-- Both registrations return the handler where the bindings raise nothing.
registered_ok :
    (env : Env) (t s d : ℕ) (f : Fn) (w : World) (answer : List Call → Call → Value)
    → ((cs : List Call) (c : Call) → env.reply cs c ≡ ok (answer cs c))
    → (w.streams s).dispatcher ≡ some d
    → ((on_data env t s f w).0 ≡ ok f) × ((on_end env t s f w).0 ≡ ok f)
unfolding on_data on_end
registered_ok env t s d f w answer answered h =
    let loop = bound_loop (w.dispatchers d).loop (env.running_loop t) in
    (
      ground (
        arith,
        wrap_fire_and_forget_lem env t d (data_wrapper f) w,
        answered w.calls
            (set_data_handler (cpp_of s w) (some (callback_for d loop (data_wrapper f)))),
      ),
      ground (
        arith,
        wrap_fire_and_forget_lem env t d (plain f) w,
        answered w.calls (set_end_handler (cpp_of s w) (some (callback_for d loop (plain f)))),
      ),
    )

module _ (env : Env) (t' : ℕ) (x : Setting) (made : Made) (stream d : ℕ) (loop : Option ℕ)
    (later : World) (v : Value) where
  -- The handler gets the bytes of the list that C++ passes.
  handed :
      (bs : List ℕ) (u : World)
      → are_bytes bs ≡ true
      → run_body env
          (data_wrapper (made.server_on_data_fn stream))
          (with_args (list_value bs ∷ []))
          u
        ≡ env.call (made.server_on_data_fn stream) (with_args (bytes_value bs ∷ [])) u
  unfolding run_body to_bytes
  handed bs u sized = rw (sized) refl

  -- A callback for data that runs the handler of the example.
  data_echoed :
      (bs : List ℕ)
      → are_bytes bs ≡ true
      → ((u : World)
          → env.call (made.server_on_data_fn stream) (with_args (bytes_value bs ∷ [])) u
            ≡ (server_on_data env t' x made stream (bytes_value bs) >> pure none_value) u)
      → let echo = stream_write (cpp_of stream later) (bytes_value (echo_prefix ++ bs)) in
        env.reply later.calls echo ≡ ok v
        → let (r, u) =
            invoke env t'
              (callback_for d loop (data_wrapper (made.server_on_data_fn stream)))
              (with_args (list_value bs ∷ []))
              later in
          (r ≡ ok none_value) × (u.calls ≡ echo ∷ later.calls)
  unfolding run_body server_on_data
  data_echoed bs sized runs written =
      let u = with_flag t' true later in
      let done = record u {
        calls = stream_write (cpp_of stream later) (bytes_value (echo_prefix ++ bs)) ∷ u.calls;
        logged =
            printed "[SERVER] Received {len(data)} bytes: {data}" (bytes_value bs ∷ []) ∷ u.logged;
      } in
      let ran : (server_on_data env t' x made stream (bytes_value bs) >> pure none_value) u
          ≡ (ok none_value, done) =
        rw (written) refl in
      let h =
        invoke-callback_for env t' d loop (data_wrapper (made.server_on_data_fn stream))
          (with_args (list_value bs ∷ [])) none_value later done (handed bs u sized ∙ runs u ∙ ran)
          refl in
      (ap (λ (p : Result Value × World). p.0) h, ap (λ (p : Result Value × World). p.1.calls) h)

  -- A callback for the end of the client's side.
  end_echoed :
      ((u : World)
        → env.call (made.server_on_end_fn stream) (with_args []) u
          ≡ (server_on_end env t' x made stream >> pure none_value) u)
      → let last = stream_end (cpp_of stream later) in
        env.reply later.calls last ≡ ok v
        → let (r, u) =
            invoke env t'
              (callback_for d loop (plain (made.server_on_end_fn stream)))
              (with_args [])
              later in
          (r ≡ ok none_value) × (u.calls ≡ last ∷ later.calls)
  unfolding run_body server_on_end
  end_echoed runs written =
      let u = with_flag t' true later in
      let done = record u {
        calls = stream_end (cpp_of stream later) ∷ u.calls;
        logged = printed "[SERVER] Client finished writing, echoing end" [] ∷ u.logged;
      } in
      let ran : (server_on_end env t' x made stream >> pure none_value) u ≡ (ok none_value, done) =
        rw (written) refl in
      let h =
        invoke-callback_for env t' d loop (plain (made.server_on_end_fn stream)) (with_args [])
          none_value later done (runs u ∙ ran) refl in
      (ap (λ (p : Result Value × World). p.0) h, ap (λ (p : Result Value × World). p.1.calls) h)

-- The streaming example, where the bindings raise nothing. Its handler of incoming streams, run on a stream
-- that has a dispatcher, registers a callback for data and one for the end at the stream of the bindings.
-- Whenever these are run later, on any thread, for the same stream: the first, with a list of any bytes,
-- writes `echo: ` and the bytes to the stream, and the second ends the stream, each with this one call.
pub echo_served :
    (env : Env) (t t' : ℕ) (x : Setting) (made : Made) (stream d : ℕ) (bs : List ℕ)
    (w later : World) (answer : List Call → Call → Value)
    → ((cs : List Call) (c : Call) → env.reply cs c ≡ ok (answer cs c))
    → (w.streams stream).dispatcher ≡ some d
    → cpp_of stream later ≡ cpp_of stream w
    → are_bytes bs ≡ true
    → ((u : World)
        → env.call (made.server_on_data_fn stream) (with_args (bytes_value bs ∷ [])) u
          ≡ (server_on_data env t' x made stream (bytes_value bs) >> pure none_value) u)
    → ((u : World)
        → env.call (made.server_on_end_fn stream) (with_args []) u
          ≡ (server_on_end env t' x made stream >> pure none_value) u)
    → let cpp = cpp_of stream w in
      (for_data : Wrapped) × (for_end : Wrapped) × ((handle_stream env t x made stream w).1.calls
        ≡ set_end_handler cpp (some for_end)
          ∷ set_data_handler cpp (some for_data)
          ∷ get_stream_id cpp
          ∷ w.calls)
      × ((invoke env t' for_data (with_args (list_value bs ∷ [])) later).1.calls
          ≡ stream_write cpp (bytes_value (echo_prefix ++ bs)) ∷ later.calls)
      × ((invoke env t' for_end (with_args []) later).1.calls ≡ stream_end cpp ∷ later.calls)
unfolding handle_stream
echo_served env t t' x made stream d bs w later answer answered adopted same sized data_runs
      end_runs =
    let u = record w {
      calls = get_stream_id (cpp_of stream w) ∷ w.calls;
      logged =
          printed "[SERVER] New incoming stream #{stream.stream_id}"
            (answer w.calls (get_stream_id (cpp_of stream w)) ∷ [])
          ∷ w.logged;
    } in
    let v = (on_data env t stream (made.server_on_data_fn stream) u).1 in
    let kept : v.streams ≡ w.streams =
      on_data_keeps env t stream d (made.server_on_data_fn stream) u adopted in
    let still : (v.streams stream).dispatcher ≡ some d =
      ap (λ (f : ℕ → StreamObject). (f stream).dispatcher) kept ∙ adopted in
    let data_loop = bound_loop (u.dispatchers d).loop (env.running_loop t) in
    let end_loop = bound_loop (v.dispatchers d).loop (env.running_loop t) in
    let (data_ok, _) =
      registered_ok env t stream d (made.server_on_data_fn stream) u answer answered adopted in
    let (_, end_ok) =
      registered_ok env t stream d (made.server_on_end_fn stream) v answer answered still in
    let (data_calls, _, _) =
      stream_handlers_wrapped env t stream d (made.server_on_data_fn stream) u adopted in
    let (_, end_calls, _) =
      stream_handlers_wrapped env t stream d (made.server_on_end_fn stream) v still in
    let for_end = some (callback_for d end_loop (plain (made.server_on_end_fn stream))) in
    let (writes, written) =
      data_echoed env t' x made stream d data_loop later _ bs sized data_runs (answered _ _) in
    let (ends, ended) =
      end_echoed env t' x made stream d end_loop later _ end_runs (answered _ _) in
    (
      callback_for d data_loop (data_wrapper (made.server_on_data_fn stream)),
      callback_for d end_loop (plain (made.server_on_end_fn stream)),
      rw (answered w.calls (get_stream_id (cpp_of stream w)), data_ok, end_ok)
          (end_calls
            ∙ ap (λ (f : ℕ → StreamObject). set_end_handler (f stream).cpp for_end ∷ v.calls) kept
            ∙ ap (λ cs. set_end_handler (cpp_of stream w) for_end ∷ cs) data_calls),
      written ∙ ap (λ cpp. stream_write cpp (bytes_value (echo_prefix ++ bs)) ∷ later.calls) same,
      ended ∙ ap (λ cpp. stream_end cpp ∷ later.calls) same,
    )
