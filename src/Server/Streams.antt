-- ===== src/Server/Streams.antt =====
-- Streams of a server: opening, adoption by the dispatcher, and the error handler.
use py_obscura_proto.Base.{ℕ, suc, ◌≡◌, ◌∙◌, true, false, Option, some, List, [], ◌∷◌, arith, ◌==◌}
use py_obscura_proto.Runtime.{
  World, Env, Result, ok, Value, stream_value, Fn, with_args, server_start_stream, stream_wrapper,
  error_value, Exc, is_exception, raised, coroutine_value, none_value, Args, Body, Future,
  sync_wrapped, fire_and_forget, with_result, forward_error, ◌>>=◌,
}
use py_obscura_proto.Dispatcher.Results.{with_flag}
use py_obscura_proto.Dispatcher.Errors.{returning, guarded_handled, raised-bind}
use py_obscura_proto.Dispatcher.{invoke, dispatch_and_forget, dispatch_and_wait}
use py_obscura_proto.Dispatcher.Bodies.{run_body, adopt_stream}
use py_obscura_proto.Server.{Server, start_stream, on_error}
use py_obscura_proto.Stream.{on_error as stream_on_error}

module _ (env : Env) (t : ℕ) (server : Server) (conn cpp : Value) (stream_op_code : Option ℕ)
    (w : World)
    (opened : env.reply w.calls (server_start_stream server.native conn stream_op_code)
      ≡ ok cpp) where
  -- `Server.start_stream`, where the bindings open a stream: connection and operation code are forwarded,
  -- the result is a new `Stream` object for what the bindings returned, its dispatcher is the server's,
  -- and no other `Stream` object changes.
  pub start_stream_adopts :
      (other : ℕ)
      → (other == w.next) ≡ false
      → let (r, u) = start_stream env t server conn stream_op_code w in
        (r ≡ ok w.next)
        × (u.calls ≡ server_start_stream server.native conn stream_op_code ∷ w.calls)
        × (u.streams w.next ≡ record { cpp = cpp; dispatcher = some server.dispatcher })
        × (u.streams other ≡ w.streams other)
        × (u.next ≡ suc w.next)
  unfolding start_stream
  start_stream_adopts other h = ground arith

  -- After `server.on_error(first)` and `stream.on_error(second)`.
  abbrev pub both_set : Fn → Fn → World
  both_set first second =
      let u = (start_stream env t server conn stream_op_code w).1 in
      let u' = (on_error env t server first u).1 in (stream_on_error w.next second u').1

  both_set-handler :
      (first second : Fn)
      → ((both_set first second).dispatchers server.dispatcher).error_handler ≡ some second
  unfolding start_stream on_error stream_on_error
  both_set-handler first second = ground arith

  -- An error handler that is set on one stream replaces the one of the whole server. After
  -- `server.on_error(first)` and `stream.on_error(second)`, on any thread, any callback of the server
  -- that sets no error handler itself: if it raises an `Exception`, then under each of the three wrappers
  -- `second` is called with it, and C++ gets `None` or what `second` raises. If it is fire-and-forget and
  -- its coroutine is scheduled, it is `second` that waits for an exception of the coroutine.
  pub stream_on_error_shared :
      (t' loop timeout c : ℕ) (first second : Fn) (failing async : Body) (args : Args) (e : Exc)
      (future : Future) (u v : World)
      → run_body env failing args (with_flag t' true (both_set first second)) ≡ (raised e, u)
      → is_exception e ≡ true
      → (u.dispatchers server.dispatcher).error_handler
        ≡ ((both_set first second).dispatchers server.dispatcher).error_handler
      → run_body env async args (with_flag t' true (both_set first second))
        ≡ (ok (coroutine_value c), v)
      → env.future_of c loop v ≡ ok future
      → (v.dispatchers server.dispatcher).error_handler
        ≡ ((both_set first second).dispatchers server.dispatcher).error_handler
      → let set = both_set first second in
        let d = server.dispatcher in
        let ended : Result Value × World =
          (let (r, x) = env.call second (with_args (error_value e ∷ [])) u in
            (returning none_value r, with_flag t' false x)) in
        (invoke env t' (sync_wrapped d failing) args set ≡ ended)
        × (invoke env t' (fire_and_forget d failing loop) args set ≡ ended)
        × (invoke env t' (with_result d failing loop timeout) args set ≡ ended)
        × ((invoke env t' (fire_and_forget d async loop) args set).1.done_callbacks
            ≡ (future.ident, forward_error second) ∷ v.done_callbacks)
  unfolding invoke dispatch_and_forget
  stream_on_error_shared t' loop timeout c first second failing async args e future u v raises
        caught kept ran made kept' =
      let set = both_set first second in
      let d = server.dispatcher in
      let m = run_body env failing args in
      let handler = kept ∙ both_set-handler first second in
      let handler' = kept' ∙ both_set-handler first second in
      (
        guarded_handled env t' d second none_value m set raises caught handler,
        guarded_handled env t' d second none_value (m >>= dispatch_and_forget env d loop) set
            (raised-bind m (dispatch_and_forget env d loop) (with_flag t' true set) raises) caught
            handler,
        guarded_handled env t' d second none_value (m >>= dispatch_and_wait env d loop timeout) set
            (raised-bind m (dispatch_and_wait env d loop timeout) (with_flag t' true set) raises)
            caught handler,
        ground (arith, ran, made, handler'),
      )

-- The wrapper of the incoming stream decorators calls the user's handler with one argument, a new
-- `Stream` object for the stream that came in, which belongs to the dispatcher of the registration.
pub incoming_stream_adopted :
    (env : Env) (d : ℕ) (handler : Fn) (cpp : Value) (rest : List Value) (w : World)
    → let u = (adopt_stream d cpp w).1 in
      (run_body env (stream_wrapper d handler) (with_args (cpp ∷ rest)) w
        ≡ env.call handler (with_args (stream_value w.next ∷ [])) u)
      × (u.streams w.next ≡ record { cpp = cpp; dispatcher = some d })
unfolding run_body adopt_stream
incoming_stream_adopted env d handler cpp rest w = ground arith
