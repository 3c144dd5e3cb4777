-- ===== src/Lib.antt =====
-- The Python layer of pyObscuraProto: src/ObscuraProto/__init__.py, which puts asyncio, typed handlers and
-- thread pools on top of the C++ bindings of an encrypted protocol. Every part below is of that file, but for
-- Build, which is of setup.py, and Examples, which is of examples/.
--
-- The surroundings. Python statements are functions `World → Result A × World` (Runtime/Monad), so that what
-- was written before an exception stays written. `World` (Runtime/State) has the clock in microseconds, the
-- thread-local callback flag, the store of `_CallbackDispatcher` and `Stream` objects, the module's two
-- executors, the registry of consumed futures, and what was called, logged, warned, cancelled and
-- scheduled. `Env` is what the program does not implement: `reply` answers the calls of the bindings
-- (Runtime/Calls, one constructor for each) from all the calls that went before, `call` runs a user function,
-- `signature` is `inspect.signature`, `future_of` is `asyncio.run_coroutine_threadsafe`, `running_loop` and
-- `default_loop` are asyncio's, and `late` is how much longer than asked a sleep takes. Values, exceptions,
-- futures and the closures of the dispatcher are in Runtime/Data; Base has the shared names.
--
-- Callback: `_in_callback_thread`, `_set_callback_thread_flag`, `_warn_if_event_loop_thread`, and the guard
--   that the blocking methods share; Callback/Blocking says what such a method is to do.
-- Polling: `_wait_future_with_polling` and what it does on a timeout. The loop runs on fuel, one round more
--   than the timeout has microseconds: each round sleeps for at least one of them. Timing, Cleanup and Frame
--   are about its results, its cleanup and what it leaves alone.
-- Executor: `_get_executor`, `_get_request_executor`, `_shutdown_executors`, `_run_in_stream_executor`, and
--   the part of `ThreadPoolExecutor` that they use. Fifo is about every interleaving of submissions and
--   workers, Lifecycle about the two variables, Separation and Order about both pools and all threads.
-- Response: `_consume_cpp_future`, the waiter `_fetch` on fuel, and the start of `_await_cpp_future`.
--   Await has its three parties, the waiter, the event loop and the coroutine, as a step relation, and Race
--   the threads that consume futures at the same time. SingleUse, Fetch and Delivery are about the registry,
--   the waiter and the coroutine. With a deadline the time that is left bounds the rounds; without one the
--   waiter may run for ever, as in the source.
-- Unpack: `_create_unpacking_handler` and `_create_request_unpacking_handler` with the wrappers that they
--   return. Reads, Payloads, Unhinted and Requests are about the reads, payload handlers, parameters without
--   a hint, and request handlers. Codec says what a reader of a payload that was built from given values
--   answers, which is C++'s; Roundtrip and Short are about payloads with all the values that the handler
--   reads, and with fewer.
-- Dispatcher: `_CallbackDispatcher`. `wrap`, `wrap_fire_and_forget` and `wrap_identity` return a closure
--   as a value of `Wrapped`, and `invoke` runs one; Bodies runs what a closure wraps. Flag, Results, Errors
--   and Identity are about the flag, what C++ gets, where exceptions go, and the identity check; Responses is
--   about what C++ gets for a request; Reference
--   has the wrapper with a result in one piece, Isolation is about the flags of other threads, and Threads
--   about the flag over their interleavings. Keeping has, with Runtime/Keeping and Unpack/Keeping, what an
--   invariant has to allow so that every callback keeps it.
-- EventLoop: the part of asyncio that the done callbacks of the source, `_forward_error` and
--   `_reap_future_result`, are called by, when a scheduled coroutine ends. Forwarding is about its exceptions.
-- Stream, Server, Client: the methods of the three classes, a function each. A stream is a place in the
--   store; `adopt_stream` gives it the dispatcher of its server or client, which registrations and error
--   handlers then go through. A coroutine is modelled up to its await and from there on by a function of its
--   own where code follows. Stream/Handlers, Stream/Order, Stream/Interleaved, Server/Guards,
--   Server/Requests, Client/Requests, Server/Streams, Server/Registration and Client/Methods are about them.
--   Server/Registry has the registrations of a server as an abstract table, Server/EndToEnd and
--   Server/Answers go from a registration to the run of the handler, and Server/Lifecycle and
--   Client/Lifecycle are the two as async context managers.
-- Bindings: the `try` statement that finds the compiled module; Search is about what it finds.
-- Build: `CMakeBuild` of setup.py, with what the system and setuptools answer as parameters; Order is about
--   what is run, and where it stops.
-- Process: the parts together, as a step relation over all threads: every method of the three classes,
--   callbacks of C++, waiters, workers and done callbacks, from the import on. A step is a whole method,
--   callback or wait, with the interruptions named above; a wait may also be taken in its parts. A user
--   function is a part of the callback that calls it. Methods, Pools and Steps say what an invariant has to
--   allow so that all of it is kept, with Streams for the methods of a stream; Sound and Consumed are about
--   two such invariants.
-- Examples: the six programs of examples/ with their handlers, a module each, on the model of the library. What
--   they use besides it, such as `Crypto.init`, `PayloadBuilder`, sleeps, events and the key file, is the
--   parameter `Setting`, and the values and functions that a program makes are its record `Made`; a function
--   is an identity, and a theorem that runs it says so. Printed lines keep the text of the source with
--   the values that vary. A variable that closures share goes in and out of them. Shutdown and Endings are
--   about how the programs end, Addition, Echo and FileTotal about what the servers answer.
-- Tests: examples at concrete inputs.
--
-- Not modelled: the bindings and the C++ core (src/ObscuraProto/bindings.cpp), which `Env.reply` stands for;
-- the re-exports and `uint`; the tests and their audit scenarios, which only use the library; the set-up of
-- logging in an example. Weak references in the registry and the kinds of parameters (positional-only,
-- variadic) are not modelled: every parameter of a handler can be given by keyword. Nor is modelled what an
-- event loop does with a scheduled coroutine before it ends: its future says when it is completed and how.
-- Floats of seconds are whole microseconds.
pub mod Base
pub mod Runtime
pub mod Bindings
pub mod Build
pub mod Callback
pub mod Polling
pub mod Executor
pub mod Response
pub mod Unpack
pub mod Dispatcher
pub mod EventLoop
pub mod Stream
pub mod Server
pub mod Process
pub mod Examples
pub mod Tests
pub mod Client
