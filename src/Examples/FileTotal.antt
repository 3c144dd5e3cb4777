-- ===== src/Examples/FileTotal.antt =====
-- The byte count of the file stream in examples/stream_opcode_example.py.
use py_obscura_proto.Base.{ℕ, ◌+◌, ◌≡◌, refl, ◌∙◌, ap, List, [], ◌∷◌, ◌++◌, length, arith, inl, inr}
use mathlib.Core.List.{append_assoc, append-nil}
use py_obscura_proto.Callback.Blocking.{ended}
use py_obscura_proto.Runtime.{
  World, Env, Exec, LogLine, printed, Result-cases, ok, Value, bytes_value, stream_write,
  stream_end, pure, ◌>>=◌,
}
use py_obscura_proto.Stream.{cpp_of, write, end}
use py_obscura_proto.Examples.{Setting}
use py_obscura_proto.Examples.StreamOpcodes.{Made, total_size, file_on_data, file_on_end}

-- The chunks as values, and the bytes of all of them.
abbrev pub as_bytes : List (List ℕ) → List Value
as_bytes [] = []
as_bytes (c ∷ cs) = bytes_value c ∷ as_bytes cs

abbrev pub joined : List (List ℕ) → List ℕ
joined [] = []
joined (c ∷ cs) = c ++ joined cs

-- The chunks arrive, in this order.
abbrev pub arrive : Env → ℕ → Setting → Made → List Value → List Value → Exec (List Value)
arrive env t x made chunks [] = pure chunks
arrive env t x made chunks (c ∷ cs) = do
  more ← file_on_data env t x made chunks c
  arrive env t x made more cs

length-++ : (xs ys : List ℕ) → length (xs ++ ys) ≡ length xs + length ys
length-++ [] ys = omega arith
length-++ (x ∷ xs) ys = omega (arith, length-++ xs ys)

total_size-joined :
    (n : ℕ) (cs : List (List ℕ)) → total_size n (as_bytes cs) ≡ ok (n + length (joined cs))
unfolding total_size
total_size-joined n [] = ap ok (omega arith)
total_size-joined n (c ∷ cs) =
    total_size-joined (n + length c) cs ∙ ap ok (omega (arith, length-++ c (joined cs)))

module _ (env : Env) (t : ℕ) (x : Setting) (made : Made) where
  arrive-appends :
      (chunks cs : List Value) (w : World)
      → (l : List LogLine) × (arrive env t x made chunks cs w
          ≡ (ok (chunks ++ cs), record w { logged = l }))
  unfolding file_on_data
  arrive-appends chunks [] w = (w.logged, rw (append-nil) refl)
  arrive-appends chunks (c ∷ cs) w =
      let u = record w {
        logged = printed "[SERVER] File chunk received ({len(data)} bytes)" (c ∷ []) ∷ w.logged;
      } in
      let (l, e) = arrive-appends (chunks ++ c ∷ []) cs u in
      (l, e ∙ ap (λ cs'. (ok cs', record w { logged = l })) (append_assoc chunks (c ∷ []) cs))

  -- The file handler of the stream example, for chunks of bytes in any number and of any sizes, where the
  -- bindings take the answer: when they have arrived and the client ends the stream, the server writes the
  -- number of bytes of all of them together, and then ends its own side.
  pub file_received :
      (stream : ℕ) (cs : List (List ℕ)) (v : Value) (w : World)
      → let answer = stream_write (cpp_of stream w) (made.received (length (joined cs))) in
        env.reply w.calls answer ≡ ok v
        → let (r, u) =
            (arrive env t x made [] (as_bytes cs) >>= file_on_end env t x made stream) w in
          let last = stream_end (cpp_of stream w) in
          (u.calls ≡ last ∷ answer ∷ w.calls) × (r ≡ ended tt (env.reply (answer ∷ w.calls) last))
  unfolding file_on_end write end
  file_received stream cs v w h =
      let (l, e) = arrive-appends [] (as_bytes cs) w in
      let total : total_size 0 (as_bytes cs) ≡ ok (length (joined cs)) =
        total_size-joined 0 cs ∙ ap ok (omega arith) in
      let last =
        env.reply (stream_write (cpp_of stream w) (made.received (length (joined cs))) ∷ w.calls)
          (stream_end (cpp_of stream w)) in
      rw (e, total)
        (elim (Result-cases last) [ inl (b, q) ↦ ground arith | inr (b, q) ↦ ground arith ])
