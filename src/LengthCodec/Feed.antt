-- ===== src/LengthCodec/Feed.antt =====
-- codec.h: a connection that reads a stream of frames in pieces, and what the sender makes.
use chat.Prelude.{
  ℕ, suc, ◌+◌, ◌≤◌, ◌≡◌, refl, sym, ap, ◌∙◌, inl, inr, Option, some, List, [], ◌∷◌, ◌++◌, map,
  arith, length, max_size, append-nil, append_assoc, length-append, ◌>>=◌, network_value32,
  network_value32-bytes,
}
use mathlib.Core.List.{map-append}
use chat.Buffer.{Buffer, readable_bytes, received, read_fd}
use chat.Buffer.Valid.{IsValid, contents, length-contents}
use chat.Buffer.Read.{read_fd_lem}
use chat.LengthCodec.{Event, message, on_message}
use chat.LengthCodec.Frames.{IsPartial}
use chat.LengthCodec.Stream.{frames, AllShort, on_message-frames}
use chat.LengthCodec.Split.{frames-Split}

-- Each piece is read into the input buffer and handed to `onMessage`, as the connection does.
pub feed : List (List ℕ) → Buffer → Option (List Event × Buffer)
feed [] b = some ([], b)
feed (c ∷ cs) b = do
  b₁ ← read_fd (received c) b
  r ← on_message (suc (readable_bytes b₁)) b₁
  rest ← feed cs r.1
  some (r.0 ++ rest.0, rest.1)

abbrev pub flatten : List (List ℕ) → List ℕ
flatten [] = []
flatten (c ∷ cs) = c ++ flatten cs

-- A stream that ends inside no frame is at its end.
partial_end :
    (ms : List (List ℕ)) (p : List ℕ) → AllShort ms → IsPartial p → p ≡ frames ms → ms ≡ []
partial_end [] p short partial e = refl
partial_end (m ∷ ms) p short (inl little) e =
    absurd (omega (arith, ap length e, length-append m (frames ms)))
partial_end (m ∷ ms) p short (inr (small, header, little)) e =
    absurd (omega (arith, ap length e, length-append m (frames ms), value))
  where
    value : network_value32 p ≡ length m
    value = ap network_value32 e ∙ network_value32-bytes (length m) [] (omega (arith, short.0))

map-append_message :
    (ms ns ks : List (List ℕ)) → ks ≡ ms ++ ns → map message ms ++ map message ns ≡ map message ks
map-append_message ms ns ks e = sym (map-append message ms ns) ∙ ap (map message) (sym e)

-- A stream of frames, cut into reads anywhere: the messages are delivered in order and complete, no
-- assertion fails, the loops end, and nothing is left in the buffer.
pub feed-frames :
    (cs : List (List ℕ)) (ms : List (List ℕ)) (b : Buffer)
    → IsValid b
    → length b.buffer + length (flatten cs) ≤ max_size
    → AllShort ms
    → IsPartial (contents b)
    → contents b ++ flatten cs ≡ frames ms
    → (b' : Buffer) × (feed cs b ≡ some (map message ms, b')) × IsValid b' × (contents b' ≡ [])
unfolding feed
feed-frames [] ms b v h short partial e =
    let whole : contents b ≡ frames ms = sym (append-nil (contents b)) ∙ e in
    let none_left = partial_end ms (contents b) short partial whole in
    (b, ap (λ ks. some (map message ks, b)) (sym none_left), v, whole ∙ ap frames none_left)
feed-frames (c ∷ cs) ms b v h short partial e =
    let arrived = read_fd_lem c b v (omega (arith, length-append c (flatten cs))) in
    let cut =
      frames-Split ms (contents b ++ c) (flatten cs) short
        (append_assoc (contents b) c (flatten cs) ∙ e) in
    let handled =
      on_message-frames cut.done cut.part (suc (readable_bytes arrived.0)) arrived.0 arrived.2.valid
        (omega (arith, length-contents arrived.0 arrived.2.valid)) cut.done_short cut.partial
        (arrived.2.bytes ∙ cut.read) in
    let rest =
      feed-frames cs cut.left handled.0 handled.2.valid
        (omega
          (arith, length-append c (flatten cs), arrived.2.growth, ap length handled.2.same_array))
        cut.left_short (rw (handled.2.bytes) cut.partial)
        (ap (λ xs. xs ++ flatten cs) handled.2.bytes ∙ cut.unread) in
    (
      rest.0,
      rw (arrived.1, handled.1, rest.1)
          (ap (λ es. some (es, rest.0)) (map-append_message cut.done cut.left ms cut.same)),
      rest.2,
      rest.3,
    )
