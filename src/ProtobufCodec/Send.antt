-- ===== src/ProtobufCodec/Send.antt =====
-- codec.h: `send`, from the message to the connection's bytes.
use chat.Prelude.{
  ◌+◌, ◌≤◌, ◌≡◌, refl, sym, ap, ◌∙◌, true, some, arith, length, max_size, given, to_size, signed32,
  to_int32,
}
use chat.Buffer
use chat.Buffer.{Buffer, readable_bytes, peek}
use chat.Buffer.Valid.{length-contents, peek_all, new-IsFresh}
use chat.Connection.{Connection, WriteResult, is_connected, send_buffer}
use chat.Connection.Invariant.{Inv, Allowed}
use chat.Connection.Stream.{Sent, send_in_loop-Sent}
use chat.ProtobufCodec.{Protobuf, send}
use chat.ProtobufCodec.Frames.{frame, IsSendable, length-frame, length-body}
use chat.ProtobufCodec.Fill.{HasFrame, fill_empty_buffer-frame}

module _ (r : Protobuf) where
  open r use {Message}

  send_buffer-Sent :
      (m : Message) (b : Buffer) (w : WriteResult) (c : Connection)
      → IsSendable r m
      → HasFrame r m b
      → Inv c
      → is_connected c.state ≡ true
      → Allowed (length (frame r m)) w
      → length c.output.buffer + length (frame r m) ≤ max_size
      → (c' : Connection) × (send_buffer true b w c ≡ some (c', Buffer.retrieve_all b))
        × Sent (frame r m) c c'
  unfolding send_buffer
  send_buffer-Sent m b w c s f v up a h =
      let count : readable_bytes b ≡ length (frame r m) =
        sym (length-contents b f.valid) ∙ ap length f.bytes in
      let len : to_size (signed32 (to_int32 (readable_bytes b))) ≡ readable_bytes b =
        ground (arith, count, length-frame r m, length-body r m, s.short) in
      let bytes : peek (readable_bytes b) b ≡ frame r m = peek_all b f.valid ∙ f.bytes in
      given (send_in_loop-Sent (frame r m) w c v up a h)
        (λ c' e d. (c', rw (up, len, bytes, e) refl, d))

  -- `send` of a message that the receiver accepts, in the loop thread of a connection that is up, with
  -- a write result that it outlives and room in the largest vector, never fails: the message's frame
  -- goes behind all earlier bytes of the connection, and the connection keeps its invariant.
  pub send-Sent :
      (m : Message) (w : WriteResult) (c : Connection)
      → IsSendable r m
      → Inv c
      → is_connected c.state ≡ true
      → Allowed (length (frame r m)) w
      → length c.output.buffer + length (frame r m) ≤ max_size
      → (c' : Connection) × (send r m w c ≡ some c') × Sent (frame r m) c c'
  unfolding send
  send-Sent m w c s v up a h =
      given (fill_empty_buffer-frame r m Buffer.new s new-IsFresh)
        (λ b e f. given (send_buffer-Sent m b w c s f v up a h) (λ c' q d. (c', rw (e, q) refl, d)))
