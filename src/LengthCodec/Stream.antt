-- ===== src/LengthCodec/Stream.antt =====
-- codec.h: the messages of a byte stream, however it is split into reads.
use chat.Prelude.{
  ℕ, zero, suc, ◌≤◌, ◌<◌, ◌≡◌, refl, ap, ◌∙◌, some, List, [], ◌∷◌, ◌++◌, map, arith, length,
  append_assoc, length-append,
}
use chat.Buffer.{Buffer}
use chat.Buffer.Valid.{IsValid, contents}
use chat.LengthCodec.{message, on_message}
use chat.LengthCodec.Frames.{frame, IsPartial, turn-partial, turn-frame, Behind}

-- The frames of some messages, one after the other.
abbrev pub frames : List (List ℕ) → List ℕ
frames [] = []
frames (m ∷ ms) = frame m ++ frames ms

-- Every message is short enough for the receiver.
abbrev pub AllShort : List (List ℕ) → Type 0
AllShort [] = Unit {0}
AllShort (m ∷ ms) = (length m ≤ 65536) × AllShort ms

-- A buffer of some frames and an incomplete one: `onMessage` delivers the messages in order and
-- leaves the incomplete frame.
pub on_message-frames :
    (ms : List (List ℕ)) (rest : List ℕ) (fuel : ℕ) (b : Buffer)
    → IsValid b
    → length (contents b) < fuel
    → AllShort ms
    → IsPartial rest
    → contents b ≡ frames ms ++ rest
    → (b' : Buffer) × (on_message fuel b ≡ some (map message ms, b')) × Behind rest b b'
unfolding on_message
on_message-frames ms rest zero b v h short partial e = absurd (omega arith)
on_message-frames [] rest (suc fuel) b v h short partial e =
    (b, rw (turn-partial b v (rw e partial)), record { valid = v; bytes = e; same_array = refl })
on_message-frames (m ∷ ms) rest (suc fuel) b v h short partial e =
    let first =
      turn-frame m (frames ms ++ rest) b v short.0 (e ∙ append_assoc (frame m) (frames ms) rest) in
    let others =
      on_message-frames ms rest fuel first.0 first.2.valid
        (omega (
          arith,
          ap length e,
          ap length first.2.bytes,
          length-append (frame m ++ frames ms) rest,
          length-append m (frames ms),
          length-append (frames ms) rest,
        ))
        short.1 partial first.2.bytes in
    (
      others.0,
      rw (first.1, others.1),
      record {
        valid = others.2.valid;
        bytes = others.2.bytes;
        same_array = others.2.same_array ∙ first.2.same_array;
      },
    )
