-- ===== src/LengthCodec/Tests.antt =====
-- codec.h at concrete inputs: runs, and the theorems there.
use chat.Prelude.{ℕ, ◌+◌, ◌++◌, ◌≡◌, refl, inl, some, List, [], ◌∷◌, map, arith, replicate, length}
use chat.Buffer.{Buffer}
use chat.Buffer.Valid.{IsValid, contents}
use chat.LengthCodec.{message, on_message}
use chat.LengthCodec.Feed.{feed, feed-frames}
use chat.LengthCodec.Total.{Handled, on_message-Handled}

abbrev holding : List ℕ → Buffer
holding bs = record { buffer = replicate 8 0 ++ bs; reader_index = 8; writer_index = 8 + length bs }

-- The frames of "AB" and "C", cut inside the first header and inside the second frame.
abbrev pieces : List (List ℕ)
pieces = (0 ∷ 0 ∷ []) ∷ (0 ∷ 2 ∷ 65 ∷ 66 ∷ 0 ∷ []) ∷ (0 ∷ 0 ∷ 1 ∷ 67 ∷ []) ∷ []

feed-frames_example :
    (b' : Buffer) × (feed pieces (holding [])
      ≡ some (map message ((65 ∷ 66 ∷ []) ∷ (67 ∷ []) ∷ []), b'))
    × IsValid b'
    × (contents b' ≡ [])
feed-frames_example =
    feed-frames pieces ((65 ∷ 66 ∷ []) ∷ (67 ∷ []) ∷ []) (holding []) (omega arith) (omega arith)
      (omega arith) (inl (omega arith)) refl

on_message-Handled_example :
    Handled
      (holding (0 ∷ 0 ∷ 0 ∷ 1 ∷ 65 ∷ 255 ∷ 255 ∷ 255 ∷ 255 ∷ []))
      (on_message 10 (holding (0 ∷ 0 ∷ 0 ∷ 1 ∷ 65 ∷ 255 ∷ 255 ∷ 255 ∷ 255 ∷ [])))
on_message-Handled_example =
    on_message-Handled 10 (holding (0 ∷ 0 ∷ 0 ∷ 1 ∷ 65 ∷ 255 ∷ 255 ∷ 255 ∷ 255 ∷ [])) (omega arith)
      (omega arith)
