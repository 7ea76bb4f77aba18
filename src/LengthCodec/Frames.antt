-- ===== src/LengthCodec/Frames.antt =====
-- The frames of codec.h as lists of bytes, and one turn of the receiver on them.
use chat.Prelude.{
  ℕ, ◌+◌, ◌≤◌, ◌<◌, ◌≡◌, ap, ◌∙◌, ◌⊎◌, inl, inr, some, List, [], ◌∷◌, ◌++◌, arith, length, take,
  drop, signed32, network_bytes32, network_value32, network_value32-take, network_value32-bytes,
  length-append, take-length_append, drop-length_append,
}
use chat.Prelude.Int.{pos}
use chat.Buffer.{Buffer, peek}
use chat.Buffer.Valid.{IsValid, contents, length-contents}
use chat.Buffer.Queue.{retrieve_lem, peek-take}
use chat.LengthCodec.{header_len, shutdown, finish, deliver, peek_len, take_message, turn}

-- A message with its header.
abbrev pub frame : List ℕ → List ℕ
frame m = network_bytes32 (length m) ++ m

-- Bytes that hold no whole frame, and whose header, if it is there, is in range.
abbrev pub IsPartial : List ℕ → Type 0
IsPartial xs =
    (length xs < 4)
    ⊎ ((network_value32 xs ≤ 65536) × (4 ≤ length xs) × (length xs < network_value32 xs + 4))

-- The header that the code reads is the value of the first readable bytes.
pub peek_len-value :
    (b : Buffer)
    → IsValid b
    → 4 ≤ length (contents b)
    → peek_len b ≡ signed32 (network_value32 (contents b))
unfolding peek_len
peek_len-value b v h =
    ap (λ xs. signed32 (network_value32 xs)) (peek-take 4 b v h)
    ∙ ap signed32 (network_value32-take (contents b))

-- On an incomplete frame the loop ends, and nothing is delivered.
pub turn-partial : (b : Buffer) → IsValid b → IsPartial (contents b) → turn b ≡ some (finish [])
unfolding turn
turn-partial b v (inl short) = ground (arith, length-contents b v)
turn-partial b v (inr (small, header, short)) =
    ground (arith, length-contents b v, peek_len-value b v header)

-- A header that is negative or above 65536 ends the loop with a shutdown.
pub turn-invalid :
    (b : Buffer)
    → IsValid b
    → 4 ≤ length (contents b)
    → 65536 < network_value32 (contents b)
    → turn b ≡ some (finish (shutdown ∷ []))
unfolding turn
turn-invalid b v header big = ground (arith, length-contents b v, peek_len-value b v header)

-- `b'` holds what stands behind a first frame of `b`.
pub record Behind (rest : List ℕ) (b b' : Buffer) : Type 0 where
  pub valid : IsValid b'
  pub bytes : contents b' ≡ rest
  pub same_array : b'.buffer ≡ b.buffer

take_message_lem :
    (m rest : List ℕ) (b : Buffer)
    → IsValid b
    → contents b ≡ frame m ++ rest
    → (b' : Buffer) × (take_message (length m) b ≡ some (deliver m b')) × Behind rest b b'
unfolding take_message
take_message_lem m rest b v e =
    let first = retrieve_lem header_len b v (omega (arith, ap length e)) in
    let body : contents first.0 ≡ m ++ rest = first.2.bytes ∙ ap (drop 4) e in
    let size : length m ≤ length (contents first.0) =
      omega (arith, ap length body, length-append m rest) in
    let second = retrieve_lem (length m) first.0 first.2.valid size in
    let text : peek (length m) first.0 ≡ m =
      peek-take (length m) first.0 first.2.valid size
      ∙ ap (take (length m)) body
      ∙ take-length_append m rest in
    (
      second.0,
      rw (first.1, second.1, text),
      record {
        valid = second.2.valid;
        bytes = second.2.bytes ∙ ap (drop (length m)) body ∙ drop-length_append m rest;
        same_array = second.2.same_array ∙ first.2.same_array;
      },
    )

-- Where a whole frame stands first, its message is delivered and its bytes are taken.
pub turn-frame :
    (m rest : List ℕ) (b : Buffer)
    → IsValid b
    → length m ≤ 65536
    → contents b ≡ frame m ++ rest
    → (b' : Buffer) × (turn b ≡ some (deliver m b')) × Behind rest b b'
unfolding turn
turn-frame m rest b v small e =
    let taken = take_message_lem m rest b v e in (taken.0, whole ∙ taken.1, taken.2)
  where
    size : length (contents b) ≡ 4 + length m + length rest
    size = omega (arith, ap length e, length-append m rest)

    header : peek_len b ≡ pos (length m)
    header =
        peek_len-value b v (omega (arith, size))
        ∙ ap signed32 (ap network_value32 e ∙ network_value32-bytes (length m) [] (omega arith))
        ∙ ground arith

    whole : turn b ≡ take_message (length m) b
    whole = ground (arith, header, size, length-contents b v)
