-- ===== src/ProtobufCodec/Receive.antt =====
-- codec.cc: `onMessage` on whole messages, on damaged ones and on the front of one.
use chat.Prelude.{
  ℕ, zero, suc, ◌+◌, ◌-◌, ◌≤◌, ◌<◌, ◌≡◌, ◌≢◌, refl, sym, ap, ◌∙◌, true, false, ◌||◌, some, List, [],
  ◌∷◌, ◌++◌, map, arith, length, take, drop, leb, length-append, take_append_le, drop_append_ge,
  take_all, append_assoc, network_bytes32, network_value32, network_value32-take, signed32,
  to_int32, to_size, ◌==◌, given, Bool-cases, inl, inr, take_add, drop-drop, ◌⊎◌,
}
use chat.Prelude.Int.{pos, ltb_ℤ}
use chat.Buffer.{Buffer, readable_bytes, peek}
use chat.Buffer.Valid.{IsValid, contents, length-contents}
use chat.Buffer.Queue.{retrieve_lem, peek-take}
use chat.Buffer.Ints.{peek_int32-bytes, peek_int32-value}
use chat.ProtobufCodec.{
  Protobuf, max_message_len, min_message_len, header_len, ok, check_sum_error, is_ok, parse,
  take_message, turn_at, turn, on_message, message, error, finish, deliver,
}
use chat.ProtobufCodec.Frames.{body, frame, IsSendable, length-body}
use chat.ProtobufCodec.Parse.{parse-body}

module _ (r : Protobuf) where
  open r use {Message, type_name, to_bytes, adler32, adler32_small}

  -- A valid buffer that starts with a length and as many bytes.
  record Starts (bs rest : List ℕ) (b : Buffer) : Type 0 where
    valid : IsValid b
    bytes : contents b ≡ network_bytes32 (length bs) ++ (bs ++ rest)
    long : min_message_len ≤ length bs
    short : length bs ≤ max_message_len

  memory-bytes :
      (bs rest : List ℕ) (b : Buffer)
      → Starts bs rest b
      → drop header_len (peek (header_len + length bs) b) ≡ bs
  memory-bytes bs rest b s =
      let size : length (contents b) ≡ 4 + (length bs + length rest) =
        omega (arith, ap length s.bytes, length-append bs rest) in
      ap (drop header_len) (
        peek-take (header_len + length bs) b s.valid (omega (arith, size))
        ∙ ap (take (header_len + length bs)) s.bytes)
      ∙ ap (drop header_len)
          (take_add header_len (length bs) (network_bytes32 (length bs) ++ (bs ++ rest)))
      ∙ take_append_le (length bs) bs rest (omega arith)
      ∙ take_all (length bs) bs (omega arith)

  turn_at-whole :
      (bs rest : List ℕ) (b : Buffer)
      → Starts bs rest b
      → turn_at r b (length bs) ≡ take_message r (parse r bs (length bs)) (length bs) b
  unfolding turn_at
  turn_at-whole bs rest b s =
      let w = length bs in
      let right : (ltb_ℤ (pos max_message_len) (signed32 w)
            || ltb_ℤ (signed32 w) (pos min_message_len))
          ≡ false =
        ground (arith, s.long, s.short) in
      let size : to_size (signed32 w) ≡ w = ground (arith, s.short) in
      let whole : leb (w + header_len) (readable_bytes b) ≡ true =
        ground (arith, length-contents b s.valid, ap length s.bytes, length-append bs rest) in
      rw (right, size, whole, memory-bytes bs rest b s) refl

  turn-whole :
      (bs rest : List ℕ) (b : Buffer)
      → Starts bs rest b
      → turn r b ≡ take_message r (parse r bs (length bs)) (length bs) b
  unfolding turn
  turn-whole bs rest b s =
      let enough : leb (min_message_len + header_len) (readable_bytes b) ≡ true =
        ground
          (arith, length-contents b s.valid, ap length s.bytes, length-append bs rest, s.long) in
      rw
        (
          enough,
          peek_int32-bytes (length bs) (bs ++ rest) b s.valid (omega (arith, s.short)) s.bytes,
        )
        (turn_at-whole bs rest b s)

  -- The buffer behind a message.
  record Left (rest : List ℕ) (b : Buffer) : Type 0 where
    valid : IsValid b
    bytes : contents b ≡ rest

  take_message-Left :
      (m : Message) (bs rest : List ℕ) (b : Buffer)
      → Starts bs rest b
      → (b' : Buffer) × (take_message r (ok, some m) (length bs) b ≡ some (deliver m b'))
        × Left rest b'
  unfolding take_message is_ok
  take_message-Left m bs rest b s =
      let size : length (contents b) ≡ 4 + (length bs + length rest) =
        omega (arith, ap length s.bytes, length-append bs rest) in
      given (retrieve_lem (header_len + length bs) b s.valid (omega (arith, size))) (λ b' e d. (
        b',
        rw e refl,
        record {
          valid = d.valid;
          bytes =
              d.bytes
              ∙ ap (drop (header_len + length bs)) s.bytes
              ∙ sym (drop-drop header_len (length bs) (network_bytes32 (length bs) ++ (bs ++ rest)))
              ∙ drop_append_ge (length bs) bs rest (omega arith)
              ∙ ap (λ n. drop n rest) {x = length bs - length bs} {y = 0} (omega arith);
        },
      ))

  Starts-frame :
      (m : Message) (rest : List ℕ) (b : Buffer)
      → IsSendable r m
      → IsValid b
      → contents b ≡ frame r m ++ rest
      → Starts (body r m) rest b
  unfolding frame
  Starts-frame m rest b s v e = record {
    valid = v;
    bytes = e ∙ append_assoc (network_bytes32 (length (body r m))) (body r m) rest;
    long = omega (arith, length-body r m, s.named);
    short = s.short;
  }

  turn-frame :
      (m : Message) (rest : List ℕ) (b : Buffer)
      → IsSendable r m
      → IsValid b
      → contents b ≡ frame r m ++ rest
      → (b' : Buffer) × (turn r b ≡ some (deliver m b')) × Left rest b'
  turn-frame m rest b s v e =
      let starts = Starts-frame m rest b s v e in
      given (take_message-Left m (body r m) rest b starts) (λ b' q d. (
        b',
        turn-whole (body r m) rest b starts
            ∙ ap (λ p. take_message r p (length (body r m)) b) (parse-body r m s)
            ∙ q,
        d,
      ))

  -- A message that is not all there yet.
  unfoldable pub IsIncomplete : List ℕ → Type 0
  IsIncomplete ps =
      (length ps < min_message_len + header_len)
      ⊎ ((min_message_len ≤ network_value32 ps)
          × (network_value32 ps ≤ max_message_len)
          × (length ps < network_value32 ps + header_len))

  turn_at_cut :
      (w : ℕ) (b : Buffer)
      → min_message_len ≤ w
      → w ≤ max_message_len
      → readable_bytes b < w + header_len
      → turn_at r b w ≡ some (finish [])
  unfolding turn_at
  turn_at_cut w b low high cut = ground arith

  turn-incomplete :
      (ps : List ℕ) (b : Buffer)
      → IsValid b
      → contents b ≡ ps
      → IsIncomplete ps
      → turn r b ≡ some (finish [])
  unfolding turn IsIncomplete
  turn-incomplete ps b v e (inl short) =
      let few : leb (min_message_len + header_len) (readable_bytes b) ≡ false =
        ground (arith, length-contents b v, ap length e) in
      rw few refl
  turn-incomplete ps b v e (inr (low, high, cut)) =
      elim (Bool-cases (leb (min_message_len + header_len) (readable_bytes b))) [
        | inl enough ↦
            let header : 4 ≤ length (contents b) = ground (arith, length-contents b v) in
            let value : network_value32 (take 4 (contents b)) ≡ network_value32 ps =
              ap (λ xs. network_value32 (take 4 xs)) e ∙ network_value32-take ps in
            rw (enough, peek_int32-value b v header, value)
              (turn_at_cut (network_value32 ps) b low high
                (omega (arith, length-contents b v, ap length e)))
        | inr few ↦ rw few refl
      ]

  unfoldable pub frames : List Message → List ℕ
  frames [] = []
  frames (m ∷ ms) = frame r m ++ frames ms

  unfoldable pub AllSendable : List Message → Type 0
  AllSendable [] = Unit {0}
  AllSendable (m ∷ ms) = IsSendable r m × AllSendable ms

  -- Where a valid buffer holds the frames of some messages and perhaps the front of a further one,
  -- `onMessage` delivers just these messages in order, reports no error, and leaves that front.
  pub on_message-frames :
      (fuel : ℕ) (ms : List Message) (part : List ℕ) (b : Buffer)
      → AllSendable ms
      → IsIncomplete part
      → IsValid b
      → contents b ≡ frames ms ++ part
      → length ms < fuel
      → (b' : Buffer) × (on_message r fuel b ≡ some (map message ms, b'))
        × IsValid b'
        × (contents b' ≡ part)
  unfolding on_message AllSendable frames
  on_message-frames zero ms part b all i v e h = absurd (omega arith)
  on_message-frames (suc fuel) [] part b all i v e h =
      (b, rw (turn-incomplete part b v e i) refl, v, e)
  on_message-frames (suc fuel) (m ∷ ms) part b all i v e h =
      given
        (turn-frame m (frames ms ++ part) b all.0 v (e ∙ append_assoc (frame r m) (frames ms) part))
        (λ b₁ q d.
          let others = on_message-frames fuel ms part b₁ all.1 i d.valid d.bytes (omega arith) in
          (others.0, rw (q, others.1) refl, others.2, others.3))

  -- Whole bytes whose checksum is not the one behind them give one error, no message, and stay.
  pub on_message_damaged :
      (fuel : ℕ) (bs rest : List ℕ) (b : Buffer)
      → IsValid b
      → contents b ≡ network_bytes32 (length bs) ++ (bs ++ rest)
      → min_message_len ≤ length bs
      → length bs ≤ max_message_len
      → network_value32 (drop (length bs - 4) bs) ≢ adler32 (take (length bs - 4) bs)
      → on_message r (suc fuel) b ≡ some (error check_sum_error ∷ [], b)
  unfolding on_message parse take_message
  on_message_damaged fuel bs rest b v e long short bad =
      let starts : Starts bs rest b = record { valid = v; bytes = e; long = long; short = short } in
      let differs : (network_value32 (drop (length bs - 4) bs)
            == to_int32 (adler32 (take (length bs - 4) bs)))
          ≡ false =
        ground (arith, bad, adler32_small (take (length bs - 4) bs)) in
      rw (turn-whole bs rest b starts, differs) refl
