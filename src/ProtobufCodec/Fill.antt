-- ===== src/ProtobufCodec/Fill.antt =====
-- codec.cc: `fillEmptyBuffer` writes the bytes of a message.
use chat.Prelude.{
  ℕ, ◌+◌, ◌≤◌, ◌≡◌, refl, sym, ap, ap₂, ◌∙◌, true, some, max_size, given, List, [], ◌∷◌, ◌++◌,
  arith, length, length-append, ◌==◌, network_bytes32, to_int32,
}
use chat.Buffer.{Buffer, readable_bytes, peek, append_int32, has_written, copy_to_write}
use chat.Buffer.Valid.{
  IsValid, contents, length-contents, peek_all, IsFresh, ensure_writable_bytes-Ensured,
}
use chat.Buffer.Queue.{append_lem, prepend_lem, Appended, written-Appended}
use chat.ProtobufCodec.{Protobuf, fill_empty_buffer, write_message, seal}
use chat.ProtobufCodec.Frames.{payload, body, frame, IsSendable, length-body}

module _ (r : Protobuf) where
  open r use {
    Message, type_name, byte_size, to_bytes, is_initialized, adler32, adler32_small,
    length-to_bytes,
  }

  abbrev name_bytes : Message → List ℕ
  name_bytes m = type_name m ++ (0 ∷ [])

  abbrev check_bytes : Message → List ℕ
  check_bytes m = network_bytes32 (adler32 (payload r m))

  write_message-Appended :
      (m : Message) (b : Buffer)
      → is_initialized m ≡ true
      → IsValid b
      → length b.buffer + length (to_bytes m) ≤ max_size
      → (b' : Buffer) × (write_message r m b ≡ some b') × Appended (to_bytes m) b b'
  unfolding write_message
  write_message-Appended m b i v h =
      given (ensure_writable_bytes-Ensured (length (to_bytes m)) b v h) (λ b' e d.
        let same : (length (to_bytes m) == length (to_bytes m)) ≡ true = ground arith in
        (
          has_written (length (to_bytes m)) (copy_to_write (to_bytes m) b'),
          rw (i, sym (length-to_bytes m), e, same) refl,
          written-Appended (to_bytes m) b b' d,
        ))

  -- A valid buffer with the frame as its readable bytes.
  pub record HasFrame (m : Message) (b : Buffer) : Type 0 where
    pub valid : IsValid b
    pub bytes : contents b ≡ frame r m

  -- A buffer that holds the payload gets its checksum and its length.
  seal-frame :
      (m : Message) (b : Buffer)
      → IsSendable r m
      → IsValid b
      → contents b ≡ payload r m
      → 8 ≤ b.reader_index
      → length b.buffer + 4 ≤ max_size
      → (b' : Buffer) × (seal r (length (type_name m) + 1) m b ≡ some b') × HasFrame m b'
  unfolding seal append_int32 frame body
  seal-frame m b s v all front h =
      let sum : to_int32 (adler32 (peek (readable_bytes b) b)) ≡ adler32 (payload r m) =
        ap (λ xs. to_int32 (adler32 xs)) (peek_all b v ∙ all)
        ∙ omega (arith, adler32_small (payload r m)) in
      given (append_lem (check_bytes m) b v h) (λ b₁ e₁ d₁.
        let whole : contents b₁ ≡ body r m = d₁.bytes ∙ ap (λ xs. xs ++ check_bytes m) all in
        let count : readable_bytes b₁ ≡ length (body r m) =
          sym (length-contents b₁ d₁.valid) ∙ ap length whole in
        let checked : (readable_bytes b₁ == 4 + (length (type_name m) + 1) + byte_size m + 4)
            ≡ true =
          ground (arith, count, length-body r m, length-to_bytes m) in
        given
          (prepend_lem (network_bytes32 (to_int32 (readable_bytes b₁))) b₁ d₁.valid
            (omega (arith, d₁.front)))
          (λ b₂ e₂ d₂. (
            b₂,
            rw (sum, e₁, checked, e₂) refl,
            record {
              valid = d₂.valid;
              bytes =
                  d₂.bytes
                  ∙ ap₂ (λ (n : ℕ) (xs : List ℕ). network_bytes32 n ++ xs)
                      (ap to_int32 count ∙ omega (arith, s.short)) whole;
            },
          )))

  -- `fillEmptyBuffer` on a fresh buffer never fails where the message is sendable, and the buffer then
  -- holds the message's frame: the length, the name's length, the name, the bytes and the checksum.
  pub fill_empty_buffer-frame :
      (m : Message) (b : Buffer)
      → IsSendable r m
      → IsFresh b
      → (b' : Buffer) × (fill_empty_buffer r m b ≡ some b') × HasFrame m b'
  unfolding fill_empty_buffer append_int32 payload
  fill_empty_buffer-frame m b s fresh =
      let k = length (type_name m) + 1 in
      let size = length-body r m in
      let name_size = length-append (type_name m) (0 ∷ []) in
      let empty : (readable_bytes b == 0) ≡ true =
        ground (arith, length-contents b fresh.valid, ap length fresh.empty) in
      let name_len : to_int32 k ≡ k = omega (arith, s.short, size) in
      given (append_lem (network_bytes32 k) b fresh.valid (omega (arith, fresh.array))) (λ b₁ e₁ d₁.
        given
          (append_lem (name_bytes m) b₁ d₁.valid
            (omega (arith, d₁.growth, fresh.array, s.short, size, name_size)))
          (λ b₂ e₂ d₂.
            given
              (write_message-Appended m b₂ s.initialized d₂.valid
                (omega (arith, d₁.growth, d₂.growth, fresh.array, s.short, size, name_size)))
              (λ b₃ e₃ d₃.
                let all : contents b₃ ≡ payload r m =
                  d₃.bytes
                  ∙ ap (λ xs. xs ++ to_bytes m)
                      (d₂.bytes
                        ∙ ap (λ xs. xs ++ name_bytes m)
                            (d₁.bytes ∙ ap (λ xs. xs ++ network_bytes32 k) fresh.empty)) in
                given
                  (seal-frame m b₃ s d₃.valid all
                    (omega (arith, d₁.front, d₂.front, d₃.front, fresh.front))
                    (omega (
                      arith, d₁.growth, d₂.growth, d₃.growth, fresh.array, s.short, size, name_size,
                    )))
                  (λ b₄ e₄ d₄. (b₄, rw (empty, name_len, e₁, e₂, e₃) e₄, d₄)))))
