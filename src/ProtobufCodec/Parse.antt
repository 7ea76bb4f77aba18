-- ===== src/ProtobufCodec/Parse.antt =====
-- codec.cc: `parse` on the bytes of a message, and on damaged ones.
use chat.Prelude.{
  ℕ, ◌+◌, ◌-◌, ◌≤◌, ◌<◌, ◌^◌, ◌≡◌, refl, ap, ap₂, ◌∙◌, true, false, ◌||◌, some, List, [], ◌∷◌, ◌++◌,
  arith, length, take, drop, slice, slice-middle, take_append_le, drop_append_ge, take_all,
  append_assoc, length-append, network_bytes32, network_value32, network_value32-bytes, to_int32,
  to_size, ◌==◌,
}
use chat.Prelude.Int.{pos, ltb_ℤ}
use chat.ProtobufCodec.{Protobuf, ok, as_int32, create_message, parse_data, parse_named, parse}
use chat.ProtobufCodec.Frames.{payload, body, IsSendable, length-payload, length-body}

module _ (r : Protobuf) where
  open r use {
    Message, type_name, to_bytes, is_initialized, adler32, find_type_lem, prototype_lem,
    parse_from-to_bytes, adler32_small, prototype, find_type, new_of,
  }

  tail : Message → List ℕ
  tail m = to_bytes m ++ network_bytes32 (adler32 (payload r m))

  body-parts :
      (m : Message)
      → body r m ≡ network_bytes32 (length (type_name m) + 1) ++ (type_name m ++ (0 ∷ tail m))
  unfolding body payload tail
  body-parts m =
      let header = network_bytes32 (length (type_name m) + 1) in
      let name = type_name m ++ (0 ∷ []) in
      append_assoc (header ++ name) (to_bytes m) _
      ∙ append_assoc header name (tail m)
      ∙ ap (λ xs. header ++ xs) (append_assoc (type_name m) (0 ∷ []) (tail m))

  pub name_len-body :
      (m : Message) → IsSendable r m → as_int32 (body r m) ≡ pos (length (type_name m) + 1)
  unfolding as_int32
  name_len-body m s =
      let n = length (type_name m) + 1 in
      let word : network_value32 (body r m) ≡ n =
        ap network_value32 (body-parts m)
        ∙ network_value32-bytes n (type_name m ++ (0 ∷ tail m))
            (omega (arith, s.short, length-body r m)) in
      ground (arith, word, s.short, length-body r m)

  slice-name : (m : Message) → slice 4 (length (type_name m)) (body r m) ≡ type_name m
  slice-name m = rw (body-parts m) (
      slice-middle 4 (length (type_name m)) (network_bytes32 (length (type_name m) + 1))
        (type_name m) (0 ∷ tail m) refl refl)

  slice-data :
      (m : Message)
      → slice (4 + (length (type_name m) + 1)) (length (to_bytes m)) (body r m) ≡ to_bytes m
  unfolding body payload
  slice-data m =
      let front = network_bytes32 (length (type_name m) + 1) ++ (type_name m ++ (0 ∷ [])) in
      ap (slice (4 + (length (type_name m) + 1)) (length (to_bytes m)))
        (append_assoc front (to_bytes m) _)
      ∙ slice-middle (4 + (length (type_name m) + 1)) (length (to_bytes m)) front (to_bytes m) _
          (omega (arith, length-append (type_name m) (0 ∷ []))) refl

  -- The type of a message that the program has is found by its name, and its bytes are read.
  parse_data-message :
      (m : Message)
      → is_initialized m ≡ true
      → parse_data r (create_message r (type_name m)) (to_bytes m) ≡ (ok, some m)
  unfolding parse_data create_message
  parse_data-message m i =
      let d = find_type_lem m in
      let p = prototype_lem m d.0 d.1 in rw (d.1, p.1, parse_from-to_bytes m d.0 p.0 i d.1 p.1) refl

  parse_named_at :
      (buf : List ℕ) (len k : ℕ)
      → as_int32 buf ≡ pos k
      → 2 ≤ k
      → k ≤ len - 8
      → k < 2 ^ 31
      → parse_named r buf len
        ≡ parse_data r (create_message r (slice 4 (k - 1) buf)) (slice (4 + k) (len - k - 8) buf)
  unfolding parse_named
  parse_named_at buf len k e two fits small =
      let right : (ltb_ℤ (pos k) (pos 2) || ltb_ℤ (pos (len - 8)) (pos k)) ≡ false = ground arith in
      let size : to_size (pos k) ≡ k = omega arith in rw (e, right, size) refl

  parse_named-body :
      (m : Message) → IsSendable r m → parse_named r (body r m) (length (body r m)) ≡ (ok, some m)
  parse_named-body m s =
      let n = length (type_name m) + 1 in
      let size = length-body r m in
      let name : slice 4 (n - 1) (body r m) ≡ type_name m =
        ap (λ k. slice 4 k (body r m)) {x = n - 1} {y = length (type_name m)} (omega arith)
        ∙ slice-name m in
      let data' : slice (4 + n) (length (body r m) - n - 8) (body r m) ≡ to_bytes m =
        ap (λ k. slice (4 + n) k (body r m)) {x = length (body r m) - n - 8}
          {y = length (to_bytes m)} (omega (arith, size))
        ∙ slice-data m in
      parse_named_at (body r m) (length (body r m)) n (name_len-body m s) (omega (arith, s.named))
        (omega (arith, size)) (omega (arith, s.short, size))
      ∙ ap₂ (λ xs ys. parse_data r (create_message r xs) ys) name data'
      ∙ parse_data-message m s.initialized

  check_sum-body :
      (m : Message)
      → (network_value32 (drop (length (body r m) - 4) (body r m)) ≡ adler32 (payload r m))
        × (take (length (body r m) - 4) (body r m) ≡ payload r m)
  unfolding body
  check_sum-body m =
      let word = network_bytes32 (adler32 (payload r m)) in
      let cut : length (body r m) - 4 ≡ length (payload r m) =
        omega (arith, length-body r m, length-payload r m) in
      (
        rw (cut, drop_append_ge (length (payload r m)) (payload r m) word (omega arith))
            (ap (λ k. network_value32 (drop k word))
                {x = length (payload r m) - length (payload r m)} {y = 0} (omega arith)
              ∙ network_value32-bytes (adler32 (payload r m)) [] (adler32_small (payload r m))),
        rw (cut, take_append_le (length (payload r m)) (payload r m) word (omega arith))
            (take_all _ (payload r m) (omega arith)),
      )

  -- `parse` of what stands behind the length of a sendable message's frame gives the message and no
  -- error.
  pub parse-body :
      (m : Message) → IsSendable r m → parse r (body r m) (length (body r m)) ≡ (ok, some m)
  unfolding parse
  parse-body m s =
      let parts = check_sum-body m in
      let same : (adler32 (payload r m) == to_int32 (adler32 (payload r m))) ≡ true =
        ground (arith, adler32_small (payload r m)) in
      rw (parts.0, parts.1, same) (parse_named-body m s)
