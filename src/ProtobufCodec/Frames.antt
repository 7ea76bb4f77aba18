-- ===== src/ProtobufCodec/Frames.antt =====
-- codec.cc: what a message looks like on the wire.
use chat.Prelude.{
  true, ℕ, ◌+◌, ◌≤◌, ◌≡◌, List, [], ◌∷◌, ◌++◌, arith, length, length-append, network_bytes32,
}
use chat.ProtobufCodec.{Protobuf, max_message_len}

module _ (r : Protobuf) where
  open r use {Message, type_name, to_bytes, is_initialized, adler32}

  -- The name's length and the name, with the zero byte behind it, and the message's bytes.
  unfoldable pub payload : Message → List ℕ
  payload m = network_bytes32 (length (type_name m) + 1) ++ (type_name m ++ (0 ∷ [])) ++ to_bytes m

  -- What the length in front counts.
  unfoldable pub body : Message → List ℕ
  body m = payload m ++ network_bytes32 (adler32 (payload m))

  unfoldable pub frame : Message → List ℕ
  frame m = network_bytes32 (length (body m)) ++ body m

  -- The message is initialized, has a type name, and is not too long for the receiver.
  pub record IsSendable (m : Message) : Type 0 where
    pub initialized : is_initialized m ≡ true
    pub named : 1 ≤ length (type_name m)
    pub short : length (body m) ≤ max_message_len

  pub length-payload :
      (m : Message) → length (payload m) ≡ 5 + length (type_name m) + length (to_bytes m)
  unfolding payload
  length-payload m = omega (
    arith,
    length-append (type_name m ++ (0 ∷ [])) (to_bytes m),
    length-append (type_name m) (0 ∷ []),
  )

  pub length-body : (m : Message) → length (body m) ≡ 9 + length (type_name m) + length (to_bytes m)
  unfolding body
  length-body m =
      omega
        (arith, length-append (payload m) (network_bytes32 (adler32 (payload m))), length-payload m)

  pub length-frame :
      (m : Message) → length (frame m) ≡ 13 + length (type_name m) + length (to_bytes m)
  unfolding frame
  length-frame m = omega (arith, length-body m)
