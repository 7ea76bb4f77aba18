-- ===== src/ProtobufCodec/Total.antt =====
-- codec.cc: `onMessage` on any bytes that a peer may send.
use chat.Prelude.{
  ℕ, zero, suc, ◌+◌, ◌≤◌, ◌<◌, ◌≡◌, refl, ap, ◌∙◌, some, none, List, [], ◌∷◌, ◌++◌, map, arith,
  length, drop, leb, length-drop, drop-drop, take, network_value32, signed32, to_size, given,
  Bool-cases, inl, inr, Option, ◌||◌,
}
use chat.Prelude.Int.{pos, ltb_ℤ}
use chat.Buffer.{Buffer, readable_bytes}
use chat.Buffer.Valid.{IsValid, contents, length-contents}
use chat.Buffer.Queue.{retrieve_lem}
use chat.Buffer.Ints.{peek_int32-value}
use chat.ProtobufCodec.{
  Protobuf, max_message_len, min_message_len, header_len, ErrorCode, invalid_length, is_ok,
  take_message, turn_at, turn, on_message, Event, message, error, Turn, finish, deliver,
}

module _ (r : Protobuf) where
  open r use {Message}

  -- `b'` is `b` without some of its first bytes.
  pub record Consumed (b b' : Buffer) : Type 0 where
    pub valid : IsValid b'
    pub taken : ℕ
    pub bytes : contents b' ≡ drop taken (contents b)

  -- What may stand behind the messages: nothing, or one error.
  pub data IsEnd : List (Event r) → Type 0 where
    quiet : IsEnd []
    failed : (code : ErrorCode) → IsEnd (error code ∷ [])

  data Outcome (b : Buffer) (t : Option (Turn r)) : Type 0 where
    ends : (es : List (Event r)) → IsEnd es → t ≡ some (finish es) → Outcome b t
    goes_on :
        (m : Message) (b' : Buffer)
        → t ≡ some (deliver m b')
        → Consumed b b'
        → length (contents b') < length (contents b)
        → Outcome b t

  take_message-Outcome :
      (p : ErrorCode × Option Message) (len : ℕ) (b : Buffer)
      → IsValid b
      → header_len + len ≤ length (contents b)
      → Outcome b (take_message r p len b)
  unfolding take_message
  take_message-Outcome (code, none) len b v h = ends (error code ∷ []) (failed code) refl
  take_message-Outcome (code, some m) len b v h = elim (Bool-cases (is_ok code)) [
    | inl good ↦ given (retrieve_lem (header_len + len) b v h) (λ b' e d.
        goes_on m b' (rw (good, e) refl)
          (record { valid = d.valid; taken = header_len + len; bytes = d.bytes })
          (omega (arith, ap length d.bytes, length-drop (header_len + len) (contents b))))
    | inr bad ↦ ends (error code ∷ []) (failed code) (rw bad refl)
  ]

  turn_at-Outcome : (w : ℕ) (b : Buffer) → IsValid b → Outcome b (turn_at r b w)
  unfolding turn_at
  turn_at-Outcome w b v =
      elim (Bool-cases
        (ltb_ℤ (pos max_message_len) (signed32 w) || ltb_ℤ (signed32 w) (pos min_message_len))) [
          | inl bad ↦ ends (error invalid_length ∷ []) (failed invalid_length) (rw bad refl)
          | inr good ↦
              elim (Bool-cases (leb (to_size (signed32 w) + header_len) (readable_bytes b))) [
                | inl whole ↦
                    rw (good, whole)
                      (take_message-Outcome _ (to_size (signed32 w)) b v
                        (ground (arith, length-contents b v)))
                | inr cut ↦ ends [] quiet (rw (good, cut) refl)
              ]
        ]

  turn-Outcome : (b : Buffer) → IsValid b → Outcome b (turn r b)
  unfolding turn
  turn-Outcome b v = elim (Bool-cases (leb (min_message_len + header_len) (readable_bytes b))) [
    | inl enough ↦
        rw (enough, peek_int32-value b v (ground (arith, length-contents b v)))
          (turn_at-Outcome (network_value32 (take 4 (contents b))) b v)
    | inr few ↦ ends [] quiet (rw few refl)
  ]

  -- What `onMessage` did: it delivered some messages, with one error at most behind them, and left a
  -- later part of the bytes.
  pub record Handled (b : Buffer) (out : Option (List (Event r) × Buffer)) : Type 0 where
    pub messages : List Message
    pub tail : List (Event r)
    pub after : Buffer
    pub result : out ≡ some (map message messages ++ tail, after)
    pub end : IsEnd tail
    pub rest : Consumed b after

  -- Whatever bytes a valid buffer holds, `onMessage` returns when the fuel is above their number: no
  -- assertion fails and the loop ends. It delivers messages, then at most one error, and leaves a
  -- valid buffer of a later part of the bytes.
  pub handles_any_bytes :
      (fuel : ℕ) (b : Buffer)
      → IsValid b
      → length (contents b) < fuel
      → Handled b (on_message r fuel b)
  unfolding on_message
  handles_any_bytes zero b v h = absurd (omega arith)
  handles_any_bytes (suc fuel) b v h = elim (turn-Outcome b v) [
    | ends es end e ↦ record {
      messages = [];
      tail = es;
      after = b;
      result = rw e refl;
      end = end;
      rest = record { valid = v; taken = 0; bytes = refl };
    }
    | goes_on m b' e c less ↦
        let others = handles_any_bytes fuel b' c.valid (omega arith) in
        record {
          messages = m ∷ others.messages;
          tail = others.tail;
          after = others.after;
          result = rw (e, others.result) refl;
          end = others.end;
          rest = record {
            valid = others.rest.valid;
            taken = c.taken + others.rest.taken;
            bytes =
                others.rest.bytes
                ∙ ap (drop others.rest.taken) c.bytes
                ∙ drop-drop c.taken others.rest.taken (contents b);
          };
        }
  ]
