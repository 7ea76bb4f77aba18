-- ===== src/LengthCodec/Total.antt =====
-- codec.h: the receiver on any bytes that a peer may send, and the sender.
use chat.Prelude.{
  ℕ, zero, suc, ◌+◌, ◌-◌, ◌≤◌, ◌<◌, ◌≡◌, refl, ap, ◌∙◌, ◌⊎◌, inl, inr, Bool-cases, Option, some,
  List, [], ◌∷◌, ◌++◌, map, arith, length, drop, ltb, length-drop, network_value32, drop-drop,
}
use chat.Buffer.{Buffer, peek}
use chat.Buffer.Valid.{IsValid, contents, length-contents}
use chat.Buffer.Queue.{retrieve_lem}
use chat.LengthCodec.{
  Event, message, shutdown, finish, deliver, header_len, take_message, turn, on_message,
}
use chat.LengthCodec.Frames.{peek_len-value, turn-partial, turn-invalid}

-- `b'` is `b` without some of its first bytes.
pub record Consumed (b b' : Buffer) : Type 0 where
  pub valid : IsValid b'
  pub taken : ℕ
  pub bytes : contents b' ≡ drop taken (contents b)

take_message_total :
    (len : ℕ) (b : Buffer)
    → IsValid b
    → 4 + len ≤ length (contents b)
    → (m : List ℕ) × (b' : Buffer) × (take_message len b ≡ some (deliver m b'))
      × Consumed b b'
      × (length (contents b') < length (contents b))
unfolding take_message
take_message_total len b v h =
    let first = retrieve_lem header_len b v (omega arith) in
    let left : length (contents first.0) ≡ length (contents b) - 4 =
      ap length first.2.bytes ∙ length-drop 4 (contents b) in
    let second = retrieve_lem len first.0 first.2.valid (omega (arith, left)) in
    let text = peek len first.0 in
    (
      text,
      second.0,
      rw (first.1, second.1),
      record {
        valid = second.2.valid;
        taken = 4 + len;
        bytes = second.2.bytes ∙ ap (drop len) first.2.bytes ∙ drop-drop 4 len (contents b);
      },
      omega (arith, left, ap length second.2.bytes, length-drop len (contents first.0)),
    )

-- One turn on any valid buffer.
abbrev TurnOutcome : Buffer → Type 0
TurnOutcome b =
    (turn b ≡ some (finish []))
    ⊎ (turn b ≡ some (finish (shutdown ∷ [])))
    ⊎ ((m : List ℕ) × (b' : Buffer) × (turn b ≡ some (deliver m b'))
        × Consumed b b'
        × (length (contents b') < length (contents b)))

turn-whole :
    (b : Buffer)
    → IsValid b
    → 4 ≤ length (contents b)
    → network_value32 (contents b) ≤ 65536
    → network_value32 (contents b) + 4 ≤ length (contents b)
    → turn b ≡ take_message (network_value32 (contents b)) b
unfolding turn
turn-whole b v header small whole = ground (arith, length-contents b v, peek_len-value b v header)

turn_cases : (b : Buffer) → IsValid b → TurnOutcome b
turn_cases b v = elim (Bool-cases (ltb (length (contents b)) 4)) [
  | inl short ↦ inl (turn-partial b v (inl (ground arith)))
  | inr header ↦ elim (Bool-cases (ltb 65536 (network_value32 (contents b)))) [
    | inl big ↦ inr (inl (turn-invalid b v (ground arith) (ground arith)))
    | inr small ↦ elim (Bool-cases (ltb (length (contents b)) (network_value32 (contents b) + 4))) [
      | inl short ↦ inl (turn-partial b v (inr (ground arith, ground arith, ground arith)))
      | inr whole ↦
          let taken = take_message_total (network_value32 (contents b)) b v (ground arith) in
          inr (
            inr (
              taken.0,
              taken.1,
              turn-whole b v (ground arith) (ground arith) (ground arith) ∙ taken.2,
              taken.3,
              taken.4,
            ))
    ]
  ]
]

-- What `onMessage` did: it delivered some messages, with a shutdown at most behind them, and left a
-- later part of the bytes.
pub record Handled (b : Buffer) (out : Option (List Event × Buffer)) : Type 0 where
  pub messages : List (List ℕ)
  pub tail : List Event
  pub after : Buffer
  pub result : out ≡ some (map message messages ++ tail, after)
  pub ends : (tail ≡ []) ⊎ (tail ≡ shutdown ∷ [])
  pub rest : Consumed b after

stay : (b : Buffer) → IsValid b → Consumed b b
stay b v = record { valid = v; taken = 0; bytes = refl }

-- Whatever bytes a valid buffer holds, `onMessage` returns when the fuel is above their number: no
-- assertion fails and the loop ends. It delivers messages, then at most one shutdown, and leaves a
-- valid buffer of a later part of the bytes.
pub on_message-Handled :
    (fuel : ℕ) (b : Buffer) → IsValid b → length (contents b) < fuel → Handled b (on_message fuel b)
unfolding on_message
on_message-Handled zero b v h = absurd (omega arith)
on_message-Handled (suc fuel) b v h = elim (turn_cases b v) [
  | inl e ↦ record {
    messages = [];
    tail = [];
    after = b;
    result = rw e;
    ends = inl refl;
    rest = stay b v;
  }
  | inr (inl e) ↦ record {
    messages = [];
    tail = shutdown ∷ [];
    after = b;
    result = rw e;
    ends = inr refl;
    rest = stay b v;
  }
  | inr (inr (m, b', e, c, less)) ↦
      let others = on_message-Handled fuel b' c.valid (omega arith) in
      record {
        messages = m ∷ others.messages;
        tail = others.tail;
        after = others.after;
        result = rw (e, others.result);
        ends = others.ends;
        rest = record {
          valid = others.rest.valid;
          taken = c.taken + others.rest.taken;
          bytes =
              others.rest.bytes
              ∙ ap (drop others.rest.taken) c.bytes
              ∙ drop-drop c.taken others.rest.taken (contents b);
        };
      }
]

-- A header of more than 65536, which is also how a negative one reads, shuts the connection down,
-- delivers nothing and leaves the bytes in the buffer.
pub on_message-invalid :
    (fuel : ℕ) (b : Buffer)
    → IsValid b
    → 4 ≤ length (contents b)
    → 65536 < network_value32 (contents b)
    → on_message (suc fuel) b ≡ some (shutdown ∷ [], b)
unfolding on_message
on_message-invalid fuel b v header big = rw (turn-invalid b v header big)
