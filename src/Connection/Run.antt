-- ===== src/Connection/Run.antt =====
-- TcpConnection.cc: any sequence of sends, writable sockets and a shutdown in the loop thread.
use chat.Prelude.{
  ℕ, ◌+◌, ◌≤◌, ◌≡◌, refl, sym, ap, subst, ◌∙◌, true, false, ◌⊎◌, inl, inr, Bool-cases, some, List,
  [], ◌++◌, arith, length, max_size, append-nil, append_assoc, if◌then◌else◌,
}
use chat.Buffer.Valid.{contents}
use chat.Connection.{
  Connection, WriteResult, is_connected, send, send_in_loop, shutdown, handle_write,
}
use chat.Connection.Invariant.{stream, Allowed, Inv}
use chat.Connection.Stream.{send_in_loop-Sent}
use chat.Connection.Write.{Writes, handle_write-Kept, shutdown-Inv, stream-shutdown}

-- One call in the loop thread, with the bytes that the connection takes by it.
pub data Step (c : Connection) (bs : List ℕ) (c' : Connection) : Type 0 where
  sends :
      (m : List ℕ) (w : WriteResult)
      → Allowed (length m) w
      → length c.output.buffer + length m ≤ max_size
      → bs ≡ (if is_connected c.state then m else [])
      → send true m w c ≡ some c'
      → Step c bs c'
  writable : (w : WriteResult) → Writes c w → bs ≡ [] → handle_write w c ≡ some c' → Step c bs c'
  shuts : bs ≡ [] → c' ≡ shutdown true c → Step c bs c'

pub data Steps (c : Connection) : List ℕ → Connection → Type 0 where
  here : Steps c [] c
  next :
      {bs cs ds : List ℕ} {c₁ c₂ : Connection}
      → Steps c bs c₁
      → Step c₁ cs c₂
      → ds ≡ bs ++ cs
      → Steps c ds c₂

-- The result of one call: the invariant, and the bytes behind all earlier ones.
record Took (c : Connection) (bs : List ℕ) (c' : Connection) : Type 0 where
  inv : Inv c'
  bytes : stream c' ≡ stream c ++ bs

some_injective : {c d : Connection} → some c ≡ some d → c ≡ d
some_injective e = cc

Took-of :
    (bs cs : List ℕ) (c d c' : Connection)
    → d ≡ c'
    → cs ≡ bs
    → Inv d
    → stream d ≡ stream c ++ cs
    → Took c bs c'
Took-of bs cs c d c' same e v s = record {
  inv = subst Inv same v;
  bytes = ap stream (sym same) ∙ s ∙ ap (λ xs. stream c ++ xs) e;
}

send_up :
    (m : List ℕ) (w : WriteResult) (c : Connection)
    → is_connected c.state ≡ true
    → send true m w c ≡ send_in_loop m w c
unfolding send
send_up m w c up = ground arith

send_down :
    (m : List ℕ) (w : WriteResult) (c : Connection)
    → is_connected c.state ≡ false
    → send true m w c ≡ some c
unfolding send
send_down m w c down = ground arith

send-Took :
    (m bs : List ℕ) (w : WriteResult) (c c' : Connection)
    → Inv c
    → Allowed (length m) w
    → length c.output.buffer + length m ≤ max_size
    → bs ≡ (if is_connected c.state then m else [])
    → send true m w c ≡ some c'
    → Took c bs c'
send-Took m bs w c c' v a h e r = elim (Bool-cases (is_connected c.state)) [
  | inl up ↦
      let done = send_in_loop-Sent m w c v up a h in
      Took-of bs m c done.0 c' (some_injective (sym done.1 ∙ sym (send_up m w c up) ∙ r))
        (sym (e ∙ ap (λ b. if b then m else []) up)) done.2.inv done.2.bytes
  | inr down ↦
      Took-of bs [] c c c' (some_injective (sym (send_down m w c down) ∙ r))
        (sym (e ∙ ap (λ b. if b then m else []) down)) v (sym (append-nil (stream c)))
]

Step-Took : {c c' : Connection} {bs : List ℕ} → Inv c → Step c bs c' → Took c bs c'
Step-Took {c} {c'} {bs} v (sends m w a h e r) = send-Took m bs w c c' v a h e r
Step-Took {c} {c'} {bs} v (writable w h e r) =
    let done = handle_write-Kept w c v h in
    Took-of bs [] c done.0 c' (some_injective (sym done.1 ∙ r)) (sym e) done.2.inv
      (done.2.bytes ∙ sym (append-nil (stream c)))
Step-Took {c} {c'} {bs} v (shuts e r) =
    Took-of bs [] c (shutdown true c) c' (sym r) (sym e) (shutdown-Inv c v)
      (stream-shutdown c ∙ sym (append-nil (stream c)))

Steps-Took : {c c' : Connection} {bs : List ℕ} → Inv c → Steps c bs c' → Took c bs c'
Steps-Took {c} v here = record { inv = v; bytes = sym (append-nil (stream c)) }
Steps-Took {c} {c'} v (next {bs} {cs} {ds} {c₁} s t e) =
    let first = Steps-Took v s in
    let second = Step-Took first.inv t in
    Took-of _ (bs ++ cs) c c' c' refl (sym e) second.inv
      (second.bytes ∙ ap (λ xs. xs ++ cs) first.bytes ∙ append_assoc (stream c) bs cs)

-- What the peer gets of a connection that began with nothing to write.
pub record Delivery (bs : List ℕ) (c : Connection) : Type 0 where
  pub inv : Inv c
  pub bytes : c.wire ++ contents c.output ≡ bs
  pub idle : (c.writing ≡ true) ⊎ (c.wire ≡ bs)
  pub shut : (c.write_shut ≡ false) ⊎ (c.wire ≡ bs)

-- After any calls in the loop thread the bytes that write(2) took and those in the output buffer are
-- the accepted messages, in order; when the channel does not wait for the socket, and when the socket
-- was shut for writing, write(2) has taken them all.
pub Steps-Delivery :
    {c c' : Connection} {bs : List ℕ} → Inv c → stream c ≡ [] → Steps c bs c' → Delivery bs c'
Steps-Delivery {c} {c'} {bs} v fresh s = record {
  inv = took.inv;
  bytes = all;
  idle = elim (Bool-cases c'.writing) [ inl e ↦ inl e | inr e ↦ inr (whole e) ];
  shut = elim (Bool-cases c'.write_shut) [
    | inl e ↦ inr (whole (took.inv.shut e).0)
    | inr e ↦ inl e
  ];
}
  where
    took : Took c bs c'
    took = Steps-Took v s

    all : c'.wire ++ contents c'.output ≡ bs
    all = took.bytes ∙ ap (λ xs. xs ++ bs) fresh

    whole : c'.writing ≡ false → c'.wire ≡ bs
    whole e = sym (append-nil c'.wire) ∙ ap (λ xs. c'.wire ++ xs) (sym (took.inv.idle e)) ∙ all
