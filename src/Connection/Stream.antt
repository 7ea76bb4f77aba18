-- ===== src/Connection/Stream.antt =====
-- TcpConnection.cc: no byte is lost, repeated or reordered on its way to the peer.
use chat.Prelude.{
  ℕ, ◌+◌, ◌≤◌, ◌<◌, ◌≡◌, sym, ap, ◌∙◌, true, false, ◌⊎◌, inl, inr, Bool-cases, some, List, [], ◌++◌,
  arith, length, take, drop, slice, ltb, max_size, append-nil, append_assoc, take_all, drop_all,
  take-append-drop, length-drop, length-append,
}
use chat.Buffer.Valid.{contents}
use chat.Buffer.Queue.{append_lem}
use chat.Connection.{
  State, Connection, WriteResult, Direct, is_connected, is_disconnected, keep_bytes, keep_rest,
  finish_send, send_in_loop,
}
use chat.Connection.Invariant.{
  stream, Allowed, Inv, Wrote, direct-Wrote, queue_if-output, queue_if-state, queue_if-write_shut,
  queue_if-wire,
}

-- `c'` is `c` with the message behind all earlier ones.
pub record Sent (m : List ℕ) (c c' : Connection) : Type 0 where
  pub inv : Inv c'
  pub bytes : stream c' ≡ stream c ++ m
  pub state : c'.state ≡ c.state
  pub growth : length c'.output.buffer ≤ length c.output.buffer + length m

is_disconnected-false : (s : State) → is_connected s ≡ true → is_disconnected s ≡ false
unfolding is_connected is_disconnected
is_disconnected-false s e = ground arith

-- A written part, the queue of older bytes and the rest of the message, put together: one of the
-- first two is empty.
regroup :
    (wire old m : List ℕ) (n : ℕ)
    → (n ≡ 0) ⊎ (old ≡ [])
    → (wire ++ take n m) ++ (old ++ drop n m) ≡ (wire ++ old) ++ m
regroup wire old m n (inl e) =
    rw e (ap (λ xs. xs ++ (old ++ m)) (append-nil wire) ∙ sym (append_assoc wire old m))
regroup wire old m n (inr e) = rw e (
    append_assoc wire (take n m) (drop n m)
    ∙ ap (λ xs. wire ++ xs) (take-append-drop n m)
    ∙ ap (λ xs. xs ++ m) (sym (append-nil wire)))

keep_bytes-Sent :
    (m : List ℕ) (n k : ℕ) (c c₁ : Connection)
    → Inv c
    → is_connected c.state ≡ true
    → c₁.output ≡ c.output
    → c₁.state ≡ c.state
    → c₁.write_shut ≡ c.write_shut
    → c₁.wire ≡ c.wire ++ take n m
    → n + k ≡ length m
    → (n ≡ 0) ⊎ (contents c.output ≡ [])
    → 0 < k
    → length c.output.buffer + length m ≤ max_size
    → (c' : Connection) × (keep_bytes (slice n k m) c₁ ≡ some c') × Sent m c c'
unfolding keep_bytes
keep_bytes-Sent m n k c c₁ v up same_output same_state same_shut wire parts order pos h =
    let rest : List ℕ = slice n k m in
    let rest_eq : rest ≡ drop n m = take_all k (drop n m) (omega (arith, parts, length-drop n m)) in
    let rest_size : length rest ≡ k = omega (arith, ap length rest_eq, length-drop n m, parts) in
    let done = append_lem rest c.output v.valid (omega (arith, rest_size, parts)) in
    (
      record c₁ { output = done.0; writing = true },
      rw (same_output, done.1),
      record {
        inv = record {
          valid = done.2.valid;
          idle = λ e. cc;
          busy = λ _.
              omega
                (arith, ap length done.2.bytes, length-append (contents c.output) rest, rest_size);
          shut = λ e. absurd (not_shut (sym same_shut ∙ e));
        };
        bytes =
            ap (λ xs. xs ++ contents done.0) wire
            ∙ ap (λ xs. (c.wire ++ take n m) ++ xs)
                (done.2.bytes ∙ ap (λ xs. contents c.output ++ xs) rest_eq)
            ∙ regroup c.wire (contents c.output) m n order;
        state = same_state;
        growth = omega (arith, done.2.growth, rest_size, parts);
      },
    )
  where
    not_shut : ¬ (c.write_shut ≡ true)
    not_shut e = cc ((v.shut e).1)

keep_rest-Sent :
    (m : List ℕ) (c : Connection) (d : Direct)
    → Inv c
    → is_connected c.state ≡ true
    → Wrote m c d
    → 0 < d.remaining
    → length c.output.buffer + length m ≤ max_size
    → (c' : Connection) × (keep_rest m d ≡ some c') × Sent m c c'
unfolding keep_rest
keep_rest-Sent m c d v up w pos h =
    keep_bytes-Sent m d.nwrote d.remaining c _ v up (queue_if-output _ _ d.conn ∙ w.output)
      (queue_if-state _ _ d.conn ∙ w.state) (queue_if-write_shut _ _ d.conn ∙ w.write_shut)
      (queue_if-wire _ _ d.conn ∙ w.wire) w.parts w.in_order pos h

-- The message went out whole.
all_written-Sent :
    (m : List ℕ) (c : Connection) (d : Direct)
    → Inv c
    → Wrote m c d
    → d.remaining ≡ 0
    → Sent m c d.conn
all_written-Sent m c d v w e = record {
  inv = record {
    valid = rw (w.output) v.valid;
    idle = λ i. ap contents w.output ∙ v.idle (sym w.writing ∙ i);
    busy = λ i. rw (w.output) (v.busy (sym w.writing ∙ i));
    shut = λ i. rw (w.writing, w.state) (v.shut (sym w.write_shut ∙ i));
  };
  bytes =
      ap (λ xs. xs ++ contents d.conn.output) w.wire
      ∙ ap (λ xs. (c.wire ++ take d.nwrote m) ++ xs)
          (ap contents w.output
            ∙ sym (append-nil (contents c.output))
            ∙ ap (λ xs. contents c.output ++ xs) (sym nothing_left))
      ∙ regroup c.wire (contents c.output) m d.nwrote w.in_order;
  state = w.state;
  growth = rw (w.output) (omega arith);
}
  where
    nothing_left : drop d.nwrote m ≡ []
    nothing_left = drop_all d.nwrote m (omega (arith, w.parts))

finish_send_cases :
    (m : List ℕ) (d : Direct)
    → d.remaining ≤ length m
    → d.fault ≡ false
    → ((0 < d.remaining) × (finish_send m d ≡ keep_rest m d))
      ⊎ ((d.remaining ≡ 0) × (finish_send m d ≡ some d.conn))
unfolding finish_send
finish_send_cases m d fits sound = elim (Bool-cases (ltb 0 d.remaining)) [
  | inl e ↦ inl (ground arith, ground arith)
  | inr e ↦ inr (ground arith, ground arith)
]

finish_send-Sent :
    (m : List ℕ) (c : Connection) (d : Direct)
    → Inv c
    → is_connected c.state ≡ true
    → Wrote m c d
    → length c.output.buffer + length m ≤ max_size
    → (c' : Connection) × (finish_send m d ≡ some c') × Sent m c c'
finish_send-Sent m c d v up w h = elim (finish_send_cases m d (omega (arith, w.parts)) w.sound) [
  | inl (pos, e) ↦ let kept = keep_rest-Sent m c d v up w pos h in (kept.0, e ∙ kept.1, kept.2)
  | inr (all, e) ↦ (d.conn, e, all_written-Sent m c d v w all)
]

-- A send in the loop thread, while the connection is up and write(2) fails in no other way than one
-- that it outlives: no assertion fails, the bytes go behind all earlier ones, whether they are
-- written at once, in part or later, and the channel waits for the socket exactly when some are left.
pub send_in_loop-Sent :
    (m : List ℕ) (w : WriteResult) (c : Connection)
    → Inv c
    → is_connected c.state ≡ true
    → Allowed (length m) w
    → length c.output.buffer + length m ≤ max_size
    → (c' : Connection) × (send_in_loop m w c ≡ some c') × Sent m c c'
unfolding send_in_loop
send_in_loop-Sent m w c v up a h =
    let done = finish_send-Sent m c _ v up (direct-Wrote m w c v a (omega arith)) h in
    (done.0, rw (is_disconnected-false c.state up) (done.1), done.2)
