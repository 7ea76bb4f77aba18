-- ===== src/Connection/Write.antt =====
-- TcpConnection.cc: `handleWrite` and `shutdown`.
use chat.Prelude.{
  ℕ, ◌≤◌, ◌<◌, ◌≡◌, refl, sym, ap, ◌∙◌, true, false, ◌&&◌, ◌⊎◌, inl, inr, Bool-cases, some, List,
  [], ◌∷◌, ◌++◌, arith, length, take, drop, ltb, ◌==◌, append_assoc, take-append-drop,
}
use chat.Buffer.{Buffer, readable_bytes, peek}
use chat.Buffer.Valid.{IsValid, contents, length-contents}
use chat.Buffer.Queue.{Retrieved, retrieve_lem, peek-take}
use chat.Connection.{
  State, Connection, WriteResult, wrote, write_failed, queue_if, is_connected, is_disconnecting,
  handle_write, written_out, drained, shutdown, shutdown_in_loop,
}
use chat.Connection.Invariant.{stream, Inv}

-- write(2) takes at most the bytes of the output buffer.
abbrev pub Writes : Connection → WriteResult → Type 0
Writes c (wrote n) = n ≤ length (contents c.output)
Writes c (write_failed e) = Unit {0}

-- `c'` has the bytes of `c`, and the invariant.
pub record Kept (c c' : Connection) : Type 0 where
  pub inv : Inv c'
  pub bytes : stream c' ≡ stream c
  pub state : c'.state ≡ c.state
  pub growth : length c'.output.buffer ≤ length c.output.buffer

-- What `drained` leaves of a connection whose output buffer is empty.
record Drained (c c' : Connection) : Type 0 where
  output : c'.output ≡ c.output
  wire : c'.wire ≡ c.wire
  state : c'.state ≡ c.state
  writing : c'.writing ≡ false
  shut : c'.write_shut ≡ true → (c.write_shut ≡ true) ⊎ (is_disconnecting c.state ≡ true)

drained-Drained : (c : Connection) → Drained c (drained c)
unfolding drained queue_if shutdown_in_loop
drained-Drained c = record {
  output = ground arith;
  wire = ground arith;
  state = ground arith;
  writing = ground arith;
  shut = λ e. ground arith;
}

is_connected-disconnecting : (s : State) → is_disconnecting s ≡ true → is_connected s ≡ false
unfolding is_disconnecting is_connected
is_connected-disconnecting s e = ground arith

-- The connection after write(2) took the first `n` bytes of the output buffer.
taken : ℕ → Buffer → Connection → Connection
taken n b c = record c { output = b; wire = c.wire ++ peek n c.output }

taken-stream :
    (n : ℕ) (b : Buffer) (c : Connection)
    → IsValid c.output
    → n ≤ length (contents c.output)
    → contents b ≡ drop n (contents c.output)
    → stream (taken n b c) ≡ stream c
unfolding taken
taken-stream n b c v h e =
    ap (λ xs. (c.wire ++ xs) ++ contents b) (peek-take n c.output v h)
    ∙ ap (λ xs. (c.wire ++ take n (contents c.output)) ++ xs) e
    ∙ append_assoc c.wire (take n (contents c.output)) (drop n (contents c.output))
    ∙ ap (λ xs. c.wire ++ xs) (take-append-drop n (contents c.output))

nil_of_length {ℓ} : {A : Type ℓ} (xs : List A) → length xs ≡ 0 → xs ≡ []
nil_of_length [] h = refl
nil_of_length (x ∷ xs) h = absurd (omega arith)

Drained-Kept :
    (n : ℕ) (b : Buffer) (c c' : Connection)
    → Inv c
    → n ≤ length (contents c.output)
    → Retrieved n c.output b
    → length (contents b) ≡ 0
    → Drained (taken n b c) c'
    → Kept c c'
unfolding taken
Drained-Kept n b c c' v h r empty d = record {
  inv = record {
    valid = rw (d.output) (r.valid);
    idle = λ e. ap contents d.output ∙ nil_of_length (contents b) empty;
    busy = λ e. cc (d.writing);
    shut = λ e. (d.writing, ap is_connected d.state ∙ down (d.shut e));
  };
  bytes =
      ap (λ o. c'.wire ++ contents o) d.output
      ∙ ap (λ xs. xs ++ contents b) d.wire
      ∙ taken-stream n b c v.valid h r.bytes;
  state = d.state;
  growth = omega (arith, ap (λ o. length o.buffer) d.output, ap length r.same_array);
}
  where
    down : (c.write_shut ≡ true) ⊎ (is_disconnecting c.state ≡ true) → is_connected c.state ≡ false
    down (inl e) = (v.shut e).1
    down (inr e) = is_connected-disconnecting c.state e

part-Kept :
    (n : ℕ) (b : Buffer) (c : Connection)
    → Inv c
    → c.writing ≡ true
    → n ≤ length (contents c.output)
    → Retrieved n c.output b
    → 0 < length (contents b)
    → Kept c (taken n b c)
unfolding taken
part-Kept n b c v on h r some_left = record {
  inv = record { valid = r.valid; idle = λ e. cc; busy = λ e. some_left; shut = v.shut };
  bytes = taken-stream n b c v.valid h r.bytes;
  state = refl;
  growth = omega (arith, ap length r.same_array);
}

written_out-Kept :
    (n : ℕ) (c : Connection)
    → Inv c
    → c.writing ≡ true
    → n ≤ length (contents c.output)
    → (c' : Connection) × (written_out n c ≡ some c') × Kept c c'
unfolding written_out taken
written_out-Kept n c v on h =
    let done = retrieve_lem n c.output v.valid h in
    let size = length-contents done.0 done.2.valid in
    elim (Bool-cases (readable_bytes done.0 == 0)) [
      | inl e ↦ (
        drained (taken n done.0 c),
        rw (done.1, e),
        Drained-Kept n done.0 c _ v h done.2 (ground (arith, size)) (drained-Drained _),
      )
      | inr e ↦ (
        taken n done.0 c,
        rw (done.1, e),
        part-Kept n done.0 c v on h done.2 (ground (arith, size)),
      )
    ]

itself-Kept : (c : Connection) → Inv c → Kept c c
itself-Kept c v = record { inv = v; bytes = refl; state = refl; growth = omega arith }

-- When the socket becomes writable, `handleWrite` returns and moves bytes from the front of the
-- output buffer to the socket: none is lost or repeated, and the channel goes on waiting exactly
-- while some are left.
pub handle_write-Kept :
    (w : WriteResult) (c : Connection)
    → Inv c
    → Writes c w
    → (c' : Connection) × (handle_write w c ≡ some c') × Kept c c'
unfolding handle_write
handle_write-Kept (write_failed e) c v h = (c, refl, itself-Kept c v)
handle_write-Kept (wrote n) c v h = elim (Bool-cases (c.writing && ltb 0 n)) [
  | inl e ↦ let done = written_out-Kept n c v (ground arith) h in (done.0, rw e done.1, done.2)
  | inr e ↦ (c, rw e, itself-Kept c v)
]

shutdown-output : (c : Connection) → (shutdown true c).output ≡ c.output
unfolding shutdown shutdown_in_loop
shutdown-output c = ground arith

shutdown-writing : (c : Connection) → (shutdown true c).writing ≡ c.writing
unfolding shutdown shutdown_in_loop
shutdown-writing c = ground arith

pub shutdown-wire : (c : Connection) → (shutdown true c).wire ≡ c.wire
unfolding shutdown shutdown_in_loop
shutdown-wire c = ground arith

pub shutdown-down : (c : Connection) → is_connected (shutdown true c).state ≡ false
unfolding shutdown shutdown_in_loop is_connected
shutdown-down c = ground arith

shutdown-shut :
    (c : Connection)
    → (shutdown true c).write_shut ≡ true
    → (c.write_shut ≡ true) ⊎ (c.writing ≡ false)
unfolding shutdown shutdown_in_loop
shutdown-shut c e = ground arith

-- `shutdown` in the loop thread keeps the invariant: the socket is shut for writing at once only
-- when no byte is left to write.
pub shutdown-Inv : (c : Connection) → Inv c → Inv (shutdown true c)
shutdown-Inv c v = record {
  valid = rw (shutdown-output c) (v.valid);
  idle = λ e. ap contents (shutdown-output c) ∙ v.idle (sym (shutdown-writing c) ∙ e);
  busy = λ e. rw (shutdown-output c) (v.busy (sym (shutdown-writing c) ∙ e));
  shut = λ e. (shutdown-writing c ∙ quiet (shutdown-shut c e), shutdown-down c);
}
  where
    quiet : (c.write_shut ≡ true) ⊎ (c.writing ≡ false) → c.writing ≡ false
    quiet (inl e) = (v.shut e).0
    quiet (inr e) = e

pub stream-shutdown : (c : Connection) → stream (shutdown true c) ≡ stream c
stream-shutdown c = λ i. shutdown-wire c i ++ contents (shutdown-output c i)

pub growth-shutdown :
    (c : Connection) → length (shutdown true c).output.buffer ≤ length c.output.buffer
growth-shutdown c = rw (shutdown-output c) (omega arith)
