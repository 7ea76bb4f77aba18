-- ===== src/Connection/Invariant.antt =====
-- TcpConnection.cc: the bytes sent and still to be sent, and what the first part of `sendInLoop`
-- leaves behind.
use chat.Prelude.{
  ℕ, ◌+◌, ◌≤◌, ◌<◌, ◌≡◌, refl, sym, Bool, true, false, not, ◌&&◌, ◌⊎◌, inl, inr, List, [], ◌++◌,
  arith, length, take, ◌==◌, max_size, append-nil, if◌then◌else◌,
}
use chat.Buffer.{readable_bytes}
use chat.Buffer.Valid.{IsValid, contents}
use chat.Connection.{
  Connection, Functor, write_complete, WriteResult, wrote, write_failed, is_fault, queue_if, Direct,
  write_direct, write_nothing, is_connected,
}

-- Every byte that the peer is to get: those that write(2) took, then those in the output buffer.
abbrev pub stream : Connection → List ℕ
stream c = c.wire ++ contents c.output

-- write(2) takes at most what it was given; the failures here are those that the connection outlives.
abbrev pub Allowed : ℕ → WriteResult → Type 0
Allowed k (wrote n) = n ≤ k
Allowed k (write_failed e) = is_fault e ≡ false

-- The channel waits for a writable socket exactly when bytes are left to write, and the socket was
-- shut for writing only when none were left and none can follow.
pub record Inv (c : Connection) : Type 0 where
  pub valid : IsValid c.output
  pub idle : c.writing ≡ false → contents c.output ≡ []
  pub busy : c.writing ≡ true → 0 < length (contents c.output)
  pub shut : c.write_shut ≡ true → (c.writing ≡ false) × (is_connected c.state ≡ false)

-- `d` has written a first part of the message, and nothing else of the connection changed but the
-- queue.
pub record Wrote (m : List ℕ) (c : Connection) (d : Direct) : Type 0 where
  pub output : d.conn.output ≡ c.output
  pub state : d.conn.state ≡ c.state
  pub writing : d.conn.writing ≡ c.writing
  pub write_shut : d.conn.write_shut ≡ c.write_shut
  pub wire : d.conn.wire ≡ c.wire ++ take d.nwrote m
  pub parts : d.nwrote + d.remaining ≡ length m
  pub sound : d.fault ≡ false
  pub in_order : (d.nwrote ≡ 0) ⊎ (contents c.output ≡ [])

pub queue_if-output : (b : Bool) (f : Functor) (c : Connection) → (queue_if b f c).output ≡ c.output
unfolding queue_if
queue_if-output true f c = refl
queue_if-output false f c = refl

pub queue_if-state : (b : Bool) (f : Functor) (c : Connection) → (queue_if b f c).state ≡ c.state
unfolding queue_if
queue_if-state true f c = refl
queue_if-state false f c = refl

pub queue_if-writing :
    (b : Bool) (f : Functor) (c : Connection) → (queue_if b f c).writing ≡ c.writing
unfolding queue_if
queue_if-writing true f c = refl
queue_if-writing false f c = refl

pub queue_if-write_shut :
    (b : Bool) (f : Functor) (c : Connection) → (queue_if b f c).write_shut ≡ c.write_shut
unfolding queue_if
queue_if-write_shut true f c = refl
queue_if-write_shut false f c = refl

pub queue_if-wire : (b : Bool) (f : Functor) (c : Connection) → (queue_if b f c).wire ≡ c.wire
unfolding queue_if
queue_if-wire true f c = refl
queue_if-wire false f c = refl

write_direct-Wrote :
    (m : List ℕ) (w : WriteResult) (c : Connection)
    → Allowed (length m) w
    → length m ≤ max_size
    → contents c.output ≡ []
    → Wrote m c (write_direct m w c)
unfolding write_direct
write_direct-Wrote m (write_failed e) c a h empty = record {
  output = refl;
  state = refl;
  writing = refl;
  write_shut = refl;
  wire = sym (append-nil c.wire);
  parts = omega arith;
  sound = a;
  in_order = inl refl;
}
write_direct-Wrote m (wrote n) c a h empty = record {
  output = queue_if-output _ write_complete _;
  state = queue_if-state _ write_complete _;
  writing = queue_if-writing _ write_complete _;
  write_shut = queue_if-write_shut _ write_complete _;
  wire = queue_if-wire _ write_complete _;
  parts = omega (arith, a, h);
  sound = refl;
  in_order = inr empty;
}

write_nothing-Wrote : (m : List ℕ) (c : Connection) → Wrote m c (write_nothing m c)
unfolding write_nothing
write_nothing-Wrote m c = record {
  output = refl;
  state = refl;
  writing = refl;
  write_shut = refl;
  wire = sym (append-nil c.wire);
  parts = omega arith;
  sound = refl;
  in_order = inl refl;
}

chosen-Wrote :
    (direct : Bool) (m : List ℕ) (w : WriteResult) (c : Connection)
    → (direct ≡ true → contents c.output ≡ [])
    → Allowed (length m) w
    → length m ≤ max_size
    → Wrote m c (if direct then write_direct m w c else write_nothing m c)
chosen-Wrote true m w c empty a h = write_direct-Wrote m w c a h (empty refl)
chosen-Wrote false m w c empty a h = write_nothing-Wrote m c

-- The choice that `sendInLoop` makes: it writes at once only when nothing waits before the message.
pub direct-Wrote :
    (m : List ℕ) (w : WriteResult) (c : Connection)
    → Inv c
    → Allowed (length m) w
    → length m ≤ max_size
    → Wrote m c (
        if not c.writing && (readable_bytes c.output == 0)
        then write_direct m w c
        else write_nothing m c)
direct-Wrote m w c v a h =
    chosen-Wrote (not c.writing && (readable_bytes c.output == 0)) m w c
      (λ e. v.idle (ground arith)) a h
