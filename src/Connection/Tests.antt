-- ===== src/Connection/Tests.antt =====
-- TcpConnection.cc at concrete inputs: the theorems, and a run.
use chat.Prelude.{◌≡◌, ◌^◌, refl, true, false, some, [], ◌∷◌, ◌++◌, arith, replicate, ◌>>=◌}
use chat.Buffer.{
  Buffer, received, readable_bytes, append, ensure_writable_bytes, writable_bytes, has_written,
  copy_to_write,
}
use chat.Connection.{
  Connection, connected, closed, wrote, is_open, is_connected, send_in_loop, send, finish_send,
  keep_rest, keep_bytes, write_direct, is_disconnected, queue_if, shutdown, force_close,
  force_close_in_loop, handle_read,
}
use chat.Connection.Invariant.{Inv}
use chat.Connection.Stream.{Sent, send_in_loop-Sent}
use chat.Connection.Run.{Steps, here, next, sends, shuts, Delivery, Steps-Delivery}
use chat.Connection.Lifecycle.{force_close_twice}

abbrev small : Buffer
small = record { buffer = replicate 16 0; reader_index = 8; writer_index = 8 }

abbrev up : Connection
up = record {
  state = connected;
  reading = true;
  writing = false;
  in_loop = true;
  write_shut = false;
  input = small;
  output = small;
  mark = 2 ^ 26;
  on_write_complete = true;
  on_high_water = false;
  queued = [];
  callbacks = [];
  wire = [];
}

-- Two bytes wait for the socket.
abbrev waiting : Connection
waiting = record up {
  output = record small { buffer = replicate 8 0 ++ (5 ∷ 6 ∷ 0 ∷ 0 ∷ []); writer_index = 10 };
  writing = true;
}

up-Inv : Inv up
up-Inv = record { valid = omega arith; idle = λ e. refl; busy = λ e. cc; shut = λ e. cc }

waiting-Inv : Inv waiting
waiting-Inv = record {
  valid = omega arith;
  idle = λ e. cc;
  busy = λ e. omega arith;
  shut = λ e. cc;
}

is_up : is_connected up.state ≡ true
unfolding is_connected
is_up = refl

is_up_open : is_open up.state ≡ true
unfolding is_open
is_up_open = refl

send_in_loop-Sent_example :
    (c' : Connection) × (send_in_loop (1 ∷ 2 ∷ 3 ∷ []) (wrote 2) up ≡ some c')
    × Sent (1 ∷ 2 ∷ 3 ∷ []) up c'
send_in_loop-Sent_example =
    send_in_loop-Sent (1 ∷ 2 ∷ 3 ∷ []) (wrote 2) up up-Inv is_up (omega arith) (omega arith)

-- Two of three bytes went out at once.
abbrev after_send : Connection
after_send = record up {
  output = record small { buffer = replicate 8 0 ++ (3 ∷ replicate 7 0); writer_index = 9 };
  writing = true;
  wire = 1 ∷ 2 ∷ [];
}

send_splits : send true (1 ∷ 2 ∷ 3 ∷ []) (wrote 2) up ≡ some after_send
unfolding send send_in_loop finish_send keep_rest keep_bytes write_direct readable_bytes append
    ensure_writable_bytes writable_bytes has_written copy_to_write is_connected is_disconnected
    queue_if
send_splits = refl

send-Steps : Steps up (1 ∷ 2 ∷ 3 ∷ []) (shutdown true after_send)
unfolding is_connected
send-Steps =
    next
      (next here (sends (1 ∷ 2 ∷ 3 ∷ []) (wrote 2) (omega arith) (omega arith) refl send_splits)
        refl)
      (shuts refl refl) refl

Steps-Delivery_example : Delivery (1 ∷ 2 ∷ 3 ∷ []) (shutdown true after_send)
Steps-Delivery_example = Steps-Delivery up-Inv refl send-Steps

force_close_twice_example :
    (c' : Connection) × ((handle_read (received []) (force_close up) >>= force_close_in_loop)
      ≡ some c')
    × (c'.callbacks ≡ closed ∷ closed ∷ [])
force_close_twice_example = force_close_twice up is_up_open
