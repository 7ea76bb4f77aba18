-- ===== src/Connection/Lifecycle.antt =====
-- TcpConnection.cc: establishing and closing.
use chat.Prelude.{
  ℕ, ◌≡◌, refl, Bool, true, false, none, some, List, [], ◌∷◌, ◌++◌, arith, append_assoc, ◌>>=◌,
}
use chat.Buffer.{received}
use chat.Connection.{
  disconnecting, disconnected, Connection, closed, connection_changed, WriteResult, is_open,
  is_connected, is_disconnecting, is_disconnected, force_close_later, connect_destroyed,
  handle_close, handle_read, force_close, force_close_in_loop, send, send_in_loop, shutdown,
}

-- A destroyed connection: out of the loop, with no events, and deaf to every later call.
pub record IsDestroyed (c : Connection) : Type 0 where
  pub state : c.state ≡ disconnected
  pub silent : (c.reading ≡ false) × (c.writing ≡ false) × (c.in_loop ≡ false)
  pub send_ignored : (b : Bool) (m : List ℕ) (w : WriteResult) → send b m w c ≡ some c
  pub late_send_ignored : (m : List ℕ) (w : WriteResult) → send_in_loop m w c ≡ some c
  pub shutdown_ignored : (b : Bool) → shutdown b c ≡ c
  pub close_ignored : (force_close c ≡ c) × (force_close_in_loop c ≡ some c)
  pub no_second_end : connect_destroyed c ≡ none

disconnected-IsDestroyed :
    (c : Connection)
    → c.state ≡ disconnected
    → (c.reading ≡ false) × (c.writing ≡ false) × (c.in_loop ≡ false)
    → IsDestroyed c
unfolding send send_in_loop shutdown force_close force_close_in_loop connect_destroyed is_open
    is_connected is_disconnecting is_disconnected
disconnected-IsDestroyed c e quiet = record {
  state = e;
  silent = quiet;
  send_ignored = λ b m w. ground arith;
  late_send_ignored = λ m w. ground arith;
  shutdown_ignored = λ b. ground arith;
  close_ignored = (ground arith, ground arith);
  no_second_end = ground arith;
}

-- `connectDestroyed` of a connection that is up or closing succeeds, reports the end once, and leaves
-- a connection that ignores sends, also those that other threads queued, shutdowns and closes.
pub connect_destroyed-IsDestroyed :
    (c : Connection)
    → is_open c.state ≡ true
    → (c' : Connection) × (connect_destroyed c ≡ some c')
      × (c'.callbacks ≡ c.callbacks ++ (connection_changed disconnected ∷ []))
      × IsDestroyed c'
unfolding connect_destroyed
connect_destroyed-IsDestroyed c up =
    (c', rw up, refl, disconnected-IsDestroyed c' refl (refl, refl, refl))
  where
    c' : Connection
    c' = record c {
      state = disconnected;
      reading = false;
      writing = false;
      in_loop = false;
      callbacks = c.callbacks ++ (connection_changed disconnected ∷ []);
    }

-- `handleClose` leaves the state as it is. So where `forceClose` was queued and the peer's end of
-- stream is handled first, the close callback is made twice.
pub force_close_twice :
    (c : Connection)
    → is_open c.state ≡ true
    → (c' : Connection) × ((handle_read (received []) (force_close c) >>= force_close_in_loop)
        ≡ some c')
      × (c'.callbacks ≡ c.callbacks ++ (closed ∷ closed ∷ []))
unfolding handle_read force_close force_close_in_loop handle_close is_open is_connected
    is_disconnecting
force_close_twice c up = (twice, rw up, append_assoc c.callbacks (closed ∷ []) (closed ∷ []))
  where
    twice : Connection
    twice = record c {
      state = disconnecting;
      reading = false;
      writing = false;
      queued = c.queued ++ (force_close_later ∷ []);
      callbacks = (c.callbacks ++ (closed ∷ [])) ++ (closed ∷ []);
    }
