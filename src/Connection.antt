-- ===== src/Connection.antt =====
-- TcpConnection.cc: one connection in its loop thread. The answers of write(2) and readv(2) are
-- arguments; what the loop is asked to run later and the callbacks that are made are recorded in
-- order. `none` is a failed assertion.
pub mod Invariant
pub mod Stream
pub mod Write
pub mod Run
pub mod Lifecycle
mod Tests
use chat.Prelude.{
  ℕ, zero, suc, ◌+◌, ◌-◌, ◌*◌, ◌%◌, ◌^◌, ◌≤◌, ◌<◌, Bool, true, false, not, ◌&&◌, ◌||◌, Option, none,
  some, List, [], ◌∷◌, ◌++◌, length, take, slice, ltb, leb, ◌==◌, if◌then◌else◌, ◌>>=◌, ◌>>◌,
  assert, add_size, sub_size, to_size, signed32, to_int32,
}
use chat.Buffer
use chat.Buffer.{
  Buffer, readable_bytes, peek, append, retrieve, read_fd, ReadResult, failed, received,
  retrieve_all_as_string,
}

pub data State : Type 0 where
  connecting connected disconnecting disconnected : State

-- The error numbers that the code tells apart.
pub data Errno : Type 0 where
  would_block pipe reset other : Errno

-- What write(2) answers.
pub data WriteResult : Type 0 where
  wrote : ℕ → WriteResult
  write_failed : Errno → WriteResult

-- What is queued in the loop.
pub data Functor : Type 0 where
  write_complete : Functor
  high_water_mark : ℕ → Functor
  send_later : List ℕ → Functor
  shutdown_later : Functor
  force_close_later : Functor

-- The callbacks that the connection makes at once.
pub data Callback : Type 0 where
  connection_changed : State → Callback
  message_arrived : Callback
  closed : Callback

pub record Connection : Type 0 where
  pub state : State
  pub reading : Bool  -- the channel's events
  pub writing : Bool
  pub in_loop : Bool  -- the channel is in the poller
  pub write_shut : Bool  -- shutdown(2) was called on the socket
  pub input : Buffer
  pub output : Buffer
  pub mark : ℕ
  pub on_write_complete : Bool  -- the callback is set
  pub on_high_water : Bool
  pub queued : List Functor
  pub callbacks : List Callback
  pub wire : List ℕ  -- the bytes that write(2) took

-- A new connection; the two callbacks are set by its owner.
unfoldable pub create : Bool → Bool → Connection
create write_complete_set high_water_set = record {
  state = connecting;
  reading = false;
  writing = false;
  in_loop = false;
  write_shut = false;
  input = Buffer.new;
  output = Buffer.new;
  mark = 64 * 1024 * 1024;
  on_write_complete = write_complete_set;
  on_high_water = high_water_set;
  queued = [];
  callbacks = [];
  wire = [];
}

unfoldable pub is_connected : State → Bool
is_connected connected = true
is_connected _ = false

unfoldable pub is_disconnecting : State → Bool
is_disconnecting disconnecting = true
is_disconnecting _ = false

unfoldable pub is_disconnected : State → Bool
is_disconnected disconnected = true
is_disconnected _ = false

-- `connectEstablished` and `connectDestroyed` run with these.
unfoldable pub is_open : State → Bool
unfolding is_connected is_disconnecting
is_open s = is_connected s || is_disconnecting s

abbrev pub queue : Functor → Connection → Connection
queue f c = record c { queued = c.queued ++ (f ∷ []) }

abbrev pub call : Callback → Connection → Connection
call f c = record c { callbacks = c.callbacks ++ (f ∷ []) }

-- `loop_->queueInLoop(f)` if the callback is set.
unfoldable pub queue_if : Bool → Functor → Connection → Connection
queue_if b f c = if b then queue f c else c

unfoldable pub is_fault : Errno → Bool
is_fault would_block = false
is_fault pipe = true
is_fault reset = true
is_fault other = false

-- The local variables of `sendInLoop` after the direct write.
pub record Direct : Type 0 where
  pub conn : Connection
  pub nwrote : ℕ
  pub remaining : ℕ
  pub fault : Bool

unfoldable pub write_direct : List ℕ → WriteResult → Connection → Direct
unfolding queue_if
write_direct message (wrote n) c =
    let left = sub_size (length message) n in
    record {
      conn =
          queue_if (not (ltb n (length message)) && ((left == 0) && c.on_write_complete))
            write_complete (record c { wire = c.wire ++ take n message });
      nwrote = n;
      remaining = left;
      fault = false;
    }
write_direct message (write_failed e) c = record {
  conn = c;
  nwrote = 0;
  remaining = length message;
  fault = is_fault e;
}

unfoldable pub write_nothing : List ℕ → Connection → Direct
write_nothing message c = record { conn = c; nwrote = 0; remaining = length message; fault = false }

unfoldable pub keep_bytes : List ℕ → Connection → Option Connection
keep_bytes rest c = do
  output ← append rest c.output
  some (record c { output = output; writing = true })

-- The part of `sendInLoop` that keeps what is left for `handleWrite`.
unfoldable pub keep_rest : List ℕ → Direct → Option Connection
keep_rest message d =
    let old = readable_bytes d.conn.output in
    let total = add_size old d.remaining in
    let crossed = leb d.conn.mark total && (ltb old d.conn.mark && d.conn.on_high_water) in
    keep_bytes (slice d.nwrote d.remaining message)
      (queue_if crossed (high_water_mark total) d.conn)

unfoldable pub finish_send : List ℕ → Direct → Option Connection
finish_send message d = do
  assert (leb d.remaining (length message))
  if not d.fault && ltb 0 d.remaining then keep_rest message d else some d.conn

unfoldable pub send_in_loop : List ℕ → WriteResult → Connection → Option Connection
send_in_loop message w c =
    if is_disconnected c.state
    then some c
    else finish_send message (
        if not c.writing && (readable_bytes c.output == 0)
        then write_direct message w c
        else write_nothing message c)

-- `send(const std::string&)`; the first argument says whether it runs in the loop thread.
unfoldable pub send : Bool → List ℕ → WriteResult → Connection → Option Connection
send in_thread message w c =
    if is_connected c.state
    then if in_thread then send_in_loop message w c else some (queue (send_later message) c)
    else some c

-- `send(Buffer*)`, with the buffer that it empties.
unfoldable pub send_buffer : Bool → Buffer → WriteResult → Connection → Option (Connection × Buffer)
send_buffer in_thread b w c =
    let len = to_size (signed32 (to_int32 (readable_bytes b))) in
    let now = send_in_loop (peek len b) w c >>= λ c'. some (c', Buffer.retrieve_all b) in
    let later = retrieve_all_as_string b >>= λ r. some (queue (send_later r.0) c, r.1) in
    if is_connected c.state then if in_thread then now else later else some (c, b)

unfoldable pub shutdown_in_loop : Connection → Connection
shutdown_in_loop c = if not c.writing then record c { write_shut = true } else c

unfoldable pub shutdown : Bool → Connection → Connection
shutdown in_thread c =
    let c₁ : Connection = record c { state = disconnecting } in
    if is_connected c.state
    then if in_thread then shutdown_in_loop c₁ else queue shutdown_later c₁
    else c

unfoldable pub disable_all : Connection → Connection
disable_all c = record c { reading = false; writing = false }

unfoldable pub handle_close : Connection → Option Connection
unfolding disable_all
handle_close c = do assert (is_open c.state); some (call closed (disable_all c))

unfoldable pub force_close : Connection → Connection
force_close c =
    if is_open c.state then queue force_close_later (record c { state = disconnecting }) else c

unfoldable pub force_close_in_loop : Connection → Option Connection
force_close_in_loop c = if is_open c.state then handle_close c else some c

unfoldable pub is_connecting : State → Bool
is_connecting connecting = true
is_connecting _ = false

unfoldable pub connect_established : Connection → Option Connection
connect_established c = do
  assert (is_connecting c.state)
  some (
      call (connection_changed connected)
        (record c { state = connected; reading = true; in_loop = true }))

unfoldable pub connect_destroyed : Connection → Option Connection
unfolding disable_all
connect_destroyed c = do
  assert (is_open c.state)
  let c₁ = call (connection_changed disconnected) (disable_all (record c { state = disconnected }))
  some (record c₁ { in_loop = false })

unfoldable pub handle_read : ReadResult → Connection → Option Connection
handle_read (failed e) c = some c
handle_read (received []) c = handle_close c
handle_read (received (x ∷ xs)) c = do
  input ← read_fd (received (x ∷ xs)) c.input
  some (call message_arrived (record c { input = input }))

-- The output buffer became empty.
unfoldable pub drained : Connection → Connection
unfolding queue_if
drained c =
    let c₁ = queue_if c.on_write_complete write_complete (record c { writing = false }) in
    if is_disconnecting c.state then shutdown_in_loop c₁ else c₁

-- write(2) took `n` bytes of the output buffer.
unfoldable pub written_out : ℕ → Connection → Option Connection
written_out n c = do
  output ← retrieve n c.output
  let c₁ : Connection = record c { output = output; wire = c.wire ++ peek n c.output }
  some (if readable_bytes output == 0 then drained c₁ else c₁)

unfoldable pub handle_write : WriteResult → Connection → Option Connection
handle_write (write_failed e) c = some c
handle_write (wrote n) c = if c.writing && ltb 0 n then written_out n c else some c
