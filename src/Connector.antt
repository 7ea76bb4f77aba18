-- ===== src/Connector.antt =====
-- Connector.cc and Connector.h: one outgoing connection, in its loop thread. The descriptor of a new
-- socket, the error of connect(2) and the answers of `getSocketError` and `isSelfConnect` are
-- arguments. `EventLoop::cancel` does nothing, so a timer that was asked for always fires. `none` is
-- a failed assertion or a null channel.
pub mod Delay
pub mod Invariant
pub mod Steps
pub mod Settle
mod Tests
use chat.Prelude.{
  ℕ, ◌*◌, Bool, true, false, Option, none, some, List, [], ◌∷◌, ◌++◌, leb, ◌==◌, if◌then◌else◌,
  ◌>>=◌, ◌>>◌, assert,
}

pub data State : Type 0 where
  disconnected connecting connected : State

-- The values of `errno` that `connect` tells apart.
pub data Errno : Type 0 where
  no_error in_progress interrupted is_connected : Errno
  try_again address_in_use address_not_available refused unreachable : Errno
  no_access not_permitted bad_family already bad_descriptor bad_address not_socket : Errno
  unexpected : Errno

pub data Functor : Type 0 where
  start_later reset_later : Functor

pub record Connector : Type 0 where
  pub connect_wanted : Bool
  pub state : State
  pub channel : Option ℕ  -- the channel's descriptor
  pub watched : Bool  -- the channel is in the poller, waiting for a write event
  pub retry_delay : ℕ
  pub asked : List ℕ  -- the delays given to `runAfter`, in order
  pub timers : List ℕ  -- the delays of the timers that have not fired
  pub queued : List Functor
  pub live : List ℕ  -- sockets created, and neither closed nor given away
  pub given : List ℕ  -- sockets given to the new-connection callback, in order

abbrev pub max_retry_delay : ℕ
max_retry_delay = 30000

abbrev pub init_retry_delay : ℕ
init_retry_delay = 500

abbrev pub new : Connector
new = record {
  connect_wanted = false;
  state = disconnected;
  channel = none;
  watched = false;
  retry_delay = init_retry_delay;
  asked = [];
  timers = [];
  queued = [];
  live = [];
  given = [];
}

unfoldable pub is_disconnected : State → Bool
is_disconnected disconnected = true
is_disconnected connecting = false
is_disconnected connected = false

unfoldable pub without : ℕ → List ℕ → List ℕ
without fd [] = []
without fd (x ∷ xs) = if x == fd then without fd xs else x ∷ without fd xs

-- `sockets::close`.
abbrev pub close_socket : ℕ → Connector → Connector
close_socket fd c = record c { live = without fd c.live }

-- `std::min(retryDelayMs_ * 2, kMaxRetryDelayMs)`.
unfoldable pub next_delay : ℕ → ℕ
next_delay d = if leb (d * 2) max_retry_delay then d * 2 else max_retry_delay

unfoldable pub retry : ℕ → Connector → Connector
retry fd c =
    let c₁ : Connector = record c { live = without fd c.live; state = disconnected } in
    if c.connect_wanted
    then record c₁ {
      asked = c₁.asked ++ (c₁.retry_delay ∷ []);
      timers = c₁.timers ++ (c₁.retry_delay ∷ []);
      retry_delay = next_delay c₁.retry_delay;
    }
    else c₁

unfoldable pub has_channel : Option ℕ → Bool
has_channel none = false
has_channel (some fd) = true

unfoldable pub begin_connecting : ℕ → Connector → Option Connector
begin_connecting fd c =
    if has_channel c.channel
    then none
    else some (record c { state = connecting; channel = some fd; watched = true })

-- The switch of `connect`, with the new socket in `live`.
unfoldable pub after_connect : Errno → ℕ → Connector → Option Connector
after_connect no_error fd c = begin_connecting fd c
after_connect in_progress fd c = begin_connecting fd c
after_connect interrupted fd c = begin_connecting fd c
after_connect is_connected fd c = begin_connecting fd c
after_connect try_again fd c = some (retry fd c)
after_connect address_in_use fd c = some (retry fd c)
after_connect address_not_available fd c = some (retry fd c)
after_connect refused fd c = some (retry fd c)
after_connect unreachable fd c = some (retry fd c)
after_connect no_access fd c = some (close_socket fd c)
after_connect not_permitted fd c = some (close_socket fd c)
after_connect bad_family fd c = some (close_socket fd c)
after_connect already fd c = some (close_socket fd c)
after_connect bad_descriptor fd c = some (close_socket fd c)
after_connect bad_address fd c = some (close_socket fd c)
after_connect not_socket fd c = some (close_socket fd c)
after_connect unexpected fd c = some (close_socket fd c)

unfoldable pub connect : Errno → ℕ → Connector → Option Connector
connect e fd c = after_connect e fd (record c { live = fd ∷ c.live })

unfoldable pub start_in_loop : Errno → ℕ → Connector → Option Connector
start_in_loop e fd c = do
  assert (is_disconnected c.state)
  if c.connect_wanted then connect e fd c else some c

unfoldable pub start : Bool → Errno → ℕ → Connector → Option Connector
start true e fd c = start_in_loop e fd (record c { connect_wanted = true })
start false e fd c =
    some (record c { connect_wanted = true; queued = c.queued ++ (start_later ∷ []) })

unfoldable pub restart : Errno → ℕ → Connector → Option Connector
restart e fd c =
    start_in_loop e fd
      (record c { state = disconnected; retry_delay = init_retry_delay; connect_wanted = true })

-- `EventLoop::cancel`, whose body is a comment.
unfoldable pub cancel : Connector → Connector
cancel c = c

unfoldable pub stop : Connector → Connector
stop c = cancel (record c { connect_wanted = false })

-- The oldest timer fires, if there is one; its callback is `startInLoop`.
unfoldable pub fire : Errno → ℕ → Connector → Option Connector
fire e fd c = elim c.timers [
  | [] ↦ some c
  | delay ∷ rest ↦ start_in_loop e fd (record c { timers = rest })
]

-- The descriptor that `removeAndResetChannel` returns, and the connector.
unfoldable pub remove_and_reset_channel : Connector → Option (ℕ × Connector)
remove_and_reset_channel c = do
  fd ← c.channel
  some (fd, record c { watched = false; queued = c.queued ++ (reset_later ∷ []) })

abbrev pub reset_channel : Connector → Connector
reset_channel c = record c { channel = none }

-- `handleWrite` behind `removeAndResetChannel`; `failed` is SO_ERROR set, `self` is `isSelfConnect`.
unfoldable pub finish_write : Bool → Bool → ℕ → Connector → Connector
finish_write true self fd c = retry fd c
finish_write false true fd c = retry fd c
finish_write false false fd c =
    if c.connect_wanted
    then record c { state = connected; live = without fd c.live; given = c.given ++ (fd ∷ []) }
    else record c { state = connected; live = without fd c.live }

unfoldable pub handle_write : Bool → Bool → Connector → Option Connector
handle_write failed self c = elim c.state [
  | connecting ↦ remove_and_reset_channel c >>= λ r. some (finish_write failed self r.0 r.1)
  | disconnected ↦ some c
  | connected ↦ none
]

unfoldable pub handle_error : Connector → Option Connector
handle_error c = elim c.state [
  | connecting ↦ remove_and_reset_channel c >>= λ r. some (retry r.0 r.1)
  | disconnected ↦ none
  | connected ↦ none
]
