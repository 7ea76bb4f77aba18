-- ===== src/TcpServer.antt =====
-- TcpServer.cc with Acceptor.cc and EventLoopThreadPool.cc: the connections of a server, in its loop
-- thread. Loop 0 is the server's own, loop i + 1 the i-th of the pool. A connection's name is the number
-- behind `#` in it, by its
-- 32 bits. The answers of accept4(2) are arguments; `none` is a failed assertion, a
-- LOG_FATAL or an index out of range.
pub mod Assign
pub mod Close
mod Tests
use chat.Prelude.{
  ℕ, suc, ◌+◌, ◌%◌, ◌^◌, Bool, true, false, not, Option, none, some, List, [], ◌∷◌, ◌++◌, ltb, leb,
  ◌==◌, if◌then◌else◌, ◌>>=◌, ◌>>◌, assert,
}
use chat.Prelude.Assoc.{lookup, put, remove}

-- What a loop is asked to call, by the connection's name.
pub data Call : Type 0 where
  connect_established connect_destroyed : ℕ → Call

pub record Conn : Type 0 where
  pub sockfd : ℕ
  pub io_loop : ℕ

pub record TcpServer : Type 0 where
  pub num_threads : ℕ
  pub pool_started : Bool
  pub next : ℕ
  pub loops : ℕ  -- the size of `loops_`
  pub started : Bool
  pub listening : Bool
  pub next_conn_id : ℕ
  pub connections : List (ℕ × Conn)
  pub calls : List (ℕ × Call)  -- what was given to the loops, in order
  pub turned_away : ℕ  -- connections accepted with the idle descriptor and closed

abbrev pub new : TcpServer
new = record {
  num_threads = 0;
  pool_started = false;
  next = 0;
  loops = 0;
  started = false;
  listening = false;
  next_conn_id = 1;
  connections = [];
  calls = [];
  turned_away = 0;
}

abbrev pub set_thread_num : ℕ → TcpServer → TcpServer
set_thread_num n s = record s { num_threads = n }

-- `EventLoopThreadPool::start`.
unfoldable pub start_pool : TcpServer → Option TcpServer
start_pool s = do
  assert (not s.pool_started)
  some (record s { pool_started = true; loops = s.loops + s.num_threads })

unfoldable pub start : TcpServer → Option TcpServer
start s =
    if not s.started
    then (start_pool (record s { started = true }) >>= λ t.
        some (if not t.listening then record t { listening = true } else t))
    else some s

unfoldable pub get_next_loop : TcpServer → Option (ℕ × TcpServer)
get_next_loop s =
    if s.loops == 0
    then some (0, s)
    else (assert (ltb s.next s.loops)
        >> some
            (suc s.next, record s { next = if leb s.loops (suc s.next) then 0 else suc s.next }))

unfoldable pub new_connection : ℕ → TcpServer → Option TcpServer
new_connection sockfd s = do
  let conn_name = s.next_conn_id
  l ← get_next_loop (record s { next_conn_id = suc s.next_conn_id % 2 ^ 32 })
  some (record l.1 {
    connections = put conn_name (record { sockfd = sockfd; io_loop = l.0 }) l.1.connections;
    calls = l.1.calls ++ ((l.0, connect_established conn_name) ∷ []);
  })

-- What accept4(2) answers: a socket, EMFILE, another errno that `sockets::accept` expects, or one that
-- it does not.
pub data Accepted : Type 0 where
  accepted : ℕ → Accepted
  too_many_files failed unexpected : Accepted

-- `Acceptor::handleRead`; a server sets the new-connection callback.
unfoldable pub handle_read : Accepted → TcpServer → Option TcpServer
handle_read (accepted connfd) s = new_connection connfd s
handle_read too_many_files s = some (record s { turned_away = suc s.turned_away })
handle_read failed s = some s
handle_read unexpected s = none

-- `connections_.erase`: how many entries went.
abbrev pub erase_count : ℕ → List (ℕ × Conn) → ℕ
erase_count name m = elim (lookup name m) [ none ↦ 0 | some c ↦ 1 ]

unfoldable pub remove_connection_in_loop : ℕ → Conn → TcpServer → Option TcpServer
remove_connection_in_loop name conn s = do
  assert (erase_count name s.connections == 1)
  some (record s {
    connections = remove name s.connections;
    calls = s.calls ++ ((conn.io_loop, connect_destroyed name) ∷ []);
  })
