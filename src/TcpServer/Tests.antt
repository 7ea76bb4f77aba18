-- ===== src/TcpServer/Tests.antt =====
-- Runs of TcpServer.cc, and its theorems at a server with two threads.
use chat.Prelude.{ℕ, ◌+◌, ◌<◌, ◌≡◌, refl, arith, true, some, [], ◌∷◌, get_elem?, ◌>>=◌}
use chat.Prelude.Assoc.{lookup}
use chat.TcpServer.Assign.{Inv, loop_of, accept_all, accept_all-in_turn}
use chat.TcpServer.Close.{open_and_close}
use chat.TcpServer.{
  TcpServer, new, set_thread_num, start, start_pool, new_connection, connect_established,
  connect_destroyed, remove_connection_in_loop,
}

abbrev two_loops : TcpServer
two_loops = record new {
  num_threads = 2;
  pool_started = true;
  loops = 2;
  started = true;
  listening = true;
}

two_loops_run : start (set_thread_num 2 new) ≡ some two_loops
unfolding start start_pool
two_loops_run = refl

two_loops-Inv : Inv two_loops
unfolding lookup
two_loops-Inv = record { in_turn = λ h. omega arith; names = λ j h. refl }

accept_all-in_turn_example :
    (r : TcpServer) × (accept_all (7 ∷ (8 ∷ (9 ∷ []))) two_loops ≡ some r)
    × Inv r
    × ((i fd : ℕ)
        → get_elem? (7 ∷ (8 ∷ (9 ∷ []))) i ≡ some fd
        → lookup (1 + i) r.connections
          ≡ some (record { sockfd = fd; io_loop = loop_of two_loops i }))
    × ((j : ℕ) → j < 1 → lookup j r.connections ≡ lookup j two_loops.connections)
accept_all-in_turn_example =
    accept_all-in_turn (7 ∷ (8 ∷ (9 ∷ []))) two_loops two_loops-Inv (omega arith)

open_and_close_example :
    (r : TcpServer) × ((new_connection 7 two_loops
        >>= remove_connection_in_loop 1 (record { sockfd = 7; io_loop = loop_of two_loops 0 }))
      ≡ some r)
    × ((j : ℕ) → lookup j r.connections ≡ lookup j two_loops.connections)
    × (r.calls
        ≡ (loop_of two_loops 0, connect_established 1)
          ∷ ((loop_of two_loops 0, connect_destroyed 1) ∷ []))
open_and_close_example = open_and_close 7 two_loops two_loops-Inv

abbrev one_connection : TcpServer
one_connection = record two_loops {
  connections = (1, record { sockfd = 7; io_loop = 1 }) ∷ [];
  next_conn_id = 2;
}

one_found : lookup 1 one_connection.connections ≡ some (record { sockfd = 7; io_loop = 1 })
unfolding lookup
one_found = refl
