-- ===== src/TcpServer/Close.antt =====
-- TcpServer.cc: a connection that ends leaves the map once.
use chat.Prelude.{
  ℕ, ◌+◌, ◌≡◌, refl, sym, ap, ◌∙◌, arith, true, false, none, some, List, [], ◌∷◌, ◌++◌,
  append_assoc, ◌==◌, ◌>>=◌, Bool-cases, inl, inr,
}
use chat.Prelude.Assoc.{lookup, remove, lookup-remove}
use chat.TcpServer.Assign.{Inv, loop_of, new_connection-Added}
use chat.TcpServer.{
  TcpServer, Conn, connect_established, connect_destroyed, new_connection,
  remove_connection_in_loop, erase_count, start, start_pool,
}

-- The server without the connection, whose loop is asked to destroy it.
abbrev removed : ℕ → Conn → TcpServer → TcpServer
removed name conn s = record s {
  connections = remove name s.connections;
  calls = s.calls ++ ((conn.io_loop, connect_destroyed name) ∷ []);
}

erased_once :
    (name : ℕ) (conn : Conn) (s : TcpServer)
    → lookup name s.connections ≡ some conn
    → (erase_count name s.connections == 1) ≡ true
erased_once name conn s h = rw (erase_count, h) refl

remove_lem :
    (name : ℕ) (conn : Conn) (s : TcpServer)
    → lookup name s.connections ≡ some conn
    → remove_connection_in_loop name conn s ≡ some (removed name conn s)
unfolding remove_connection_in_loop
remove_lem name conn s h = rw (erased_once name conn s h) refl

-- A socket is accepted and its connection ends: the map is as it was before, at every name, and the
-- connection's loop was asked to establish and then to destroy it.
pub open_and_close :
    (sockfd : ℕ) (s : TcpServer)
    → Inv s
    → (r : TcpServer) × ((new_connection sockfd s
          >>= remove_connection_in_loop s.next_conn_id
              (record { sockfd = sockfd; io_loop = loop_of s 0 }))
        ≡ some r)
      × ((j : ℕ) → lookup j r.connections ≡ lookup j s.connections)
      × (r.calls
          ≡ s.calls
            ++ ((loop_of s 0, connect_established s.next_conn_id)
                ∷ ((loop_of s 0, connect_destroyed s.next_conn_id) ∷ [])))
open_and_close sockfd s v =
    let (p, runs, a, calls) = new_connection-Added sockfd s v in
    let name = s.next_conn_id in
    let conn : Conn = record { sockfd = sockfd; io_loop = loop_of s 0 } in
    let self : (name == name) ≡ true = ground arith in
    let there : lookup name p.connections ≡ some conn = a.connections name ∙ rw self refl in
    (
      removed name conn p,
      rw runs (remove_lem name conn p there),
      λ j. lookup-remove name j p.connections ∙ elim (Bool-cases (name == j)) [
        | inl e ↦ rw e (sym (v.names j (ground arith)))
        | inr e ↦ rw e (a.connections j ∙ rw e refl)
      ],
      ap (λ c. c ++ ((loop_of s 0, connect_destroyed name) ∷ [])) calls
          ∙ append_assoc s.calls ((loop_of s 0, connect_established name) ∷ [])
              ((loop_of s 0, connect_destroyed name) ∷ []),
    )

-- A close callback that comes a second time for a connection of the server fails the assertion that
-- one entry was erased.
pub close_twice_aborts :
    (name : ℕ) (conn : Conn) (s : TcpServer)
    → lookup name s.connections ≡ some conn
    → (r : TcpServer) × (remove_connection_in_loop name conn s ≡ some r)
      × (remove_connection_in_loop name conn r ≡ none)
unfolding remove_connection_in_loop
close_twice_aborts name conn s h =
    let self : (name == name) ≡ true = ground arith in
    let gone : lookup name (remove name s.connections) ≡ none =
      lookup-remove name name s.connections ∙ rw self refl in
    (
      removed name conn s,
      rw (erased_once name conn s h) refl,
      rw (none_left (remove name s.connections) gone) refl,
    )
  where
    none_left : (m : List (ℕ × Conn)) → lookup name m ≡ none → (erase_count name m == 1) ≡ false
    none_left m e = rw (erase_count, e) refl

-- A second `start` changes nothing.
start_twice :
    (s : TcpServer)
    → s.started ≡ false
    → s.pool_started ≡ false
    → (r : TcpServer) × (start s ≡ some r) × (start r ≡ some r) × (r.listening ≡ true)
unfolding start start_pool
start_twice s h k = elim (Bool-cases s.listening) [
  | inl e ↦ (
    record s {
      started = true;
      pool_started = true;
      loops = s.loops + s.num_threads;
      listening = true;
    },
    rw (h, k, e) refl,
    refl,
    refl,
  )
  | inr e ↦ (
    record s {
      started = true;
      pool_started = true;
      loops = s.loops + s.num_threads;
      listening = true;
    },
    rw (h, k, e) refl,
    refl,
    refl,
  )
]
