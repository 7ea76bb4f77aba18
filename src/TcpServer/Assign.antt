-- ===== src/TcpServer/Assign.antt =====
-- TcpServer.cc: new connections get new names and go round the loops.
use chat.Prelude.{
  ℕ, zero, suc, ◌+◌, ◌%◌, ◌^◌, length, ◌≤◌, ◌<◌, ◌≡◌, refl, sym, ap, subst, ◌∙◌, arith, true, false,
  Option, none, some, List, [], ◌∷◌, ◌++◌, ltb, leb, ◌==◌, if◌then◌else◌, get_elem?, ◌>>=◌,
  Bool-cases, inl, inr,
}
use native.Mathlib.Nat.{add-mod_right, mod-eq_of_lt}
use chat.Prelude.Assoc.{lookup, put, lookup-put}
use chat.TcpServer.{
  TcpServer, Conn, new_connection, get_next_loop, handle_read, accepted, connect_established,
}

pub record Inv (s : TcpServer) : Type 0 where
  pub in_turn : 0 < s.loops → s.next < s.loops
  pub names : (j : ℕ) → s.next_conn_id ≤ j → lookup j s.connections ≡ none

-- The loop of the connection that comes `i` connections later.
abbrev pub loop_of : TcpServer → ℕ → ℕ
loop_of s i = if s.loops == 0 then 0 else suc ((s.next + i) % s.loops)

-- A new connection: its name is the next number, its loop the one whose turn it is.
pub record Added (sockfd : ℕ) (s r : TcpServer) : Type 0 where
  pub inv : suc s.next_conn_id < 2 ^ 32 → Inv r
  pub id : r.next_conn_id ≡ suc s.next_conn_id % 2 ^ 32
  pub same_loops : r.loops ≡ s.loops
  pub turns : (i : ℕ) → loop_of r i ≡ loop_of s (suc i)
  pub connections :
      (j : ℕ)
      → lookup j r.connections ≡ (
          if s.next_conn_id == j
          then some (record { sockfd = sockfd; io_loop = loop_of s 0 })
          else lookup j s.connections)

wrap : (n i k : ℕ) → suc k ≡ n → (0 + i) % n ≡ (k + suc i) % n
wrap n i k e =
    ap (λ x. x % n) (omega arith) ∙ sym (add-mod_right i n) ∙ ap (λ x. x % n) (omega (arith, e))

next_mod : (n k i : ℕ) → k < n → ((if leb n (suc k) then 0 else suc k) + i) % n ≡ (k + suc i) % n
next_mod n k i m = elim (Bool-cases (leb n (suc k))) [
  | inl e ↦ rw e (wrap n i k (ground arith))
  | inr e ↦ rw e (ap (λ x. x % n) (omega arith))
]

-- The loop whose turn it is, and the server behind the turn.
abbrev turned : TcpServer → TcpServer
turned s =
    if s.loops == 0
    then s
    else record s { next = if leb s.loops (suc s.next) then 0 else suc s.next }

get_next_loop_lem :
    (s : TcpServer)
    → (0 < s.loops → s.next < s.loops)
    → get_next_loop s ≡ some (loop_of s 0, turned s)
unfolding get_next_loop
get_next_loop_lem s h = elim (Bool-cases (s.loops == 0)) [
  | inl e ↦ rw e refl
  | inr e ↦
      let small : s.next < s.loops = h (ground arith) in
      let in_range : ltb s.next s.loops ≡ true = ground arith in
      let same : (s.next + 0) % s.loops ≡ s.next =
        ap (λ x. x % s.loops) (omega arith) ∙ mod-eq_of_lt small in
      rw (e, in_range, same) refl
]

turned_loops : (s : TcpServer) → (turned s).loops ≡ s.loops
turned_loops s = elim (Bool-cases (s.loops == 0)) [ inl e ↦ rw e refl | inr e ↦ rw e refl ]

turned_in_turn :
    (s : TcpServer) → (0 < s.loops → s.next < s.loops) → 0 < s.loops → (turned s).next < s.loops
turned_in_turn s h k = elim (Bool-cases (s.loops == 0)) [
  | inl e ↦ absurd (ground arith)
  | inr e ↦ rw e (go (h k))
]
  where
    go : s.next < s.loops → (if leb s.loops (suc s.next) then 0 else suc s.next) < s.loops
    go m = ground arith

turned_turns :
    (s : TcpServer) (i : ℕ)
    → (0 < s.loops → s.next < s.loops)
    → loop_of (turned s) i ≡ loop_of s (suc i)
turned_turns s i h = elim (Bool-cases (s.loops == 0)) [
  | inl e ↦ rw (turned_loops s, e) refl
  | inr e ↦ rw (turned_loops s, e) (ap suc (next_mod s.loops s.next i (h (ground arith))))
]

module _ (sockfd : ℕ) (s : TcpServer) (v : Inv s) where
  abbrev numbered : TcpServer
  numbered = record s { next_conn_id = suc s.next_conn_id % 2 ^ 32 }

  abbrev conn : Conn
  conn = record { sockfd = sockfd; io_loop = loop_of s 0 }

  abbrev behind : TcpServer
  behind = record (turned numbered) {
    connections = put s.next_conn_id conn (turned numbered).connections;
    calls = (turned numbered).calls ++ ((loop_of s 0, connect_established s.next_conn_id) ∷ []);
  }

  same_rest :
      ((turned numbered).connections ≡ s.connections)
      × ((turned numbered).calls ≡ s.calls)
      × ((turned numbered).next_conn_id ≡ suc s.next_conn_id % 2 ^ 32)
  same_rest = elim (Bool-cases (s.loops == 0)) [
    | inl e ↦ rw e (refl, refl, refl)
    | inr e ↦ rw e (refl, refl, refl)
  ]

  looked_up :
      (j : ℕ)
      → lookup j behind.connections
        ≡ (if s.next_conn_id == j then some conn else lookup j s.connections)
  looked_up j =
      lookup-put s.next_conn_id j conn (turned numbered).connections
      ∙ ap (λ m. if s.next_conn_id == j then some conn else lookup j m) same_rest.0

  behind-names :
      suc s.next_conn_id < 2 ^ 32
      → (j : ℕ) → behind.next_conn_id ≤ j
      → lookup j behind.connections ≡ none
  behind-names small j h =
      let id = same_rest.2 in
      let later : s.next_conn_id < j = omega (arith, id) in
      let other : (s.next_conn_id == j) ≡ false = ground arith in
      looked_up j ∙ rw other (v.names j (omega arith))

  pub new_connection-Added :
      (r : TcpServer) × (new_connection sockfd s ≡ some r)
      × Added sockfd s r
      × (r.calls ≡ s.calls ++ ((loop_of s 0, connect_established s.next_conn_id) ∷ []))
  unfolding new_connection
  new_connection-Added = (
    behind,
    rw (get_next_loop_lem numbered v.in_turn) refl,
    record {
      inv = λ small. record {
        in_turn = λ k.
            subst (λ n. (turned numbered).next < n) (sym (turned_loops numbered))
              (turned_in_turn numbered v.in_turn (subst (λ n. 0 < n) (turned_loops numbered) k));
        names = behind-names small;
      };
      id = same_rest.2;
      same_loops = turned_loops numbered;
      turns = λ i. turned_turns numbered i v.in_turn;
      connections = looked_up;
    },
    ap (λ c. c ++ ((loop_of s 0, connect_established s.next_conn_id) ∷ [])) same_rest.1,
  )

abbrev pub accept_all : List ℕ → TcpServer → Option TcpServer
accept_all [] s = some s
accept_all (fd ∷ fds) s = handle_read (accepted fd) s >>= accept_all fds

-- Some sockets are accepted one after the other, not more than an int can still number: each gets a
-- name that no connection had, and they go to the loops of the pool in turn, the i-th to loop (next + i) modulo their number, or all to
-- the server's own loop where the pool has none; the connections that were there stay as they are.
pub accept_all-in_turn :
    (fds : List ℕ) (s : TcpServer)
    → Inv s
    → s.next_conn_id + length fds < 2 ^ 31
    → (r : TcpServer) × (accept_all fds s ≡ some r)
      × Inv r
      × ((i fd : ℕ)
          → get_elem? fds i ≡ some fd
          → lookup (s.next_conn_id + i) r.connections
            ≡ some (record { sockfd = fd; io_loop = loop_of s i }))
      × ((j : ℕ) → j < s.next_conn_id → lookup j r.connections ≡ lookup j s.connections)
unfolding handle_read
accept_all-in_turn [] s v small = (s, refl, v, λ i fd h. absurd (ground arith), λ j h. refl)
accept_all-in_turn (x ∷ fds) s v small =
    let (p, runs, a, _) = new_connection-Added x s v in
    let next : p.next_conn_id ≡ suc s.next_conn_id = a.id ∙ omega (arith, small) in
    let (r, more, w, later, earlier) =
      accept_all-in_turn fds p (a.inv (omega (arith, small))) (omega (arith, next, small)) in
    (
      r,
      rw runs more,
      w,
      λ i fd h. at_index p r a next later earlier i fd h,
      λ j h.
          let other : (s.next_conn_id == j) ≡ false = ground arith in
          earlier j (omega (arith, next, h)) ∙ a.connections j ∙ rw other refl,
    )
  where
    at_index :
        (p r : TcpServer)
        → Added x s p
        → p.next_conn_id ≡ suc s.next_conn_id
        → ((i fd : ℕ)
            → get_elem? fds i ≡ some fd
            → lookup (p.next_conn_id + i) r.connections
              ≡ some (record { sockfd = fd; io_loop = loop_of p i }))
        → ((j : ℕ) → j < p.next_conn_id → lookup j r.connections ≡ lookup j p.connections)
        → (i fd : ℕ) → get_elem? (x ∷ fds) i ≡ some fd
        → lookup (s.next_conn_id + i) r.connections
          ≡ some (record { sockfd = fd; io_loop = loop_of s i })
    at_index p r a next later earlier zero fd h =
        let same_fd : x ≡ fd = cc in
        let self : (s.next_conn_id == s.next_conn_id) ≡ true = ground arith in
        ap (λ j. lookup j r.connections) (omega arith)
        ∙ earlier s.next_conn_id (omega (arith, next))
        ∙ a.connections s.next_conn_id
        ∙ rw self (ap (λ k. some (record { sockfd = k; io_loop = loop_of s 0 })) same_fd)
    at_index p r a next later earlier (suc i) fd h =
        ap (λ j. lookup j r.connections) (omega (arith, next))
        ∙ later i fd h
        ∙ ap (λ l. some (record { sockfd = fd; io_loop = l })) (a.turns i)
