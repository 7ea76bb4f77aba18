-- ===== src/ChatServer.antt =====
-- excercises/chatServer/server_threaded.cc: the handlers of the chat server. MySQL answers through
-- arguments; redis and protobuf are the record `Services`. `none` is a read through a null pointer
-- or past an array.
pub mod Messages
pub mod History
pub mod Indices
mod Tests
use chat.Prelude.{
  ℕ, suc, ◌+◌, ◌-◌, ◌≤◌, ◌≡◌, Bool, true, false, Option, none, some, List, [], ◌∷◌, ◌++◌, map,
  length, take, drop, leb, ◌==◌, if◌then◌else◌, ◌>>=◌, ◌>>◌, assert,
}
use chat.Prelude.Assoc.{lookup, put, put_new, or_default}

-- msg.proto: what the server sends. A text is its bytes.
pub data Message : Type 0 where
  p_message : ℕ → ℕ → List ℕ → Message
  g_message : ℕ → List ℕ → Message
  success : ℕ → Message

-- The services behind the server, and `insert` of boost's unordered_multimap, which keeps the entries in
-- an order of its own. `items` is the view of the lists that redis documents: LPUSH puts
-- in front, LLEN counts, and LRANGE with -1 gives the elements from an index to the end.
pub record Services : Type 1 where
  pub Store : Type 0
  pub items : Store → ℕ → List (List ℕ)
  pub lpush : ℕ → List ℕ → Store → Store
  pub llen : ℕ → Store → ℕ
  pub lrange : ℕ → ℕ → Store → List (List ℕ)
  pub serialize : Message → List ℕ
  pub parse : List ℕ → Message
  pub insert : ℕ × ℕ → List (ℕ × ℕ) → List (ℕ × ℕ)
  pub items-lpush :
      (k j : ℕ) (x : List ℕ) (s : Store)
      → items (lpush k x s) j ≡ (if k == j then x ∷ items s j else items s j)
  pub llen_lem : (k : ℕ) (s : Store) → llen k s ≡ length (items s k)
  pub lrange_lem : (k i : ℕ) (s : Store) → lrange k i s ≡ drop i (items s k)
  pub parse-serialize : (m : Message) → parse (serialize m) ≡ m

-- The members of `ChatServer`. A connection is a number; a null pointer is `none`.
pub record Server : Type 0 where
  pub user_connections : List (ℕ × Option ℕ)
  pub group_connections : List (ℕ × ℕ)
  pub latest_record : List (ℕ × ℕ)
  pub sent : List (ℕ × Message)  -- what `codec_.send` was given, in order
  pub freed_twice : ℕ  -- replies of redis that were freed a second time

-- `codec_.send`.
abbrev pub post : ℕ → Message → Server → Server
post conn m s = record s { sent = s.sent ++ ((conn, m) ∷ []) }

abbrev pub post_all : ℕ → List Message → Server → Server
post_all conn ms s = record s { sent = s.sent ++ map (λ m. (conn, m)) ms }

-- `lastestRecord_[uid]`, with the entry that it makes.
unfoldable pub latest : ℕ → Server → ℕ
latest uid s = or_default 0 (lookup uid s.latest_record)

-- The row of `SELECT last_insert_id()`, if there is one.
unfoldable pub on_sign_up : Option ℕ → ℕ → Server → Option Server
on_sign_up row conn s = do
  id ← row
  some (
      post conn (success id) (record s {
        user_connections = put_new id (some conn) s.user_connections;
        latest_record = put_new id 0 s.latest_record;
      }))

-- The loop over `groupconnections_`, which does not look at the message's group.
unfoldable pub send_to_groups : Message → List (ℕ × ℕ) → Server → Server
send_to_groups m [] s = s
send_to_groups m ((gid, conn) ∷ rest) s = send_to_groups m rest (post conn m s)

unfoldable pub on_g_message : ℕ → List ℕ → Server → Server
on_g_message gid content s = send_to_groups (g_message gid content) s.group_connections s

-- Two texts are equal.
unfoldable pub same_text : List ℕ → List ℕ → Bool
same_text [] [] = true
same_text [] (y ∷ ys) = false
same_text (x ∷ xs) [] = false
same_text (x ∷ xs) (y ∷ ys) = if x == y then same_text xs ys else false

module _ (r : Services) where
  open r use {Store, lpush, llen, lrange, serialize, parse, insert}

  unfoldable pub on_create_group : ℕ → ℕ → Server → Server
  on_create_group gid conn s = record s {
    group_connections = insert (gid, conn) s.group_connections;
  }

  unfoldable pub on_add_group : ℕ → ℕ → Server → Server
  on_add_group gid conn s = record s { group_connections = insert (gid, conn) s.group_connections }

  -- The part of `onLogin` behind the password test. Behind its loop the reply of LLEN is freed again,
  -- which leaves the rest undefined; here it is counted.
  unfoldable pub replay : ℕ → ℕ → Store → Server → Option Server
  replay uid conn store s = do
    let index = latest uid s
    let count = llen uid store - index
    let elements = lrange uid index store
    assert (leb count (length elements))
    let s₁ : Server = record s { latest_record = put uid index s.latest_record }
    let s₂ = post_all conn (map parse (take count elements)) s₁
    some (record s₂ {
      freed_twice = suc s₂.freed_twice;
      user_connections = put uid (some conn) s₂.user_connections;
    })

  -- The row of the stored password, if the user is known.
  unfoldable pub on_login : Option (List ℕ) → ℕ → List ℕ → ℕ → Store → Server → Option Server
  on_login row uid passwd conn store s = do
    pwd ← row
    if same_text pwd passwd then replay uid conn store s else some s

  unfoldable pub on_quit : ℕ → Store → Server → Server
  on_quit uid store s = record s { latest_record = put uid (llen uid store) s.latest_record }

  -- Both ways `userconnections_[peerId]` leaves an entry for the peer.
  unfoldable pub relay : Option ℕ → ℕ → ℕ → List ℕ → ℕ → Server → Server
  relay none uid peer content conn s = s
  relay (some other) uid peer content conn s =
      post conn (success uid) (post other (p_message uid peer content) s)

  unfoldable pub on_p_message : ℕ → ℕ → List ℕ → ℕ → Store → Server → Store × Server
  on_p_message uid peer content conn store s =
      let found = or_default none (lookup peer s.user_connections) in
      let s₁ : Server = record s { user_connections = put peer found s.user_connections } in
      (
        lpush peer (serialize (p_message uid peer content)) store,
        relay found uid peer content conn s₁,
      )
