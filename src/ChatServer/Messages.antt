-- ===== src/ChatServer/Messages.antt =====
-- server_threaded.cc: where private and group messages go.
use mathlib.Core.List.{Mem, mem-append_right, mem-map_of_mem}
use chat.Prelude.{
  ℕ, ◌≡◌, ◌≢◌, refl, sym, ap, ◌∙◌, Option, none, some, List, [], ◌∷◌, ◌++◌, map, arith, append-nil,
  append_assoc, ◌==◌, if◌then◌else◌,
}
use chat.Prelude.Assoc.{lookup, put, lookup-put, or_default}
use chat.ChatServer.{
  Message, p_message, g_message, success, Services, Server, post, send_to_groups, on_g_message,
  relay, on_p_message,
}

abbrev pub to_each : Message → List (ℕ × ℕ) → List (ℕ × Message)
to_each m = map (λ e. (e.1, m))

send_to_groups-to_each :
    (m : Message) (gs : List (ℕ × ℕ)) (s : Server)
    → send_to_groups m gs s ≡ record s { sent = s.sent ++ to_each m gs }
unfolding send_to_groups
send_to_groups-to_each m [] s = ap (λ xs. record s { sent = xs }) (sym (append-nil s.sent))
send_to_groups-to_each m ((g, c) ∷ gs) s =
    send_to_groups-to_each m gs (post c m s)
    ∙ ap (λ xs. record s { sent = xs }) (append_assoc s.sent ((c, m) ∷ []) (to_each m gs))

-- A group message goes once to every entry of the group table, whatever its group, in the table's
-- order, and changes nothing else.
pub on_g_message-to_each :
    (gid : ℕ) (content : List ℕ) (s : Server)
    → on_g_message gid content s
      ≡ record s { sent = s.sent ++ to_each (g_message gid content) s.group_connections }
unfolding on_g_message
on_g_message-to_each gid content s =
    send_to_groups-to_each (g_message gid content) s.group_connections s

-- A member of another group gets the message too.
pub on_g_message_leaks :
    (gid other conn : ℕ) (content : List ℕ) (s : Server)
    → other ≢ gid
    → Mem (other, conn) s.group_connections
    → Mem (conn, g_message gid content) (on_g_message gid content s).sent
on_g_message_leaks gid other conn content s ne m =
    rw (on_g_message-to_each gid content s)
      (mem-append_right s.sent (mem-map_of_mem (λ e. (e.1, g_message gid content)) m))

-- What a private message makes the server send.
pub deliveries : Option (Option ℕ) → ℕ → ℕ → List ℕ → ℕ → List (ℕ × Message)
deliveries (some (some other)) uid peer content conn =
    (other, p_message uid peer content) ∷ (conn, success uid) ∷ []
deliveries (some none) uid peer content conn = []
deliveries none uid peer content conn = []

deliveries-or_default :
    (o : Option (Option ℕ)) (uid peer : ℕ) (content : List ℕ) (conn : ℕ)
    → deliveries (some (or_default none o)) uid peer content conn
      ≡ deliveries o uid peer content conn
unfolding deliveries
deliveries-or_default none uid peer content conn = refl
deliveries-or_default (some o) uid peer content conn = refl

module _ (r : Services) where
  open r use {Store, items, serialize, items-lpush}

  relay-sent :
      (o : Option ℕ) (uid peer : ℕ) (content : List ℕ) (conn : ℕ) (s : Server)
      → (relay r o uid peer content conn s).sent
        ≡ s.sent ++ deliveries (some o) uid peer content conn
  unfolding relay deliveries
  relay-sent none uid peer content conn s = sym (append-nil s.sent)
  relay-sent (some other) uid peer content conn s = append_assoc s.sent _ _

  relay_rest :
      (o : Option ℕ) (uid peer : ℕ) (content : List ℕ) (conn : ℕ) (s : Server)
      → ((relay r o uid peer content conn s).user_connections ≡ s.user_connections)
        × ((relay r o uid peer content conn s).group_connections ≡ s.group_connections)
        × ((relay r o uid peer content conn s).latest_record ≡ s.latest_record)
  unfolding relay
  relay_rest none uid peer content conn s = (refl, refl, refl)
  relay_rest (some other) uid peer content conn s = (refl, refl, refl)

  -- The entry that a read makes reads as the missing one did.
  found_again :
      (peer j : ℕ) (m : List (ℕ × Option ℕ))
      → or_default none (lookup j (put peer (or_default none (lookup peer m)) m))
        ≡ or_default none (lookup j m)
  found_again peer j m = ground (arith, lookup-put peer j (or_default none (lookup peer m)) m)

  -- What `onPMessage` does.
  pub record Relayed (uid peer : ℕ) (content : List ℕ) (conn : ℕ) (store store' : Store)
      (s s' : Server) : Type 0 where
    pub stored :
        (j : ℕ)
        → items store' j ≡ (
            if peer == j
            then serialize (p_message uid peer content) ∷ items store j
            else items store j)
    pub posted :
        s'.sent ≡ s.sent ++ deliveries (lookup peer s.user_connections) uid peer content conn
    pub users :
        (j : ℕ)
        → or_default none (lookup j s'.user_connections)
          ≡ or_default none (lookup j s.user_connections)
    pub rest : (s'.group_connections ≡ s.group_connections) × (s'.latest_record ≡ s.latest_record)

  -- A private message is always put in front of the peer's stored messages and nobody else's. A peer
  -- with a connection gets it, and the sender a success; a peer without one gets nothing, nor does the
  -- sender.
  pub on_p_message-Relayed :
      (uid peer : ℕ) (content : List ℕ) (conn : ℕ) (store : Store) (s : Server)
      → let (store', s') = on_p_message r uid peer content conn store s in
        Relayed uid peer content conn store store' s s'
  unfolding on_p_message
  on_p_message-Relayed uid peer content conn store s =
      let found = or_default none (lookup peer s.user_connections) in
      let s₁ : Server = record s { user_connections = put peer found s.user_connections } in
      let kept = relay_rest found uid peer content conn s₁ in
      record {
        stored = λ j. items-lpush peer j (serialize (p_message uid peer content)) store;
        posted =
            relay-sent found uid peer content conn s₁
            ∙ ap (λ xs. s.sent ++ xs)
                (deliveries-or_default (lookup peer s.user_connections) uid peer content conn);
        users = λ j.
            ap (λ m. or_default none (lookup j m)) kept.0 ∙ found_again peer j s.user_connections;
        rest = (kept.1, kept.2);
      }
