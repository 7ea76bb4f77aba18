-- ===== src/ChatServer/History.antt =====
-- server_threaded.cc: the stored messages that a login sends.
use chat.Prelude.{
  ℕ, suc, ◌-◌, ◌≤◌, ◌≡◌, ◌≢◌, refl, ap, ◌∙◌, true, ◌⊎◌, inl, inr, Bool-cases, some, List, [], ◌∷◌,
  ◌++◌, map, arith, ◌==◌, if◌then◌else◌, length, drop, leb, length-drop, drop_append_ge, take_all,
}
use chat.Prelude.Assoc.{lookup, put, lookup-put, or_default}
use chat.ChatServer.{Services, Server, post_all, latest, same_text, replay, on_login, on_quit}

same_text_refl : (x : List ℕ) → same_text x x ≡ true
unfolding same_text
same_text_refl [] = refl
same_text_refl (c ∷ x) = ground (arith, same_text_refl x)

same_text_equal : (x y : List ℕ) → same_text x y ≡ true → x ≡ y
unfolding same_text
same_text_equal [] [] h = refl
same_text_equal [] (d ∷ y) h = ground arith
same_text_equal (c ∷ x) [] h = ground arith
same_text_equal (c ∷ x) (d ∷ y) h = grind (arith, same_text_equal x y)

module _ (r : Services) where
  open r use {Store, items, llen, lrange, parse, items-lpush, llen_lem, lrange_lem}

  pub latest-put :
      (uid k n : ℕ) (s : Server)
      → latest k (record s { latest_record = put uid n s.latest_record })
        ≡ (if uid == k then n else latest k s)
  unfolding latest
  latest-put uid k n s = ground (arith, lookup-put uid k n s.latest_record)

  leb_same : (n : ℕ) → leb n n ≡ true
  leb_same n = ground arith

  -- The loop over the reply of LRANGE stays inside it and reads all of it.
  pub replay_lem :
      (uid conn : ℕ) (store : Store) (s : Server)
      → replay r uid conn store s
        ≡ some (record (post_all conn (map parse (drop (latest uid s) (items store uid))) s) {
          latest_record = put uid (latest uid s) s.latest_record;
          freed_twice = suc s.freed_twice;
          user_connections = put uid (some conn) s.user_connections;
        })
  unfolding replay
  replay_lem uid conn store s =
      rw
        (
          lrange_lem uid (latest uid s) store,
          llen_lem uid store,
          length-drop (latest uid s) (items store uid),
          leb_same (length (items store uid) - latest uid s),
          take_all (length (items store uid) - latest uid s) (drop (latest uid s) (items store uid))
              (omega (arith, length-drop (latest uid s) (items store uid))),
        )
        refl

  -- What the server is after a login with the right password.
  abbrev pub welcomed : ℕ → ℕ → Store → Server → Server
  welcomed uid conn store s =
      record (post_all conn (map parse (drop (latest uid s) (items store uid))) s) {
        latest_record = put uid (latest uid s) s.latest_record;
        freed_twice = suc s.freed_twice;
        user_connections = put uid (some conn) s.user_connections;
      }

  on_login-right :
      (uid conn : ℕ) (passwd : List ℕ) (store : Store) (s : Server)
      → on_login r (some passwd) uid passwd conn store s ≡ some (welcomed uid conn store s)
  unfolding on_login
  on_login-right uid conn passwd store s = rw (same_text_refl passwd) (replay_lem uid conn store s)

  -- A login of a known user. The right password sends the connection the stored messages from the
  -- recorded index on, frees one reply of redis twice, and registers the connection if the program
  -- goes on behind that. A wrong one changes nothing and sends nothing, not even an error message.
  pub on_login-welcomed :
      (pwd passwd : List ℕ) (uid conn : ℕ) (store : Store) (s : Server)
      → ((pwd ≡ passwd)
          × (on_login r (some pwd) uid passwd conn store s ≡ some (welcomed uid conn store s)))
        ⊎ ((pwd ≢ passwd) × (on_login r (some pwd) uid passwd conn store s ≡ some s))
  unfolding on_login
  on_login-welcomed pwd passwd uid conn store s = elim (Bool-cases (same_text pwd passwd)) [
    | inl t ↦ inl (same_text_equal pwd passwd t, rw t (replay_lem uid conn store s))
    | inr f ↦ inr (λ e. ground (arith, f, ap (same_text pwd) e, same_text_refl pwd), rw f refl)
  ]

  pub quit-latest :
      (uid : ℕ) (store : Store) (s : Server)
      → latest uid (on_quit r uid store s) ≡ length (items store uid)
  unfolding on_quit
  quit-latest uid store s =
      ground (arith, latest-put uid uid (llen uid store) s, llen_lem uid store)

  -- A user who quits, gets some new messages and no more than there were before, and logs in again
  -- at an index that did not change since, is sent none of the new messages but the oldest ones again,
  -- one for each new message.
  pub login_resends :
      (uid conn : ℕ) (passwd : List ℕ) (store store' : Store) (s s' : Server) (news : List (List ℕ))
      → s'.latest_record ≡ (on_quit r uid store s).latest_record
      → items store' uid ≡ news ++ items store uid
      → length news ≤ length (items store uid)
      → (s'' : Server) × (on_login r (some passwd) uid passwd conn store' s' ≡ some s'')
        × (s''.sent
            ≡ s'.sent
              ++ map
                  (λ m. (conn, m))
                  (map parse (drop (length (items store uid) - length news) (items store uid))))
  unfolding latest
  login_resends uid conn passwd store store' s s' news rec its le =
      let index = ap (λ m. or_default 0 (lookup uid m)) rec ∙ quit-latest uid store s in
      let stored = items store uid in
      (
        welcomed uid conn store' s',
        on_login-right uid conn passwd store' s',
        rw (index, its, drop_append_ge (length stored) news stored le) refl,
      )
