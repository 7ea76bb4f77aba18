-- ===== src/ChatServer/Indices.antt =====
-- server_threaded.cc: the index of each user into the stored messages, over any requests.
use chat.Prelude.{
  Every, Every-bind, ℕ, ◌≤◌, ◌≡◌, ap, subst, inl, inr, Bool-cases, Option, none, some, List, [],
  ◌∷◌, arith, length, ◌>>=◌,
}
use chat.Prelude.Assoc.{lookup, lookup-put, lookup-put_new, or_default}
use chat.ChatServer.{
  Services, Server, latest, on_sign_up, on_create_group, on_add_group, on_g_message, same_text,
  on_login, on_quit, on_p_message,
}
use chat.ChatServer.Messages.{on_p_message-Relayed, on_g_message-to_each}
use chat.ChatServer.History.{latest-put, replay_lem, welcomed}

pub data Request : Type 0 where
  signs_up : Option ℕ → ℕ → Request
  logs_in : Option (List ℕ) → ℕ → List ℕ → ℕ → Request
  quits : ℕ → Request
  says : ℕ → ℕ → List ℕ → ℕ → Request
  tells : ℕ → List ℕ → Request
  creates : ℕ → ℕ → Request
  joins : ℕ → ℕ → Request

module _ (r : Services) where
  open r use {Store, items, llen, lrange, parse, items-lpush, llen_lem, lrange_lem}

  -- One message of a client, handled.
  unfoldable pub handle : Request → Store → Server → Option (Store × Server)
  handle (signs_up row conn) store s = on_sign_up row conn s >>= λ s'. some (store, s')
  handle (logs_in row uid passwd conn) store s =
      on_login r row uid passwd conn store s >>= λ s'. some (store, s')
  handle (quits uid) store s = some (store, on_quit r uid store s)
  handle (says uid peer content conn) store s = some (on_p_message r uid peer content conn store s)
  handle (tells gid content) store s = some (store, on_g_message gid content s)
  handle (creates gid conn) store s = some (store, on_create_group r gid conn s)
  handle (joins gid conn) store s = some (store, on_add_group r gid conn s)

  -- No index that the server keeps is past the end of the stored messages.
  unfoldable pub InStep : Store → Server → Type 0
  InStep store s = (uid : ℕ) → latest uid s ≤ length (items store uid)

  same_latest :
      (store : Store) (s s' : Server)
      → s'.latest_record ≡ s.latest_record
      → InStep store s
      → InStep store s'
  unfolding InStep latest
  same_latest store s s' e h uid = rw (ap (λ m. or_default 0 (lookup uid m)) e) (h uid)

  abbrev Both : Store × Server → Type 0
  Both t = InStep t.0 t.1

  sign_up-InStep :
      (row : Option ℕ) (conn : ℕ) (store : Store) (s : Server)
      → InStep store s
      → Every (InStep store) (on_sign_up row conn s)
  unfolding on_sign_up InStep latest
  sign_up-InStep none conn store s h = tt
  sign_up-InStep (some id) conn store s h =
      λ uid. ground (arith, lookup-put_new id uid 0 s.latest_record, h uid)

  welcomed-InStep :
      (uid conn : ℕ) (store : Store) (s : Server)
      → InStep store s
      → InStep store (welcomed r uid conn store s)
  unfolding InStep latest
  welcomed-InStep uid conn store s h k =
      ground (arith, lookup-put uid k (latest uid s) s.latest_record, h uid, h k)

  login-InStep :
      (row : Option (List ℕ)) (uid : ℕ) (passwd : List ℕ) (conn : ℕ) (store : Store) (s : Server)
      → InStep store s
      → Every (InStep store) (on_login r row uid passwd conn store s)
  unfolding on_login
  login-InStep none uid passwd conn store s h = tt
  login-InStep (some pwd) uid passwd conn store s h = elim (Bool-cases (same_text pwd passwd)) [
    | inl t ↦ rw (t, replay_lem r uid conn store s) (welcomed-InStep uid conn store s h)
    | inr f ↦ rw f h
  ]

  quit-InStep :
      (uid : ℕ) (store : Store) (s : Server) → InStep store s → InStep store (on_quit r uid store s)
  unfolding InStep on_quit
  quit-InStep uid store s h k =
      ground (arith, latest-put r uid k (llen uid store) s, llen_lem uid store, h k)

  says-InStep :
      (uid peer : ℕ) (content : List ℕ) (conn : ℕ) (store : Store) (s : Server)
      → InStep store s
      → let (store', s') = on_p_message r uid peer content conn store s in InStep store' s'
  unfolding InStep latest
  says-InStep uid peer content conn store s h k =
      let done = on_p_message-Relayed r uid peer content conn store s in
      let same = ap (λ m. or_default 0 (lookup k m)) done.rest.1 in
      rw (same, done.stored k) (ground (arith, h k))

  step-InStep :
      (q : Request) (store : Store) (s : Server) → InStep store s → Every Both (handle q store s)
  unfolding handle on_create_group on_add_group InStep latest
  step-InStep (signs_up row conn) store s h =
      Every-bind (InStep store) Both _ (λ s'. some (store, s')) (λ s' k. k)
        (sign_up-InStep row conn store s h)
  step-InStep (logs_in row uid passwd conn) store s h =
      Every-bind (InStep store) Both _ (λ s'. some (store, s')) (λ s' k. k)
        (login-InStep row uid passwd conn store s h)
  step-InStep (quits uid) store s h = quit-InStep uid store s h
  step-InStep (says uid peer content conn) store s h = says-InStep uid peer content conn store s h
  step-InStep (tells gid content) store s h = rw (on_g_message-to_each gid content s) h
  step-InStep (creates gid conn) store s h = h
  step-InStep (joins gid conn) store s h = h

  -- Requests handled one after another.
  unfoldable pub serve : List Request → Store → Server → Option (Store × Server)
  serve [] store s = some (store, s)
  serve (q ∷ qs) store s = handle q store s >>= λ t. serve qs t.0 t.1

  serve-Every :
      (qs : List Request) (store : Store) (s : Server)
      → InStep store s
      → Every Both (serve qs store s)
  unfolding serve
  serve-Every [] store s h = h
  serve-Every (q ∷ qs) store s h =
      Every-bind Both Both (handle q store s) (λ t. serve qs t.0 t.1)
        (λ t k. serve-Every qs t.0 t.1 k) (step-InStep q store s h)

  -- No sequence of requests leaves a user's index past the end of the user's stored messages.
  pub serve-InStep :
      (qs : List Request) (store store' : Store) (s s' : Server)
      → InStep store s
      → serve qs store s ≡ some (store', s')
      → InStep store' s'
  serve-InStep qs store store' s s' h e = subst (Every Both) e (serve-Every qs store s h)
