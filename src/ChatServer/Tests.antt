-- ===== src/ChatServer/Tests.antt =====
-- server_threaded.cc: a store as a function, a plain encoding, and small runs.
use chat.Prelude.{
  ℕ, zero, suc, ◌≡◌, ◌≢◌, ◌⊎◌, refl, some, List, [], ◌∷◌, ◌++◌, arith, ◌==◌, if◌then◌else◌, length,
  drop,
}
use chat.Prelude.Assoc.{lookup}
use chat.ChatServer.{
  Message, p_message, g_message, success, Services, Server, latest, on_sign_up, on_login, on_quit,
  on_p_message, on_g_message,
}
use chat.ChatServer.Messages.{to_each, on_g_message-to_each, on_p_message-Relayed, Relayed}
use chat.ChatServer.History.{login_resends, on_login-welcomed, welcomed}
use chat.ChatServer.Indices.{Request, signs_up, quits, says, serve, handle, serve-InStep, InStep}

abbrev Shelf : Type 0
Shelf = ℕ → List (List ℕ)

abbrev push : ℕ → List ℕ → Shelf → Shelf
push k x s j = if k == j then x ∷ s j else s j

abbrev encode : Message → List ℕ
encode (p_message uid peer content) = 0 ∷ uid ∷ peer ∷ content
encode (g_message gid content) = 1 ∷ gid ∷ content
encode (success uid) = 2 ∷ uid ∷ []

abbrev decode : List ℕ → Message
decode (zero ∷ uid ∷ peer ∷ content) = p_message uid peer content
decode (suc zero ∷ gid ∷ content) = g_message gid content
decode (suc (suc zero) ∷ uid ∷ rest) = success uid
decode bytes = success 0

decode-encode : (m : Message) → decode (encode m) ≡ m
decode-encode (p_message uid peer content) = refl
decode-encode (g_message gid content) = refl
decode-encode (success uid) = refl

abbrev services : Services
services = record {
  Store = Shelf;
  items = λ s j. s j;
  lpush = push;
  llen = λ k s. length (s k);
  lrange = λ k i s. drop i (s k);
  serialize = encode;
  parse = decode;
  insert = λ e l. e ∷ l;
  items-lpush = λ k j x s. refl;
  llen_lem = λ k s. refl;
  lrange_lem = λ k i s. refl;
  parse-serialize = decode-encode;
}

abbrev fresh : Server
fresh = record {
  user_connections = [];
  group_connections = [];
  latest_record = [];
  sent = [];
  freed_twice = 0;
}

abbrev two_groups : Server
two_groups = record fresh { group_connections = (2, 20) ∷ (1, 10) ∷ [] }

on_g_message-to_each_example :
    on_g_message 1 (65 ∷ []) two_groups
    ≡ record two_groups { sent = [] ++ to_each (g_message 1 (65 ∷ [])) ((2, 20) ∷ (1, 10) ∷ []) }
on_g_message-to_each_example = on_g_message-to_each 1 (65 ∷ []) two_groups

abbrev one_user : Server
one_user = record fresh { user_connections = (7, some 70) ∷ []; latest_record = (7, 0) ∷ [] }

abbrev shelf : Shelf
shelf j = if 7 == j then (0 ∷ 8 ∷ 7 ∷ 72 ∷ []) ∷ [] else []

on_p_message-Relayed_example :
    let (store', s') = on_p_message services 8 7 (73 ∷ []) 80 shelf one_user in
    Relayed services 8 7 (73 ∷ []) 80 shelf store' one_user s'
on_p_message-Relayed_example = on_p_message-Relayed services 8 7 (73 ∷ []) 80 shelf one_user

-- One message was there when the user quit, and a new one came since: the old one is sent again.
login_resends_example :
    (s'' : Server) × (on_login services
        (some (1 ∷ []))
        7
        (1 ∷ [])
        71
        (push 7 (0 ∷ 8 ∷ 7 ∷ 73 ∷ []) shelf)
        (on_quit services 7 shelf one_user)
      ≡ some s'')
    × (s''.sent ≡ (71, p_message 8 7 (72 ∷ [])) ∷ [])
unfolding on_quit
login_resends_example =
    login_resends services 7 71 (1 ∷ []) shelf (push 7 (0 ∷ 8 ∷ 7 ∷ 73 ∷ []) shelf) one_user
      (on_quit services 7 shelf one_user) ((0 ∷ 8 ∷ 7 ∷ 73 ∷ []) ∷ []) refl refl (omega arith)

on_login-welcomed_example :
    ((◌≡◌ {A = List ℕ} (1 ∷ []) (1 ∷ []))
      × (on_login services (some (1 ∷ [])) 7 (1 ∷ []) 71 shelf one_user
          ≡ some (welcomed services 7 71 shelf one_user)))
    ⊎ ((◌≢◌ {A = List ℕ} (1 ∷ []) (1 ∷ []))
        × (on_login services (some (1 ∷ [])) 7 (1 ∷ []) 71 shelf one_user ≡ some one_user))
on_login-welcomed_example = on_login-welcomed services (1 ∷ []) (1 ∷ []) 7 71 shelf one_user

abbrev requests : List Request
requests = signs_up (some 7) 70 ∷ says 8 7 (72 ∷ []) 80 ∷ quits 7 ∷ []

start_InStep : InStep services (λ j. []) fresh
unfolding InStep latest lookup
start_InStep uid = omega arith

served : (t : Shelf × Server) × (serve services requests (λ j. []) fresh ≡ some t)
unfolding serve handle on_sign_up
served = (_, refl)

serve-InStep_example : InStep services served.0.0 served.0.1
serve-InStep_example =
    serve-InStep services requests (λ j. []) served.0.0 fresh served.0.1 start_InStep served.1
