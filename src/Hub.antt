-- ===== src/Hub.antt =====
-- excercises/hub/hub.cc: the publish-subscribe server. A connection is a number, a text is its bytes; a
-- connection's context is its set of topics. What `parseMessage` makes of the bytes is an argument.
-- `none` is a read through a null pointer, the context of a connection that has none.
pub mod Maps
pub mod Agree
pub mod Steps
pub mod Publish
pub mod Commands
pub mod History
mod Tests
use chat.Prelude.{
  ℕ, Bool, true, false, not, ◌&&◌, ◌||◌, Option, none, some, List, [], ◌∷◌, ◌++◌, map, ltb, ◌==◌,
  if◌then◌else◌, ◌>>=◌,
}
use chat.Prelude.Assoc.{lookup, put}

abbrev pub Text : Type 0
Text = List ℕ

abbrev pub eq_text : Text → Text → Bool
eq_text [] [] = true
eq_text (x ∷ a) (y ∷ b) = x == y && eq_text a b
eq_text _ _ = false

-- `std::set` of texts, in no order that the code depends on.
unfoldable pub has_text : Text → List Text → Bool
has_text t [] = false
has_text t (u ∷ l) = eq_text t u || has_text t l

unfoldable pub insert_text : Text → List Text → List Text
insert_text t l = if has_text t l then l else t ∷ l

unfoldable pub erase_text : Text → List Text → List Text
erase_text t [] = []
erase_text t (u ∷ l) = if eq_text t u then erase_text t l else u ∷ erase_text t l

-- `std::set` of connections, in the order of their addresses.
unfoldable pub has_conn : ℕ → List ℕ → Bool
has_conn c [] = false
has_conn c (d ∷ l) = (c == d) || has_conn c l

unfoldable pub insert_conn : ℕ → List ℕ → List ℕ
insert_conn c [] = c ∷ []
insert_conn c (d ∷ l) =
    if ltb c d then c ∷ (d ∷ l) else (if c == d then d ∷ l else d ∷ insert_conn c l)

unfoldable pub erase_conn : ℕ → List ℕ → List ℕ
erase_conn c [] = []
erase_conn c (d ∷ l) = if c == d then erase_conn c l else d ∷ erase_conn c l

pub record Topic : Type 0 where
  pub topic : Text
  pub content : Text
  pub last_pub_time : ℕ  -- 0 is invalid
  pub audiences : List ℕ

pub record Hub : Type 0 where
  pub topics : List (Text × Topic)
  pub contexts : List (ℕ × List Text)
  pub sent : List (ℕ × Text)  -- the messages sent, in order
  pub shut : List ℕ  -- the connections that were shut down

abbrev pub new : Hub
new = record { topics = []; contexts = []; sent = []; shut = [] }

abbrev pub new_topic : Text → Topic
new_topic name = record { topic = name; content = []; last_pub_time = 0; audiences = [] }

-- `getTopic`, which makes a topic that is not there.
unfoldable pub get_topic : Text → List (Text × Topic) → Topic
get_topic name [] = new_topic name
get_topic name ((n, t) ∷ ts) = if eq_text n name then t else get_topic name ts

-- The topics with one that has changed.
unfoldable pub put_topic : Text → Topic → List (Text × Topic) → List (Text × Topic)
put_topic name t [] = (name, t) ∷ []
put_topic name t ((n, u) ∷ ts) =
    if eq_text n name then (n, t) ∷ ts else (n, u) ∷ put_topic name t ts

abbrev pub crlf : Text
crlf = 13 ∷ (10 ∷ [])

-- "pub ", the topic, the content.
abbrev pub make_message : Topic → Text
make_message t = (112 ∷ (117 ∷ (98 ∷ (32 ∷ [])))) ++ (t.topic ++ (crlf ++ (t.content ++ crlf)))

unfoldable pub do_subscribe : ℕ → Text → Hub → Option Hub
do_subscribe conn topic s = do
  subs ← lookup conn s.contexts
  let t = get_topic topic s.topics
  some (record s {
    contexts = put conn (insert_text topic subs) s.contexts;
    topics = put_topic topic (record t { audiences = insert_conn conn t.audiences }) s.topics;
    sent = if ltb 0 t.last_pub_time then s.sent ++ ((conn, make_message t) ∷ []) else s.sent;
  })

unfoldable pub do_unsubscribe : ℕ → Text → Hub → Option Hub
do_unsubscribe conn topic s = do
  subs ← lookup conn s.contexts
  let t = get_topic topic s.topics
  some (record s {
    contexts = put conn (erase_text topic subs) s.contexts;
    topics = put_topic topic (record t { audiences = erase_conn conn t.audiences }) s.topics;
  })

abbrev pub published : Text → ℕ → Topic → Topic
published content time t = record t { content = content; last_pub_time = time }

abbrev pub to_all : Text → List ℕ → List (ℕ × Text)
to_all message [] = []
to_all message (c ∷ l) = (c, message) ∷ to_all message l

unfoldable pub do_publish : (topic content : Text) → ℕ → Hub → Hub
do_publish topic content time s =
    let t = published content time (get_topic topic s.topics) in
    record s {
      topics = put_topic topic t s.topics;
      sent = s.sent ++ to_all (make_message t) t.audiences;
    }

unfoldable pub unsubscribe_all : ℕ → List Text → Hub → Option Hub
unsubscribe_all conn [] s = some s
unsubscribe_all conn (t ∷ l) s = do_unsubscribe conn t s >>= unsubscribe_all conn l

unfoldable pub on_connection : ℕ → Bool → Hub → Option Hub
on_connection conn true s = some (record s { contexts = put conn [] s.contexts })
on_connection conn false s = lookup conn s.contexts >>= λ subs. unsubscribe_all conn subs s

-- The command of a message: "pub" has a content.
pub data Command : Type 0 where
  publish : (topic content : Text) → Command
  subscribe unsubscribe : Text → Command
  unknown : Command

pub data ParseResult : Type 0 where
  error continue : ParseResult
  success : Command → ParseResult

-- The loop of `onMessage`, over the results of `parseMessage` in order.
unfoldable pub on_message : ℕ → List ParseResult → ℕ → Hub → Option Hub
on_message conn [] time s = some s
on_message conn (error ∷ rs) time s = some (record s { shut = conn ∷ s.shut })
on_message conn (continue ∷ rs) time s = some s
on_message conn (success (publish topic content) ∷ rs) time s =
    on_message conn rs time (do_publish topic content time s)
on_message conn (success (subscribe topic) ∷ rs) time s =
    do_subscribe conn topic s >>= on_message conn rs time
on_message conn (success (unsubscribe topic) ∷ rs) time s =
    do_unsubscribe conn topic s >>= on_message conn rs time
on_message conn (success unknown ∷ rs) time s = some (record s { shut = conn ∷ s.shut })
