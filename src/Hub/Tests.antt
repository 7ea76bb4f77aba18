-- ===== src/Hub/Tests.antt =====
-- A run of hub.cc, and its theorems at the state that it leads to.
use chat.Prelude.{ℕ, ◌≡◌, refl, arith, false, none, some, List, [], ◌∷◌, ◌++◌}
use chat.Prelude.Assoc.{lookup, put}
use chat.Hub.Agree.{audience, subscriptions}
use chat.Hub.Publish.{pub_message}
use chat.Hub.History.{
  Event, up, message, events, InOrder, hears, events-Agree, do_publish-subscribers,
}
use chat.Hub.{
  Text, has_text, insert_text, has_conn, insert_conn, Hub, new, get_topic, put_topic, do_subscribe,
  do_publish, on_connection, on_message, success, continue, subscribe, to_all,
}

abbrev news : Text
news = 110 ∷ (101 ∷ (119 ∷ (115 ∷ [])))

abbrev two_listeners : List Event
two_listeners =
    up 5
    ∷ (up 6
        ∷ (message 6 (success (subscribe news) ∷ (continue ∷ [])) 10
            ∷ (message 5 (success (subscribe news) ∷ []) 20 ∷ [])))

abbrev listening : Hub
listening = record {
  topics =
      (news, record { topic = news; content = []; last_pub_time = 0; audiences = 5 ∷ (6 ∷ []) })
      ∷ [];
  contexts = (5, news ∷ []) ∷ ((6, news ∷ []) ∷ []);
  sent = [];
  shut = [];
}

two_listeners_run : events two_listeners new ≡ some listening
unfolding on_connection on_message do_subscribe lookup put get_topic put_topic insert_text has_text
    insert_conn
two_listeners_run = refl

two_listeners-InOrder : InOrder [] two_listeners
unfolding has_conn
two_listeners-InOrder = (refl, (refl, (refl, (refl, tt))))

events-Agree_example :
    (r : Hub) × (events two_listeners new ≡ some r)
    × ((c : ℕ) (t : Text) → has_conn c (audience t r) ≡ hears c t two_listeners false)
    × ((c : ℕ) (t : Text) → has_text t (subscriptions c r) ≡ hears c t two_listeners false)
events-Agree_example = events-Agree two_listeners two_listeners-InOrder

-- A command before the connection is up reads a null pointer.
too_early : events (message 5 (success (subscribe news) ∷ []) 20 ∷ []) new ≡ none
unfolding on_message do_subscribe lookup
too_early = refl

abbrev hi : Text
hi = 104 ∷ (105 ∷ [])

do_publish-subscribers_example :
    (s : Hub) × (events two_listeners new ≡ some s)
    × (l : List ℕ) × ((do_publish news hi 30 s).sent ≡ s.sent ++ to_all (pub_message news hi) l)
    × ((c : ℕ) → has_conn c l ≡ hears c news two_listeners false)
    × ((c : ℕ) (subs : List Text)
        → lookup c s.contexts ≡ some subs
        → (r : Hub) × (do_subscribe c news (do_publish news hi 30 s) ≡ some r)
          × (r.sent ≡ (do_publish news hi 30 s).sent ++ ((c, pub_message news hi) ∷ [])))
do_publish-subscribers_example =
    do_publish-subscribers two_listeners news hi 30 two_listeners-InOrder (omega arith)
