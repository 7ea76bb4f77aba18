-- ===== src/Hub/Publish.antt =====
-- hub.cc: what a publication and a subscription send.
use chat.Prelude.{
  ℕ, ◌<◌, ◌≡◌, refl, ap, ◌∙◌, arith, true, some, List, [], ◌∷◌, ◌++◌, ltb, if◌then◌else◌,
}
use chat.Prelude.Assoc.{lookup, put}
use chat.Hub.Maps.{eq_text_refl, get-put_topic}
use chat.Hub.Agree.{Named, audience}
use chat.Hub.{
  Text, Topic, Hub, get_topic, put_topic, insert_text, insert_conn, do_subscribe, do_publish,
  published, to_all, make_message,
}

-- Who subscribes to a topic that was published is sent its content.
pub subscribe_sent :
    (c : ℕ) (topic : Text) (subs : List Text) (s : Hub) (t : Topic)
    → lookup c s.contexts ≡ some subs
    → get_topic topic s.topics ≡ t
    → 0 < t.last_pub_time
    → (r : Hub) × (do_subscribe c topic s ≡ some r)
      × (r.sent ≡ s.sent ++ ((c, make_message t) ∷ []))
unfolding do_subscribe
subscribe_sent c topic subs s t k e h =
    let valid : ltb 0 t.last_pub_time ≡ true = ground arith in
    let u = get_topic topic s.topics in
    (
      record s {
        contexts = put c (insert_text topic subs) s.contexts;
        topics = put_topic topic (record u { audiences = insert_conn c u.audiences }) s.topics;
        sent = sent_by u;
      },
      rw k refl,
      ap sent_by e ∙ rw valid refl,
    )
  where
    sent_by : Topic → List (ℕ × Text)
    sent_by u = if ltb 0 u.last_pub_time then s.sent ++ ((c, make_message u) ∷ []) else s.sent

pub publish-topic :
    (topic content : Text) (time : ℕ) (s : Hub)
    → get_topic topic (do_publish topic content time s).topics
      ≡ published content time (get_topic topic s.topics)
unfolding do_publish
publish-topic topic content time s =
    get-put_topic topic topic (published content time (get_topic topic s.topics)) s.topics
    ∙ rw (eq_text_refl topic) refl

-- What a publication sends: "pub ", the topic and the content, each behind its line's end.
abbrev pub pub_message : (topic content : Text) → Text
pub_message topic content =
    112 ∷ (117 ∷ (98 ∷ (32 ∷ (topic ++ (13 ∷ (10 ∷ (content ++ (13 ∷ (10 ∷ [])))))))))

pub publish-sent :
    (topic content : Text) (time : ℕ) (s : Hub)
    → Named s
    → (do_publish topic content time s).sent
      ≡ s.sent ++ to_all (pub_message topic content) (audience topic s)
unfolding do_publish
publish-sent topic content time s n =
    ap (λ x. s.sent ++ to_all (pub_message x content) (audience topic s)) (n topic)
