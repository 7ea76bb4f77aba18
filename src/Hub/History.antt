-- ===== src/Hub/History.antt =====
-- hub.cc: a history of the hub, against what its events say of who hears what.
use chat.Prelude.{
  ℕ, ◌<◌, ◌≡◌, refl, sym, ap, subst, ◌∙◌, arith, Bool, true, false, ◌||◌, Option, some, List, [],
  ◌∷◌, ◌++◌, ◌==◌, if◌then◌else◌, Bool-cases, inl, inr, ==_iff, ◌>>=◌,
}
use chat.Prelude.Assoc.{lookup, lookup-put, put, or_default}
use chat.Hub.Maps.{has-erase_conn}
use chat.Hub.Agree.{Agree, Named, Framed, audience, subscriptions, subscriptions-put, put-others}
use chat.Hub.Steps.{publish-contexts, on_connection-Down}
use chat.Hub.{
  Text, has_text, has_conn, erase_conn, Hub, new, get_topic, do_subscribe, do_publish, published,
  on_connection, on_message, ParseResult, to_all,
}
use chat.Hub.Publish.{pub_message, subscribe_sent, publish-topic, publish-sent}
use chat.Hub.Commands.{hears_after, message-Obeyed}

-- What the network does to the hub: a connection comes up, goes down, or sends bytes, as the results of
-- parsing them.
pub data Event : Type 0 where
  up down : ℕ → Event
  message : (conn : ℕ) → List ParseResult → (time : ℕ) → Event

abbrev pub event : Event → Hub → Option Hub
event (up conn) s = on_connection conn true s
event (down conn) s = on_connection conn false s
event (message conn rs time) s = on_message conn rs time s

abbrev pub events : List Event → Hub → Option Hub
events [] s = some s
events (e ∷ es) s = event e s >>= events es

-- A connection comes up before it does anything, and does nothing after it went down, until it comes up
-- again; `live` are the connections that are up.
abbrev pub InOrder : (live : List ℕ) → List Event → Type 0
InOrder live [] = Unit
InOrder live (up conn ∷ es) = (has_conn conn live ≡ false) × InOrder (conn ∷ live) es
InOrder live (down conn ∷ es) = (has_conn conn live ≡ true) × InOrder (erase_conn conn live) es
InOrder live (message conn rs time ∷ es) = (has_conn conn live ≡ true) × InOrder live es

-- Whether a connection hears a topic after some events: by its own commands since it came up.
abbrev pub hears : ℕ → Text → List Event → Bool → Bool
hears c t [] b = b
hears c t (up conn ∷ es) b = hears c t es (if conn == c then false else b)
hears c t (down conn ∷ es) b = hears c t es (if conn == c then false else b)
hears c t (message conn rs time ∷ es) b = hears c t es (if conn == c then hears_after t rs b else b)

-- What holds of the hub between events, with the connections that are up.
pub record Inv (live : List ℕ) (s : Hub) : Type 0 where
  pub agree : Agree s
  pub named : Named s
  pub present :
      (c : ℕ) → has_conn c live ≡ true → (subs : List Text) × (lookup c s.contexts ≡ some subs)
  pub absent : (c : ℕ) (t : Text) → has_conn c live ≡ false → has_text t (subscriptions c s) ≡ false

same_subscriptions :
    (conn c : ℕ) (s r : Hub)
    → Framed conn s r
    → (conn == c) ≡ false
    → subscriptions c r ≡ subscriptions c s
same_subscriptions conn c s r f e = ap (or_default []) (f.others c e)

-- One event: the hub returns, its invariant is kept, and who hears what is as the events say.
record Stepped (live : List ℕ) (heard : ℕ → Text → Bool → Bool) (s r : Hub) : Type 0 where
  pub inv : Inv live r
  pub hearers :
      (c : ℕ) (t : Text)
      → has_text t (subscriptions c r) ≡ heard c t (has_text t (subscriptions c s))

up-Stepped :
    (conn : ℕ) (live : List ℕ) (s : Hub)
    → Inv live s
    → has_conn conn live ≡ false
    → (r : Hub) × (on_connection conn true s ≡ some r)
      × Stepped (conn ∷ live) (λ c t b. if conn == c then false else b) s r
unfolding on_connection has_conn has_text
up-Stepped conn live s v off = (
  record s { contexts = put conn [] s.contexts },
  refl,
  record {
    inv = record {
      agree = λ t c. v.agree t c ∙ still t c ∙ sym (now t c);
      named = v.named;
      present = λ c h. elim (Bool-cases (conn == c)) [
        | inl e ↦ ([], lookup-put conn c [] s.contexts ∙ rw e refl)
        | inr e ↦
            let other : (c == conn) ≡ false = ground arith in
            let was = v.present c (sym (rw other refl) ∙ h) in
            (was.0, put-others conn c [] s e ∙ was.1)
      ];
      absent = λ c t h. now t c ∙ elim (Bool-cases (conn == c)) [
        | inl e ↦ rw e refl
        | inr e ↦ rw e (v.absent c t (not_first c h))
      ];
    };
    hearers = λ c t. now t c ∙ pick (conn == c) (has_text t) (subscriptions c s) refl;
  },
)
  where
    now :
        (t : Text) (c : ℕ)
        → has_text t (or_default [] (lookup c (put conn [] s.contexts)))
          ≡ has_text t (if conn == c then [] else subscriptions c s)
    now t c = ap (has_text t) (subscriptions-put conn c [] s)

    still :
        (t : Text) (c : ℕ)
        → has_text t (subscriptions c s) ≡ has_text t (if conn == c then [] else subscriptions c s)
    still t c = elim (Bool-cases (conn == c)) [
      | inl e ↦ rw e (v.absent c t (subst (λ x. has_conn x live ≡ false) ((==_iff conn c).0 e) off))
      | inr e ↦ rw e refl
    ]

    pick :
        (b : Bool) (f : List Text → Bool) (l : List Text)
        → f [] ≡ false
        → f (if b then [] else l) ≡ (if b then false else f l)
    pick true f l e = e
    pick false f l e = refl

    not_first : (c : ℕ) → ((c == conn) || has_conn c live) ≡ false → has_conn c live ≡ false
    not_first c h = ground arith

down-Stepped :
    (conn : ℕ) (live : List ℕ) (s : Hub)
    → Inv live s
    → has_conn conn live ≡ true
    → (r : Hub) × (on_connection conn false s ≡ some r)
      × Stepped (erase_conn conn live) (λ c t b. if conn == c then false else b) s r
down-Stepped conn live s v on =
    let at = v.present conn on in
    let (r, runs, d) = on_connection-Down conn at.0 s v.agree at.1 in
    let hearers : (c : ℕ) (t : Text)
        → has_text t (subscriptions c r)
          ≡ (if conn == c then false else has_text t (subscriptions c s)) =
      λ c t. elim (Bool-cases (conn == c)) [
        | inl e ↦ rw e (
            subst (λ x. has_text t (subscriptions x r) ≡ false) ((==_iff conn c).0 e)
              (d.unsubscribed t))
        | inr e ↦ rw e (ap (has_text t) (same_subscriptions conn c s r d.framed e))
      ] in
    (
      r,
      runs,
      record {
        inv = record {
          agree = d.agree;
          named = d.framed.named v.named;
          present = λ c h. stays conn c live s r v d.framed h;
          absent = λ c t h. hearers c t ∙ gone conn c live s v t h;
        };
        hearers = hearers;
      },
    )
  where
    stays :
        (conn c : ℕ) (live : List ℕ) (s r : Hub)
        → Inv live s
        → Framed conn s r
        → has_conn c (erase_conn conn live) ≡ true
        → (subs : List Text) × (lookup c r.contexts ≡ some subs)
    stays conn c live s r v f h =
        let both = has-erase_conn c conn live in
        let other : (conn == c) ≡ false = ground (arith, both) in
        let was = v.present c (ground (arith, both)) in (was.0, f.others c other ∙ was.1)

    gone :
        (conn c : ℕ) (live : List ℕ) (s : Hub)
        → Inv live s
        → (t : Text) → has_conn c (erase_conn conn live) ≡ false
        → (if conn == c then false else has_text t (subscriptions c s)) ≡ false
    gone conn c live s v t h = elim (Bool-cases (conn == c)) [
      | inl e ↦ rw e refl
      | inr e ↦ let both = has-erase_conn c conn live in rw e (v.absent c t (ground (arith, both)))
    ]

message-Stepped :
    (conn : ℕ) (rs : List ParseResult) (time : ℕ) (live : List ℕ) (s : Hub)
    → Inv live s
    → has_conn conn live ≡ true
    → (r : Hub) × (on_message conn rs time s ≡ some r)
      × Stepped live (λ c t b. if conn == c then hears_after t rs b else b) s r
message-Stepped conn rs time live s v on =
    let at = v.present conn on in
    let (r, runs, o) = message-Obeyed conn rs time at.0 s v.agree at.1 in
    (
      r,
      runs,
      record {
        inv = record {
          agree = o.agree;
          named = o.framed.named v.named;
          present = λ c h. elim (Bool-cases (conn == c)) [
            | inl e ↦ (o.context, ap (λ x. lookup x r.contexts) (sym ((==_iff conn c).0 e)) ∙ o.at)
            | inr e ↦ let was = v.present c h in (was.0, o.framed.others c e ∙ was.1)
          ];
          absent = λ c t h. elim (Bool-cases (conn == c)) [
            | inl e ↦ absurd (ground (arith, ap (λ x. has_conn x live) ((==_iff conn c).0 e)))
            | inr e ↦ ap (has_text t) (same_subscriptions conn c s r o.framed e) ∙ v.absent c t h
          ];
        };
        hearers = λ c t. elim (Bool-cases (conn == c)) [
          | inl e ↦
              let same = (==_iff conn c).0 e in
              rw e (
                ap (λ x. has_text t (subscriptions x r)) (sym same)
                ∙ ap (λ m. has_text t (or_default [] m)) o.at
                ∙ o.heard t
                ∙ ap (λ m. hears_after t rs (has_text t (or_default [] m))) (sym at.1)
                ∙ ap (λ x. hears_after t rs (has_text t (subscriptions x s))) same)
          | inr e ↦ rw e (ap (has_text t) (same_subscriptions conn c s r o.framed e))
        ];
      },
    )

event-Stepped :
    (e : Event) (es : List Event) (live : List ℕ) (s : Hub)
    → Inv live s
    → InOrder live (e ∷ es)
    → (after : List ℕ) × (r : Hub) × (event e s ≡ some r)
      × Stepped after (λ c t b. hears c t (e ∷ []) b) s r
      × InOrder after es
event-Stepped (up conn) es live s v (off, rest) =
    let (r, runs, d) = up-Stepped conn live s v off in (conn ∷ live, r, runs, d, rest)
event-Stepped (down conn) es live s v (on, rest) =
    let (r, runs, d) = down-Stepped conn live s v on in (erase_conn conn live, r, runs, d, rest)
event-Stepped (message conn rs time) es live s v (on, rest) =
    let (r, runs, d) = message-Stepped conn rs time live s v on in (live, r, runs, d, rest)

hears_one :
    (e : Event) (es : List Event) (c : ℕ) (t : Text) (b : Bool)
    → hears c t (e ∷ es) b ≡ hears c t es (hears c t (e ∷ []) b)
hears_one (up conn) es c t b = refl
hears_one (down conn) es c t b = refl
hears_one (message conn rs time) es c t b = refl

-- The state after some events, against what the events say.
pub record Heard (es : List Event) (s r : Hub) : Type 0 where
  pub agree : Agree r
  pub named : Named r
  pub hearers :
      (c : ℕ) (t : Text)
      → has_text t (subscriptions c r) ≡ hears c t es (has_text t (subscriptions c s))

events-Heard :
    (es : List Event) (live : List ℕ) (s : Hub)
    → Inv live s
    → InOrder live es
    → (r : Hub) × (events es s ≡ some r) × Heard es s r
events-Heard [] live s v o =
    (s, refl, record { agree = v.agree; named = v.named; hearers = λ c t. refl })
events-Heard (e ∷ es) live s v o =
    let (after, p, first, d, rest) = event-Stepped e es live s v o in
    let (r, runs, h) = events-Heard es after p d.inv rest in
    (
      r,
      rw first runs,
      record {
        agree = h.agree;
        named = h.named;
        hearers = λ c t.
            h.hearers c t
            ∙ ap (hears c t es) (d.hearers c t)
            ∙ sym (hears_one e es c t (has_text t (subscriptions c s)));
      },
    )

new-Inv : Inv [] new
unfolding has_text has_conn get_topic lookup
new-Inv = record {
  agree = λ t c. refl;
  named = λ t. refl;
  present = λ c h. absurd (ground arith);
  absent = λ c t h. refl;
}

from_new :
    (es : List Event) (r : Hub)
    → Heard es new r
    → (c : ℕ) (t : Text) → has_text t (subscriptions c r) ≡ hears c t es false
unfolding has_text lookup
from_new es r h c t = h.hearers c t

-- In any history in which a connection comes up before it sends anything, and sends nothing after it
-- went down until it comes up again, the hub reads no context that is not there, and then a connection
-- is in a topic's audience, and has the topic among its subscriptions, exactly if its own commands
-- since it came up say so.
pub events-Agree :
    (es : List Event)
    → InOrder [] es
    → (r : Hub) × (events es new ≡ some r)
      × ((c : ℕ) (t : Text) → has_conn c (audience t r) ≡ hears c t es false)
      × ((c : ℕ) (t : Text) → has_text t (subscriptions c r) ≡ hears c t es false)
events-Agree es o =
    let (r, runs, h) = events-Heard es [] new new-Inv o in
    (r, runs, λ c t. h.agree t c ∙ from_new es r h c t, from_new es r h)

-- After any such history, a publication goes, as "pub " with the topic and the new content, to the
-- connections of a list whose members are exactly those that hear the topic by that history, and
-- nowhere else; a connection that is up and subscribes to the topic next is sent the same at once,
-- where the publication has a valid time.
pub do_publish-subscribers :
    (es : List Event) (topic content : Text) (time : ℕ)
    → InOrder [] es
    → 0 < time
    → (s : Hub) × (events es new ≡ some s)
      × (l : List ℕ) × ((do_publish topic content time s).sent
          ≡ s.sent ++ to_all (pub_message topic content) l)
      × ((c : ℕ) → has_conn c l ≡ hears c topic es false)
      × ((c : ℕ) (subs : List Text)
          → lookup c s.contexts ≡ some subs
          → (r : Hub) × (do_subscribe c topic (do_publish topic content time s) ≡ some r)
            × (r.sent
                ≡ (do_publish topic content time s).sent ++ ((c, pub_message topic content) ∷ [])))
do_publish-subscribers es topic content time o h =
    let (s, runs, d) = events-Heard es [] new new-Inv o in
    let t = published content time (get_topic topic s.topics) in
    (
      s,
      runs,
      audience topic s,
      publish-sent topic content time s d.named,
      λ c. d.agree topic c ∙ from_new es s d c topic,
      λ c subs k.
          let (r, runs', sent) =
            subscribe_sent c topic subs (do_publish topic content time s) t
              (ap (lookup c) (publish-contexts topic content time s) ∙ k)
              (publish-topic topic content time s) h in
          (
            r,
            runs',
            sent
                ∙ ap
                    (λ x.
                      (do_publish topic content time s).sent ++ ((c, pub_message x content) ∷ []))
                    (d.named topic),
          ),
    )
