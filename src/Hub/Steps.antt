-- ===== src/Hub/Steps.antt =====
-- hub.cc: every operation keeps the audiences and the subscriptions in agreement.
use chat.Prelude.{
  ℕ, ◌≡◌, refl, sym, ap, ◌∙◌, arith, Bool, true, false, not, ◌&&◌, ◌||◌, Option, some, List, [],
  ◌∷◌, ◌++◌, ltb, ◌==◌, if◌then◌else◌, Bool-cases, inl, inr,
}
use chat.Prelude.Assoc.{lookup, put, lookup-put, or_default}
use chat.Hub.Maps.{eq_text→≡, has-insert_text, has-erase_text, has-insert_conn, has-erase_conn}
use chat.Hub.Agree.{
  Framed, Framed-trans, Named-put_topic, put-others, Agree, audience, changed-Agree, audience-put,
  subscriptions, subscriptions-put,
}
use chat.Hub.{
  Text, eq_text, has_text, insert_text, erase_text, has_conn, insert_conn, erase_conn, Hub,
  get_topic, put_topic, do_subscribe, do_unsubscribe, do_publish, published, unsubscribe_all,
  on_connection, make_message,
}

-- A result that agrees, and in which a connection has the topic in its context, with the rest as it
-- was.
pub record Kept (conn : ℕ) (topic : Text) (subs : List Text) (s : Hub) (o : Option Hub)
    : Type 0 where
  pub result : Hub
  pub runs : o ≡ some result
  pub agree : Agree result
  pub context : List Text
  pub at : lookup conn result.contexts ≡ some context
  pub heard : (t : Text) → has_text t context ≡ (eq_text t topic || has_text t subs)
  pub framed : Framed conn s result

self_context :
    (conn : ℕ) (texts : List Text) (m : List (ℕ × List Text))
    → lookup conn (put conn texts m) ≡ some texts
self_context conn texts m =
    let self : (conn == conn) ≡ true = ground arith in lookup-put conn conn texts m ∙ rw self refl

pub subscribe-Kept :
    (conn : ℕ) (topic : Text) (subs : List Text) (s : Hub)
    → Agree s
    → lookup conn s.contexts ≡ some subs
    → Kept conn topic subs s (do_subscribe conn topic s)
unfolding do_subscribe
subscribe-Kept conn topic subs s v at =
    let t = get_topic topic s.topics in
    let aud = insert_conn conn t.audiences in
    let texts = insert_text topic subs in
    record {
      result = record s {
        contexts = put conn texts s.contexts;
        topics = put_topic topic (record t { audiences = aud }) s.topics;
        sent = if ltb 0 t.last_pub_time then s.sent ++ ((conn, make_message t) ∷ []) else s.sent;
      };
      runs = rw at refl;
      agree = λ u c.
          ap (has_conn c) (audience-put topic u (record t { audiences = aud }) s)
          ∙ changed-Agree (λ b x. b || x) true (λ x. refl) (λ x. refl) conn topic subs s at aud
              texts (λ d. has-insert_conn d conn t.audiences) (λ w. has-insert_text w topic subs) v
              u c
          ∙ sym (ap (has_text u) (subscriptions-put conn c texts s));
      context = texts;
      at = self_context conn texts s.contexts;
      heard = λ w. has-insert_text w topic subs;
      framed = record {
        others = λ c e. put-others conn c texts s e;
        named = λ n u. Named-put_topic topic (record t { audiences = aud }) s u (n topic) n;
      };
    }

pub unsubscribe-Kept :
    (conn : ℕ) (topic : Text) (subs : List Text) (s : Hub)
    → Agree s
    → lookup conn s.contexts ≡ some subs
    → (r : Hub) × (do_unsubscribe conn topic s ≡ some r)
      × Agree r
      × (lookup conn r.contexts ≡ some (erase_text topic subs))
      × Framed conn s r
unfolding do_unsubscribe
unsubscribe-Kept conn topic subs s v at =
    let t = get_topic topic s.topics in
    let aud = erase_conn conn t.audiences in
    let texts = erase_text topic subs in
    (
      record s {
        contexts = put conn texts s.contexts;
        topics = put_topic topic (record t { audiences = aud }) s.topics;
      },
      rw at refl,
      λ u c.
          ap (has_conn c) (audience-put topic u (record t { audiences = aud }) s)
          ∙ changed-Agree (λ b x. not b && x) false (λ x. refl) (λ x. refl) conn topic subs s at aud
              texts (λ d. has-erase_conn d conn t.audiences) (λ w. has-erase_text w topic subs) v u
              c
          ∙ sym (ap (has_text u) (subscriptions-put conn c texts s)),
      self_context conn texts s.contexts,
      record {
        others = λ c e. put-others conn c texts s e;
        named = λ n u. Named-put_topic topic (record t { audiences = aud }) s u (n topic) n;
      },
    )

publish-audience :
    (topic content : Text) (time : ℕ) (s : Hub) (t : Text)
    → audience t (do_publish topic content time s) ≡ audience t s
unfolding do_publish
publish-audience topic content time s t =
    audience-put topic t (published content time (get_topic topic s.topics)) s
    ∙ elim (Bool-cases (eq_text topic t)) [
      | inl e ↦ rw e (ap (λ x. audience x s) (eq_text→≡ topic t e))
      | inr e ↦ rw e refl
    ]

pub publish-contexts :
    (topic content : Text) (time : ℕ) (s : Hub)
    → (do_publish topic content time s).contexts ≡ s.contexts
unfolding do_publish
publish-contexts topic content time s = refl

pub publish-Agree :
    (topic content : Text) (time : ℕ) (s : Hub) → Agree s → Agree (do_publish topic content time s)
publish-Agree topic content time s v t c =
    ap (has_conn c) (publish-audience topic content time s t)
    ∙ v t c
    ∙ ap (λ m. has_text t (or_default [] (lookup c m)))
        (sym (publish-contexts topic content time s))

pub publish-Framed :
    (conn : ℕ) (topic content : Text) (time : ℕ) (s : Hub)
    → Framed conn s (do_publish topic content time s)
unfolding do_publish
publish-Framed conn topic content time s = record {
  others = λ c e. refl;
  named = λ n u.
      Named-put_topic topic (published content time (get_topic topic s.topics)) s u (n topic) n;
}

-- All topics of a list are left, and only these.
pub record Left (conn : ℕ) (l subs : List Text) (s : Hub) (o : Option Hub) : Type 0 where
  pub result : Hub
  pub runs : o ≡ some result
  pub agree : Agree result
  pub context : List Text
  pub at : lookup conn result.contexts ≡ some context
  pub left : (t : Text) → has_text t context ≡ (not (has_text t l) && has_text t subs)
  pub framed : Framed conn s result

pub unsubscribe_all-Left :
    (conn : ℕ) (l subs : List Text) (s : Hub)
    → Agree s
    → lookup conn s.contexts ≡ some subs
    → Left conn l subs s (unsubscribe_all conn l s)
unfolding unsubscribe_all has_text
unsubscribe_all-Left conn [] subs s v at = record {
  result = s;
  runs = refl;
  agree = v;
  context = subs;
  at = at;
  left = λ t. refl;
  framed = record { others = λ c e. refl; named = λ n. n };
}
unsubscribe_all-Left conn (t ∷ l) subs s v at =
    let (r, runs, agree, there, frame) = unsubscribe-Kept conn t subs s v at in
    let o = unsubscribe_all-Left conn l (erase_text t subs) r agree there in
    record {
      result = o.result;
      runs = rw runs o.runs;
      agree = o.agree;
      context = o.context;
      at = o.at;
      left = λ u.
          o.left u
          ∙ ap (λ x. not (has_text u l) && x) (has-erase_text u t subs)
          ∙ neither (has_text u l) (eq_text u t) (has_text u subs);
      framed = Framed-trans conn s r o.result frame o.framed;
    }
  where
    neither : (a b c : Bool) → (not a && (not b && c)) ≡ (not (b || a) && c)
    neither true true c = refl
    neither true false c = refl
    neither false true c = refl
    neither false false c = refl

-- A connection goes down: the server returns, the audiences and the subscriptions agree, and the
-- connection is in no audience and has no subscription any more, so that nothing is sent to it.
pub record Down (conn : ℕ) (s r : Hub) : Type 0 where
  pub agree : Agree r
  pub unheard : (t : Text) → has_conn conn (audience t r) ≡ false
  pub unsubscribed : (t : Text) → has_text t (subscriptions conn r) ≡ false
  pub framed : Framed conn s r

pub on_connection-Down :
    (conn : ℕ) (subs : List Text) (s : Hub)
    → Agree s
    → lookup conn s.contexts ≡ some subs
    → (r : Hub) × (on_connection conn false s ≡ some r) × Down conn s r
unfolding on_connection
on_connection-Down conn subs s v at =
    let o = unsubscribe_all-Left conn subs subs s v at in
    let none_left : (t : Text) → has_text t (subscriptions conn o.result) ≡ false =
      λ t. ap (λ m. has_text t (or_default [] m)) o.at ∙ o.left t ∙ nothing (has_text t subs) in
    (
      o.result,
      rw at o.runs,
      record {
        agree = o.agree;
        unheard = λ t. o.agree t conn ∙ none_left t;
        unsubscribed = none_left;
        framed = o.framed;
      },
    )
  where
    nothing : (a : Bool) → (not a && a) ≡ false
    nothing true = refl
    nothing false = refl
