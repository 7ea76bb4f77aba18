-- ===== src/Hub/Agree.antt =====
-- hub.cc: a topic's audience and the connections' subscriptions say the same.
use chat.Prelude.{
  ℕ, ◌≡◌, refl, sym, ap, ◌∙◌, arith, Bool, true, false, some, List, [], ◌==◌, if◌then◌else◌,
  Bool-cases, inl, inr, ==_iff,
}
use chat.Prelude.Assoc.{lookup, put, lookup-put, or_default}
use chat.Hub.Maps.{eq_text→≡, eq_text_sym, get-put_topic}
use chat.Hub.{Text, eq_text, has_text, has_conn, Topic, Hub, get_topic, put_topic}

abbrev pub audience : Text → Hub → List ℕ
audience t s = (get_topic t s.topics).audiences

abbrev pub subscriptions : ℕ → Hub → List Text
subscriptions c s = or_default [] (lookup c s.contexts)

abbrev pub Agree : Hub → Type 0
Agree s = (t : Text) (c : ℕ) → has_conn c (audience t s) ≡ has_text t (subscriptions c s)

-- Every topic stands under its own name.
abbrev pub Named : Hub → Type 0
Named s = (t : Text) → (get_topic t s.topics).topic ≡ t

pub Named-put_topic :
    (m : Text) (u : Topic) (s : Hub) (t : Text)
    → u.topic ≡ m
    → Named s
    → (get_topic t (put_topic m u s.topics)).topic ≡ t
Named-put_topic m u s t e v =
    ap (λ x. x.topic) (get-put_topic m t u s.topics)
    ∙ elim (Bool-cases (eq_text m t)) [ inl f ↦ rw f (e ∙ eq_text→≡ m t f) | inr f ↦ rw f (v t) ]

-- An operation for `conn` leaves the contexts of the others, and the topics under their names.
pub record Framed (conn : ℕ) (s r : Hub) : Type 0 where
  pub others : (c : ℕ) → (conn == c) ≡ false → lookup c r.contexts ≡ lookup c s.contexts
  pub named : Named s → Named r

pub Framed-trans : (conn : ℕ) (s p r : Hub) → Framed conn s p → Framed conn p r → Framed conn s r
Framed-trans conn s p r v w = record {
  others = λ c e. w.others c e ∙ v.others c e;
  named = λ n. w.named (v.named n);
}

pub put-others :
    (conn c : ℕ) (texts : List Text) (s : Hub)
    → (conn == c) ≡ false
    → lookup c (put conn texts s.contexts) ≡ lookup c s.contexts
put-others conn c texts s e = lookup-put conn c texts s.contexts ∙ rw e refl

-- A change of one connection's part in one topic: `change b x` is what becomes of membership `x`,
-- where `b` says whether it is the one.
module _ (change : Bool → Bool → Bool) (outcome : Bool) (hit : (x : Bool) → change true x ≡ outcome)
    (miss : (x : Bool) → change false x ≡ x) (conn : ℕ) (topic : Text) (subs : List Text) (s : Hub)
    (at : lookup conn s.contexts ≡ some subs) (aud : List ℕ) (texts : List Text)
    (new_aud : (c : ℕ) → has_conn c aud ≡ change (c == conn) (has_conn c (audience topic s)))
    (new_texts : (t : Text) → has_text t texts ≡ change (eq_text t topic) (has_text t subs))
    (v : Agree s) where
  after_aud : Text → List ℕ
  after_aud t = if eq_text topic t then aud else audience t s

  after_texts : ℕ → List Text
  after_texts c = if conn == c then texts else subscriptions c s

  pub changed-Agree :
      (t : Text) (c : ℕ)
      → has_conn c (if eq_text topic t then aud else audience t s)
        ≡ has_text t (if conn == c then texts else subscriptions c s)
  changed-Agree t c = elim (Bool-cases (eq_text topic t)) [
    | inl e ↦ elim (Bool-cases (conn == c)) [
      | inl f ↦
          let same_conn : (c == conn) ≡ true = ground arith in
          let same_topic : eq_text t topic ≡ true = eq_text_sym t topic ∙ e in
          rw (e, f, new_aud c, same_conn, new_texts t, same_topic)
            (hit (has_conn c (audience topic s)) ∙ sym (hit (has_text t subs)))
      | inr f ↦
          let other_conn : (c == conn) ≡ false = ground arith in
          rw (e, f, new_aud c, other_conn, miss (has_conn c (audience topic s)))
            (v topic c ∙ ap (λ x. has_text x (subscriptions c s)) (eq_text→≡ topic t e))
    ]
    | inr e ↦ elim (Bool-cases (conn == c)) [
      | inl f ↦
          let other_topic : eq_text t topic ≡ false = eq_text_sym t topic ∙ e in
          let mine : subscriptions c s ≡ subs =
            ap (λ x. subscriptions x s) (sym ((==_iff conn c).0 f)) ∙ ap (or_default []) at in
          rw (e, f, new_texts t, other_topic, miss (has_text t subs)) (v t c ∙ ap (has_text t) mine)
      | inr f ↦ rw (e, f) (v t c)
    ]
  ]

pub audience-put :
    (topic t : Text) (u : Topic) (s : Hub)
    → (get_topic t (put_topic topic u s.topics)).audiences
      ≡ (if eq_text topic t then u.audiences else audience t s)
audience-put topic t u s =
    ap (λ x. x.audiences) (get-put_topic topic t u s.topics) ∙ go (eq_text topic t)
  where
    go :
        (b : Bool)
        → (if b then u else get_topic t s.topics).audiences
          ≡ (if b then u.audiences else audience t s)
    go true = refl
    go false = refl

pub subscriptions-put :
    (conn c : ℕ) (texts : List Text) (s : Hub)
    → or_default [] (lookup c (put conn texts s.contexts))
      ≡ (if conn == c then texts else subscriptions c s)
subscriptions-put conn c texts s =
    ap (or_default []) (lookup-put conn c texts s.contexts) ∙ go (conn == c)
  where
    go :
        (b : Bool)
        → or_default [] (if b then some texts else lookup c s.contexts)
          ≡ (if b then texts else subscriptions c s)
    go true = refl
    go false = refl
