-- ===== src/Hub/Commands.antt =====
-- hub.cc: the commands of one connection.
use chat.Prelude.{ℕ, ◌≡◌, refl, ap, ◌∙◌, Bool, not, ◌&&◌, ◌||◌, some, List, [], ◌∷◌}
use chat.Prelude.Assoc.{lookup}
use chat.Hub.Maps.{has-erase_text}
use chat.Hub.Agree.{Agree, Framed, Framed-trans}
use chat.Hub.Steps.{
  subscribe-Kept, unsubscribe-Kept, publish-Agree, publish-contexts, publish-Framed,
}
use chat.Hub.{
  Text, eq_text, has_text, Hub, do_publish, on_message, ParseResult, error, continue, success,
  publish, subscribe, unsubscribe, unknown,
}

-- What the commands of a connection make of whether it hears a topic; an error, an unknown command and
-- the wait for more bytes end them.
abbrev pub hears_after : Text → List ParseResult → Bool → Bool
hears_after t [] b = b
hears_after t (error ∷ rs) b = b
hears_after t (continue ∷ rs) b = b
hears_after t (success (publish u content) ∷ rs) b = hears_after t rs b
hears_after t (success (subscribe u) ∷ rs) b = hears_after t rs (eq_text t u || b)
hears_after t (success (unsubscribe u) ∷ rs) b = hears_after t rs (not (eq_text t u) && b)
hears_after t (success unknown ∷ rs) b = b

-- The commands of a connection with its context.
pub record Obeyed (conn : ℕ) (rs : List ParseResult) (subs : List Text) (s r : Hub) : Type 0 where
  pub agree : Agree r
  pub context : List Text
  pub at : lookup conn r.contexts ≡ some context
  pub heard : (t : Text) → has_text t context ≡ hears_after t rs (has_text t subs)
  pub framed : Framed conn s r

pub message-Obeyed :
    (conn : ℕ) (rs : List ParseResult) (time : ℕ) (subs : List Text) (s : Hub)
    → Agree s
    → lookup conn s.contexts ≡ some subs
    → (r : Hub) × (on_message conn rs time s ≡ some r) × Obeyed conn rs subs s r
unfolding on_message
message-Obeyed conn [] time subs s v at = (
  s,
  refl,
  record {
    agree = v;
    context = subs;
    at = at;
    heard = λ t. refl;
    framed = record { others = λ c e. refl; named = λ n. n };
  },
)
message-Obeyed conn (error ∷ rs) time subs s v at = (
  record s { shut = conn ∷ s.shut },
  refl,
  record {
    agree = v;
    context = subs;
    at = at;
    heard = λ t. refl;
    framed = record { others = λ c e. refl; named = λ n. n };
  },
)
message-Obeyed conn (continue ∷ rs) time subs s v at = (
  s,
  refl,
  record {
    agree = v;
    context = subs;
    at = at;
    heard = λ t. refl;
    framed = record { others = λ c e. refl; named = λ n. n };
  },
)
message-Obeyed conn (success (publish topic content) ∷ rs) time subs s v at =
    let p = do_publish topic content time s in
    let (r, runs, o) =
      message-Obeyed conn rs time subs p (publish-Agree topic content time s v)
        (ap (lookup conn) (publish-contexts topic content time s) ∙ at) in
    (
      r,
      runs,
      record {
        agree = o.agree;
        context = o.context;
        at = o.at;
        heard = o.heard;
        framed = Framed-trans conn s p r (publish-Framed conn topic content time s) o.framed;
      },
    )
message-Obeyed conn (success (subscribe topic) ∷ rs) time subs s v at =
    let k = subscribe-Kept conn topic subs s v at in
    let (r, runs, o) = message-Obeyed conn rs time k.context k.result k.agree k.at in
    (
      r,
      rw k.runs runs,
      record {
        agree = o.agree;
        context = o.context;
        at = o.at;
        heard = λ t. o.heard t ∙ ap (hears_after t rs) (k.heard t);
        framed = Framed-trans conn s k.result r k.framed o.framed;
      },
    )
message-Obeyed conn (success (unsubscribe topic) ∷ rs) time subs s v at =
    let (p, first, agree, there, frame) = unsubscribe-Kept conn topic subs s v at in
    let (r, runs, o) = message-Obeyed conn rs time _ p agree there in
    (
      r,
      rw first runs,
      record {
        agree = o.agree;
        context = o.context;
        at = o.at;
        heard = λ t. o.heard t ∙ ap (hears_after t rs) (has-erase_text t topic subs);
        framed = Framed-trans conn s p r frame o.framed;
      },
    )
message-Obeyed conn (success unknown ∷ rs) time subs s v at = (
  record s { shut = conn ∷ s.shut },
  refl,
  record {
    agree = v;
    context = subs;
    at = at;
    heard = λ t. refl;
    framed = record { others = λ c e. refl; named = λ n. n };
  },
)
