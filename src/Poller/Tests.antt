-- ===== src/Poller/Tests.antt =====
-- Poller.cc at concrete inputs.
use chat.Prelude.{
  ℕ, ◌+◌, ◌≡◌, sym, ◌∙◌, subst, ◌==◌, if◌then◌else◌, refl, none, some, [], ◌∷◌, ◌>>=◌,
}
use chat.Prelude.Int.{pos}
use chat.Prelude.Assoc.{lookup, put, remove}
use chat.Poller.{
  Channel, Poller, set_events, update_channel, add_channel, change_channel, is_fd, is_ignored,
  is_none, updated, remove_channel, fill_gap,
}
use chat.Poller.Invariant.{Inv}
use chat.Poller.Update.{Known, set_events-Known}
use chat.Poller.Add.{set_events_new}

abbrev fresh : ℕ → Channel
fresh p = record { fd = p + 3; events = 0; revents = 0; index = none }

abbrev empty : Poller
empty = record { pollfds = []; channels = []; store = fresh }

empty-Inv : Inv empty
unfolding lookup
empty-Inv = record { held = λ fd p e. cc; owned = λ i x e. cc }

free : lookup (empty.store 1).fd empty.channels ≡ none
unfolding lookup
free = refl

-- The poller with channel 1, which waits to read.
abbrev one : Poller
one = record {
  pollfds = record { fd = pos 4; events = 1; revents = 0 } ∷ [];
  channels = (4, 1) ∷ [];
  store = λ q.
      if 1 == q
      then record { fd = 4; events = 1; revents = 0; index = some 0 }
      else if 1 == q
      then record { fd = 4; events = 1; revents = 0; index = none }
      else fresh q;
}

one_added : set_events 1 1 empty ≡ some one
unfolding set_events update_channel add_channel is_none lookup put
one_added = refl

some_poller : {s t : Poller} → some s ≡ some t → s ≡ t
some_poller e = cc

one-Inv : Inv one
one-Inv =
    let done = set_events_new 1 1 empty empty-Inv refl free in
    subst Inv (some_poller (sym done.1 ∙ one_added)) done.2

one_known : lookup (one.store 1).fd one.channels ≡ some 1
unfolding lookup
one_known = refl

set_events-Known_example : (s' : Poller) × (set_events 4 1 one ≡ some s') × Known 4 1 one s'
set_events-Known_example = set_events-Known 4 1 one one-Inv one_known

-- The second of two channels takes the place of the first.
second_moves :
    (set_events 1 2 one >>= λ s.
    set_events 0 1 s >>= λ t. remove_channel 1 t >>= λ u. (u.store 2).index)
    ≡ some 0
unfolding set_events update_channel add_channel change_channel is_none is_fd is_ignored updated
    remove_channel fill_gap lookup put remove
second_moves = refl
