-- ===== src/Connector/Settle.antt =====
-- Connector.cc: how an attempt ends, and the timer that outlives `stop`.
use chat.Prelude.{
  ℕ, ◌≡◌, refl, sym, Bool, true, false, not, ◌&&◌, some, [], ◌∷◌, ◌++◌, append-nil, if◌then◌else◌,
  Bool-cases, inl, inr,
}
use chat.Connector.{Connector, disconnected, connected, retry, finish_write, handle_write}
use chat.Connector.Invariant.{Inv, without_self}
use chat.Connector.Steps.{Attempts-of, handle_write_attempt, removed}

-- The end of the attempt with `fd`, where `won` says that the peer answered and is not the socket itself.
pub record Settled (won : Bool) (fd : ℕ) (c c' : Connector) : Type 0 where
  pub none_live : c'.live ≡ []
  pub unwatched : c'.watched ≡ false
  pub state : c'.state ≡ (if won then connected else disconnected)
  pub given : c'.given ≡ c.given ++ (if won then (if c.connect_wanted then fd ∷ [] else []) else [])
  pub asked :
      c'.asked
      ≡ c.asked ++ (if won then [] else if c.connect_wanted then c.retry_delay ∷ [] else [])

lost-Settled :
    (fd : ℕ) (c : Connector)
    → c.live ≡ fd ∷ []
    → c.watched ≡ false
    → Settled false fd c (retry fd c)
unfolding retry
lost-Settled fd c one off = elim (Bool-cases c.connect_wanted) [
  | inl w ↦ rw w (record {
    none_live = without_self fd c.live one;
    unwatched = off;
    state = refl;
    given = sym (append-nil c.given);
    asked = refl;
  })
  | inr w ↦ rw w (record {
    none_live = without_self fd c.live one;
    unwatched = off;
    state = refl;
    given = sym (append-nil c.given);
    asked = sym (append-nil c.asked);
  })
]

finish_write-Settled :
    (failed self : Bool) (fd : ℕ) (c : Connector)
    → c.live ≡ fd ∷ []
    → c.watched ≡ false
    → Settled (not failed && not self) fd c (finish_write failed self fd c)
unfolding finish_write retry
finish_write-Settled true self fd c one off = lost-Settled fd c one off
finish_write-Settled false true fd c one off = lost-Settled fd c one off
finish_write-Settled false false fd c one off = elim (Bool-cases c.connect_wanted) [
  | inl w ↦ rw w (record {
    none_live = without_self fd c.live one;
    unwatched = off;
    state = refl;
    given = refl;
    asked = sym (append-nil c.asked);
  })
  | inr w ↦ rw w (record {
    none_live = without_self fd c.live one;
    unwatched = off;
    state = refl;
    given = sym (append-nil c.given);
    asked = sym (append-nil c.asked);
  })
]

-- A write event of an attempt always settles it, whatever SO_ERROR and the addresses are: the socket
-- goes to the callback or is closed, no channel watches it, and a lost attempt asks for one timer
-- with the current delay, where the user has not called stop.
pub handle_write-Settled :
    (failed self : Bool) (c : Connector)
    → Inv c
    → c.watched ≡ true
    → (fd : ℕ) × (c' : Connector) × (c.channel ≡ some fd)
      × (handle_write failed self c ≡ some c')
      × Settled (not failed && not self) fd c c'
handle_write-Settled failed self c v on =
    let at = Attempts-of c v on in
    let done = finish_write-Settled failed self at.0 (removed c) at.1.holds.one refl in
    (
      at.0,
      finish_write failed self at.0 (removed c),
      at.1.found,
      handle_write_attempt failed self at.0 c at.1,
      record {
        none_live = done.none_live;
        unwatched = done.unwatched;
        state = done.state;
        given = done.given;
        asked = done.asked;
      },
    )
