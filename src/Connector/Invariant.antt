-- ===== src/Connector/Invariant.antt =====
-- Connector.cc: what holds between the calls of a connector, whatever its loop and its user do.
use chat.Prelude.{
  ℕ, suc, ◌≤◌, ◌≡◌, ◌≢◌, refl, sym, ap, ◌∙◌, subst, true, false, Option, none, some, List, [], ◌∷◌,
  ◌++◌, arith, Every, Bool-cases, Option-cases, ◌⊎◌, inl, inr,
}
use chat.Connector.Delay.{start_in_loop_ready}
use chat.Connector.{
  Connector, State, disconnected, connecting, connected, Errno, no_error, in_progress, interrupted,
  is_connected, try_again, address_in_use, address_not_available, refused, unreachable, no_access,
  not_permitted, bad_family, already, bad_descriptor, bad_address, not_socket, unexpected, Functor,
  start_later, reset_later, max_retry_delay, init_retry_delay, next_delay, without, close_socket,
  retry, has_channel, begin_connecting, after_connect, connect, is_disconnected, start_in_loop,
}

-- A delay inside the connector's bounds.
abbrev pub InBounds : ℕ → Type 0
InBounds d = (init_retry_delay ≤ d) × (d ≤ max_retry_delay)

unfoldable pub AllInBounds : List ℕ → Type 0
AllInBounds [] = Unit {0}
AllInBounds (d ∷ ds) = InBounds d × AllInBounds ds

unfoldable pub resets : List Functor → ℕ
resets [] = 0
resets (start_later ∷ q) = resets q
resets (reset_later ∷ q) = suc (resets q)

unfoldable pub due : Option ℕ → ℕ
due none = 0
due (some fd) = 1

-- While it connects, its only socket is the one of the watched channel. Otherwise it has no socket,
-- and a channel that is still there has one reset coming.
pub data Phase (c : Connector) : Type 0 where
  attempt :
      (fd : ℕ)
      → c.state ≡ connecting
      → c.channel ≡ some fd
      → c.watched ≡ true
      → c.live ≡ fd ∷ []
      → resets c.queued ≡ 0
      → Phase c
  idle :
      c.state ≢ connecting
      → c.watched ≡ false
      → c.live ≡ []
      → resets c.queued ≡ due c.channel
      → Phase c

pub record Inv (c : Connector) : Type 0 where
  pub bounded : InBounds c.retry_delay
  pub all_bounded : AllInBounds c.asked
  pub phase : Phase c

-- The connector in the middle of a call: it holds one socket that no channel watches.
pub record Holds (fd : ℕ) (c : Connector) : Type 0 where
  pub bounded : InBounds c.retry_delay
  pub all_bounded : AllInBounds c.asked
  pub unwatched : c.watched ≡ false
  pub one : c.live ≡ fd ∷ []
  pub coming : resets c.queued ≡ due c.channel

AllInBounds-snoc :
    (ds : List ℕ) (d : ℕ) → AllInBounds ds → InBounds d → AllInBounds (ds ++ (d ∷ []))
unfolding AllInBounds
AllInBounds-snoc [] d h b = (b, tt)
AllInBounds-snoc (x ∷ ds) d h b = (h.0, AllInBounds-snoc ds d h.1 b)

next_delay-InBounds : (d : ℕ) → InBounds d → InBounds (next_delay d)
unfolding next_delay
next_delay-InBounds d b = ground arith

pub resets_snoc_start : (q : List Functor) → resets (q ++ (start_later ∷ [])) ≡ resets q
unfolding resets
resets_snoc_start [] = refl
resets_snoc_start (start_later ∷ q) = resets_snoc_start q
resets_snoc_start (reset_later ∷ q) = ap suc (resets_snoc_start q)

pub resets_snoc_reset : (q : List Functor) → resets (q ++ (reset_later ∷ [])) ≡ suc (resets q)
unfolding resets
resets_snoc_reset [] = refl
resets_snoc_reset (start_later ∷ q) = resets_snoc_reset q
resets_snoc_reset (reset_later ∷ q) = ap suc (resets_snoc_reset q)

pub without_self : (fd : ℕ) (xs : List ℕ) → xs ≡ fd ∷ [] → without fd xs ≡ []
unfolding without
without_self fd xs e = rw e (ground arith)

pub disconnected≢connecting : disconnected ≢ connecting
disconnected≢connecting e = ground arith

pub connected≢connecting : connected ≢ connecting
connected≢connecting e = ground arith

pub retry-Inv : (fd : ℕ) (c : Connector) → Holds fd c → Inv (retry fd c)
unfolding retry
retry-Inv fd c h = elim (Bool-cases c.connect_wanted) [
  | inl w ↦ rw w (record {
    bounded = next_delay-InBounds c.retry_delay h.bounded;
    all_bounded = AllInBounds-snoc c.asked c.retry_delay h.all_bounded h.bounded;
    phase = idle disconnected≢connecting h.unwatched (without_self fd c.live h.one) h.coming;
  })
  | inr w ↦ rw w (record {
    bounded = h.bounded;
    all_bounded = h.all_bounded;
    phase = idle disconnected≢connecting h.unwatched (without_self fd c.live h.one) h.coming;
  })
]

close_socket-Inv :
    (fd : ℕ) (c : Connector) → c.state ≢ connecting → Holds fd c → Inv (close_socket fd c)
close_socket-Inv fd c ne h = record {
  bounded = h.bounded;
  all_bounded = h.all_bounded;
  phase = idle ne h.unwatched (without_self fd c.live h.one) h.coming;
}

begin_connecting-Inv : (fd : ℕ) (c : Connector) → Holds fd c → Every Inv (begin_connecting fd c)
unfolding begin_connecting has_channel due
begin_connecting-Inv fd c h = elim (Option-cases c.channel) [
  | inl e ↦ rw e (record {
    bounded = h.bounded;
    all_bounded = h.all_bounded;
    phase = attempt fd refl refl refl h.one (h.coming ∙ ap due e);
  })
  | inr e ↦ rw e.1 tt
]

after_connect-Inv :
    (e : Errno) (fd : ℕ) (c : Connector)
    → c.state ≢ connecting
    → Holds fd c
    → Every Inv (after_connect e fd c)
unfolding after_connect
after_connect-Inv no_error fd c ne h = begin_connecting-Inv fd c h
after_connect-Inv in_progress fd c ne h = begin_connecting-Inv fd c h
after_connect-Inv interrupted fd c ne h = begin_connecting-Inv fd c h
after_connect-Inv is_connected fd c ne h = begin_connecting-Inv fd c h
after_connect-Inv try_again fd c ne h = retry-Inv fd c h
after_connect-Inv address_in_use fd c ne h = retry-Inv fd c h
after_connect-Inv address_not_available fd c ne h = retry-Inv fd c h
after_connect-Inv refused fd c ne h = retry-Inv fd c h
after_connect-Inv unreachable fd c ne h = retry-Inv fd c h
after_connect-Inv no_access fd c ne h = close_socket-Inv fd c ne h
after_connect-Inv not_permitted fd c ne h = close_socket-Inv fd c ne h
after_connect-Inv bad_family fd c ne h = close_socket-Inv fd c ne h
after_connect-Inv already fd c ne h = close_socket-Inv fd c ne h
after_connect-Inv bad_descriptor fd c ne h = close_socket-Inv fd c ne h
after_connect-Inv bad_address fd c ne h = close_socket-Inv fd c ne h
after_connect-Inv not_socket fd c ne h = close_socket-Inv fd c ne h
after_connect-Inv unexpected fd c ne h = close_socket-Inv fd c ne h

connect-Inv :
    (e : Errno) (fd : ℕ) (c : Connector) → c.state ≢ connecting → Inv c → Every Inv (connect e fd c)
unfolding connect
connect-Inv e fd c ne v = elim v.phase [
  | attempt old st _ _ _ _ ↦ absurd (ne st)
  | idle _ off none_live coming ↦
      after_connect-Inv e fd (record c { live = fd ∷ c.live }) ne
        (record {
          bounded = v.bounded;
          all_bounded = v.all_bounded;
          unwatched = off;
          one = ap (◌∷◌ fd) none_live;
          coming = coming;
        })
]

State-cases : (s : State) → (s ≡ disconnected) ⊎ (is_disconnected s ≡ false)
unfolding is_disconnected
State-cases disconnected = inl refl
State-cases connecting = inr refl
State-cases connected = inr refl

start_in_loop_unready :
    (e : Errno) (fd : ℕ) (c : Connector)
    → is_disconnected c.state ≡ false
    → start_in_loop e fd c ≡ none
unfolding start_in_loop
start_in_loop_unready e fd c busy = ground (arith, busy)

start_in_loop_unwanted :
    (e : Errno) (fd : ℕ) (c : Connector)
    → c.state ≡ disconnected
    → c.connect_wanted ≡ false
    → start_in_loop e fd c ≡ some c
unfolding start_in_loop is_disconnected
start_in_loop_unwanted e fd c free unwanted = ground (arith, free, unwanted)

pub start_in_loop-Inv :
    (e : Errno) (fd : ℕ) (c : Connector) → Inv c → Every Inv (start_in_loop e fd c)
start_in_loop-Inv e fd c v = elim (State-cases c.state) [
  | inl s ↦ elim (Bool-cases c.connect_wanted) [
    | inl w ↦
        subst (Every Inv) (sym (start_in_loop_ready e fd c s w))
          (connect-Inv e fd c (λ t. disconnected≢connecting (sym s ∙ t)) v)
    | inr w ↦ subst (Every Inv) (sym (start_in_loop_unwanted e fd c s w)) v
  ]
  | inr s ↦ subst (Every Inv) (sym (start_in_loop_unready e fd c s)) tt
]
