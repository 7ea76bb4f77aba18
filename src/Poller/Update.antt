-- ===== src/Poller/Update.antt =====
-- Poller.cc: a channel that changes its events.
use chat.Prelude.{
  ℕ, ◌≡◌, refl, sym, ap, ◌∙◌, subst, true, Bool-cases, ==_iff, inl, inr, some, arith, length,
  get_elem?, set, ltb, given, ◌==◌, if◌then◌else◌,
}
use chat.Prelude.Assoc.{lookup}
use chat.Poller.Invariant.{
  Held, Owned, Inv, is_fd_unique, updated-owns, get_elem?-set, get_elem?-within, with_events,
  same_fd, same_index, with_events-Inv,
}
use chat.Poller.{
  Channel, PollFd, Poller, is_none_event, is_fd, is_ignored, updated, change_channel,
  update_channel, set_events,
}

update_known :
    (p idx : ℕ) (s : Poller)
    → (s.store p).index ≡ some idx
    → update_channel p s ≡ change_channel p idx s
unfolding update_channel
update_known p idx s e = rw (e, update_channel) refl

-- The table with a new entry for a channel.
abbrev changed : ℕ → ℕ → PollFd → Poller → Poller
changed p idx old s = record s { pollfds = set s.pollfds idx (updated (s.store p) old) }

change_channel_found :
    (p : ℕ) (s : Poller)
    → lookup (s.store p).fd s.channels ≡ some p
    → (h : Held (s.store p).fd p s)
    → change_channel p h.index s ≡ some (changed p h.index h.entry s)
unfolding change_channel
change_channel_found p s known h =
    let self : (p == p) ≡ true = ground arith in
    let within : ltb h.index (length s.pollfds) ≡ true =
      ground (arith, get_elem?-within s.pollfds h.index h.entry h.found) in
    rw (known, self, within, h.found, h.owns) refl

some_entry : {x y : PollFd} → some x ≡ some y → x ≡ y
some_entry e = cc

found_at :
    (p idx j : ℕ) (old : PollFd) (s : Poller)
    → get_elem? s.pollfds idx ≡ some old
    → get_elem? (changed p idx old s).pollfds j
      ≡ (if idx == j then some (updated (s.store p) old) else get_elem? s.pollfds j)
found_at p idx j old s f =
    get_elem?-set s.pollfds idx j (updated (s.store p) old) (get_elem?-within s.pollfds idx old f)

changed-Held :
    (fd p q idx : ℕ) (old : PollFd) (s : Poller)
    → get_elem? s.pollfds idx ≡ some old
    → is_fd (s.store p).fd old.fd ≡ true
    → Held fd q s
    → Held fd q (changed p idx old s)
changed-Held fd p q idx old s f own h = elim (Bool-cases (idx == h.index)) [
  | inl e ↦
      let same_entry : old ≡ h.entry =
        some_entry (sym f ∙ ap (get_elem? s.pollfds) ((==_iff idx h.index).0 e) ∙ h.found) in
      let same_owner : (s.store p).fd ≡ fd =
        is_fd_unique (s.store p).fd fd old.fd own
          (subst (λ x. is_fd fd x.fd ≡ true) (sym same_entry) h.owns) in
      record {
        same = h.same;
        index = h.index;
        entry = updated (s.store p) old;
        at = h.at;
        found = found_at p idx h.index old s f ∙ rw e refl;
        owns =
            subst (λ k. is_fd k (updated (s.store p) old).fd ≡ true) same_owner
              (updated-owns (s.store p) old own);
      }
  | inr e ↦ record {
    same = h.same;
    index = h.index;
    entry = h.entry;
    at = h.at;
    found = found_at p idx h.index old s f ∙ rw e h.found;
    owns = h.owns;
  }
]

changed-Owned :
    (p idx i : ℕ) (old entry : PollFd) (s : Poller)
    → get_elem? s.pollfds idx ≡ some old
    → is_fd (s.store p).fd old.fd ≡ true
    → Inv s
    → get_elem? (changed p idx old s).pollfds i ≡ some entry
    → Owned i entry (changed p idx old s)
changed-Owned p idx i old entry s f own v g = elim (Bool-cases (idx == i)) [
  | inl e ↦
      let o = v.owned idx old f in
      let now : updated (s.store p) old ≡ entry =
        some_entry (sym (found_at p idx i old s f ∙ rw e refl) ∙ g) in
      let same_owner : (s.store p).fd ≡ o.fd = is_fd_unique (s.store p).fd o.fd old.fd own o.owns in
      record {
        fd = o.fd;
        channel = o.channel;
        owns =
            subst (λ x. is_fd o.fd x.fd ≡ true) now
              (subst (λ k. is_fd k (updated (s.store p) old).fd ≡ true) same_owner
                (updated-owns (s.store p) old own));
        known = o.known;
        at = o.at ∙ ap some ((==_iff idx i).0 e);
      }
  | inr e ↦
      let before : get_elem? s.pollfds i ≡ some entry =
        sym (found_at p idx i old s f ∙ rw e refl) ∙ g in
      let o = v.owned i entry before in
      record { fd = o.fd; channel = o.channel; owns = o.owns; known = o.known; at = o.at }
]

-- A channel that the poller has, given new events.
pub record Known (events p : ℕ) (s s' : Poller) : Type 0 where
  pub inv : Inv s'
  pub index : ℕ
  pub at : (s.store p).index ≡ some index
  pub still_at : (s'.store p).index ≡ some index
  pub same_fd : (s'.store p).fd ≡ (s.store p).fd
  pub same_map : s'.channels ≡ s.channels
  pub before : PollFd
  pub after : PollFd
  pub was : get_elem? s.pollfds index ≡ some before
  pub is : get_elem? s'.pollfds index ≡ some after
  pub asked : after.events ≡ events
  pub kept : is_ignored (s.store p).fd before.fd ≡ true → is_ignored (s.store p).fd after.fd ≡ true
  pub off : events ≡ 0 → is_ignored (s.store p).fd after.fd ≡ true

updated-events : (ch : Channel) (pfd : PollFd) → (updated ch pfd).events ≡ ch.events
unfolding updated
updated-events ch pfd = elim (Bool-cases (is_none_event ch)) [
  | inl e ↦ rw e refl
  | inr e ↦ rw e refl
]

updated_stays_ignored :
    (ch : Channel) (pfd : PollFd)
    → is_ignored ch.fd pfd.fd ≡ true
    → is_ignored ch.fd (updated ch pfd).fd ≡ true
unfolding updated is_ignored
updated_stays_ignored ch pfd h = elim (Bool-cases (is_none_event ch)) [
  | inl e ↦ rw e (ground arith)
  | inr e ↦ rw e h
]

updated_off :
    (ch : Channel) (pfd : PollFd) → ch.events ≡ 0 → is_ignored ch.fd (updated ch pfd).fd ≡ true
unfolding updated is_ignored
updated_off ch pfd z = rw z (ground arith)

self_true : (p : ℕ) → (p == p) ≡ true
self_true p = ground arith

-- New events for a channel that the poller has: the update always succeeds, table, map and channels
-- still agree, and the channel's entry asks for these events; an entry that was ignored stays so,
-- whatever the events are.
pub set_events-Known :
    (events p : ℕ) (s : Poller)
    → Inv s
    → lookup (s.store p).fd s.channels ≡ some p
    → (s' : Poller) × (set_events events p s ≡ some s') × Known events p s s'
unfolding set_events
set_events-Known events p s v known =
    let s₁ = with_events events p s in
    let v₁ = with_events-Inv events p s v in
    let fd_same = same_fd events p p s in
    let known₁ : lookup (s₁.store p).fd s₁.channels ≡ some p =
      ap (λ k. lookup k s.channels) fd_same ∙ known in
    let h = v₁.held (s₁.store p).fd p known₁ in
    let entry = updated (s₁.store p) h.entry in
    (
      changed p h.index h.entry s₁,
      update_known p h.index s₁ h.at ∙ change_channel_found p s₁ known₁ h,
      record {
        inv = record {
          held = λ fd q e. changed-Held fd p q h.index h.entry s₁ h.found h.owns (v₁.held fd q e);
          owned = λ i x e. changed-Owned p h.index i h.entry x s₁ h.found h.owns v₁ e;
        };
        index = h.index;
        at = sym (same_index events p p s) ∙ h.at;
        still_at = h.at;
        same_fd = fd_same;
        same_map = refl;
        before = h.entry;
        after = entry;
        was = h.found;
        is = found_at p h.index h.index h.entry s₁ h.found ∙ rw (self_true h.index) refl;
        asked = updated-events (s₁.store p) h.entry ∙ rw (self_true p) refl;
        kept = λ o.
            subst (λ k. is_ignored k entry.fd ≡ true) fd_same
              (updated_stays_ignored (s₁.store p) h.entry
                (subst (λ k. is_ignored k h.entry.fd ≡ true) (sym fd_same) o));
        off = λ z.
            subst (λ k. is_ignored k entry.fd ≡ true) fd_same
              (updated_off (s₁.store p) h.entry (rw (self_true p) z));
      },
    )

some_index : {m n : ℕ} → some m ≡ some n → m ≡ n
some_index e = cc

-- A channel whose events were all disabled: events that are enabled next are asked for by its entry,
-- which stays ignored.
pub disabled_stays_ignored :
    (events p : ℕ) (s : Poller)
    → Inv s
    → lookup (s.store p).fd s.channels ≡ some p
    → (s₁ s₂ : Poller) × (set_events 0 p s ≡ some s₁)
      × (set_events events p s₁ ≡ some s₂)
      × (entry : PollFd) × (index : ℕ) × ((s₂.store p).index ≡ some index)
      × (get_elem? s₂.pollfds index ≡ some entry)
      × (entry.events ≡ events)
      × (is_ignored (s.store p).fd entry.fd ≡ true)
disabled_stays_ignored events p s v known = given (set_events-Known 0 p s v known) (λ s₁ e k.
    given
      (set_events-Known events p s₁ k.inv
        (ap (λ x. lookup x s₁.channels) k.same_fd ∙ ap (lookup (s.store p).fd) k.same_map ∙ known))
      (λ s₂ f l.
        let same_index : k.index ≡ l.index = some_index (sym k.still_at ∙ l.at) in
        let same_entry : k.after ≡ l.before =
          some_entry (sym k.is ∙ ap (get_elem? s₁.pollfds) same_index ∙ l.was) in
        let ignored₁ : is_ignored (s₁.store p).fd l.before.fd ≡ true =
          subst (λ n. is_ignored n l.before.fd ≡ true) (sym k.same_fd)
            (subst (λ x. is_ignored (s.store p).fd x.fd ≡ true) same_entry (k.off refl)) in
        (
          s₁,
          s₂,
          e,
          f,
          l.after,
          l.index,
          l.still_at,
          l.is,
          l.asked,
          subst (λ n. is_ignored n l.after.fd ≡ true) k.same_fd (l.kept ignored₁),
        )))
