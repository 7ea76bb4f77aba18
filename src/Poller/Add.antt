-- ===== src/Poller/Add.antt =====
-- Poller.cc: a channel that is new to the poller.
use chat.Prelude.{
  ℕ, zero, suc, ◌-◌, ◌≡◌, ◌≢◌, refl, sym, ap, ◌∙◌, subst, true, false, Bool-cases, ==_iff, inl, inr,
  none, some, List, [], ◌∷◌, ◌++◌, arith, length, length-append, get_elem?, ◌==◌, if◌then◌else◌,
}
use chat.Prelude.Int.{pos}
use chat.Prelude.Assoc.{lookup, put, lookup-put}
use chat.Poller.Invariant.{
  Held, Owned, Inv, get_elem?-within, with_events, same_fd, same_index, with_events-Inv,
}
use chat.Poller.{
  Channel, PollFd, Poller, write_channel, is_fd, is_none, add_channel, update_channel, set_events,
}

get_elem?-snoc {ℓ} :
    {A : Type ℓ} (xs : List A) (y : A) (i : ℕ)
    → get_elem? (xs ++ (y ∷ [])) i ≡ (if i == length xs then some y else get_elem? xs i)
get_elem?-snoc [] y zero = refl
get_elem?-snoc [] y (suc i) = ground arith
get_elem?-snoc (x ∷ xs) y zero = ground arith
get_elem?-snoc (x ∷ xs) y (suc i) = ground (arith, get_elem?-snoc xs y i)

-- The new entry, and the poller with it.
abbrev entry_of : Channel → PollFd
entry_of ch = record { fd = pos ch.fd; events = ch.events; revents = 0 }

abbrev added : ℕ → Poller → Poller
added p s =
    let pollfds = s.pollfds ++ (entry_of (s.store p) ∷ []) in
    write_channel p (record (s.store p) { index = some (length pollfds - 1) })
      (record s { pollfds = pollfds; channels = put (s.store p).fd p s.channels })

last_index :
    (p : ℕ) (s : Poller) → length (s.pollfds ++ (entry_of (s.store p) ∷ [])) - 1 ≡ length s.pollfds
last_index p s = omega (arith, length-append s.pollfds (entry_of (s.store p) ∷ []))

at_self :
    (p : ℕ) (s : Poller)
    → (((added p s).store p).fd ≡ (s.store p).fd)
      × (((added p s).store p).index ≡ some (length s.pollfds))
at_self p s =
    let self : (p == p) ≡ true = ground arith in (rw self refl, rw self (ap some (last_index p s)))

at_other : (p q : ℕ) (s : Poller) → p ≢ q → (added p s).store q ≡ s.store q
at_other p q s ne = elim (Bool-cases (p == q)) [
  | inl e ↦ absurd (ne ((==_iff p q).0 e))
  | inr e ↦ rw e refl
]

some_number : {m n : ℕ} → some m ≡ some n → m ≡ n
some_number e = cc

some_entry : {x y : PollFd} → some x ≡ some y → x ≡ y
some_entry e = cc

self_true : (n : ℕ) → (n == n) ≡ true
self_true n = ground arith

-- A channel with an index is not one without.
not_new :
    (p q i : ℕ) (s : Poller) → (s.store p).index ≡ none → p ≡ q → (s.store q).index ≡ some i → ⊥
not_new p q i s out k at =
    let both : none ≡ some i = sym out ∙ ap (λ x. (s.store x).index) k ∙ at in ground (arith, both)

inside :
    (xs : List PollFd) (i : ℕ) (x : PollFd) → get_elem? xs i ≡ some x → (i == length xs) ≡ false
inside xs i x e = ground (arith, get_elem?-within xs i x e)

added-Held :
    (p fd q : ℕ) (s : Poller)
    → Inv s
    → (s.store p).index ≡ none
    → lookup fd (added p s).channels ≡ some q
    → Held fd q (added p s)
unfolding is_fd
added-Held p fd q s v out e =
    let here = lookup-put (s.store p).fd fd p s.channels in
    elim (Bool-cases ((s.store p).fd == fd)) [
      | inl same ↦
          let it : p ≡ q = some_number (sym (here ∙ rw same refl) ∙ e) in
          let own : (s.store p).fd ≡ fd = (==_iff (s.store p).fd fd).0 same in
          subst (λ k. Held fd k (added p s)) it
            (record {
              same = (at_self p s).0 ∙ own;
              index = length s.pollfds;
              entry = entry_of (s.store p);
              at = (at_self p s).1;
              found =
                  get_elem?-snoc s.pollfds (entry_of (s.store p)) (length s.pollfds)
                  ∙ rw (self_true (length s.pollfds)) refl;
              owns = same;
            })
      | inr other ↦
          let h = v.held fd q (sym (here ∙ rw other refl) ∙ e) in
          let ne : p ≢ q = λ k. not_new p q h.index s out k h.at in
          let kept = at_other p q s ne in
          record {
            same = ap (λ c. c.fd) kept ∙ h.same;
            index = h.index;
            entry = h.entry;
            at = ap (λ c. c.index) kept ∙ h.at;
            found =
                get_elem?-snoc s.pollfds (entry_of (s.store p)) h.index
                ∙ rw (inside s.pollfds h.index h.entry h.found) h.found;
            owns = h.owns;
          }
    ]

other_key :
    (fd k q : ℕ) (s : Poller)
    → lookup fd s.channels ≡ none
    → lookup k s.channels ≡ some q
    → (fd == k) ≡ false
other_key fd k q s free known = elim (Bool-cases (fd == k)) [
  | inr e ↦ e
  | inl e ↦
      let both : none ≡ some q =
        sym free ∙ ap (λ x. lookup x s.channels) ((==_iff fd k).0 e) ∙ known in
      absurd (ground (arith, both))
]

added-Owned :
    (p i : ℕ) (entry : PollFd) (s : Poller)
    → Inv s
    → (s.store p).index ≡ none
    → lookup (s.store p).fd s.channels ≡ none
    → get_elem? (added p s).pollfds i ≡ some entry
    → Owned i entry (added p s)
unfolding is_fd
added-Owned p i entry s v out free e =
    let fd = (s.store p).fd in
    let there = get_elem?-snoc s.pollfds (entry_of (s.store p)) i in
    elim (Bool-cases (i == length s.pollfds)) [
      | inl last ↦
          let it : entry_of (s.store p) ≡ entry = some_entry (sym (there ∙ rw last refl) ∙ e) in
          record {
            fd = fd;
            channel = p;
            owns = subst (λ x. is_fd fd x.fd ≡ true) it (self_true fd);
            known = lookup-put fd fd p s.channels ∙ rw (self_true fd) refl;
            at = (at_self p s).1 ∙ ap some (sym ((==_iff i (length s.pollfds)).0 last));
          }
      | inr inner ↦
          let o = v.owned i entry (sym (there ∙ rw inner refl) ∙ e) in
          let kept = at_other p o.channel s (λ k. not_new p o.channel i s out k o.at) in
          record {
            fd = o.fd;
            channel = o.channel;
            owns = o.owns;
            known =
                lookup-put fd o.fd p s.channels
                ∙ rw (other_key fd o.fd o.channel s free o.known) o.known;
            at = ap (λ c. c.index) kept ∙ o.at;
          }
    ]

update_new : (p : ℕ) (s : Poller) → (s.store p).index ≡ none → update_channel p s ≡ add_channel p s
unfolding update_channel
update_new p s out = rw (out, update_channel) refl

add_channel_free :
    (p : ℕ) (s : Poller)
    → lookup (s.store p).fd s.channels ≡ none
    → add_channel p s ≡ some (added p s)
unfolding add_channel is_none
add_channel_free p s free = rw free refl

-- The first events of a channel whose descriptor the poller does not have: the update always
-- succeeds, and table, map and channels still agree, with the channel in the map.
pub set_events_new :
    (events p : ℕ) (s : Poller)
    → Inv s
    → (s.store p).index ≡ none
    → lookup (s.store p).fd s.channels ≡ none
    → (s' : Poller) × (set_events events p s ≡ some s')
      × Inv s'
      × (lookup (s.store p).fd s'.channels ≡ some p)
unfolding set_events
set_events_new events p s v out free =
    let s₁ = with_events events p s in
    let v₁ = with_events-Inv events p s v in
    let fd_same = same_fd events p p s in
    let out₁ = same_index events p p s ∙ out in
    let free₁ : lookup (s₁.store p).fd s₁.channels ≡ none =
      ap (λ k. lookup k s.channels) fd_same ∙ free in
    (
      added p s₁,
      update_new p s₁ out₁ ∙ add_channel_free p s₁ free₁,
      record {
        held = λ fd q e. added-Held p fd q s₁ v₁ out₁ e;
        owned = λ i x e. added-Owned p i x s₁ v₁ out₁ free₁ e;
      },
      ap (λ k. lookup k (added p s₁).channels) (sym fd_same)
          ∙ lookup-put (s₁.store p).fd (s₁.store p).fd p s₁.channels
          ∙ rw (self_true (s₁.store p).fd) refl,
    )
