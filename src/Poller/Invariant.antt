-- ===== src/Poller/Invariant.antt =====
-- Poller.cc: what holds between the calls, and a channel that has other events.
use chat.Prelude.{
  ℕ, zero, suc, ◌<◌, ◌≡◌, refl, ap, ◌∙◌, true, Bool-cases, ==_iff, inl, inr, some, List, [], ◌∷◌,
  arith, length, get_elem?, set, ◌==◌, if◌then◌else◌,
}
use chat.Prelude.Int.{ℤ, pos, negsuc}
use chat.Prelude.Assoc.{lookup}
use chat.Poller.{Channel, PollFd, Poller, write_channel, is_none_event, is_fd, updated}

-- A channel that the poller has, and its entry in the table.
pub record Held (fd p : ℕ) (s : Poller) : Type 0 where
  pub same : (s.store p).fd ≡ fd
  pub index : ℕ
  pub entry : PollFd
  pub at : (s.store p).index ≡ some index
  pub found : get_elem? s.pollfds index ≡ some entry
  pub owns : is_fd fd entry.fd ≡ true

-- The channel of an entry.
pub record Owned (i : ℕ) (entry : PollFd) (s : Poller) : Type 0 where
  pub fd : ℕ
  pub channel : ℕ
  pub owns : is_fd fd entry.fd ≡ true
  pub known : lookup fd s.channels ≡ some channel
  pub at : (s.store channel).index ≡ some i

-- Table, map and channels agree.
pub record Inv (s : Poller) : Type 0 where
  pub held : (fd p : ℕ) → lookup fd s.channels ≡ some p → Held fd p s
  pub owned : (i : ℕ) (entry : PollFd) → get_elem? s.pollfds i ≡ some entry → Owned i entry s

pub is_fd_unique : (a b : ℕ) (z : ℤ) → is_fd a z ≡ true → is_fd b z ≡ true → a ≡ b
unfolding is_fd
is_fd_unique a b (pos n) h k = ground arith
is_fd_unique a b (negsuc n) h k = ground arith

pub updated-owns :
    (ch : Channel) (pfd : PollFd)
    → is_fd ch.fd pfd.fd ≡ true
    → is_fd ch.fd (updated ch pfd).fd ≡ true
unfolding updated is_fd
updated-owns ch pfd h = elim (Bool-cases (is_none_event ch)) [
  | inl e ↦ rw e (ground arith)
  | inr e ↦ rw e h
]

pub get_elem?-set {ℓ} :
    {A : Type ℓ} (xs : List A) (i j : ℕ) (v : A)
    → i < length xs
    → get_elem? (set xs i v) j ≡ (if i == j then some v else get_elem? xs j)
get_elem?-set [] i j v h = absurd (omega arith)
get_elem?-set (x ∷ xs) zero zero v h = refl
get_elem?-set (x ∷ xs) zero (suc j) v h = ground arith
get_elem?-set (x ∷ xs) (suc i) zero v h = ground arith
get_elem?-set (x ∷ xs) (suc i) (suc j) v h = ground (arith, get_elem?-set xs i j v (omega arith))

pub get_elem?-within {ℓ} :
    {A : Type ℓ} (xs : List A) (i : ℕ) (v : A) → get_elem? xs i ≡ some v → i < length xs
get_elem?-within [] i v e = ground arith
get_elem?-within (x ∷ xs) zero v e = omega arith
get_elem?-within (x ∷ xs) (suc i) v e = omega (arith, get_elem?-within xs i v e)

-- A channel that has other events than before.
abbrev pub with_events : ℕ → ℕ → Poller → Poller
with_events events p s = write_channel p (record (s.store p) { events = events }) s

pub same_fd : (events p q : ℕ) (s : Poller) → ((with_events events p s).store q).fd ≡ (s.store q).fd
same_fd events p q s = elim (Bool-cases (p == q)) [
  | inl e ↦ rw e (ap (λ k. (s.store k).fd) ((==_iff p q).0 e))
  | inr e ↦ rw e refl
]

pub same_index :
    (events p q : ℕ) (s : Poller) → ((with_events events p s).store q).index ≡ (s.store q).index
same_index events p q s = elim (Bool-cases (p == q)) [
  | inl e ↦ rw e (ap (λ k. (s.store k).index) ((==_iff p q).0 e))
  | inr e ↦ rw e refl
]

pub with_events-Inv : (events p : ℕ) (s : Poller) → Inv s → Inv (with_events events p s)
with_events-Inv events p s v = record {
  held = λ fd q e.
      let h = v.held fd q e in
      record {
        same = same_fd events p q s ∙ h.same;
        index = h.index;
        entry = h.entry;
        at = same_index events p q s ∙ h.at;
        found = h.found;
        owns = h.owns;
      };
  owned = λ i entry e.
      let o = v.owned i entry e in
      record {
        fd = o.fd;
        channel = o.channel;
        owns = o.owns;
        known = o.known;
        at = same_index events p o.channel s ∙ o.at;
      };
}
