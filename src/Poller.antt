-- ===== src/Poller.antt =====
-- Poller.cc and Channel.h: the table of pollfds, the map from descriptors to channels, and the
-- channels that they share. A channel is a number into the store; what poll(2) answers is in the
-- table. `none` is a failed assertion.
mod Tests
pub mod Invariant
pub mod Update
pub mod Add
use chat.Prelude.{
  ℕ, zero, suc, ◌+◌, ◌-◌, ◌≤◌, ◌<◌, Bool, true, false, ◌&&◌, ◌||◌, Option, none, some, List, [],
  ◌∷◌, ◌++◌, length, get_elem?, set, take, ltb, leb, ◌==◌, if◌then◌else◌, ◌>>=◌, ◌>>◌, assert,
}
use chat.Prelude.Int.{ℤ, pos, negsuc}
use chat.Prelude.Assoc.{lookup, put, remove}

pub record Channel : Type 0 where
  pub fd : ℕ
  pub events : ℕ
  pub revents : ℕ
  pub index : Option ℕ  -- `none` is -1

-- `struct pollfd`.
pub record PollFd : Type 0 where
  pub fd : ℤ
  pub events : ℕ
  pub revents : ℕ

pub record Poller : Type 0 where
  pub pollfds : List PollFd
  pub channels : List (ℕ × ℕ)
  pub store : ℕ → Channel

abbrev pub write_channel : ℕ → Channel → Poller → Poller
write_channel p ch s = record s { store = λ q. if p == q then ch else s.store q }

abbrev pub is_none_event : Channel → Bool
is_none_event ch = ch.events == 0

-- `-fd - 1`, which poll(2) passes over.
abbrev pub ignored : ℕ → ℤ
ignored fd = negsuc fd

unfoldable pub is_fd : ℕ → ℤ → Bool
is_fd fd (pos n) = n == fd
is_fd fd (negsuc n) = n == fd

unfoldable pub is_ignored : ℕ → ℤ → Bool
is_ignored fd (pos n) = false
is_ignored fd (negsuc n) = n == fd

unfoldable pub is_none {ℓ} : {A : Type ℓ} → Option A → Bool
is_none none = true
is_none (some a) = false

-- A channel that is new to the poller.
unfoldable pub add_channel : ℕ → Poller → Option Poller
add_channel p s = do
  let ch = s.store p
  assert (is_none (lookup ch.fd s.channels))
  let pfd : PollFd = record { fd = pos ch.fd; events = ch.events; revents = 0 }
  let pollfds = s.pollfds ++ (pfd ∷ [])
  let ch₁ : Channel = record ch { index = some (length pollfds - 1) }
  let s₁ : Poller = record s { pollfds = pollfds; channels = put ch.fd p s.channels }
  some (write_channel p ch₁ s₁)

-- What the table holds for a channel that is there; its descriptor stays as it was.
unfoldable pub updated : Channel → PollFd → PollFd
updated ch pfd =
    let pfd₁ : PollFd = record pfd { events = ch.events; revents = 0 } in
    if is_none_event ch then record pfd₁ { fd = ignored ch.fd } else pfd₁

unfoldable pub change_channel : ℕ → ℕ → Poller → Option Poller
change_channel p idx s = do
  let ch = s.store p
  q ← lookup ch.fd s.channels
  assert (q == p)
  assert (ltb idx (length s.pollfds))
  pfd ← get_elem? s.pollfds idx
  assert (is_fd ch.fd pfd.fd)
  some (record s { pollfds = set s.pollfds idx (updated ch pfd) })

unfoldable pub update_channel : ℕ → Poller → Option Poller
update_channel p s = elim (s.store p).index [
  | none ↦ add_channel p s
  | some idx ↦ change_channel p idx s
]

abbrev pub pop_back : List PollFd → List PollFd
pop_back xs = take (length xs - 1) xs

-- `channelAtEnd`.
abbrev pub owner : ℤ → ℕ
owner (pos n) = n
owner (negsuc n) = n

-- The entry of a channel that is not the last: the last one takes its place.
unfoldable pub fill_gap : ℕ → Poller → Option Poller
fill_gap idx s = do
  gap ← get_elem? s.pollfds idx
  last ← get_elem? s.pollfds (length s.pollfds - 1)
  let swapped = set (set s.pollfds idx last) (length s.pollfds - 1) gap
  p ← lookup (owner last.fd) s.channels
  let ch₁ : Channel = record (s.store p) { index = some idx }
  some (write_channel p ch₁ (record s { pollfds = pop_back swapped }))

unfoldable pub remove_channel : ℕ → Poller → Option Poller
remove_channel p s = do
  let ch = s.store p
  q ← lookup ch.fd s.channels
  assert (q == p)
  assert (is_none_event ch)
  idx ← ch.index
  assert (ltb idx (length s.pollfds))
  pfd ← get_elem? s.pollfds idx
  assert (is_ignored ch.fd pfd.fd && (pfd.events == ch.events))
  let s₁ : Poller = record s { channels = remove ch.fd s.channels }
  if idx == length s.pollfds - 1
      then some (record s₁ { pollfds = pop_back s₁.pollfds })
      else fill_gap idx s₁

-- The channel of a descriptor that poll(2) reports.
unfoldable pub find_channel : ℤ → Poller → Option ℕ
find_channel (negsuc n) s = none
find_channel (pos fd) s = do p ← lookup fd s.channels; assert ((s.store p).fd == fd); some p

-- The loop of `fillActiveChannels`, with the active channels so far.
unfoldable pub fill_active_channels : List PollFd → ℕ → List ℕ → Poller → Option (List ℕ × Poller)
fill_active_channels [] n active s = some (active, s)
fill_active_channels (pfd ∷ rest) zero active s = some (active, s)
fill_active_channels (pfd ∷ rest) (suc n) active s =
    if ltb 0 pfd.revents
    then (find_channel pfd.fd s >>= λ p.
        let ch₁ : Channel = record (s.store p) { revents = pfd.revents } in
        fill_active_channels rest n (active ++ (p ∷ [])) (write_channel p ch₁ s))
    else fill_active_channels rest (suc n) active s

-- `poll`: poll(2) answers with a number of events, zero or negative where there are none, and the
-- table with `revents` filled in.
unfoldable pub poll : ℤ → List PollFd → Poller → Option (List ℕ × Poller)
poll (negsuc n) answered s = some ([], record s { pollfds = answered })
poll (pos n) answered s = fill_active_channels answered n [] (record s { pollfds = answered })

-- `enableReading`, `enableWriting`, `disableWriting` and `disableAll` of Channel.h: the new events,
-- and `update`.
unfoldable pub set_events : ℕ → ℕ → Poller → Option Poller
set_events events p s =
    let ch₁ : Channel = record (s.store p) { events = events } in
    update_channel p (write_channel p ch₁ s)
