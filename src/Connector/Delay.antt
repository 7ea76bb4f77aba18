-- ===== src/Connector/Delay.antt =====
-- Connector.cc: the delays of a connector whose attempts keep failing.
use chat.Prelude.{
  ℕ, zero, suc, ◌+◌, ◌*◌, ◌^◌, ◌≡◌, refl, sym, ap, ◌∙◌, subst, Bool, true, false, Option, some,
  List, [], ◌∷◌, ◌++◌, arith, append-nil, append_assoc, leb, length, if◌then◌else◌, ◌>>=◌,
}
use chat.Connector.{
  Connector, disconnected, Errno, no_error, in_progress, interrupted, is_connected, try_again,
  address_in_use, address_not_available, refused, unreachable, no_access, not_permitted, bad_family,
  already, bad_descriptor, bad_address, not_socket, unexpected, next_delay, retry, after_connect,
  connect, start_in_loop, is_disconnected, max_retry_delay, init_retry_delay, without,
}

-- The errors after which the connector tries again.
unfoldable pub is_temporary : Errno → Bool
is_temporary try_again = true
is_temporary address_in_use = true
is_temporary address_not_available = true
is_temporary refused = true
is_temporary unreachable = true
is_temporary e = false

-- The doubled delay, with its bound: the delay after `k` failures.
unfoldable pub backoff : ℕ → ℕ
backoff k =
    if leb (init_retry_delay * 2 ^ k) max_retry_delay
    then init_retry_delay * 2 ^ k
    else max_retry_delay

unfoldable pub backoffs : ℕ → ℕ → List ℕ
backoffs k zero = []
backoffs k (suc n) = backoff k ∷ backoffs (suc k) n

next_delay-backoff : (k : ℕ) → next_delay (backoff k) ≡ backoff (suc k)
unfolding next_delay backoff
next_delay-backoff k = ground arith

after_connect-retry :
    (e : Errno) (fd : ℕ) (c : Connector)
    → is_temporary e ≡ true
    → after_connect e fd c ≡ some (retry fd c)
unfolding is_temporary after_connect
after_connect-retry try_again fd c t = refl
after_connect-retry address_in_use fd c t = refl
after_connect-retry address_not_available fd c t = refl
after_connect-retry refused fd c t = refl
after_connect-retry unreachable fd c t = refl
after_connect-retry no_error fd c t = ground arith
after_connect-retry in_progress fd c t = ground arith
after_connect-retry interrupted fd c t = ground arith
after_connect-retry is_connected fd c t = ground arith
after_connect-retry no_access fd c t = ground arith
after_connect-retry not_permitted fd c t = ground arith
after_connect-retry bad_family fd c t = ground arith
after_connect-retry already fd c t = ground arith
after_connect-retry bad_descriptor fd c t = ground arith
after_connect-retry bad_address fd c t = ground arith
after_connect-retry not_socket fd c t = ground arith
after_connect-retry unexpected fd c t = ground arith

-- Between two attempts, after `k` failures.
pub record IsWaiting (k : ℕ) (c : Connector) : Type 0 where
  pub wanted : c.connect_wanted ≡ true
  pub idle : c.state ≡ disconnected
  pub delay : c.retry_delay ≡ backoff k

-- The timer fires again and again, and connect(2) answers `e` for the socket `fd`.
unfoldable pub attempts : List (Errno × ℕ) → Connector → Option Connector
attempts [] c = some c
attempts ((e, fd) ∷ rest) c = start_in_loop e fd c >>= attempts rest

unfoldable pub AllTemporary : List (Errno × ℕ) → Type 0
AllTemporary [] = Unit {0}
AllTemporary ((e, fd) ∷ rest) = (is_temporary e ≡ true) × AllTemporary rest

-- A connector that has just failed with `fd`.
abbrev failed_with : ℕ → Connector → Connector
failed_with fd c = record c {
  state = disconnected;
  live = without fd (fd ∷ c.live);
  asked = c.asked ++ (c.retry_delay ∷ []);
  timers = c.timers ++ (c.retry_delay ∷ []);
  retry_delay = next_delay c.retry_delay;
}

retry_wanted :
    (fd : ℕ) (c : Connector)
    → c.connect_wanted ≡ true
    → retry fd (record c { live = fd ∷ c.live }) ≡ failed_with fd c
unfolding retry
retry_wanted fd c w = rw w refl

pub start_in_loop_ready :
    (e : Errno) (fd : ℕ) (c : Connector)
    → c.state ≡ disconnected
    → c.connect_wanted ≡ true
    → start_in_loop e fd c ≡ connect e fd c
unfolding start_in_loop is_disconnected
start_in_loop_ready e fd c idle wanted = ground (arith, idle, wanted)

attempt_fails :
    (k : ℕ) (e : Errno) (fd : ℕ) (c : Connector)
    → is_temporary e ≡ true
    → IsWaiting k c
    → start_in_loop e fd c ≡ some (failed_with fd c)
unfolding connect
attempt_fails k e fd c t w =
    start_in_loop_ready e fd c w.idle w.wanted
    ∙ after_connect-retry e fd (record c { live = fd ∷ c.live }) t
    ∙ ap some (retry_wanted fd c w.wanted)

failed_with-IsWaiting :
    (k fd : ℕ) (c : Connector) → IsWaiting k c → IsWaiting (suc k) (failed_with fd c)
failed_with-IsWaiting k fd c w = record {
  wanted = w.wanted;
  idle = refl;
  delay = ap next_delay w.delay ∙ next_delay-backoff k;
}

-- Where every attempt fails for a while, the connector goes on trying: it asks for a timer after each
-- failure, and the delays double up to the bound, from the one that `k` earlier failures left.
pub attempts-backoffs :
    (k : ℕ) (tries : List (Errno × ℕ)) (c : Connector)
    → AllTemporary tries
    → IsWaiting k c
    → (c' : Connector) × (attempts tries c ≡ some c')
      × IsWaiting (k + length tries) c'
      × (c'.asked ≡ c.asked ++ backoffs k (length tries))
unfolding attempts AllTemporary backoffs
attempts-backoffs k [] c t w =
    (c, refl, subst (λ n. IsWaiting n c) (omega arith) w, sym (append-nil c.asked))
attempts-backoffs k ((e, fd) ∷ rest) c t w =
    let next = failed_with fd c in
    let done = attempts-backoffs (suc k) rest next t.1 (failed_with-IsWaiting k fd c w) in
    (
      done.0,
      rw (attempt_fails k e fd c t.0 w) done.1,
      subst (λ n. IsWaiting n done.0) (omega arith) done.2,
      done.3
          ∙ append_assoc c.asked (c.retry_delay ∷ []) (backoffs (suc k) (length rest))
          ∙ ap (λ d. c.asked ++ (d ∷ backoffs (suc k) (length rest))) w.delay,
    )
