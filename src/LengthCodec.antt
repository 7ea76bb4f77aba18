-- ===== src/LengthCodec.antt =====
-- excercises/chat/codec.h: messages with a length header. The callbacks become events in the order
-- in which the code makes them; the loop takes fuel, and `none` is a failed assertion or no fuel.
pub mod Frames
pub mod Stream
pub mod Split
pub mod Feed
pub mod Send
pub mod Total
mod Tests
use chat.Prelude.{
  ℕ, zero, suc, ◌+◌, ◌*◌, ◌%◌, ◌^◌, ◌-◌, ◌≤◌, ◌<◌, Bool, ◌||◌, Option, none, some, List, [], ◌∷◌,
  ◌++◌, length, ltb, leb, if◌then◌else◌, ◌>>=◌, ◌>>◌, assert, add_size, signed32, to_int32, to_size,
  network_bytes32, network_value32,
}
use chat.Prelude.Int.{ℤ, pos, ltb_ℤ}
use chat.Buffer
use chat.Buffer.{Buffer, readable_bytes, peek, retrieve, append, prepend, retrieve_all_as_string}

abbrev pub header_len : ℕ
header_len = 4

pub data Event : Type 0 where
  message : List ℕ → Event
  shutdown : Event

-- What one turn of the loop of `onMessage` does: it leaves the loop with these events and the
-- buffer as it was, or it delivers a message and goes on with the buffer behind it.
pub data Turn : Type 0 where
  finish : List Event → Turn
  deliver : List ℕ → Buffer → Turn

-- The `int32_t` at the front of the buffer.
unfoldable pub peek_len : Buffer → ℤ
peek_len b = signed32 (network_value32 (peek 4 b))

unfoldable pub take_message : ℕ → Buffer → Option Turn
take_message len b = do
  b₁ ← retrieve header_len b
  let bytes = peek len b₁
  b₂ ← retrieve len b₁
  some (deliver bytes b₂)

unfoldable pub turn : Buffer → Option Turn
turn b =
    let len = peek_len b in
    if ltb (readable_bytes b) header_len
    then some (finish [])
    else if ltb_ℤ (pos 65536) len || ltb_ℤ len (pos 0)
    then some (finish (shutdown ∷ []))
    else if leb (add_size (to_size len) header_len) (readable_bytes b)
    then take_message (to_size len) b
    else some (finish [])

unfoldable pub on_message : ℕ → Buffer → Option (List Event × Buffer)
on_message zero b = none
on_message (suc fuel) b = turn b >>= λ t. elim t [
  | finish es ↦ some (es, b)
  | deliver bytes b' ↦ on_message fuel b' >>= λ r. some (message bytes ∷ r.0, r.1)
]

-- The bytes that `send` hands to the connection.
unfoldable pub send : List ℕ → Option (List ℕ)
send bytes = do
  b₁ ← append bytes Buffer.new
  b₂ ← prepend (network_bytes32 (to_int32 (length bytes))) b₁
  r ← retrieve_all_as_string b₂
  some (r.0)
