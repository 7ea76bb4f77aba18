-- ===== src/ProtobufCodec.antt =====
-- protobuf/codec/codec.cc and codec.h: protobuf messages with a length, a type name and a checksum.
-- The protobuf library and zlib are the record `Protobuf`. The callbacks become events in the order
-- in which the code makes them; the loop takes fuel, and `none` is a failed assertion or no fuel.
pub mod Frames
pub mod Parse
pub mod Fill
pub mod Receive
pub mod Total
pub mod Send
mod Tests
use chat.Prelude.{
  ℕ, zero, suc, ◌+◌, ◌*◌, ◌^◌, ◌-◌, ◌≤◌, ◌<◌, ◌≡◌, Bool, true, false, ◌&&◌, ◌||◌, Option, none,
  some, List, [], ◌∷◌, ◌++◌, length, take, drop, slice, ltb, leb, ◌==◌, if◌then◌else◌, ◌>>=◌, ◌>>◌,
  assert, add_size, signed32, to_int32, to_size, network_bytes32, network_value32,
}
use chat.Prelude.Int.{ℤ, pos, ltb_ℤ}
use chat.Buffer
use chat.Buffer.{
  Buffer, readable_bytes, peek, retrieve, append, append_int32, peek_int32, prepend,
  ensure_writable_bytes, has_written, copy_to_write,
}
use chat.Connection.{Connection, WriteResult, is_connected, shutdown, send_buffer}

abbrev pub header_len : ℕ
header_len = 4

abbrev pub min_message_len : ℕ
min_message_len = 10

abbrev pub max_message_len : ℕ
max_message_len = 67108864

-- What the codec uses of protobuf and zlib. The laws are for the types linked into the program: a
-- message's type is found by its name, its bytes are as many as ByteSize says, those of an
-- initialized message (one that has its required fields) read back as the message, and a checksum is
-- a 32-bit word.
pub record Protobuf : Type 1 where
  pub Message : Type 0
  pub Descriptor : Type 0
  pub type_name : Message → List ℕ
  pub byte_size : Message → ℕ
  pub to_bytes : Message → List ℕ
  pub is_initialized : Message → Bool
  pub find_type : List ℕ → Option Descriptor
  pub prototype : Descriptor → Option Message
  pub new_of : Message → Message
  pub parse_from : Message → List ℕ → Bool × Message
  pub adler32 : List ℕ → ℕ
  pub find_type_lem : (m : Message) → (d : Descriptor) × (find_type (type_name m) ≡ some d)
  pub prototype_lem :
      (m : Message) (d : Descriptor)
      → find_type (type_name m) ≡ some d
      → (p : Message) × (prototype d ≡ some p)
  pub parse_from-to_bytes :
      (m : Message) (d : Descriptor) (p : Message)
      → is_initialized m ≡ true
      → find_type (type_name m) ≡ some d
      → prototype d ≡ some p
      → parse_from (new_of p) (to_bytes m) ≡ (true, m)
  pub length-to_bytes : (m : Message) → length (to_bytes m) ≡ byte_size m
  pub adler32_small : (bytes : List ℕ) → adler32 bytes < 2 ^ 32

pub data ErrorCode : Type 0 where
  ok invalid_length check_sum_error invalid_name_len unknown_message_type parse_error : ErrorCode

unfoldable pub is_ok : ErrorCode → Bool
is_ok ok = true
is_ok invalid_length = false
is_ok check_sum_error = false
is_ok invalid_name_len = false
is_ok unknown_message_type = false
is_ok parse_error = false

unfoldable pub default_error_callback : Connection → Connection
default_error_callback c = if is_connected c.state then shutdown true c else c

unfoldable pub as_int32 : List ℕ → ℤ
as_int32 buf = signed32 (network_value32 buf)

module _ (r : Protobuf) where
  open r use {
    Message, Descriptor, type_name, byte_size, to_bytes, is_initialized, find_type, prototype,
    new_of, parse_from, adler32,
  }

  -- The message's bytes, written at the end of the buffer, behind GOOGLE_DCHECK.
  unfoldable pub write_message : Message → Buffer → Option Buffer
  write_message m b = do
    assert (is_initialized m)
    b' ← ensure_writable_bytes (byte_size m) b
    assert (length (to_bytes m) == byte_size m)
    some (has_written (byte_size m) (copy_to_write (to_bytes m) b'))

  -- The checksum behind and the length in front.
  unfoldable pub seal : ℕ → Message → Buffer → Option Buffer
  seal name_len m b = do
    let check_sum = to_int32 (adler32 (peek (readable_bytes b) b))
    b' ← append_int32 check_sum b
    assert (readable_bytes b' == 4 + name_len + byte_size m + 4)
    prepend (network_bytes32 (to_int32 (readable_bytes b'))) b'

  unfoldable pub fill_empty_buffer : Message → Buffer → Option Buffer
  fill_empty_buffer m b = do
    assert (readable_bytes b == 0)
    let name_len = to_int32 (length (type_name m) + 1)
    b₁ ← append_int32 name_len b
    b₂ ← append (type_name m ++ (0 ∷ [])) b₁
    b₃ ← write_message m b₂
    seal name_len m b₃

  -- `send` in the loop thread.
  unfoldable pub send : Message → WriteResult → Connection → Option Connection
  send m w c = do b ← fill_empty_buffer m Buffer.new; sent ← send_buffer true b w c; some (sent.0)

  unfoldable pub create_message : List ℕ → Option Message
  create_message name = do
    descriptor ← find_type name
    found ← prototype descriptor
    some (new_of found)

  -- The innermost tests of `parse`, with the message object.
  unfoldable pub parse_data : Option Message → List ℕ → ErrorCode × Option Message
  parse_data none bytes = (unknown_message_type, none)
  parse_data (some m) bytes =
      let (success, m') = parse_from m bytes in
      if success then (ok, some m') else (parse_error, some m')

  -- `parse` behind the test of the checksum. `buf` is the `len` bytes at the
  -- pointer.
  unfoldable pub parse_named : List ℕ → ℕ → ErrorCode × Option Message
  parse_named buf len =
      let name_len = as_int32 buf in
      if ltb_ℤ name_len (pos 2) || ltb_ℤ (pos (len - 2 * header_len)) name_len
      then (invalid_name_len, none)
      else parse_data (create_message (slice header_len (to_size name_len - 1) buf))
          (slice (header_len + to_size name_len) (len - to_size name_len - 2 * header_len) buf)

  unfoldable pub parse : List ℕ → ℕ → ErrorCode × Option Message
  parse buf len =
      if network_value32 (drop (len - header_len) buf)
        == to_int32 (adler32 (take (len - header_len) buf))
      then parse_named buf len
      else (check_sum_error, none)

  pub data Event : Type 0 where
    message : Message → Event
    error : ErrorCode → Event

  -- One turn of the loop of `onMessage`: it leaves the loop, or goes on behind a message.
  pub data Turn : Type 0 where
    finish : List Event → Turn
    deliver : Message → Buffer → Turn

  unfoldable pub take_message : ErrorCode × Option Message → ℕ → Buffer → Option Turn
  take_message (code, none) len b = some (finish (error code ∷ []))
  take_message (code, some m) len b =
      if is_ok code
      then (retrieve (header_len + len) b >>= λ b'. some (deliver m b'))
      else some (finish (error code ∷ []))

  -- A turn that finds the length `w`.
  unfoldable pub turn_at : Buffer → ℕ → Option Turn
  turn_at b w =
      let len = signed32 w in
      if ltb_ℤ (pos max_message_len) len || ltb_ℤ len (pos min_message_len)
      then some (finish (error invalid_length ∷ []))
      else if leb (to_size len + header_len) (readable_bytes b)
      then take_message (parse (drop header_len (peek (header_len + to_size len) b)) (to_size len))
          (to_size len) b
      else some (finish [])

  unfoldable pub turn : Buffer → Option Turn
  turn b =
      if leb (min_message_len + header_len) (readable_bytes b)
      then peek_int32 b >>= turn_at b
      else some (finish [])

  unfoldable pub on_message : ℕ → Buffer → Option (List Event × Buffer)
  on_message zero b = none
  on_message (suc fuel) b = turn b >>= λ t. elim t [
    | finish es ↦ some (es, b)
    | deliver m b' ↦ on_message fuel b' >>= λ s. some (message m ∷ s.0, s.1)
  ]
