-- ===== src/ProtobufCodec/Tests.antt =====
-- codec.cc at concrete inputs: one type "M", whose messages are texts, and zlib's checksum.
use chat.Prelude.{
  ℕ, ◌+◌, ◌*◌, ◌%◌, ◌^◌, ◌-◌, ◌<◌, ◌≤◌, ◌≡◌, ◌==◌, if◌then◌else◌, refl, true, false, Option, none,
  some, inl, List, [], ◌∷◌, ◌++◌, map, arith, length, replicate,
}
use chat.Buffer.{Buffer}
use chat.Buffer.Valid.{IsValid, contents}
use chat.Connection.{Connection, wrote, connected, is_connected}
use chat.Connection.Invariant.{Inv, Allowed}
use chat.Connection.Stream.{Sent}
use chat.ProtobufCodec.{Protobuf, send, on_message, message}
use chat.ProtobufCodec.Frames.{payload, body, frame, IsSendable}
use chat.ProtobufCodec.Receive.{frames, AllSendable, IsIncomplete, on_message-frames}
use chat.ProtobufCodec.Total.{Handled, handles_any_bytes}
use chat.ProtobufCodec.Send.{send-Sent}

abbrev adler_of : ℕ → ℕ → List ℕ → ℕ
adler_of a b [] = b % 65521 * 65536 + a % 65521
adler_of a b (x ∷ xs) = adler_of (a + x) (b + a + x) xs

adler_of_small : (a b : ℕ) (xs : List ℕ) → adler_of a b xs < 2 ^ 32
adler_of_small a b [] = omega arith
adler_of_small a b (x ∷ xs) = adler_of_small (a + x) (b + a + x) xs

abbrev find : List ℕ → Option (Unit {0})
find [] = none
find (x ∷ xs) = if x == 77 then some tt else none

abbrev texts : Protobuf
texts = record {
  Message = List ℕ;
  Descriptor = Unit {0};
  type_name = λ m. 77 ∷ [];
  byte_size = λ m. length m;
  to_bytes = λ m. m;
  is_initialized = λ m. true;
  find_type = find;
  prototype = λ d. some [];
  new_of = λ p. p;
  parse_from = λ p bytes. (true, bytes);
  adler32 = adler_of 1 0;
  find_type_lem = λ m. (tt, refl);
  prototype_lem = λ m d e. ([], refl);
  parse_from-to_bytes = λ m d p i e q. refl;
  length-to_bytes = λ m. refl;
  adler32_small = adler_of_small 1 0;
}

abbrev hi : List ℕ
hi = 104 ∷ 105 ∷ []

hi-IsSendable : IsSendable texts hi
unfolding body payload
hi-IsSendable = record { initialized = refl; named = omega arith; short = omega arith }

abbrev holding : List ℕ → Buffer
holding bs = record { buffer = replicate 8 0 ++ bs; reader_index = 8; writer_index = 8 + length bs }

-- The frame of "hi" and the first two bytes of another one.
abbrev arrived : Buffer
arrived =
    holding (0 ∷ 0 ∷ 0 ∷ 12 ∷ 0 ∷ 0 ∷ 0 ∷ 2 ∷ 77 ∷ 0 ∷ 104 ∷ 105 ∷ 2 ∷ 127 ∷ 1 ∷ 33 ∷ 0 ∷ 0 ∷ [])

arrived_bytes : contents arrived ≡ frames texts (hi ∷ []) ++ (0 ∷ 0 ∷ [])
unfolding frames frame body payload
arrived_bytes = refl

hi-AllSendable : AllSendable texts (hi ∷ [])
unfolding AllSendable
hi-AllSendable = (hi-IsSendable, tt)

two-IsIncomplete : IsIncomplete texts (0 ∷ 0 ∷ [])
unfolding IsIncomplete
two-IsIncomplete = inl (omega arith)

on_message-frames_example :
    (b' : Buffer) × (on_message texts 5 arrived ≡ some (map message (hi ∷ []), b'))
    × IsValid b'
    × (contents b' ≡ 0 ∷ 0 ∷ [])
on_message-frames_example =
    on_message-frames texts 5 (hi ∷ []) (0 ∷ 0 ∷ []) arrived hi-AllSendable two-IsIncomplete
      (omega arith) arrived_bytes (omega arith)

abbrev damaged : List ℕ
damaged = 0 ∷ 0 ∷ 0 ∷ 2 ∷ 77 ∷ 0 ∷ 104 ∷ 105 ∷ 2 ∷ 127 ∷ 1 ∷ 34 ∷ []

handles_any_bytes_example :
    Handled texts
      (holding (255 ∷ 255 ∷ damaged))
      (on_message texts 20 (holding (255 ∷ 255 ∷ damaged)))
handles_any_bytes_example =
    handles_any_bytes texts 20 (holding (255 ∷ 255 ∷ damaged)) (omega arith) (omega arith)

abbrev line : Connection
line = record {
  state = connected;
  reading = true;
  writing = false;
  in_loop = true;
  write_shut = false;
  input = holding [];
  output = holding [];
  mark = 2 ^ 26;
  on_write_complete = true;
  on_high_water = false;
  queued = [];
  callbacks = [];
  wire = [];
}

line-Inv : Inv line
line-Inv = record { valid = omega arith; idle = λ e. refl; busy = λ e. cc; shut = λ e. cc }

line_is_up : is_connected line.state ≡ true
unfolding is_connected
line_is_up = refl

short_write : Allowed (length (frame texts hi)) (wrote 3)
unfolding frame body payload
short_write = omega arith

room : length line.output.buffer + length (frame texts hi) ≤ 2 ^ 63 - 1
unfolding frame body payload
room = omega arith

send-Sent_example :
    (c' : Connection) × (send texts hi (wrote 3) line ≡ some c') × Sent (frame texts hi) line c'
send-Sent_example =
    send-Sent texts hi (wrote 3) line hi-IsSendable line-Inv line_is_up short_write room
