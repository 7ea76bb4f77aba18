-- ===== src/Buffer.antt =====
-- Buffer.h and Buffer.cc: a byte array with room in front of and behind its readable bytes.
-- An operation that mutates the buffer returns the new one; `none` is a failed assertion.
pub mod Valid
pub mod Queue
pub mod Read
pub mod Ints
pub mod Refine
mod Tests
use chat.Prelude.{
  ℕ, suc, ◌+◌, ◌-◌, ◌*◌, ◌/◌, ◌%◌, ◌^◌, ◌≤◌, ◌<◌, ◌≡◌, Bool, true, false, ◌&&◌, Option, none, some,
  List, [], ◌∷◌, ◌++◌, arith, length, take, drop, replicate, write_at, slice, ltb, leb, ◌==◌,
  if◌then◌else◌, add_size, sub_size, max_size, network_bytes32, network_value32, network_bytes64,
  network_value64, ◌>>=◌, ◌>>◌, assert,
}
use mathlib.Core.Option

abbrev pub cheap_prepend : ℕ
cheap_prepend = 8

abbrev pub initial_size : ℕ
initial_size = 1024

pub record Buffer : Type 0 where
  pub buffer : List ℕ
  pub reader_index : ℕ
  pub writer_index : ℕ

pub new : Buffer
new = record {
  buffer = replicate (cheap_prepend + initial_size) 0;
  reader_index = cheap_prepend;
  writer_index = cheap_prepend;
}

unfoldable pub readable_bytes : Buffer → ℕ
readable_bytes b = sub_size b.writer_index b.reader_index

unfoldable pub writable_bytes : Buffer → ℕ
writable_bytes b = sub_size (length b.buffer) b.writer_index

unfoldable pub prependable_bytes : Buffer → ℕ
prependable_bytes b = b.reader_index

-- The `n` bytes that `peek()` points at.
unfoldable pub peek : ℕ → Buffer → List ℕ
peek n b = slice b.reader_index n b.buffer

-- `std::search` for "\r\n": the offset of the first one.
unfoldable pub search_crlf : List ℕ → Option ℕ
search_crlf [] = none
search_crlf (x ∷ []) = none
search_crlf (x ∷ y ∷ r) =
    let rest = search_crlf (y ∷ r) in if (x == 13) && (y == 10) then some 0 else Option.map suc rest

-- The index in `buffer_` that the pointer stands for.
unfoldable pub find_crlf : Buffer → Option ℕ
unfolding search_crlf
find_crlf b = Option.map (λ k. b.reader_index + k) (search_crlf (peek (readable_bytes b) b))

unfoldable pub retrieve : ℕ → Buffer → Option Buffer
retrieve len b = do
  assert (leb len (readable_bytes b))
  some (record b { reader_index = add_size b.reader_index len })

unfoldable pub retrieve_until : ℕ → Buffer → Option Buffer
retrieve_until end b = do
  assert (leb b.reader_index end)
  assert (leb end b.writer_index)
  retrieve (end - b.reader_index) b

unfoldable pub retrieve_all : Buffer → Buffer
retrieve_all b = record b { reader_index = cheap_prepend; writer_index = cheap_prepend }

unfoldable pub retrieve_as_string : ℕ → Buffer → Option (List ℕ × Buffer)
retrieve_as_string len b = do
  assert (leb len (readable_bytes b))
  let result = peek len b
  b' ← retrieve len b
  some (result, b')

unfoldable pub retrieve_all_as_string : Buffer → Option (List ℕ × Buffer)
retrieve_all_as_string b = retrieve_as_string (readable_bytes b) b

-- `std::vector::resize`, whose new elements are zero.
unfoldable pub resize : ℕ → List ℕ → List ℕ
resize n xs = take n xs ++ replicate (n - length xs) 0

-- Room for `len` bytes: a larger array, or the readable bytes moved to the front.
unfoldable pub grow : ℕ → Buffer → Buffer
grow len b = record b { buffer = resize (add_size b.writer_index len) b.buffer }

unfoldable pub move_to_front : Buffer → Buffer
move_to_front b = record {
  buffer = write_at cheap_prepend (peek (readable_bytes b) b) b.buffer;
  reader_index = cheap_prepend;
  writer_index = add_size cheap_prepend (readable_bytes b);
}

unfoldable pub make_space : ℕ → Buffer → Option Buffer
make_space len b =
    if ltb (add_size (writable_bytes b) (prependable_bytes b)) (add_size len cheap_prepend)
    then some (grow len b)
    else do
      assert (ltb cheap_prepend b.reader_index)
      assert (readable_bytes b == readable_bytes (move_to_front b))
      some (move_to_front b)

unfoldable pub ensure_writable_bytes : ℕ → Buffer → Option Buffer
ensure_writable_bytes len b = do
  b' ← if ltb (writable_bytes b) len then make_space len b else some b
  assert (leb len (writable_bytes b'))
  some b'

unfoldable pub has_written : ℕ → Buffer → Buffer
has_written len b = record b { writer_index = add_size b.writer_index len }

-- `std::copy` of bytes to `beginWrite()`.
unfoldable pub copy_to_write : List ℕ → Buffer → Buffer
copy_to_write data' b = record b { buffer = write_at b.writer_index data' b.buffer }

unfoldable pub append : List ℕ → Buffer → Option Buffer
append data' b = do
  b' ← ensure_writable_bytes (length data') b
  some (has_written (length data') (copy_to_write data' b'))

unfoldable pub append_int32 : ℕ → Buffer → Option Buffer
append_int32 x b = append (network_bytes32 x) b

unfoldable pub append_int64 : ℕ → Buffer → Option Buffer
append_int64 x b = append (network_bytes64 x) b

unfoldable pub peek_int64 : Buffer → Option ℕ
peek_int64 b = do assert (leb 8 (readable_bytes b)); some (network_value64 (peek 8 b))

unfoldable pub peek_int32 : Buffer → Option ℕ
peek_int32 b = do assert (leb 4 (readable_bytes b)); some (network_value32 (peek 4 b))

unfoldable pub prepend : List ℕ → Buffer → Option Buffer
prepend data' b = do
  assert (leb (length data') (prependable_bytes b))
  let reader = sub_size b.reader_index (length data')
  some (record b { reader_index = reader; buffer = write_at reader data' b.buffer })

-- The two indices are left as they are.
unfoldable pub shrink : ℕ → Buffer → Buffer
shrink reserve b = record b {
  buffer =
      write_at cheap_prepend (peek (readable_bytes b) b)
        (replicate (add_size (add_size cheap_prepend (readable_bytes b)) reserve) 0);
}

-- What readv(2) answers: an error number, or the bytes that it put into the two blocks.
pub data ReadResult : Type 0 where
  failed : ℕ → ReadResult
  received : List ℕ → ReadResult

abbrev pub extra_size : ℕ
extra_size = 65536

unfoldable pub read_fd : ReadResult → Buffer → Option Buffer
read_fd (failed errno) b = some b
read_fd (received bytes) b =
    if leb (length bytes) (writable_bytes b)
    then some (has_written (length bytes) (copy_to_write bytes b))
    else append (drop (writable_bytes b) bytes)
        (record (copy_to_write (take (writable_bytes b) bytes) b) {
          writer_index = length b.buffer;
        })
