-- ===== src/Buffer/Ints.antt =====
-- Buffer.h: integers in network order, written and read back.
use chat.Prelude.{
  ℕ, true, ◌+◌, ◌^◌, ◌≤◌, ◌<◌, ◌≡◌, ap, ◌∙◌, some, List, [], ◌++◌, arith, length, take, leb,
  max_size, network_bytes32, network_value32, network_value32-bytes, network_bytes64,
  network_value64-bytes,
}
use chat.Buffer.{
  Buffer, readable_bytes, append_int32, peek_int32, append_int64, peek_int64, prepend,
}
use chat.Buffer.Valid.{IsValid, contents, length-contents}
use chat.Buffer.Queue.{append_lem, peek-take, prepend_lem}

-- `peekInt32` reads the integer whose bytes stand first.
pub peek_int32-bytes :
    (x : ℕ) (rest : List ℕ) (b : Buffer)
    → IsValid b
    → x < 2 ^ 32
    → contents b ≡ network_bytes32 x ++ rest
    → peek_int32 b ≡ some x
unfolding peek_int32
peek_int32-bytes x rest b v w e =
    rw (enough, peek-take 4 b v (omega (arith, size)), e) (ap some (network_value32-bytes x [] w))
  where
    size : length (contents b) ≡ 4 + length rest
    size = ap length e ∙ omega arith

    enough : leb 4 (readable_bytes b) ≡ true
    enough = ground (arith, size, length-contents b v)

-- In general it reads the value of the first four readable bytes.
pub peek_int32-value :
    (b : Buffer)
    → IsValid b
    → 4 ≤ length (contents b)
    → peek_int32 b ≡ some (network_value32 (take 4 (contents b)))
unfolding peek_int32
peek_int32-value b v h = rw (enough, peek-take 4 b v h)
  where
    enough : leb 4 (readable_bytes b) ≡ true
    enough = ground (arith, length-contents b v)

-- An integer appended to an empty buffer is the one that `peekInt32` returns.
pub append_int32-peek_int32 :
    (x : ℕ) (b : Buffer)
    → IsValid b
    → x < 2 ^ 32
    → contents b ≡ []
    → length b.buffer + 4 ≤ max_size
    → (b' : Buffer) × (append_int32 x b ≡ some b') × (peek_int32 b' ≡ some x)
unfolding append_int32
append_int32-peek_int32 x b v w empty h =
    let done = append_lem (network_bytes32 x) b v h in
    (
      done.0,
      done.1,
      peek_int32-bytes x [] done.0 done.2.valid w
          (done.2.bytes ∙ ap (λ xs. xs ++ network_bytes32 x) empty),
    )

-- A header prepended to any readable bytes is the one that `peekInt32` returns.
pub prepend-peek_int32 :
    (x : ℕ) (b : Buffer)
    → IsValid b
    → x < 2 ^ 32
    → 4 ≤ b.reader_index
    → (b' : Buffer) × (prepend (network_bytes32 x) b ≡ some b') × (peek_int32 b' ≡ some x)
prepend-peek_int32 x b v w h =
    let done = prepend_lem (network_bytes32 x) b v h in
    (done.0, done.1, peek_int32-bytes x (contents b) done.0 done.2.valid w done.2.bytes)

-- A 64-bit integer appended to an empty buffer is the one that `peekInt64` returns.
pub append_int64-peek_int64 :
    (x : ℕ) (b : Buffer)
    → IsValid b
    → x < 2 ^ 64
    → contents b ≡ []
    → length b.buffer + 8 ≤ max_size
    → (b' : Buffer) × (append_int64 x b ≡ some b') × (peek_int64 b' ≡ some x)
unfolding append_int64 peek_int64
append_int64-peek_int64 x b v w empty h =
    let done = append_lem (network_bytes64 x) b v h in
    let all : contents done.0 ≡ network_bytes64 x =
      done.2.bytes ∙ ap (λ xs. xs ++ network_bytes64 x) empty in
    let size : length (contents done.0) ≡ 8 = ap length all in
    let enough : leb 8 (readable_bytes done.0) ≡ true =
      ground (arith, size, length-contents done.0 done.2.valid) in
    (
      done.0,
      done.1,
      rw (enough, peek-take 8 done.0 done.2.valid (omega (arith, size)), all)
          (ap some (network_value64-bytes x w)),
    )
