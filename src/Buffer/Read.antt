-- ===== src/Buffer/Read.antt =====
-- Buffer.h and Buffer.cc: `readFd`, `shrink` and the integers on the wire.
use chat.Prelude.{
  ℕ, ◌+◌, ◌-◌, ◌≤◌, ◌<◌, ◌≡◌, subst, ap, ◌∙◌, some, List, ◌++◌, arith, length, take, drop, leb,
  write_at, slice, replicate, max_size, add_size, length-write_at, length-take, length-drop,
  length-replicate, append_assoc, take-append-drop, slice-write_at_self, inl, inr, Bool-cases,
}
use chat.Buffer.{
  Buffer, cheap_prepend, readable_bytes, writable_bytes, copy_to_write, has_written, append, shrink,
  received, read_fd,
}
use chat.Buffer.Valid.{
  IsValid, contents, unchanged-Ensured, readable_bytes-eq, writable_bytes-eq, length-contents,
  peek_all,
}
use chat.Buffer.Queue.{Appended, append_lem, written-Appended}

-- The first block of `readFd` filled up to the end of the array.
filled : List ℕ → Buffer → Buffer
filled bs b = record (copy_to_write bs b) { writer_index = length b.buffer }

filled-written :
    (bs : List ℕ) (b : Buffer)
    → IsValid b
    → b.writer_index + length bs ≡ length b.buffer
    → filled bs b ≡ has_written (length bs) (copy_to_write bs b)
unfolding filled has_written copy_to_write
filled-written bs b v h = λ i. record {
  buffer = write_at b.writer_index bs b.buffer;
  reader_index = b.reader_index;
  writer_index = end i;
}
  where
    end : length b.buffer ≡ add_size b.writer_index (length bs)
    end = omega (arith, v)

in_place-Appended :
    (bs : List ℕ) (b : Buffer)
    → IsValid b
    → b.writer_index + length bs ≤ length b.buffer
    → Appended bs b (has_written (length bs) (copy_to_write bs b))
in_place-Appended bs b v h = written-Appended bs b b (unchanged-Ensured (length bs) b v h)

-- A read that overflows the first block: the rest is appended.
overflow_lem :
    (n : ℕ) (bytes : List ℕ) (b : Buffer)
    → IsValid b
    → length b.buffer + length bytes ≤ max_size
    → n ≡ length b.buffer - b.writer_index
    → n < length bytes
    → (b' : Buffer) × (append (drop n bytes) (filled (take n bytes) b) ≡ some b')
      × Appended bytes b b'
overflow_lem n bytes b v h e more =
    let first : Appended (take n bytes) b (filled (take n bytes) b) =
      rw (filled-written (take n bytes) b v (omega (arith, v, length-take n bytes)))
        (in_place-Appended (take n bytes) b v (omega (arith, v, length-take n bytes))) in
    let done =
      append_lem (drop n bytes) (filled (take n bytes) b) first.valid
        (omega (arith, first.growth, length-take n bytes, length-drop n bytes)) in
    (
      done.0,
      done.1,
      record {
        valid = done.2.valid;
        bytes =
            done.2.bytes
            ∙ ap (λ xs. xs ++ drop n bytes) first.bytes
            ∙ append_assoc (contents b) (take n bytes) (drop n bytes)
            ∙ ap (λ xs. contents b ++ xs) (take-append-drop n bytes);
        front = omega (arith, first.front, done.2.front);
        growth =
            omega (arith, first.growth, done.2.growth, length-take n bytes, length-drop n bytes);
      },
    )

-- `readFd` puts what readv(2) delivered behind the readable bytes, in order, whether it fits in the
-- array or runs over into the block on the stack, and never fails while the array
-- cannot outgrow the largest vector.
pub read_fd_lem :
    (bytes : List ℕ) (b : Buffer)
    → IsValid b
    → length b.buffer + length bytes ≤ max_size
    → (b' : Buffer) × (read_fd (received bytes) b ≡ some b') × Appended bytes b b'
unfolding read_fd filled
read_fd_lem bytes b v h = elim (Bool-cases (leb (length bytes) (writable_bytes b))) [
  | inl e ↦ (
    has_written (length bytes) (copy_to_write bytes b),
    rw e,
    in_place-Appended bytes b v (ground (arith, writable_bytes-eq b v)),
  )
  | inr e ↦
      let done =
        overflow_lem (writable_bytes b) bytes b v h (writable_bytes-eq b v) (ground arith) in
      (done.0, rw e done.1, done.2)
]

-- The array of `shrink`, without the machine arithmetic.
shrunk : ℕ → Buffer → List ℕ
shrunk reserve b =
    write_at cheap_prepend (contents b)
      (replicate (cheap_prepend + length (contents b) + reserve) 0)

shrink-shrunk :
    (reserve : ℕ) (b : Buffer)
    → IsValid b
    → length b.buffer + cheap_prepend + reserve ≤ max_size
    → shrink reserve b ≡ record b { buffer = shrunk reserve b }
unfolding shrink shrunk
shrink-shrunk reserve b v h =
    λ i. record b { buffer = write_at cheap_prepend (peek_all b v i) (replicate (size i) 0) }
  where
    size :
        add_size (add_size cheap_prepend (readable_bytes b)) reserve
        ≡ cheap_prepend + length (contents b) + reserve
    size = omega (arith, length-contents b v, readable_bytes-eq b v)

length-shrunk :
    (reserve : ℕ) (b : Buffer)
    → length (shrunk reserve b) ≡ cheap_prepend + length (contents b) + reserve
unfolding shrunk
length-shrunk reserve b =
    length-write_at cheap_prepend (contents b) (replicate size 0)
    ∙ length-replicate size (let z : ℕ = 0 in z)
  where
    size : ℕ
    size = cheap_prepend + length (contents b) + reserve

slice-shrunk :
    (reserve : ℕ) (b : Buffer)
    → slice cheap_prepend (length (contents b)) (shrunk reserve b) ≡ contents b
unfolding shrunk
slice-shrunk reserve b =
    slice-write_at_self cheap_prepend (contents b) (replicate size 0)
      (omega (arith, length-replicate size (let z : ℕ = 0 in z)))
  where
    size : ℕ
    size = cheap_prepend + length (contents b) + reserve

shrunk_at_front :
    (reserve : ℕ) (b : Buffer)
    → IsValid b
    → b.reader_index ≡ cheap_prepend
    → length b.buffer + cheap_prepend + reserve ≤ max_size
    → let b' : Buffer = record b { buffer = shrunk reserve b } in
      IsValid b' × (contents b' ≡ contents b) × (writable_bytes b' ≡ reserve)
shrunk_at_front reserve b v front h = (
  valid,
  ap (λ k. slice k (b.writer_index - b.reader_index) (shrunk reserve b)) front
      ∙ ap (λ n. slice cheap_prepend n (shrunk reserve b)) count
      ∙ slice-shrunk reserve b,
  omega (arith, writable_bytes-eq _ valid, length-shrunk reserve b, count),
)
  where
    count : b.writer_index - b.reader_index ≡ length (contents b)
    count = omega (arith, length-contents b v, readable_bytes-eq b v)

    valid : IsValid (record b { buffer = shrunk reserve b })
    valid = omega (arith, v, length-shrunk reserve b, count)

-- `shrink` keeps the readable bytes of a buffer whose reader stands at index 8, and gives it
-- `reserve` writable bytes.
pub shrink_at_front :
    (reserve : ℕ) (b : Buffer)
    → IsValid b
    → b.reader_index ≡ cheap_prepend
    → length b.buffer + cheap_prepend + reserve ≤ max_size
    → IsValid (shrink reserve b)
      × (contents (shrink reserve b) ≡ contents b)
      × (writable_bytes (shrink reserve b) ≡ reserve)
shrink_at_front reserve b v front h =
    rw (shrink-shrunk reserve b v h) (shrunk_at_front reserve b v front h)

-- `shrink` leaves the indices alone: where the reader stands more than `reserve` past index 8, the
-- writer index ends behind the new array.
pub shrink_breaks :
    (reserve : ℕ) (b : Buffer)
    → IsValid b
    → cheap_prepend + reserve < b.reader_index
    → length b.buffer + cheap_prepend + reserve ≤ max_size
    → ¬ IsValid (shrink reserve b)
shrink_breaks reserve b v far h w =
    omega (arith, v, bad, length-shrunk reserve b, length-contents b v, readable_bytes-eq b v)
  where
    bad : b.writer_index ≤ length (shrunk reserve b)
    bad = (subst IsValid (shrink-shrunk reserve b v h) w).within
