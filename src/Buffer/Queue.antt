-- ===== src/Buffer/Queue.antt =====
-- Buffer.h: what each operation does to the readable bytes.
use chat.Prelude.{
  ℕ, min, true, ◌+◌, ◌-◌, ◌≤◌, ◌<◌, ◌≡◌, refl, sym, ap, ap₂, ◌∙◌, some, none, List, ◌++◌, arith,
  length, take, drop, leb, write_at, slice, max_size, add_size, sub_size, add_size-eq, sub_size-eq,
  length-write_at, slice_add, slice-write_at_self, slice-write_at_before, slice-write_at_after,
  drop-slice, take-take,
}
use chat.Buffer.{
  Buffer, cheap_prepend, readable_bytes, peek, retrieve, retrieve_as_string, copy_to_write,
  has_written, append, prepend, prependable_bytes,
}
use chat.Buffer.Valid.{
  IsValid, contents, Ensured, readable_bytes-eq, length-contents, ensure_writable_bytes-Ensured,
}

-- `b'` is `b` with the bytes `bs` behind its readable bytes.
pub record Appended (bs : List ℕ) (b b' : Buffer) : Type 0 where
  pub valid : IsValid b'
  pub bytes : contents b' ≡ contents b ++ bs
  pub front : min cheap_prepend b.reader_index ≤ b'.reader_index
  pub growth : length b'.buffer ≤ length b.buffer + length bs

pub written-contents :
    (bs : List ℕ) (b : Buffer)
    → IsValid b
    → b.writer_index + length bs ≤ length b.buffer
    → contents (has_written (length bs) (copy_to_write bs b)) ≡ contents b ++ bs
unfolding has_written copy_to_write
written-contents bs b v h =
    ap (λ n. slice r n buf) count
    ∙ slice_add r (w - r) (length bs) buf
    ∙ ap (λ xs. xs ++ slice (r + (w - r)) (length bs) buf)
        (slice-write_at_before r (w - r) w bs b.buffer (omega arith))
    ∙ ap (λ k. contents b ++ slice k (length bs) buf) {x = r + (w - r)} {y = w} (omega (arith, v))
    ∙ ap (λ xs. contents b ++ xs) (slice-write_at_self w bs b.buffer h)
  where
    r : ℕ
    r = b.reader_index

    w : ℕ
    w = b.writer_index

    buf : List ℕ
    buf = write_at w bs b.buffer

    count : add_size w (length bs) - r ≡ w - r + length bs
    count = omega (arith, v, h)

pub written-IsValid :
    (bs : List ℕ) (b : Buffer)
    → IsValid b
    → b.writer_index + length bs ≤ length b.buffer
    → IsValid (has_written (length bs) (copy_to_write bs b))
unfolding has_written copy_to_write
written-IsValid bs b v h = omega (arith, v, length-write_at b.writer_index bs b.buffer)

pub written-Appended :
    (bs : List ℕ) (b b₁ : Buffer)
    → Ensured (length bs) b b₁
    → Appended bs b (has_written (length bs) (copy_to_write bs b₁))
unfolding has_written copy_to_write
written-Appended bs b b₁ e = record {
  valid = written-IsValid bs b₁ e.valid e.room;
  bytes = written-contents bs b₁ e.valid e.room ∙ ap (λ xs. xs ++ bs) e.same;
  front = e.front;
  growth = omega (arith, e.growth, length-write_at b₁.writer_index bs b₁.buffer);
}

-- While the array stays within the largest vector, `append` returns, and puts the bytes behind the
-- readable ones.
pub append_lem :
    (bs : List ℕ) (b : Buffer)
    → IsValid b
    → length b.buffer + length bs ≤ max_size
    → (b' : Buffer) × (append bs b ≡ some b') × Appended bs b b'
unfolding append
append_lem bs b v h =
    let made = ensure_writable_bytes-Ensured (length bs) b v h in
    (_, rw (made.1), written-Appended bs b made.0 made.2)

pub record Retrieved (len : ℕ) (b b' : Buffer) : Type 0 where
  pub valid : IsValid b'
  pub bytes : contents b' ≡ drop len (contents b)
  pub same_array : b'.buffer ≡ b.buffer
  pub front : b.reader_index ≤ b'.reader_index

-- `retrieve` drops bytes from the front, as many as are there at most.
pub retrieve_lem :
    (len : ℕ) (b : Buffer)
    → IsValid b
    → len ≤ length (contents b)
    → (b' : Buffer) × (retrieve len b ≡ some b') × Retrieved len b b'
unfolding retrieve
retrieve_lem len b v h = (
  record b { reader_index = r' },
  rw within,
  record {
    valid = omega (arith, v, moves, fits);
    bytes =
        ap (λ k. slice k (b.writer_index - k) b.buffer) moves
        ∙ ap (λ n. slice (b.reader_index + len) n b.buffer)
            {x = b.writer_index - (b.reader_index + len)}
            {y = b.writer_index - b.reader_index - len} (omega arith)
        ∙ sym (drop-slice len b.reader_index (b.writer_index - b.reader_index) b.buffer);
    same_array = refl;
    front = omega (arith, moves);
  },
)
  where
    r' : ℕ
    r' = add_size b.reader_index len

    fits : len ≤ b.writer_index - b.reader_index
    fits = omega (arith, h, length-contents b v, readable_bytes-eq b v)

    moves : r' ≡ b.reader_index + len
    moves = add_size-eq b.reader_index len (omega (arith, v, fits))

    within : leb len (readable_bytes b) ≡ true
    within = ground (arith, fits, readable_bytes-eq b v)

-- What `peek` points at is the front of the readable bytes.
pub peek-take :
    (n : ℕ) (b : Buffer) → IsValid b → n ≤ length (contents b) → peek n b ≡ take n (contents b)
unfolding peek
peek-take n b v h = sym (
    take-take n (b.writer_index - b.reader_index) (drop b.reader_index b.buffer)
      (omega (arith, length-contents b v, readable_bytes-eq b v)))

-- `retrieveAsString` takes that many bytes from the front.
pub retrieve_as_string_lem :
    (len : ℕ) (b : Buffer)
    → IsValid b
    → len ≤ length (contents b)
    → (b' : Buffer) × (retrieve_as_string len b ≡ some (take len (contents b), b'))
      × Retrieved len b b'
unfolding retrieve_as_string
retrieve_as_string_lem len b v h =
    let done = retrieve_lem len b v h in
    let within : leb len (readable_bytes b) ≡ true = ground (arith, length-contents b v) in
    (done.0, rw (within, done.1, peek-take len b v h), done.2)

-- It fails on more bytes than are readable.
pub retrieve_as_string-none :
    (len : ℕ) (b : Buffer) → IsValid b → length (contents b) < len → retrieve_as_string len b ≡ none
unfolding retrieve_as_string
retrieve_as_string-none len b v h = ground (arith, length-contents b v)

-- `b'` is `b` with the bytes `bs` before its readable bytes.
pub record Prepended (bs : List ℕ) (b b' : Buffer) : Type 0 where
  pub valid : IsValid b'
  pub bytes : contents b' ≡ bs ++ contents b

pub prepend_lem :
    (bs : List ℕ) (b : Buffer)
    → IsValid b
    → length bs ≤ b.reader_index
    → (b' : Buffer) × (prepend bs b ≡ some b') × Prepended bs b b'
unfolding prepend prependable_bytes
prepend_lem bs b v h = (
  record b { reader_index = r'; buffer = write_at r' bs b.buffer },
  rw room,
  record {
    valid = omega (arith, v, moves, length-write_at r' bs b.buffer);
    bytes =
        ap (λ k. slice k (w - k) (write_at r' bs b.buffer)) moves
        ∙ ap (λ n. slice (r - length bs) n (write_at r' bs b.buffer)) {x = w - (r - length bs)}
            {y = length bs + (w - r)} (omega (arith, v))
        ∙ slice_add (r - length bs) (length bs) (w - r) (write_at r' bs b.buffer)
        ∙ ap₂ ◌++◌
            (ap (λ k. slice (r - length bs) (length bs) (write_at k bs b.buffer)) moves
              ∙ slice-write_at_self (r - length bs) bs b.buffer (omega (arith, v)))
            (ap (λ k. slice k (w - r) (write_at r' bs b.buffer)) {x = r - length bs + length bs}
                {y = r} (omega arith)
              ∙ slice-write_at_after r (w - r) r' bs b.buffer (omega (arith, moves)));
  },
)
  where
    r : ℕ
    r = b.reader_index

    w : ℕ
    w = b.writer_index

    r' : ℕ
    r' = sub_size b.reader_index (length bs)

    moves : r' ≡ r - length bs
    moves = sub_size-eq b.reader_index (length bs) (omega (arith, v)) h

    room : leb (length bs) b.reader_index ≡ true
    room = ground arith
