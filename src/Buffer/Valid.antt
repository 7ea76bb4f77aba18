-- ===== src/Buffer/Valid.antt =====
-- Buffer.h: the representation invariant and the readable bytes, and what makes room keeps.
use chat.Prelude.{
  ℕ, min, ◌+◌, ◌-◌, ◌≤◌, ◌<◌, ◌≡◌, refl, sym, ap, ◌∙◌, Bool, true, false, some, List, [], ◌++◌,
  arith, length, take, replicate, write_at, slice, ltb, leb, max_size, add_size-eq, add_size,
  length-append, length-take, length-replicate, length-write_at, length-slice, slice-write_at_self,
  slice-append, take_all, inl, inr, Bool-cases,
}
use chat.Buffer.{
  Buffer, new, cheap_prepend, readable_bytes, writable_bytes, prependable_bytes, peek, resize, grow,
  move_to_front, make_space, ensure_writable_bytes,
}

pub record IsValid (b : Buffer) : Type 0 where
  pub ordered : b.reader_index ≤ b.writer_index
  pub within : b.writer_index ≤ length b.buffer
  pub small : length b.buffer ≤ max_size

-- The readable bytes, oldest first: the view that clients have of a buffer.
abbrev pub contents : Buffer → List ℕ
contents b = slice b.reader_index (b.writer_index - b.reader_index) b.buffer

pub readable_bytes-eq :
    (b : Buffer) → IsValid b → readable_bytes b ≡ b.writer_index - b.reader_index
unfolding readable_bytes
readable_bytes-eq b v = omega arith

pub writable_bytes-eq :
    (b : Buffer) → IsValid b → writable_bytes b ≡ length b.buffer - b.writer_index
unfolding writable_bytes
writable_bytes-eq b v = omega arith

pub length-contents : (b : Buffer) → IsValid b → length (contents b) ≡ readable_bytes b
length-contents b v =
    length-slice b.reader_index (b.writer_index - b.reader_index) b.buffer (omega arith)
    ∙ sym (readable_bytes-eq b v)

pub peek_all : (b : Buffer) → IsValid b → peek (readable_bytes b) b ≡ contents b
unfolding peek
peek_all b v = ap (λ n. slice b.reader_index n b.buffer) (readable_bytes-eq b v)

-- What a call that makes room for `len` bytes leaves behind.
pub record Ensured (len : ℕ) (b b' : Buffer) : Type 0 where
  pub valid : IsValid b'
  pub same : contents b' ≡ contents b
  pub room : b'.writer_index + len ≤ length b'.buffer
  pub front : min cheap_prepend b.reader_index ≤ b'.reader_index
  pub growth : length b'.buffer ≤ length b.buffer + len

length-resize : (n : ℕ) (xs : List ℕ) → length (resize n xs) ≡ n
unfolding resize
length-resize n xs = omega (
  arith,
  length-append (take n xs) (replicate (n - length xs) 0),
  length-take n xs,
  length-replicate (n - length xs) (let z : ℕ = 0 in z),
)

resize_larger :
    (n : ℕ) (xs : List ℕ) → length xs ≤ n → resize n xs ≡ xs ++ replicate (n - length xs) 0
unfolding resize
resize_larger n xs h = ap (λ ys. ys ++ replicate (n - length xs) 0) (take_all n xs h)

-- A larger array is the old one with zeros behind it.
grow-append :
    (len : ℕ) (b : Buffer)
    → IsValid b
    → length b.buffer + len ≤ max_size
    → length b.buffer ≤ b.writer_index + len
    → grow len b
      ≡ record b { buffer = b.buffer ++ replicate (b.writer_index + len - length b.buffer) 0 }
unfolding grow
grow-append len b v h full =
    ap (λ xs. record b { buffer = xs })
      (ap (λ n. resize n b.buffer) (add_size-eq b.writer_index len (omega arith))
        ∙ resize_larger (b.writer_index + len) b.buffer full)

append-Ensured :
    (len k : ℕ) (b : Buffer)
    → IsValid b
    → length b.buffer + len ≤ max_size
    → length b.buffer + k ≡ b.writer_index + len
    → Ensured len b (record b { buffer = b.buffer ++ replicate k 0 })
append-Ensured len k b v h e = record {
  valid = record {
    ordered = v.ordered;
    within = omega (arith, v, bigger);
    small = omega (arith, v, bigger);
  };
  same =
      slice-append b.reader_index (b.writer_index - b.reader_index) b.buffer (replicate k 0)
        (omega (arith, v));
  room = omega (arith, bigger);
  front = omega arith;
  growth = omega (arith, v, bigger);
}
  where
    bigger : length (b.buffer ++ replicate k 0) ≡ length b.buffer + k
    bigger =
        omega
          (arith, length-append b.buffer (replicate k 0), length-replicate k (let z : ℕ = 0 in z))

grow-Ensured :
    (len : ℕ) (b : Buffer)
    → IsValid b
    → length b.buffer + len ≤ max_size
    → length b.buffer ≤ b.writer_index + len
    → Ensured len b (grow len b)
grow-Ensured len b v h full =
    rw (grow-append len b v h full)
      (append-Ensured len (b.writer_index + len - length b.buffer) b v h (omega arith))

-- What `move_to_front` makes of a valid buffer, without the machine arithmetic.
abbrev moved : Buffer → Buffer
moved b = record {
  buffer = write_at cheap_prepend (contents b) b.buffer;
  reader_index = cheap_prepend;
  writer_index = cheap_prepend + length (contents b);
}

move_to_front-moved :
    (b : Buffer) → IsValid b → cheap_prepend ≤ b.reader_index → move_to_front b ≡ moved b
unfolding move_to_front
move_to_front-moved b v f = λ i. record {
  buffer = write_at cheap_prepend (peek_all b v i) b.buffer;
  reader_index = cheap_prepend;
  writer_index = writer i;
}
  where
    writer : add_size cheap_prepend (readable_bytes b) ≡ cheap_prepend + length (contents b)
    writer = omega (arith, v, length-contents b v, readable_bytes-eq b v)

moved-Ensured :
    (len : ℕ) (b : Buffer)
    → IsValid b
    → cheap_prepend + length (contents b) + len ≤ length b.buffer
    → Ensured len b (moved b)
moved-Ensured len b v h = record {
  valid = record {
    ordered = omega arith;
    within = omega (arith, size);
    small = omega (arith, v, size);
  };
  same =
      ap (λ n. slice cheap_prepend n (write_at cheap_prepend (contents b) b.buffer))
        {x = cheap_prepend + length (contents b) - cheap_prepend} {y = length (contents b)}
        (omega arith)
      ∙ slice-write_at_self cheap_prepend (contents b) b.buffer (omega arith);
  room = omega (arith, size);
  front = omega arith;
  growth = omega (arith, size);
}
  where
    size : length (write_at cheap_prepend (contents b) b.buffer) ≡ length b.buffer
    size = length-write_at cheap_prepend (contents b) b.buffer

readable_bytes-moved :
    (b : Buffer) → IsValid b → IsValid (moved b) → readable_bytes (moved b) ≡ readable_bytes b
readable_bytes-moved b v w = omega (arith, readable_bytes-eq (moved b) w, length-contents b v)

-- The test of `makeSpace` fails only when moving frees enough.
tight_false :
    (len : ℕ) (b : Buffer)
    → IsValid b
    → length b.buffer + len ≤ max_size
    → length b.buffer < b.writer_index + len
    → ltb (add_size (writable_bytes b) (prependable_bytes b)) (add_size len cheap_prepend) ≡ false
    → (cheap_prepend < b.reader_index)
      × (cheap_prepend + length (contents b) + len ≤ length b.buffer)
unfolding prependable_bytes
tight_false len b v h full e =
    ground (arith, writable_bytes-eq b v, length-contents b v, readable_bytes-eq b v)

-- The branch of `makeSpace` that moves the readable bytes.
make_space_moves :
    (len : ℕ) (b : Buffer)
    → IsValid b
    → IsValid (moved b)
    → cheap_prepend < b.reader_index
    → ltb (add_size (writable_bytes b) (prependable_bytes b)) (add_size len cheap_prepend) ≡ false
    → make_space len b ≡ some (moved b)
unfolding make_space
make_space_moves len b v w f e =
    ground (arith, move_to_front-moved b v (omega arith), readable_bytes-moved b v w)

-- `makeSpace` makes room without losing a readable byte, and its assertions hold.
pub make_space-Ensured :
    (len : ℕ) (b : Buffer)
    → IsValid b
    → length b.buffer + len ≤ max_size
    → length b.buffer < b.writer_index + len
    → (b' : Buffer) × (make_space len b ≡ some b') × Ensured len b b'
unfolding make_space
make_space-Ensured len b v h full = elim (Bool-cases tight) [
  | inl e ↦ (grow len b, rw e, grow-Ensured len b v h (omega arith))
  | inr e ↦
      let facts = tight_false len b v h full e in
      let ensured = moved-Ensured len b v facts.1 in
      (moved b, make_space_moves len b v ensured.valid facts.0 e, ensured)
]
  where
    tight : Bool
    tight = ltb (add_size (writable_bytes b) (prependable_bytes b)) (add_size len cheap_prepend)

pub unchanged-Ensured :
    (len : ℕ) (b : Buffer) → IsValid b → b.writer_index + len ≤ length b.buffer → Ensured len b b
unchanged-Ensured len b v h = record {
  valid = v;
  same = refl;
  room = h;
  front = omega arith;
  growth = omega arith;
}

-- Its last assertion holds.
room_assert : (len : ℕ) (b b' : Buffer) → Ensured len b b' → leb len (writable_bytes b') ≡ true
room_assert len b b' e = ground (arith, writable_bytes-eq b' e.valid, e.room)

-- `ensureWritableBytes` returns, with room for `len` bytes and the same readable bytes.
pub ensure_writable_bytes-Ensured :
    (len : ℕ) (b : Buffer)
    → IsValid b
    → length b.buffer + len ≤ max_size
    → (b' : Buffer) × (ensure_writable_bytes len b ≡ some b') × Ensured len b b'
unfolding ensure_writable_bytes
ensure_writable_bytes-Ensured len b v h = elim (Bool-cases (ltb (writable_bytes b) len)) [
  | inl e ↦
      let made = make_space-Ensured len b v h (ground (arith, writable_bytes-eq b v)) in
      (made.0, rw (e, made.1, room_assert len b made.0 made.2), made.2)
  | inr e ↦
      let ensured = unchanged-Ensured len b v (ground (arith, writable_bytes-eq b v)) in
      (b, rw (e, room_assert len b b ensured), ensured)
]

-- A new buffer is valid and empty, and has room in front for a header.
pub record IsFresh (b : Buffer) : Type 0 where
  pub valid : IsValid b
  pub empty : contents b ≡ []
  pub front : cheap_prepend ≤ b.reader_index
  pub array : length b.buffer ≡ 1032

pub new-IsFresh : IsFresh new
unfolding new
new-IsFresh = record { valid = omega arith; empty = refl; front = omega arith; array = refl }
