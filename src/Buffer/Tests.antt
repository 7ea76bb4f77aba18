-- ===== src/Buffer/Tests.antt =====
-- Buffer.h at concrete inputs: runs, and the theorems there.
use chat.Prelude.{◌≡◌, refl, some, [], ◌∷◌, ◌++◌, arith, replicate, network_bytes32}
use chat.Buffer.{
  Buffer, readable_bytes, writable_bytes, search_crlf, ensure_writable_bytes, append, peek_int32,
  prepend, prependable_bytes, read_fd, received, make_space, move_to_front, peek, has_written,
  copy_to_write,
}
use chat.Buffer.Valid.{IsValid, contents}
use chat.Buffer.Queue.{Appended}
use chat.Buffer.Read.{read_fd_lem}
use chat.Buffer.Ints.{prepend-peek_int32}
use chat.Buffer.Refine.{appends, retrieves, run, queue_run, run-queue_run}

-- Three readable bytes at index 12 of an array of 16.
abbrev sample : Buffer
sample = record {
  buffer = replicate 12 0 ++ (1 ∷ 2 ∷ 3 ∷ 9 ∷ []);
  reader_index = 12;
  writer_index = 15;
}

abbrev empty_sample : Buffer
empty_sample = record sample { reader_index = 8; writer_index = 8 }

sample-IsValid : IsValid sample
sample-IsValid = omega arith

crlf_found : search_crlf (b'a' ∷ 13 ∷ 13 ∷ 10 ∷ []) ≡ some 2
unfolding search_crlf
crlf_found = refl

-- Two bytes do not fit behind the writer, so the readable bytes move to index 8.
append_moves :
    append (4 ∷ 5 ∷ []) sample
    ≡ some (record {
      buffer = replicate 8 0 ++ (1 ∷ 2 ∷ 3 ∷ 4 ∷ 5 ∷ 2 ∷ 3 ∷ 9 ∷ []);
      reader_index = 8;
      writer_index = 13;
    })
unfolding append ensure_writable_bytes make_space move_to_front readable_bytes writable_bytes peek
    has_written copy_to_write prependable_bytes
append_moves = refl

run-queue_run_example :
    run (appends (7 ∷ []) ∷ retrieves 2 ∷ retrieves 5 ∷ []) sample
    ≡ queue_run (appends (7 ∷ []) ∷ retrieves 2 ∷ retrieves 5 ∷ []) (contents sample)
run-queue_run_example =
    run-queue_run (appends (7 ∷ []) ∷ retrieves 2 ∷ retrieves 5 ∷ []) sample sample-IsValid
      (omega arith)

read_fd_lem_example :
    (b' : Buffer) × (read_fd (received (4 ∷ 5 ∷ 6 ∷ [])) sample ≡ some b')
    × Appended (4 ∷ 5 ∷ 6 ∷ []) sample b'
read_fd_lem_example = read_fd_lem (4 ∷ 5 ∷ 6 ∷ []) sample sample-IsValid (omega arith)

prepend-peek_int32_example :
    (b' : Buffer) × (prepend (network_bytes32 3) sample ≡ some b') × (peek_int32 b' ≡ some 3)
prepend-peek_int32_example = prepend-peek_int32 3 sample sample-IsValid (omega arith) (omega arith)
