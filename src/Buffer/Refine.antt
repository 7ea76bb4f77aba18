-- ===== src/Buffer/Refine.antt =====
-- The buffer against a queue of bytes.
use chat.Prelude.{
  ℕ, ◌+◌, ◌≤◌, ◌≡◌, refl, sym, ap, ◌∙◌, Option, some, none, List, [], ◌∷◌, ◌++◌, arith, length,
  take, drop, take_all, drop_all, ◌⊎◌, leb, max_size, if◌then◌else◌, ◌>>=◌, inl, inr, Bool-cases,
}
use chat.Buffer.{Buffer, append, retrieve_as_string, retrieve_all_as_string, readable_bytes}
use chat.Buffer.Valid.{IsValid, contents, length-contents}
use chat.Buffer.Queue.{append_lem, retrieve_as_string_lem, retrieve_as_string-none}

pub data Op : Type 0 where
  appends : List ℕ → Op
  retrieves : ℕ → Op
  retrieves_all : Op

-- The operations of the buffer, with the string that each returns.
pub step : Op → Buffer → Option (List ℕ × Buffer)
step (appends bs) b = do b' ← append bs b; some ([], b')
step (retrieves n) b = retrieve_as_string n b
step retrieves_all b = retrieve_all_as_string b

pub run : List Op → Buffer → Option (List (List ℕ))
run [] b = some []
run (o ∷ os) b = do r ← step o b; rest ← run os r.1; some (r.0 ∷ rest)

-- The same operations on the queue of the readable bytes.
pub queue_step : Op → List ℕ → Option (List ℕ × List ℕ)
queue_step (appends bs) q = some ([], q ++ bs)
queue_step (retrieves n) q = if leb n (length q) then some (take n q, drop n q) else none
queue_step retrieves_all q = some (q, [])

pub queue_run : List Op → List ℕ → Option (List (List ℕ))
queue_run [] q = some []
queue_run (o ∷ os) q = do r ← queue_step o q; rest ← queue_run os r.1; some (r.0 ∷ rest)

-- The bytes that the operations append.
abbrev pub cost : Op → ℕ
cost (appends bs) = length bs
cost (retrieves n) = 0
cost retrieves_all = 0

abbrev pub total : List Op → ℕ
total [] = 0
total (o ∷ os) = cost o + total os

-- One operation either fails on both sides, or returns the same string and leaves a valid buffer of
-- the queue's bytes.
abbrev Simulates : Op → Buffer → Type 0
Simulates o b =
    ((step o b ≡ none) × (queue_step o (contents b) ≡ none))
    ⊎ ((out : List ℕ) × (b' : Buffer) × (step o b ≡ some (out, b'))
        × (queue_step o (contents b) ≡ some (out, contents b'))
        × IsValid b'
        × (length b'.buffer ≤ length b.buffer + cost o))

retrieves-Simulates : (n : ℕ) (b : Buffer) → IsValid b → Simulates (retrieves n) b
unfolding step queue_step
retrieves-Simulates n b v = elim (Bool-cases (leb n (length (contents b)))) [
  | inl e ↦
      let done = retrieve_as_string_lem n b v (ground arith) in
      inr (
        take n (contents b),
        done.0,
        done.1,
        rw e (ap (λ q. some (take n (contents b), q)) (sym done.2.bytes)),
        done.2.valid,
        omega (arith, ap length done.2.same_array),
      )
  | inr e ↦ inl (retrieve_as_string-none n b v (ground arith), rw e)
]

step-Simulates :
    (o : Op) (b : Buffer) → IsValid b → length b.buffer + cost o ≤ max_size → Simulates o b
unfolding step queue_step retrieve_all_as_string
step-Simulates (appends bs) b v h =
    let done = append_lem bs b v h in
    inr (
      [],
      done.0,
      rw (done.1),
      ap (λ q. some ([], q)) (sym done.2.bytes),
      done.2.valid,
      done.2.growth,
    )
step-Simulates (retrieves n) b v h = retrieves-Simulates n b v
step-Simulates retrieves_all b v h =
    let done = retrieve_as_string_lem (readable_bytes b) b v (omega (arith, length-contents b v)) in
    inr (
      contents b,
      done.0,
      done.1
          ∙ ap (λ xs. some (xs, done.0))
              (take_all _ (contents b) (omega (arith, length-contents b v))),
      ap (λ q. some (contents b, q))
          (sym (done.2.bytes ∙ drop_all _ (contents b) (omega (arith, length-contents b v)))),
      done.2.valid,
      omega (arith, ap length done.2.same_array),
    )

-- No sequence of operations tells a buffer from the queue of its readable bytes, in what it returns
-- and in whether an assertion fails, while the array cannot outgrow the largest vector.
pub run-queue_run :
    (os : List Op) (b : Buffer)
    → IsValid b
    → length b.buffer + total os ≤ max_size
    → run os b ≡ queue_run os (contents b)
unfolding run queue_run
run-queue_run [] b v h = refl
run-queue_run (o ∷ os) b v h = elim (step-Simulates o b v (omega arith)) [
  | inl (e, q) ↦ rw (e, q)
  | inr (out, b', e, q, v', small) ↦
      rw (e, q) (ap (λ m. m >>= λ rest. some (out ∷ rest)) (run-queue_run os b' v' (omega arith)))
]
