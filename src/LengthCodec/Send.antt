-- ===== src/LengthCodec/Send.antt =====
-- codec.h: the sender.
use chat.Prelude.{
  ℕ, ◌^◌, ◌<◌, ◌≡◌, ap, ap₂, ◌∙◌, some, List, ◌++◌, arith, length, network_bytes32, to_int32,
  take_all,
}
use chat.Buffer
use chat.Buffer.{Buffer, readable_bytes, append, prepend, retrieve_all_as_string}
use chat.Buffer.Valid.{IsValid, contents, length-contents, new-IsFresh}
use chat.Buffer.Queue.{append_lem, prepend_lem, retrieve_as_string_lem}
use chat.LengthCodec.{send}
use chat.LengthCodec.Frames.{frame}

retrieve_all_lem :
    (b : Buffer) → IsValid b → (b' : Buffer) × (retrieve_all_as_string b ≡ some (contents b, b'))
unfolding retrieve_all_as_string
retrieve_all_lem b v =
    let size = length-contents b v in
    let done = retrieve_as_string_lem (readable_bytes b) b v (omega (arith, size)) in
    (done.0, done.1 ∙ ap (λ xs. some (xs, done.0)) (take_all _ (contents b) (omega (arith, size))))

-- `send` never fails on a message of less than 4 GiB, and hands the connection its length in network
-- order and then the message.
pub send-frame : (m : List ℕ) → length m < 2 ^ 32 → send m ≡ some (frame m)
unfolding send
send-frame m h =
    let fresh = new-IsFresh in
    let filled = append_lem m Buffer.new fresh.valid (omega (arith, fresh.array)) in
    let headed =
      prepend_lem (network_bytes32 (to_int32 (length m))) filled.0 filled.2.valid
        (omega (arith, filled.2.front, fresh.front)) in
    let all = retrieve_all_lem headed.0 headed.2.valid in
    rw (filled.1, headed.1, all.1)
      (ap some (
        headed.2.bytes
        ∙ ap₂ (λ (n : ℕ) (xs : List ℕ). network_bytes32 n ++ xs) {x = to_int32 (length m)}
            {y = length m} (omega arith) (filled.2.bytes ∙ ap (λ xs. xs ++ m) fresh.empty)))
