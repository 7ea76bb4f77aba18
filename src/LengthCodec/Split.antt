-- ===== src/LengthCodec/Split.antt =====
-- codec.h: where a read may cut a stream of frames.
use chat.Prelude.{
  ℕ, ◌+◌, ◌≤◌, ◌<◌, ◌≡◌, refl, sym, ap, ◌∙◌, inl, inr, Bool-cases, List, [], ◌∷◌, ◌++◌, arith,
  length, ltb, leb, network_value32, network_value32-bytes, length-append, append_assoc,
}
use chat.LengthCodec.Frames.{frame, IsPartial}
use chat.LengthCodec.Stream.{frames, AllShort}

-- Of two ways to cut a list, the earlier cut is inside the later one.
append_cut {ℓ} :
    {A : Type ℓ} (xs ys ps qs : List A)
    → ps ++ qs ≡ xs ++ ys
    → length xs ≤ length ps
    → (ps' : List A) × (ps ≡ xs ++ ps') × (ps' ++ qs ≡ ys)
append_cut [] ys ps qs e h = (ps, refl, e)
append_cut (x ∷ xs) ys [] qs e h = absurd (omega arith)
append_cut (x ∷ xs) ys (p ∷ ps) qs e h =
    let inner = append_cut xs ys ps qs (cc) (omega arith) in (inner.0, cc (inner.1), inner.2)

network_value32-append :
    (xs ys : List ℕ) → 4 ≤ length xs → network_value32 (xs ++ ys) ≡ network_value32 xs
network_value32-append [] ys h = absurd (omega arith)
network_value32-append (a ∷ []) ys h = absurd (omega arith)
network_value32-append (a ∷ b ∷ []) ys h = absurd (omega arith)
network_value32-append (a ∷ b ∷ c ∷ []) ys h = absurd (omega arith)
network_value32-append (a ∷ b ∷ c ∷ d ∷ xs) ys h = refl

-- A front part of a frame that is not all of it is incomplete.
front-IsPartial :
    (m rest ps qs : List ℕ)
    → ps ++ qs ≡ frame m ++ rest
    → length m ≤ 65536
    → length ps < 4 + length m
    → IsPartial ps
front-IsPartial m rest ps qs e small h = elim (Bool-cases (ltb (length ps) 4)) [
  | inl short ↦ inl (ground arith)
  | inr long ↦
      let value : network_value32 ps ≡ length m =
        sym (network_value32-append ps qs (ground arith))
        ∙ ap network_value32 e
        ∙ network_value32-bytes (length m) [] (omega arith) in
      inr (omega (arith, value), ground arith, omega (arith, value))
]

-- What was read of a stream: whole frames, and the front of the next one.
pub record Split (ms : List (List ℕ)) (ps qs : List ℕ) : Type 0 where
  pub done : List (List ℕ)
  pub part : List ℕ
  pub left : List (List ℕ)
  pub read : ps ≡ frames done ++ part
  pub unread : part ++ qs ≡ frames left
  pub same : ms ≡ done ++ left
  pub partial : IsPartial part
  pub done_short : AllShort done
  pub left_short : AllShort left

pub frames-Split :
    (ms : List (List ℕ)) (ps qs : List ℕ) → AllShort ms → ps ++ qs ≡ frames ms → Split ms ps qs
frames-Split [] ps qs short e = record {
  done = [];
  part = ps;
  left = [];
  read = refl;
  unread = e;
  same = refl;
  partial = inl (omega (arith, ap length e, length-append ps qs));
  done_short = tt;
  left_short = tt;
}
frames-Split (m ∷ ms) ps qs short e = elim (Bool-cases (leb (length (frame m)) (length ps))) [
  | inl whole ↦
      let cut = append_cut (frame m) (frames ms) ps qs e (ground arith) in
      let inner = frames-Split ms cut.0 qs short.1 cut.2 in
      record {
        done = m ∷ inner.done;
        part = inner.part;
        left = inner.left;
        read =
            cut.1
            ∙ ap (λ xs. frame m ++ xs) inner.read
            ∙ sym (append_assoc (frame m) (frames inner.done) inner.part);
        unread = inner.unread;
        same = ap (λ xs. m ∷ xs) inner.same;
        partial = inner.partial;
        done_short = (short.0, inner.done_short);
        left_short = inner.left_short;
      }
  | inr cut ↦ record {
    done = [];
    part = ps;
    left = m ∷ ms;
    read = refl;
    unread = e;
    same = refl;
    partial = front-IsPartial m (frames ms) ps qs e short.0 (ground arith);
    done_short = tt;
    left_short = short;
  }
]
