-- ===== src/SudokuStat/Count.antt =====
-- excercises/sudoku/stat.h: `recordResponse` on every branch.
use chat.Prelude.{
  ℕ, zero, suc, ◌+◌, ◌-◌, ◌≤◌, ◌<◌, ◌≡◌, refl, sym, ap, subst, ◌∙◌, arith, true, false, some, List,
  [], ◌∷◌, leb, ◌==◌, if◌then◌else◌, length, set, get_elem?, length-set, Bool-cases, inl, inr,
}
use chat.SudokuStat.Buckets.{at, covered, Covers, Same, at_back, get_or_zero, get_set}
use chat.SudokuStat.Record.{Inv, Ready}
use chat.SudokuStat.{SudokuStat, count, add_to_back, add_at}

-- The newest element is for the later of the last second and `second`, the buffers cover the seconds
-- that `covered` says, each of them has what it had, and `second` has the response on top.
pub record Counted (second elapsed : ℕ) (s r : SudokuStat) : Type 0 where
  pub inv : Inv r
  pub last : r.last_second ≡ (if leb second s.last_second then s.last_second else second)
  pub size : length r.requests ≡ covered s.last_second second (length s.requests)
  pub requests :
      (t : ℕ)
      → Covers r.last_second r.requests t
      → at r.last_second r.requests t
        ≡ at s.last_second s.requests t + (if t == second then 1 else 0)
  pub latencies :
      (t : ℕ)
      → Covers r.last_second r.latencies t
      → at r.last_second r.latencies t
        ≡ at s.last_second s.latencies t + (if t == second then elapsed else 0)

filled_list : (l : List ℕ) → 0 < length l → (x : ℕ) × (xs : List ℕ) × (l ≡ x ∷ xs)
filled_list [] h = absurd (omega arith)
filled_list (x ∷ xs) h = (x, xs, refl)

pub empty_list : (l : List ℕ) → length l ≤ 0 → l ≡ []
empty_list [] h = refl
empty_list (x ∷ xs) h = absurd (omega arith)

-- `back() += n` on a buffer whose newest element is for `second`.
record Backed (second n : ℕ) (last : ℕ) (l : List ℕ) (last' : ℕ) (k : List ℕ) : Type 0 where
  pub result : List ℕ
  pub runs : add_to_back n k ≡ some result
  pub same_length : length result ≡ length k
  pub counts :
      (t : ℕ)
      → Covers last' result t
      → at last' result t ≡ at last l t + (if t == second then n else 0)

backed :
    (second n last : ℕ) (l : List ℕ) (last' : ℕ) (k : List ℕ)
    → last' ≡ second
    → 0 < length k
    → Same last l last' k
    → Backed second n last l last' k
unfolding add_to_back
backed second n last l last' k e h same =
    let (x, xs, shape) = filled_list k h in
    subst (Backed second n last l last') (sym shape) (record {
      result = (x + n) ∷ xs;
      runs = refl;
      same_length = refl;
      counts = λ t c.
          at_back last' n x xs t c
          ∙ ap (λ y. y + (if t == last' then n else 0))
              (subst (λ m. at last' m t ≡ at last l t) shape
                (same.same t (subst (λ m. Covers last' m t) (sym shape) c)))
          ∙ ap (λ y. at last l t + (if t == y then n else 0)) e;
    })

pub count-Counted :
    (second elapsed : ℕ) (s p : SudokuStat)
    → Ready second s p
    → s.last_second ≤ second
    → length p.requests ≡ covered s.last_second second (length s.requests)
    → (r : SudokuStat) × (count elapsed p ≡ some r) × Counted second elapsed s r
count-Counted second elapsed s p v later size =
    let a =
      backed second 1 s.last_second s.requests p.last_second p.requests v.now v.filled v.requests in
    let b =
      backed second elapsed s.last_second s.latencies p.last_second p.latencies v.now
        (omega (arith, v.filled, v.inv.sizes)) v.latencies in
    (
      record p { requests = a.result; latencies = b.result },
      rw (a.runs, b.runs) refl,
      record {
        inv = record {
          sizes = a.same_length ∙ v.inv.sizes ∙ sym b.same_length;
          full = omega (arith, a.same_length, v.inv.full);
          started = omega (arith, a.same_length, v.inv.started);
          current = λ h. omega (arith, a.same_length, v.filled);
        };
        last = ground (arith, later, v.now);
        size = a.same_length ∙ size;
        requests = a.counts;
        latencies = b.counts;
      },
    )

-- `[idx] += n` for an earlier second that is covered.
pub record Placed (second n last : ℕ) (l : List ℕ) : Type 0 where
  pub result : List ℕ
  pub runs : add_at (second - (last + 1 - length l)) n l ≡ some result
  pub same_length : length result ≡ length l
  pub counts :
      (t : ℕ)
      → Covers last result t
      → at last result t ≡ at last l t + (if t == second then n else 0)

get_of_or_zero : (l : List ℕ) (i : ℕ) → i < length l → get_elem? l i ≡ some (get_or_zero l i)
get_of_or_zero [] i h = absurd (omega arith)
get_of_or_zero (x ∷ l) zero h = refl
get_of_or_zero (x ∷ l) (suc i) h = get_of_or_zero l i (omega arith)

pub placed :
    (second n last : ℕ) (l : List ℕ)
    → length l ≤ last
    → last < second + length l
    → second ≤ last
    → Placed second n last l
unfolding add_at
placed second n last l started covered below =
    let k = last - second in
    let index : length l - 1 - (second - (last + 1 - length l)) ≡ k = omega arith in
    let inside : k < length l = omega arith in
    record {
      result = set l k (get_or_zero l k + n);
      runs = rw (index, get_of_or_zero l k inside) refl;
      same_length = length-set l k (get_or_zero l k + n);
      counts = λ t c.
          let size = length-set l k (get_or_zero l k + n) in
          let within : leb t last ≡ true = ground arith in
          rw (within, get_set l k (last - t) (get_or_zero l k + n) inside)
            (elim (Bool-cases (t == second)) [
              | inl e ↦
                  let there : last - t ≡ k = ground arith in
                  let hit : (last - t == k) ≡ true = ground arith in rw (hit, e, there) refl
              | inr e ↦
                  let miss : (last - t == k) ≡ false = ground arith in rw (miss, e) (omega arith)
            ]);
    }
