-- ===== src/Hub/Maps.antt =====
-- hub.cc: the sets and the map of the hub, by what they hold.
use chat.Prelude.{
  ℕ, ◌≡◌, ◌⊎◌, refl, sym, ap, ◌∙◌, arith, Bool, true, false, not, ◌&&◌, ◌||◌, List, [], ◌∷◌, ◌==◌,
  if◌then◌else◌, Bool-cases, inl, inr,
}
use chat.Hub.{
  Text, eq_text, has_text, insert_text, erase_text, has_conn, insert_conn, erase_conn, Topic,
  get_topic, put_topic,
}

pub eq_text→≡ : (a b : Text) → eq_text a b ≡ true → a ≡ b
eq_text→≡ [] [] h = refl
eq_text→≡ [] (y ∷ b) h = absurd (ground arith)
eq_text→≡ (x ∷ a) [] h = absurd (ground arith)
eq_text→≡ (x ∷ a) (y ∷ b) h =
    let first : x ≡ y = ground arith in let rest : a ≡ b = eq_text→≡ a b (ground arith) in cc

pub eq_text_refl : (a : Text) → eq_text a a ≡ true
eq_text_refl [] = refl
eq_text_refl (x ∷ a) = ground (arith, eq_text_refl a)

pub eq_text_sym : (a b : Text) → eq_text a b ≡ eq_text b a
eq_text_sym [] [] = refl
eq_text_sym [] (y ∷ b) = refl
eq_text_sym (x ∷ a) [] = refl
eq_text_sym (x ∷ a) (y ∷ b) = ground (arith, eq_text_sym a b)

pub has-insert_text :
    (t u : Text) (l : List Text) → has_text t (insert_text u l) ≡ (eq_text t u || has_text t l)
unfolding has_text insert_text
has-insert_text t u l = elim (Bool-cases (has_text u l)) [
  | inl e ↦ rw e (elim (Bool-cases (eq_text t u)) [
    | inl f ↦ rw f (ap (λ x. has_text x l) (eq_text→≡ t u f) ∙ e)
    | inr f ↦ rw f refl
  ])
  | inr e ↦ rw e refl
]

same_text : (t u w : Text) → eq_text u w ≡ true → eq_text t w ≡ eq_text t u
same_text t u w e = ap (eq_text t) (sym (eq_text→≡ u w e))

pub has-erase_text :
    (t u : Text) (l : List Text) → has_text t (erase_text u l) ≡ (not (eq_text t u) && has_text t l)
unfolding has_text erase_text
has-erase_text t u [] = ground arith
has-erase_text t u (w ∷ l) = elim (Bool-cases (eq_text u w)) [
  | inl e ↦
      rw (e, same_text t u w e, has-erase_text t u l) (drop_again (eq_text t u) (has_text t l))
  | inr e ↦ rw (e, has-erase_text t u l) (other_stays (Bool-cases (eq_text t u)) e)
]
  where
    drop_again : (a b : Bool) → (not a && b) ≡ (not a && (a || b))
    drop_again true b = refl
    drop_again false b = refl

    other_stays :
        (eq_text t u ≡ true) ⊎ (eq_text t u ≡ false)
        → eq_text u w ≡ false
        → (eq_text t w || (not (eq_text t u) && has_text t l))
          ≡ (not (eq_text t u) && (eq_text t w || has_text t l))
    other_stays (inl f) e = rw (f, ap (λ x. eq_text x w) (eq_text→≡ t u f) ∙ e) refl
    other_stays (inr f) e = rw f refl

pub has-insert_conn :
    (c d : ℕ) (l : List ℕ) → has_conn c (insert_conn d l) ≡ ((c == d) || has_conn c l)
unfolding has_conn insert_conn
has-insert_conn c d [] = refl
has-insert_conn c d (x ∷ l) = ground (arith, has-insert_conn c d l)

pub has-erase_conn :
    (c d : ℕ) (l : List ℕ) → has_conn c (erase_conn d l) ≡ (not (c == d) && has_conn c l)
unfolding has_conn erase_conn
has-erase_conn c d [] = ground arith
has-erase_conn c d (x ∷ l) = ground (arith, has-erase_conn c d l)

pub get-put_topic :
    (m n : Text) (t : Topic) (ts : List (Text × Topic))
    → get_topic n (put_topic m t ts) ≡ (if eq_text m n then t else get_topic n ts)
unfolding get_topic put_topic
get-put_topic m n t [] = refl
get-put_topic m n t ((k, u) ∷ ts) = elim (Bool-cases (eq_text k m)) [
  | inl e ↦ rw (e, ap (λ x. eq_text x n) (eq_text→≡ k m e)) (go (eq_text m n) (get_topic n ts))
  | inr e ↦ rw (e, get-put_topic m n t ts) (apart (Bool-cases (eq_text k n)) e)
]
  where
    go : (b : Bool) (x : Topic) → (if b then t else x) ≡ (if b then t else (if b then u else x))
    go true x = refl
    go false x = refl

    apart :
        (eq_text k n ≡ true) ⊎ (eq_text k n ≡ false)
        → eq_text k m ≡ false
        → (if eq_text k n then u else (if eq_text m n then t else get_topic n ts))
          ≡ (if eq_text m n then t else (if eq_text k n then u else get_topic n ts))
    apart (inl f) e =
        rw (f, eq_text_sym m n ∙ sym (ap (λ x. eq_text x m) (eq_text→≡ k n f)) ∙ e) refl
    apart (inr f) e = rw f refl
