-- ===== src/Selector/SwapRemove.antt =====
-- Removal from a list of members as `remove_member_from_group` does it: the last member takes the
-- place of the removed one.
use nikss.Base.{
  ℕ, zero, suc, ◌+◌, ◌-◌, ◌<◌, ◌≤◌, ◌≡◌, ◌∙◌, refl, ap, true, some, List, [], ◌∷◌, length,
  get_elem?, if◌then◌else◌, arith, ◌==◌, Bool-cases, inl, inr, sym,
}
use nikss.Selector.GroupList.{is_member, index_from}

abbrev pub last_of : List ℕ → ℕ
last_of [] = 0
last_of (x ∷ []) = x
last_of (x ∷ y ∷ xs) = last_of (y ∷ xs)

abbrev pub drop_last : List ℕ → List ℕ
drop_last [] = []
drop_last (x ∷ []) = []
drop_last (x ∷ y ∷ xs) = x ∷ drop_last (y ∷ xs)

abbrev pub replace_first : ℕ → ℕ → List ℕ → List ℕ
replace_first m y [] = []
replace_first m y (x ∷ xs) = if x == m then y ∷ xs else x ∷ replace_first m y xs

abbrev pub swap_remove : ℕ → List ℕ → List ℕ
swap_remove m xs = drop_last (replace_first m (last_of xs) xs)

abbrev pub count : ℕ → List ℕ → ℕ
count m [] = 0
count m (x ∷ xs) = (if x == m then 1 else 0) + count m xs

index_from-ge : (i m : ℕ) (xs : List ℕ) → 0 < index_from i m xs → i ≤ index_from i m xs
index_from-ge i m [] h = ground arith
index_from-ge i m (x ∷ xs) h = ground (arith, index_from-ge (i + 1) m xs)

pub index_from-bounds :
    (i m : ℕ) (xs : List ℕ)
    → is_member m xs ≡ true
    → (i ≤ index_from i m xs) × (index_from i m xs < i + length xs)
index_from-bounds i m [] h = ground arith
index_from-bounds i m (x ∷ xs) h = ground (arith, index_from-bounds (i + 1) m xs)

pub length-replace_first : (m y : ℕ) (xs : List ℕ) → length (replace_first m y xs) ≡ length xs
length-replace_first m y [] = refl
length-replace_first m y (x ∷ xs) = ground (arith, length-replace_first m y xs)

pub get_elem?-replace_first :
    (k m y i : ℕ) (xs : List ℕ)
    → 0 < k
    → get_elem? (replace_first m y xs) i
      ≡ (if k + i == index_from k m xs then some y else get_elem? xs i)
get_elem?-replace_first k m y i [] pos = ground arith
get_elem?-replace_first k m y zero (x ∷ xs) pos = ground (arith, index_from-ge (k + 1) m xs)
get_elem?-replace_first k m y (suc i) (x ∷ xs) pos =
    ground (arith, get_elem?-replace_first (k + 1) m y i xs)

pub length-drop_last : (xs : List ℕ) → length (drop_last xs) ≡ length xs - 1
length-drop_last [] = refl
length-drop_last (x ∷ []) = refl
length-drop_last (x ∷ y ∷ xs) = omega (arith, length-drop_last (y ∷ xs))

pub get_elem?-drop_last :
    (xs : List ℕ) (i x : ℕ)
    → get_elem? (drop_last xs) i ≡ some x
    → (suc i < length xs) × (get_elem? xs i ≡ some x)
get_elem?-drop_last [] i x h = ground arith
get_elem?-drop_last (y ∷ []) i x h = ground arith
get_elem?-drop_last (y ∷ z ∷ xs) zero x h = (omega arith, h)
get_elem?-drop_last (y ∷ z ∷ xs) (suc i) x h =
    let (lt, e) = get_elem?-drop_last (z ∷ xs) i x h in (omega arith, e)

pub get_elem?-last : (xs : List ℕ) (n : ℕ) → length xs ≡ suc n → get_elem? xs n ≡ some (last_of xs)
get_elem?-last [] n h = ground arith
get_elem?-last (x ∷ []) zero h = refl
get_elem?-last (x ∷ []) (suc n) h = ground arith
get_elem?-last (x ∷ y ∷ xs) zero h = ground arith
get_elem?-last (x ∷ y ∷ xs) (suc n) h = get_elem?-last (y ∷ xs) n (omega arith)

count-drop_last :
    (k : ℕ) (xs : List ℕ)
    → 0 < length xs
    → count k (drop_last xs) + (if last_of xs == k then 1 else 0) ≡ count k xs
count-drop_last k [] h = ground arith
count-drop_last k (x ∷ []) h = omega arith
count-drop_last k (x ∷ y ∷ xs) h = omega (arith, count-drop_last k (y ∷ xs) (omega arith))

count-replace_first :
    (k m y : ℕ) (xs : List ℕ)
    → is_member m xs ≡ true
    → count k (replace_first m y xs) + (if m == k then 1 else 0)
      ≡ count k xs + (if y == k then 1 else 0)
count-replace_first k m y [] h = ground arith
count-replace_first k m y (x ∷ xs) h = ground (arith, count-replace_first k m y xs)

last_of-cons : (x : ℕ) (xs : List ℕ) → 0 < length xs → last_of (x ∷ xs) ≡ last_of xs
last_of-cons x [] h = ground arith
last_of-cons x (y ∷ xs) h = refl

last_of-replace_first :
    (m : ℕ) (xs : List ℕ) → last_of (replace_first m (last_of xs) xs) ≡ last_of xs
last_of-replace_first m [] = refl
last_of-replace_first m (x ∷ []) = ground arith
last_of-replace_first m (x ∷ y ∷ xs) =
    let ys : List ℕ = y ∷ xs in
    let l : ℕ = last_of ys in
    elim (Bool-cases (x == m)) [
      | inl t ↦ rw t refl
      | inr f ↦ rw f (
          last_of-cons x (replace_first m l ys) (omega (arith, length-replace_first m l ys))
          ∙ last_of-replace_first m (y ∷ xs))
    ]

-- One reference to the removed member is gone, and all else is as often in the list as before.
pub count-swap_remove :
    (k m : ℕ) (xs : List ℕ)
    → is_member m xs ≡ true
    → count k (swap_remove m xs) + (if m == k then 1 else 0) ≡ count k xs
count-swap_remove k m [] h = ground arith
count-swap_remove k m (x ∷ xs) h =
    let ys : List ℕ = x ∷ xs in
    let swapped : List ℕ = replace_first m (last_of ys) ys in
    let full : 0 < length swapped = omega (arith, length-replace_first m (last_of ys) ys) in
    let dropped = count-drop_last k swapped full in
    let dropped' : count k (drop_last swapped) + (if last_of ys == k then 1 else 0)
        ≡ count k swapped =
      ap (λ (l : ℕ). count k (drop_last swapped) + (if l == k then 1 else 0))
        (sym (last_of-replace_first m ys))
      ∙ dropped in
    omega (arith, dropped', count-replace_first k m (last_of ys) ys h)
