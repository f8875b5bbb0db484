-- ===== src/Struct/Swapped.antt =====
-- `swap_byte_order` of lib/common.c: where each byte comes from.
use nikss.Base.{
  ℕ, zero, suc, ◌+◌, ◌-◌, ◌*◌, ◌/◌, ◌<◌, ◌≤◌, ◌≡◌, ◌∙◌, refl, ap, Bool, false, ◌&&◌, ◌||◌, some, [],
  ◌∷◌, length, get_elem?, ◌==◌, ltb, leb, if◌then◌else◌, arith, Option-cases, inl, inr, Bool-cases,
  true, sym,
}
use nikss.Struct.Buffer.{Bytes, set_at, swap_bytes, swap_from, swap_byte_order}

length-set_at : (xs : Bytes) (k v : ℕ) → length (set_at xs k v) ≡ length xs
length-set_at [] k v = refl
length-set_at (x ∷ xs) zero v = refl
length-set_at (x ∷ xs) (suc k) v = ap suc (length-set_at xs k v)

get_elem?-set_at :
    (xs : Bytes) (k v j : ℕ)
    → k < length xs
    → get_elem? (set_at xs k v) j ≡ (if k == j then some v else get_elem? xs j)
get_elem?-set_at [] k v j lt = ground arith
get_elem?-set_at (x ∷ xs) zero v zero lt = refl
get_elem?-set_at (x ∷ xs) zero v (suc j) lt = ground arith
get_elem?-set_at (x ∷ xs) (suc k) v zero lt = ground arith
get_elem?-set_at (x ∷ xs) (suc k) v (suc j) lt =
    get_elem?-set_at xs k v j (omega arith) ∙ ground arith

get_elem?-lt : (xs : Bytes) (k : ℕ) → k < length xs → (x : ℕ) × (get_elem? xs k ≡ some x)
get_elem?-lt [] k lt = absurd (omega arith)
get_elem?-lt (x ∷ xs) zero lt = (x, refl)
get_elem?-lt (x ∷ xs) (suc k) lt = get_elem?-lt xs k (omega arith)

length-swap_bytes : (xs : Bytes) (a b : ℕ) → length (swap_bytes xs a b) ≡ length xs
unfolding swap_bytes
length-swap_bytes xs a b = elim (Option-cases (get_elem? xs a)) [
  | inl e ↦ rw e refl
  | inr (x, e) ↦ elim (Option-cases (get_elem? xs b)) [
    | inl e' ↦ rw (e, e') refl
    | inr (y, e') ↦ rw (e, e') (length-set_at (set_at xs a y) b x ∙ length-set_at xs a y)
  ]
]

get_elem?-swap_bytes :
    (xs : Bytes) (a b j : ℕ)
    → a < length xs
    → b < length xs
    → get_elem? (swap_bytes xs a b) j
      ≡ (if b == j then get_elem? xs a else if a == j then get_elem? xs b else get_elem? xs j)
unfolding swap_bytes
get_elem?-swap_bytes xs a b j lta ltb' =
    let (x, e) = get_elem?-lt xs a lta in
    let (y, e') = get_elem?-lt xs b ltb' in
    rw (e, e')
      (get_elem?-set_at (set_at xs a y) b x j (omega (arith, length-set_at xs a y))
        ∙ rw (get_elem?-set_at xs a y j lta) refl)

-- The rounds from `i` on reach the byte `j`, from one end or the other.
abbrev is_reached : ℕ → ℕ → ℕ → ℕ → Bool
is_reached i rounds len j =
    leb i j && ltb j (i + rounds) || leb i (len - 1 - j) && ltb (len - 1 - j) (i + rounds)

-- where the byte `p` stands before the round `i`
abbrev source : ℕ → ℕ → ℕ → ℕ
source i len p = if len - 1 - i == p then i else if i == p then len - 1 - i else p

unreached : (i len j : ℕ) → is_reached i 0 len j ≡ false
unreached i len j = ground arith

source_lem :
    (i rounds len j : ℕ)
    → (i + suc rounds) * 2 ≤ len
    → j < len
    → source i len (if is_reached (i + 1) rounds len j then len - 1 - j else j)
      ≡ (if is_reached i (suc rounds) len j then len - 1 - j else j)
source_lem i rounds len j half lt = ground arith

get_elem?-round :
    (xs : Bytes) (i at len p : ℕ)
    → i < len
    → at + len ≤ length xs
    → get_elem? (swap_bytes xs (at + i) (at + (len - 1 - i))) (at + p)
      ≡ get_elem? xs (at + source i len p)
get_elem?-round xs i at len p lt fits =
    get_elem?-swap_bytes xs (at + i) (at + (len - 1 - i)) (at + p) (omega arith) (omega arith)
    ∙ ground arith

swap_from_lem :
    (rounds i at len : ℕ) (xs : Bytes) (j : ℕ)
    → (i + rounds) * 2 ≤ len
    → at + len ≤ length xs
    → j < len
    → get_elem? (swap_from rounds i at len xs) (at + j)
      ≡ get_elem? xs (at + (if is_reached i rounds len j then len - 1 - j else j))
unfolding swap_from
swap_from_lem zero i at len xs j half fits lt = rw (unreached i len j) refl
swap_from_lem (suc rounds) i at len xs j half fits lt =
    let xs' : Bytes = swap_bytes xs (at + i) (at + (len - 1 - i)) in
    let rest =
      swap_from_lem rounds (i + 1) at len xs' j (omega arith)
        (omega (arith, length-swap_bytes xs (at + i) (at + (len - 1 - i)))) lt in
    rest
    ∙ get_elem?-round xs i at len (if is_reached (i + 1) rounds len j then len - 1 - j else j)
        (omega arith) fits
    ∙ ap (λ (n : ℕ). get_elem? xs (at + n)) (source_lem i rounds len j half lt)

length-swap_from :
    (rounds i at len : ℕ) (xs : Bytes) → length (swap_from rounds i at len xs) ≡ length xs
unfolding swap_from
length-swap_from zero i at len xs = refl
length-swap_from (suc rounds) i at len xs =
    length-swap_from rounds (i + 1) at len (swap_bytes xs (at + i) (at + (len - 1 - i)))
    ∙ length-swap_bytes xs (at + i) (at + (len - 1 - i))

all_reached :
    (len j : ℕ) → j < len → (if is_reached 0 (len / 2) len j then len - 1 - j else j) ≡ len - 1 - j
all_reached len j lt = ground arith

outside :
    (rounds i at len : ℕ) (xs : Bytes) (k : ℕ)
    → (i + rounds) * 2 ≤ len
    → at + len ≤ length xs
    → (leb at k && ltb k (at + len)) ≡ false
    → get_elem? (swap_from rounds i at len xs) k ≡ get_elem? xs k
unfolding swap_from
outside zero i at len xs k half fits out = refl
outside (suc rounds) i at len xs k half fits out =
    let xs' : Bytes = swap_bytes xs (at + i) (at + (len - 1 - i)) in
    outside rounds (i + 1) at len xs' k (omega arith)
      (omega (arith, length-swap_bytes xs (at + i) (at + (len - 1 - i)))) out
    ∙ get_elem?-swap_bytes xs (at + i) (at + (len - 1 - i)) k (omega arith) (omega arith)
    ∙ ground arith

-- Where the byte `k` of the buffer comes from.
abbrev pub mirrored : ℕ → ℕ → ℕ → ℕ
mirrored at len k = if leb at k && ltb k (at + len) then at + (len - 1 - (k - at)) else k

inside :
    (at len : ℕ) (xs : Bytes) (k : ℕ)
    → at + len ≤ length xs
    → (leb at k && ltb k (at + len)) ≡ true
    → get_elem? (swap_from (len / 2) 0 at len xs) k ≡ get_elem? xs (at + (len - 1 - (k - at)))
inside at len xs k fits within =
    let same : at + (k - at) ≡ k = ground arith in
    let lt : k - at < len = ground arith in
    ap (get_elem? (swap_from (len / 2) 0 at len xs)) (sym same)
    ∙ swap_from_lem (len / 2) 0 at len xs (k - at) (omega arith) fits lt
    ∙ ap (λ (n : ℕ). get_elem? xs (at + n)) (all_reached len (k - at) lt)

-- Where the data of `len` bytes at the offset `at` lie inside a buffer, they come out in the
-- opposite order; the bytes outside the data and the length of the buffer are kept.
pub swap_byte_order_lem :
    (at len : ℕ) (xs : Bytes)
    → at + len ≤ length xs
    → ((k : ℕ) → get_elem? (swap_byte_order at len xs) k ≡ get_elem? xs (mirrored at len k))
      × (length (swap_byte_order at len xs) ≡ length xs)
unfolding swap_byte_order
swap_byte_order_lem at len xs fits = (
  λ k. elim (Bool-cases (leb at k && ltb k (at + len))) [
    | inl within ↦ rw within (inside at len xs k fits within)
    | inr out ↦ rw out (outside (len / 2) 0 at len xs k (omega arith) fits out)
  ],
  length-swap_from (len / 2) 0 at len xs,
)
