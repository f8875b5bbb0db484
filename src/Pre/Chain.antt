-- ===== src/Pre/Chain.antt =====
-- The list that an inner map holds: what the functions of lib/nikss_pre.c take it to be, and how
-- it changes when a node is written or removed.
use nikss.Base.{
  ◌≡◌, refl, ◌∙◌, subst, Bool, true, false, ◌||◌, Option, none, some, List, [], ◌∷◌, inl, inr,
  if◌then◌else◌, arith, Bool-cases,
}
use nikss.Pre.Types.{
  ElemT, CloneSessionEntry, Element, zero_elem, zero_entry, elem_beq, elem_beq_iff,
}
use nikss.Pre.Entry.{key_of}

abbrev pub Contents : Type 0
Contents = ElemT → Option Element

abbrev pub node : CloneSessionEntry → ElemT → Element
node e next = record { entry = e; next_id = next }

abbrev pub has_key : ElemT → List CloneSessionEntry → Bool
has_key k [] = false
has_key k (x ∷ xs) = elem_beq (key_of x) k || has_key k xs

-- the key that the node before the list `xs` points to
abbrev pub next_of : List CloneSessionEntry → ElemT
next_of [] = zero_elem
next_of (x ∷ xs) = key_of x

-- From the node at `k` with the entry `e` the links lead through `xs` and end.
abbrev pub IsChain : Contents → ElemT → CloneSessionEntry → List CloneSessionEntry → Type 0
IsChain f k e [] = f k ≡ some (node e zero_elem)
IsChain f k e (x ∷ xs) = (f k ≡ some (node e (key_of x))) × IsChain f (key_of x) x xs

-- No key stands twice, and none is the head's.
abbrev pub IsDistinct : List CloneSessionEntry → Type 0
IsDistinct [] = Unit {0}
IsDistinct (x ∷ xs) =
    (elem_beq zero_elem (key_of x) ≡ false) × (has_key (key_of x) xs ≡ false) × IsDistinct xs

-- The inner map holds the list `xs` behind its head, and nothing else.
pub record IsSession (f : Contents) (xs : List CloneSessionEntry) : Type 0 where
  pub chain : IsChain f zero_elem zero_entry xs
  pub distinct : IsDistinct xs
  pub complete : (k : ElemT) → elem_beq zero_elem k ≡ false → has_key k xs ≡ false → f k ≡ none

abbrev pub erase : ElemT → List CloneSessionEntry → List CloneSessionEntry
erase t [] = []
erase t (x ∷ xs) = if elem_beq (key_of x) t then xs else x ∷ erase t xs

-- the key and the entry of the node before the one at `t`, and the key behind `t`
abbrev pub previous_of :
    ElemT → ElemT → CloneSessionEntry → List CloneSessionEntry → ElemT × CloneSessionEntry
previous_of t k e [] = (k, e)
previous_of t k e (x ∷ xs) = if elem_beq (key_of x) t then (k, e) else previous_of t (key_of x) x xs

abbrev pub next_after : ElemT → List CloneSessionEntry → ElemT
next_after t [] = zero_elem
next_after t (x ∷ xs) = if elem_beq (key_of x) t then next_of xs else next_after t xs

pub elem_refl : (a : ElemT) → elem_beq a a ≡ true
elem_refl a = (elem_beq_iff a a).1 refl

pub elem_eq_of : (a b : ElemT) → elem_beq a b ≡ true → a ≡ b
elem_eq_of a b = (elem_beq_iff a b).0

pub elem_beq_comm : (a b : ElemT) → elem_beq a b ≡ elem_beq b a
elem_beq_comm a b = ground arith

pub IsChain-head :
    (f : Contents) (k : ElemT) (e : CloneSessionEntry) (xs : List CloneSessionEntry)
    → IsChain f k e xs
    → f k ≡ some (node e (next_of xs))
IsChain-head f k e [] h = h
IsChain-head f k e (x ∷ xs) h = h.0

-- The cells behind a node are a chain of another node that points to them, if they are kept.
pub IsChain-relink :
    (f g : Contents) (k k' : ElemT) (e e' : CloneSessionEntry) (xs : List CloneSessionEntry)
    → IsChain f k e xs
    → g k' ≡ some (node e' (next_of xs))
    → ((j : ElemT) → has_key j xs ≡ true → g j ≡ f j)
    → IsChain g k' e' xs
IsChain-relink f g k k' e e' [] h link keep = link
IsChain-relink f g k k' e e' (x ∷ xs) h link keep =
    let own : g (key_of x) ≡ f (key_of x) =
      keep (key_of x) (ground (arith, elem_refl (key_of x))) in
    (
      link,
      IsChain-relink f g (key_of x) (key_of x) x x xs h.1 (own ∙ IsChain-head f (key_of x) x xs h.1)
          (λ j m. keep j (ground arith)),
    )

-- A key of the list is in the map, and its node points to what stands behind it.
pub IsChain-find :
    (f : Contents) (k : ElemT) (e : CloneSessionEntry) (xs : List CloneSessionEntry) (t : ElemT)
    → IsChain f k e xs
    → has_key t xs ≡ true
    → (x : CloneSessionEntry) × (f t ≡ some (node x (next_after t xs)))
IsChain-find f k e [] t h m = cc
IsChain-find f k e (x ∷ xs) t h m = elim (Bool-cases (elem_beq (key_of x) t)) [
  | inl here ↦ (
    x,
    rw here (
        subst (λ t. f t ≡ some (node x (next_of xs))) (elem_eq_of (key_of x) t here)
          (IsChain-head f (key_of x) x xs h.1)),
  )
  | inr later ↦ rw later (IsChain-find f (key_of x) x xs t h.1 (ground arith))
]

-- The node before `t` is the first one or one of the list.
pub previous_of-has_key :
    (t k : ElemT) (e : CloneSessionEntry) (xs : List CloneSessionEntry)
    → (elem_beq k (previous_of t k e xs).0 || has_key (previous_of t k e xs).0 xs) ≡ true
previous_of-has_key t k e [] = ground (arith, elem_refl k)
previous_of-has_key t k e (x ∷ xs) =
    ground (arith, elem_refl k, previous_of-has_key t (key_of x) x xs)

pub has_key-ne :
    (a b : ElemT) (xs : List CloneSessionEntry)
    → has_key a xs ≡ false
    → has_key b xs ≡ true
    → elem_beq a b ≡ false
has_key-ne a b xs p q = elim (Bool-cases (elem_beq a b)) [
  | inl same ↦
      (let p' : has_key b xs ≡ false = subst (λ c. has_key c xs ≡ false) (elem_eq_of a b same) p in
        cc)
  | inr other ↦ other
]
