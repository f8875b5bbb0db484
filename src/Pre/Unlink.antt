-- ===== src/Pre/Unlink.antt =====
-- A chain from which the function that deletes an entry has cut a node.
use nikss.Base.{
  ◌≡◌, refl, ◌∙◌, subst, true, false, none, some, List, [], ◌∷◌, ◌⊎◌, inl, inr, if◌then◌else◌,
  arith, Bool-cases,
}
use nikss.Pre.Types.{ElemT, CloneSessionEntry, Element, elem_beq}
use nikss.Pre.Entry.{key_of}
use nikss.Pre.Chain.{
  Contents, node, has_key, next_of, IsChain, IsDistinct, erase, previous_of, next_after, elem_refl,
  elem_eq_of, elem_beq_comm, IsChain-relink, previous_of-has_key, has_key-ne,
}

-- What is left of `f` when the node at `t` is removed and the one at `p` has the value `v`.
abbrev pub Cut : Contents → ElemT → ElemT → Element → Contents → Type 0
Cut f t p v g =
    (j : ElemT) → g j ≡ (if elem_beq t j then none else if elem_beq p j then some v else f j)

module _ (f g : Contents) (t : ElemT) where
  relink_first :
      (k : ElemT) (e x : CloneSessionEntry) (xs : List CloneSessionEntry)
      → IsChain f (key_of x) x xs
      → has_key t xs ≡ false
      → has_key k xs ≡ false
      → elem_beq t k ≡ false
      → Cut f t k (node e (next_of xs)) g
      → IsChain g k e xs
  relink_first k e x xs h gone fresh ne cut =
      IsChain-relink f g (key_of x) k x e xs h (cut k ∙ rw (ne, elem_refl k))
        (λ j m. cut j ∙ rw (has_key-ne t j xs gone m, has_key-ne k j xs fresh m))

  kept_node :
      (k p : ElemT) (e : CloneSessionEntry) (v : Element) (xs : List CloneSessionEntry)
      → has_key k xs ≡ false
      → has_key p xs ≡ true
      → elem_beq t k ≡ false
      → Cut f t p v g
      → g k ≡ f k
  kept_node k p e v xs fresh m ne cut =
      cut k ∙ rw (ne, elem_beq_comm p k, has_key-ne k p xs fresh m)

  -- Cutting a node of a chain out leaves the chain without its first entry with that key.
  pub IsChain-Cut :
      (k : ElemT) (e : CloneSessionEntry) (xs : List CloneSessionEntry)
      → IsChain f k e xs
      → IsDistinct xs
      → has_key k xs ≡ false
      → elem_beq t k ≡ false
      → has_key t xs ≡ true
      → Cut f t (previous_of t k e xs).0 (node (previous_of t k e xs).1 (next_after t xs)) g
      → IsChain g k e (erase t xs)
  IsChain-Cut k e [] h d fresh ne m cut = cc
  IsChain-Cut k e (x ∷ xs) h d fresh ne m cut = elim (Bool-cases (elem_beq (key_of x) t)) [
    | inl here ↦ rw here (
        relink_first k e x xs h.1
          (subst (λ a. has_key a xs ≡ false) (elem_eq_of (key_of x) t here) d.1) (ground arith) ne
          (rw here at cut))
    | inr later ↦ rw later (
      kept_node k (previous_of t (key_of x) x xs).0 e
            (node (previous_of t (key_of x) x xs).1 (next_after t xs)) (x ∷ xs) fresh
            (previous_of-has_key t (key_of x) x xs) ne (rw later at cut)
          ∙ h.0,
      IsChain-Cut (key_of x) x xs h.1 d.2 d.1 (elem_beq_comm t (key_of x) ∙ later) (ground arith)
          (rw later at cut),
    )
  ]

pub has_key-erase :
    (t j : ElemT) (xs : List CloneSessionEntry)
    → has_key j (erase t xs) ≡ true
    → has_key j xs ≡ true
has_key-erase t j [] m = m
has_key-erase t j (x ∷ xs) m = ground (arith, has_key-erase t j xs)

not-has_key-erase :
    (t j : ElemT) (xs : List CloneSessionEntry)
    → has_key j xs ≡ false
    → has_key j (erase t xs) ≡ false
not-has_key-erase t j [] m = m
not-has_key-erase t j (x ∷ xs) m = ground (arith, not-has_key-erase t j xs)

pub erase-IsDistinct :
    (t : ElemT) (xs : List CloneSessionEntry) → IsDistinct xs → IsDistinct (erase t xs)
erase-IsDistinct t [] d = d
erase-IsDistinct t (x ∷ xs) d = elim (Bool-cases (elem_beq (key_of x) t)) [
  | inl here ↦ rw here d.2
  | inr later ↦ rw later (d.0, not-has_key-erase t (key_of x) xs d.1, erase-IsDistinct t xs d.2)
]

-- What is not in the shortened list was not in the list, or is what has been removed.
pub has_key-erase_cases :
    (t j : ElemT) (xs : List CloneSessionEntry)
    → has_key j (erase t xs) ≡ false
    → (elem_beq t j ≡ true) ⊎ (has_key j xs ≡ false)
has_key-erase_cases t j [] m = inr refl
has_key-erase_cases t j (x ∷ xs) m = ground (arith, has_key-erase_cases t j xs)
