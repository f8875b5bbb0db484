-- ===== src/Pre/Lists.antt =====
-- How the list of a session changes when a node is put in front of it or taken out of it.
use nikss.Base.{
  ◌≡◌, refl, ◌∙◌, subst, true, false, ◌||◌, none, some, List, [], ◌∷◌, inl, inr, if◌then◌else◌,
  arith, Bool-cases,
}
use nikss.Pre.Types.{ElemT, CloneSessionEntry, Element, zero_elem, zero_entry, elem_beq}
use nikss.Pre.Entry.{key_of}
use nikss.Pre.Chain.{
  Contents, node, has_key, next_of, IsDistinct, IsSession, erase, previous_of, next_after,
  elem_refl, elem_eq_of, elem_beq_comm, has_key-ne, IsChain-relink, previous_of-has_key,
}
use nikss.Pre.Unlink.{Cut, IsChain-Cut, erase-IsDistinct, has_key-erase_cases}

pub head-not-has_key : (xs : List CloneSessionEntry) → IsDistinct xs → has_key zero_elem xs ≡ false
head-not-has_key [] d = refl
head-not-has_key (x ∷ xs) d =
    ground (arith, elem_beq_comm zero_elem (key_of x), head-not-has_key xs d.2)

-- A key that is neither the first nor one of the list is not the one of a node.
out_of_list :
    (z p k : ElemT) (xs : List CloneSessionEntry)
    → (elem_beq z p || has_key p xs) ≡ true
    → elem_beq z k ≡ false
    → has_key k xs ≡ false
    → elem_beq p k ≡ false
out_of_list z p k xs m nz out = elim (Bool-cases (elem_beq p k)) [
  | inl same ↦
      (let m' : (elem_beq z k || has_key k xs) ≡ true =
          subst (λ a. (elem_beq z a || has_key a xs) ≡ true) (elem_eq_of p k same) m in
        ground arith)
  | inr other ↦ other
]

-- What the map holds once a node for `x` is there and the head points to it.
abbrev pub Pushed : Contents → CloneSessionEntry → List CloneSessionEntry → Contents → Type 0
Pushed f x xs g =
    (j : ElemT)
    → g j ≡ (
        if elem_beq zero_elem j
        then some (node zero_entry (key_of x))
        else if elem_beq (key_of x) j
        then some (node x (next_of xs))
        else f j)

module _ (f g : Contents) (xs : List CloneSessionEntry) (s : IsSession f xs) where
  pub IsSession-Pushed :
      (x : CloneSessionEntry)
      → elem_beq zero_elem (key_of x) ≡ false
      → has_key (key_of x) xs ≡ false
      → Pushed f x xs g
      → IsSession g (x ∷ xs)
  IsSession-Pushed x ne fresh pushed = record {
    chain = (
      pushed zero_elem,
      IsChain-relink f g zero_elem (key_of x) zero_entry x xs s.chain
          (pushed (key_of x) ∙ rw (ne, elem_refl (key_of x)))
          (λ j m.
            pushed j
            ∙ rw (
              has_key-ne zero_elem j xs (head-not-has_key xs s.distinct) m,
              has_key-ne (key_of x) j xs fresh m,
            )),
    );
    distinct = (ne, fresh, s.distinct);
    complete = λ k nz m. ground (arith, pushed k, s.complete k nz);
  }

  complete_cut :
      (t k p : ElemT) (v : Element)
      → elem_beq zero_elem k ≡ false
      → has_key k xs ≡ false
      → g k ≡ (if elem_beq t k then none else if elem_beq p k then some v else f k)
      → elem_beq p k ≡ false
      → g k ≡ none
  complete_cut t k p v nz out cut ne = ground (arith, s.complete k nz out)

  pub IsSession-Cut :
      (t : ElemT)
      → has_key t xs ≡ true
      → Cut f t
          (previous_of t zero_elem zero_entry xs).0
          (node (previous_of t zero_elem zero_entry xs).1 (next_after t xs))
          g
      → IsSession g (erase t xs)
  IsSession-Cut t m cut = record {
    chain =
        IsChain-Cut f g t zero_elem zero_entry xs s.chain s.distinct
          (head-not-has_key xs s.distinct)
          (elem_beq_comm t zero_elem ∙ has_key-ne zero_elem t xs (head-not-has_key xs s.distinct) m)
          m cut;
    distinct = erase-IsDistinct t xs s.distinct;
    complete = λ k nz m'. elim (has_key-erase_cases t k xs m') [
      | inl same ↦ cut k ∙ rw same
      | inr out ↦ complete_cut t k _ _ nz out (cut k) (
          out_of_list zero_elem (previous_of t zero_elem zero_entry xs).0 k xs
            (previous_of-has_key t zero_elem zero_entry xs) nz out)
    ];
  }
