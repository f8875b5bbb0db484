-- ===== src/Direct/ByIndex.antt =====
-- The loop of lib/nikss_direct_counter.c and lib/nikss_direct_meter.c that looks for the object of
-- an entry that has an index, and what it finds behind an append.
use nikss.Base.{
  ℕ, ◌≡◌, ◌≢◌, refl, false, Option, none, some, List, [], ◌∷◌, ◌++◌, ◌==◌, if◌then◌else◌, arith,
  Bool-cases, inl, inr, nat_refl,
}

module _ {A : Type 0} (index_of : A → ℕ) where
  unfoldable pub find_index : ℕ → List A → Option A
  find_index idx [] = none
  find_index idx (e ∷ es) =
      let rest = find_index idx es in if idx == index_of e then some e else rest

  -- the object found first
  abbrev pub first_or : Option A → A → Option A
  first_or none e = some e
  first_or (some old) e = some old

  pub find_index-append :
      (e : A) (es : List A)
      → find_index (index_of e) (es ++ e ∷ []) ≡ first_or (find_index (index_of e) es) e
  unfolding find_index
  find_index-append e [] = rw (nat_refl (index_of e)) refl
  find_index-append e (x ∷ es) = elim (Bool-cases (index_of e == index_of x)) [
    | inl t ↦ rw t refl
    | inr f ↦ rw f (find_index-append e es)
  ]

  pub find_index-other :
      (idx : ℕ) (e : A) (es : List A)
      → idx ≢ index_of e
      → find_index idx (es ++ e ∷ []) ≡ find_index idx es
  unfolding find_index
  find_index-other idx e [] ne = let f : (idx == index_of e) ≡ false = ground arith in rw f refl
  find_index-other idx e (x ∷ es) ne = elim (Bool-cases (idx == index_of x)) [
    | inl t ↦ rw t refl
    | inr f ↦ rw f (find_index-other idx e es ne)
  ]
