-- ===== src/Selector/GroupList.antt =====
-- The list of members that the map of a group holds, and the search in it.
use nikss.Base.{
  ℕ, suc, ◌+◌, ◌<◌, ◌≤◌, ◌≡◌, ◌∙◌, refl, ap, Bool, false, ◌||◌, not, Option, some, List, [], ◌∷◌,
  length, get_elem?, if◌then◌else◌, arith, ◌==◌, nat_eq, true,
}
use nikss.Bpf.Types.{UpdateLaws}
use nikss.Selector.Types.{SelectorCalls}
use nikss.Selector.Groups.{find_member_from, find_member_entry_idx_in_group}

abbrev pub Slots : Type 0
Slots = ℕ → Option ℕ

-- The map has the keys from 0 to `last`; the first one counts the members, which stand behind it.
pub record IsGroup (f : Slots) (last : ℕ) (refs : List ℕ) : Type 0 where
  pub counted : f 0 ≡ some (length refs)
  pub stored : (i x : ℕ) → get_elem? refs i ≡ some x → f (suc i) ≡ some x
  pub slot : (i : ℕ) → i ≤ last → (u : ℕ) × (f i ≡ some u)
  pub fits : length refs ≤ last

abbrev pub is_member : ℕ → List ℕ → Bool
is_member m [] = false
is_member m (x ∷ xs) = x == m || is_member m xs

-- the key of the first entry with the reference `m`, where the list stands at the key `i`; 0 if
-- there is none
abbrev pub index_from : ℕ → ℕ → List ℕ → ℕ
index_from i m [] = 0
index_from i m (x ∷ xs) = if x == m then i else index_from (i + 1) m xs

pub index_from-zero :
    (i m : ℕ) (xs : List ℕ) → 0 < i → (index_from i m xs == 0) ≡ not (is_member m xs)
index_from-zero i m [] pos = refl
index_from-zero i m (x ∷ xs) pos = ground (arith, index_from-zero (i + 1) m xs)

pub some-if :
    (b : Bool) (a : ℕ) (o : Option ℕ)
    → (u : ℕ) × (o ≡ some u)
    → (v : ℕ) × ((if b then some a else o) ≡ some v)
some-if true a o h = (a, refl)
some-if false a o h = h

module _ {W : Type 0} (calls : SelectorCalls W) (slots : W → ℕ → Slots)
    (laws : UpdateLaws ⦃key_eq = nat_eq⦄ calls.group slots) (fd m : ℕ) (w : W) where
  find_member_from_lem :
      (i : ℕ) (xs : List ℕ)
      → ((j x : ℕ) → get_elem? xs j ≡ some x → slots w fd (i + j) ≡ some x)
      → find_member_from calls (length xs) fd i m w ≡ index_from i m xs
  unfolding find_member_from
  find_member_from_lem i [] h = refl
  find_member_from_lem i (x ∷ xs) h =
      let here : slots w fd i ≡ some x = ap (slots w fd) (omega arith) ∙ h 0 x refl in
      let rest : find_member_from calls (length xs) fd (i + 1) m w ≡ index_from (i + 1) m xs =
        find_member_from_lem (i + 1) xs (λ j y e. ap (slots w fd) (omega arith) ∙ h (suc j) y e) in
      rw (laws.lookup_find w fd i, here, rest)

  -- The search in a group finds the first place of the reference.
  pub find_member_entry_idx_in_group_lem :
      (last : ℕ) (refs : List ℕ)
      → IsGroup (slots w fd) last refs
      → find_member_entry_idx_in_group calls fd (length refs) m w ≡ index_from 1 m refs
  unfolding find_member_entry_idx_in_group
  find_member_entry_idx_in_group_lem last refs g =
      find_member_from_lem 1 refs (λ j x e. ap (slots w fd) (omega arith) ∙ g.stored j x e)
