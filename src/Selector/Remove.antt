-- ===== src/Selector/Remove.antt =====
-- `remove_member_from_group` on the list of members of a group.
use nikss.Base.{
  ℕ, suc, ◌+◌, ◌-◌, ◌<◌, ◌≡◌, ◌∙◌, refl, ap, true, false, some, List, [], ◌∷◌, length,
  if◌then◌else◌, arith, ◌==◌, nat_eq, Bool-cases, inl, inr,
}
use nikss.Bpf.Types.{UpdateLaws, ok, err, enoent, MapDescriptor}
use nikss.Bpf.Exec.{Proc}
use nikss.Selector.Types.{SelectorCalls, MemberContext, invalid_reference}
use nikss.Selector.Groups.{
  is_group_map, removal_batch, get_number_of_members_in_group, remove_member_from_group,
}
use nikss.Selector.GroupList.{
  Slots, IsGroup, is_member, index_from, index_from-zero, find_member_entry_idx_in_group_lem,
  some-if,
}
use nikss.Selector.SwapRemove.{
  last_of, replace_first, swap_remove, count, index_from-bounds, length-replace_first,
  get_elem?-replace_first, length-drop_last, get_elem?-drop_last, get_elem?-last, count-swap_remove,
}

abbrev pub overwritten : List (ℕ × ℕ) → Slots → Slots
overwritten [] f = f
overwritten ((k, v) ∷ kvs) f = overwritten kvs (λ j. if k == j then some v else f j)

abbrev pub ArePresent : List (ℕ × ℕ) → Slots → Type 0
ArePresent [] f = Unit {0}
ArePresent ((k, v) ∷ kvs) f = ((u : ℕ) × (f k ≡ some u)) × ArePresent kvs f

overwritten-present :
    (kvs : List (ℕ × ℕ)) (f : Slots) (j : ℕ)
    → (u : ℕ) × (f j ≡ some u)
    → (v : ℕ) × (overwritten kvs f j ≡ some v)
overwritten-present [] f j h = h
overwritten-present ((k, v) ∷ kvs) f j h =
    overwritten-present kvs (λ i. if k == i then some v else f i) j (some-if (k == j) v (f j) h)

IsGroup-last :
    (f : Slots) (last : ℕ) (refs : List ℕ)
    → IsGroup f last refs
    → 0 < length refs
    → f (length refs) ≡ some (last_of refs)
IsGroup-last f last [] g h = ground arith
IsGroup-last f last (x ∷ xs) g h =
    g.stored (length xs) (last_of (x ∷ xs)) (get_elem?-last (x ∷ xs) (length xs) refl)

-- A batch of writes to keys that are there does them in their order.
pub record BatchLaws {W : Type 0} (calls : SelectorCalls W) (slots : W → ℕ → Slots) : Type 0 where
  pub batch_present :
      (w : W) (fd : ℕ) (kvs : List (ℕ × ℕ))
      → ArePresent kvs (slots w fd)
      → (w' : W) × (calls.group_update_batch w fd kvs ≡ (ok tt, w'))
        × ((j : ℕ) → slots w' fd j ≡ overwritten kvs (slots w fd) j)

overwritten-removal_batch :
    (i n v : ℕ) (f : Slots) (j : ℕ)
    → overwritten (removal_batch i n v) f j ≡ (
        if n == j
        then some 0
        else if 0 == j
        then some (n - 1)
        else if i == n
        then f j
        else if i == j
        then some v
        else f j)
overwritten-removal_batch i n v f j = elim (Bool-cases (i == n)) [
  | inl t ↦ rw t refl
  | inr e ↦ rw e refl
]

-- What the batch writes: the shorter list.
IsGroup-swap_remove :
    (f f' : Slots) (last : ℕ) (refs : List ℕ) (m : ℕ)
    → IsGroup f last refs
    → is_member m refs ≡ true
    → ((j : ℕ)
        → f' j ≡ overwritten (removal_batch (index_from 1 m refs) (length refs) (last_of refs)) f j)
    → IsGroup f' last (swap_remove m refs)
IsGroup-swap_remove f f' last refs m g has wrote =
    let at : ℕ = index_from 1 m refs in
    let bounds = index_from-bounds 1 m refs has in
    let swapped : List ℕ = swap_remove m refs in
    let after =
      λ (j : ℕ). wrote j ∙ overwritten-removal_batch at (length refs) (last_of refs) f j in
    record {
      counted =
          let len : length swapped ≡ length refs - 1 =
            length-drop_last (replace_first m (last_of refs) refs)
            ∙ ap (λ (n : ℕ). n - 1) (length-replace_first m (last_of refs) refs) in
          ground (arith, after 0, len, bounds);
      stored = λ i x e.
          let (lt, e') = get_elem?-drop_last (replace_first m (last_of refs) refs) i x e in
          ground (
            arith,
            after (suc i),
            lt,
            length-replace_first m (last_of refs) refs,
            e',
            get_elem?-replace_first 1 m (last_of refs) i refs (omega arith),
            g.stored i x,
          );
      slot = λ i le.
          let (v, there) =
            overwritten-present (removal_batch at (length refs) (last_of refs)) f i (g.slot i le) in
          (v, wrote i ∙ there);
      fits = omega (
        arith,
        length-drop_last (replace_first m (last_of refs) refs),
        length-replace_first m (last_of refs) refs,
        g.fits,
      );
    }

batch-ArePresent :
    (f : Slots) (last : ℕ) (refs : List ℕ) (m v : ℕ)
    → IsGroup f last refs
    → is_member m refs ≡ true
    → ArePresent (removal_batch (index_from 1 m refs) (length refs) v) f
batch-ArePresent f last refs m v g has =
    let bounds = index_from-bounds 1 m refs has in
    let shorter : ArePresent ((0, length refs - 1) ∷ (length refs, 0) ∷ []) f =
      (g.slot 0 (omega arith), (g.slot (length refs) g.fits, tt)) in
    elim (Bool-cases (index_from 1 m refs == length refs)) [
      | inl t ↦ rw t shorter
      | inr e ↦ rw e (g.slot (index_from 1 m refs) (omega (arith, bounds, g.fits)), shorter)
    ]

module _ {W : Type 0} (calls : SelectorCalls W) (slots : W → ℕ → Slots)
    (laws : UpdateLaws ⦃key_eq = nat_eq⦄ calls.group slots) (batches : BatchLaws calls slots)
    (fd last : ℕ) (refs : List ℕ) (s : Proc W) (g : IsGroup (slots s.world fd) last refs)
    (group : MapDescriptor) (sized : is_group_map group ≡ true) (member : MemberContext)
    (valid : (member.member_ref == invalid_reference) ≡ false) where
  counted_read : calls.group.lookup s.world fd 0 ≡ ok (length refs)
  counted_read = laws.lookup_find s.world fd 0 ∙ rw g.counted

  -- Let a group be open whose map holds a list of members, with keys and values of 4 bytes. Removing
  -- a valid reference that is not in the list gives ENOENT, and nothing changes.
  pub remove_member_from_group-missing :
      is_member member.member_ref refs ≡ false
      → remove_member_from_group calls group fd member s ≡ (err enoent, s)
  unfolding remove_member_from_group get_number_of_members_in_group
  remove_member_from_group-missing missing = rw (
    sized,
    valid,
    counted_read,
    find_member_entry_idx_in_group_lem calls slots laws fd member.member_ref s.world last refs g,
    index_from-zero 1 member.member_ref refs (omega arith),
    missing,
  )

  -- Let a group be open whose map holds a list of members, with keys and values of 4 bytes, in a
  -- kernel that does a batch of writes to present keys in its order. Removing a valid reference that
  -- is in the list succeeds, and the map then holds a list which has that reference once less, and
  -- any other as often as before.
  pub remove_member_from_group-found :
      is_member member.member_ref refs ≡ true
      → (w : W) × (refs' : List ℕ) × (remove_member_from_group calls group fd member s
          ≡ (ok tt, record s { world = w }))
        × IsGroup (slots w fd) last refs'
        × ((k : ℕ) → count k refs' + (if member.member_ref == k then 1 else 0) ≡ count k refs)
  unfolding remove_member_from_group get_number_of_members_in_group
  remove_member_from_group-found has =
      let m : ℕ = member.member_ref in
      let (w, wrote, after) =
        batches.batch_present s.world fd
          (removal_batch (index_from 1 m refs) (length refs) (last_of refs))
          (batch-ArePresent (slots s.world fd) last refs m (last_of refs) g has) in
      (
        w,
        swap_remove m refs,
        (let bounds = index_from-bounds 1 m refs has in
            let last_read : calls.group.lookup s.world fd (length refs) ≡ ok (last_of refs) =
              laws.lookup_find s.world fd (length refs)
              ∙ rw (IsGroup-last (slots s.world fd) last refs g (omega arith)) refl in
            rw (
              sized,
              valid,
              counted_read,
              find_member_entry_idx_in_group_lem calls slots laws fd m s.world last refs g,
              index_from-zero 1 m refs (omega arith),
              has,
              last_read,
              wrote,
            )),
        IsGroup-swap_remove (slots s.world fd) (slots w fd) last refs m g has after,
        λ k. count-swap_remove k m refs has,
      )
