-- ===== src/Selector/Append.antt =====
-- `append_member_to_group` on the list of members of a group.
use nikss.Base.{
  ℕ, zero, suc, ◌<◌, ◌≡◌, ◌∙◌, ◌^◌, refl, true, false, some, List, [], ◌∷◌, ◌++◌, length, get_elem?,
  length-append, if◌then◌else◌, arith, ◌==◌, nat_eq, nat_refl, ◌≢◌,
}
use nikss.Bpf.Types.{UpdateLaws, ok, err, eexist, MapDescriptor, any, noexist}
use nikss.Bpf.Exec.{Proc}
use nikss.Selector.Types.{SelectorCalls, MemberContext}
use nikss.Selector.Groups.{
  inc32, is_group_map, get_number_of_members_in_group, update_number_of_members_in_group,
  store_member, append_member_to_group,
}
use nikss.Selector.GroupList.{
  Slots, IsGroup, is_member, index_from-zero, find_member_entry_idx_in_group_lem, some-if,
}

get_elem?-snoc :
    (xs : List ℕ) (m i : ℕ)
    → get_elem? (xs ++ m ∷ []) i ≡ (if i == length xs then some m else get_elem? xs i)
get_elem?-snoc [] m zero = refl
get_elem?-snoc [] m (suc i) = ground arith
get_elem?-snoc (x ∷ xs) m zero = ground arith
get_elem?-snoc (x ∷ xs) m (suc i) = get_elem?-snoc xs m i ∙ ground arith

-- The count and the new member are written.
IsGroup-snoc :
    (f f' : Slots) (last : ℕ) (refs : List ℕ) (m : ℕ)
    → IsGroup f last refs
    → length refs < last
    → ((j : ℕ)
        → f' j ≡ (
            if 0 == j
            then some (suc (length refs))
            else if suc (length refs) == j
            then some m
            else f j))
    → IsGroup f' last (refs ++ m ∷ [])
IsGroup-snoc f f' last refs m g room wrote = record {
  counted = ground (arith, wrote 0, length-append {0} refs (m ∷ []));
  stored = λ i x e. ground (arith, wrote (suc i), get_elem?-snoc refs m i, g.stored i x, e);
  slot = λ i le.
      let (u, there) = some-if (suc (length refs) == i) m (f i) (g.slot i le) in
      let (v, written) = some-if (0 == i) (suc (length refs)) _ (u, there) in
      (v, wrote i ∙ written);
  fits = omega (arith, length-append {0} refs (m ∷ []));
}

module _ {W : Type 0} (calls : SelectorCalls W) (slots : W → ℕ → Slots)
    (laws : UpdateLaws ⦃key_eq = nat_eq⦄ calls.group slots) (fd : ℕ) where
  -- One write in a group.
  pub slots-update :
      (w w' : W) (k v : ℕ) (j : ℕ)
      → calls.group.update w fd k v any ≡ ok w'
      → slots w' fd j ≡ (if k == j then some v else slots w fd j)
  slots-update w w' k v j h = laws.update_find w w' fd k v any fd j h ∙ rw (nat_refl fd) refl

  any-noexist : any ≢ noexist
  any-noexist h = cc

  module _ (last : ℕ) (refs : List ℕ) (s : Proc W) (g : IsGroup (slots s.world fd) last refs)
      (group : MapDescriptor) (sized : is_group_map group ≡ true) (member : MemberContext) where
    counted_read : calls.group.lookup s.world fd 0 ≡ ok (length refs)
    counted_read = laws.lookup_find s.world fd 0 ∙ rw g.counted

    -- Let a group be open whose map holds a list of members, with keys and values of 4 bytes.
    -- Appending a member that is in the list gives EEXIST, and nothing changes.
    pub append_member_to_group-taken :
        is_member member.member_ref refs ≡ true
        → append_member_to_group calls group fd member s ≡ (err eexist, s)
    unfolding append_member_to_group get_number_of_members_in_group
    append_member_to_group-taken taken = rw (
      sized,
      counted_read,
      find_member_entry_idx_in_group_lem calls slots laws fd member.member_ref s.world last refs g,
      index_from-zero 1 member.member_ref refs (omega arith),
      taken,
    )

    -- Let a group be open whose map, with the keys from 0 to `last` < 2 ^ 32 and keys and values of
    -- 4 bytes, holds a list of members that is shorter than `last`. Appending a member that is not
    -- in the list succeeds, and the map then holds the list with the member at its end.
    pub append_member_to_group-new :
        is_member member.member_ref refs ≡ false
        → length refs < last
        → last < 2 ^ 32
        → (w : W) × (append_member_to_group calls group fd member s
            ≡ (ok tt, record s { world = w }))
          × IsGroup (slots w fd) last (refs ++ member.member_ref ∷ [])
    unfolding append_member_to_group get_number_of_members_in_group store_member
        update_number_of_members_in_group
    append_member_to_group-new fresh room bound =
        let m : ℕ = member.member_ref in
        let (u, free) = g.slot (suc (length refs)) (omega arith) in
        let (w1, wrote) =
          laws.update_present s.world fd (suc (length refs)) m u any free any-noexist in
        let kept : slots w1 fd 0 ≡ some (length refs) =
          slots-update s.world w1 (suc (length refs)) m 0 wrote ∙ ground (arith, g.counted) in
        let (w2, counted) =
          laws.update_present w1 fd 0 (suc (length refs)) _ any kept any-noexist in
        let next : inc32 (length refs) ≡ suc (length refs) = omega arith in
        (
          w2,
          rw (
            sized,
            counted_read,
            find_member_entry_idx_in_group_lem calls slots laws fd m s.world last refs g,
            index_from-zero 1 m refs (omega arith),
            fresh,
            next,
            wrote,
            counted,
          ),
          IsGroup-snoc (slots s.world fd) (slots w2 fd) last refs m g room (λ j.
              slots-update w1 w2 0 (suc (length refs)) j counted
              ∙ rw (slots-update s.world w1 (suc (length refs)) m j wrote) refl),
        )
