-- ===== src/Selector/InUse.antt =====
-- `member_in_use` and `nikss_action_selector_del_member` on the groups of a selector.
use nikss.Base.{
  ℕ, zero, suc, ◌+◌, ◌-◌, ◌<◌, ◌≤◌, ◌≡◌, ◌∙◌, refl, ap, Bool, true, false, ◌||◌, Option, none, some,
  List, [], ◌∷◌, length, if◌then◌else◌, arith, ◌==◌, nat_eq, replicate,
}
use nikss.Bpf.Types.{UpdateLaws, MapLaws, Result, ok, err, ebusy}
use nikss.Bpf.Exec.{Proc}
use nikss.Table.Clear.{clear_table_cache, clear_table_cache-closed}
use nikss.Selector.Types.{SelectorCalls, SelectorContext, MemberContext}
use nikss.Selector.Groups.{
  open_group_map, open_group_in, get_number_of_members_in_group, is_group_map,
}
use nikss.Selector.GroupList.{
  Slots, IsGroup, is_member, index_from-zero, find_member_entry_idx_in_group_lem,
}
use nikss.Selector.Members.{
  look_in, look_in_group, is_counted_member, unless_found, in_use_from, in_use_in, member_in_use,
  delete_in, delete_unused, del_member, has_groups,
}

-- The keys that bpf_map_get_next_key lists behind one.
abbrev pub AreNext : (Option ℕ → Result ℕ) → Option ℕ → List ℕ → Type 0
AreNext next previous [] = (e : ℕ) × (next previous ≡ err e)
AreNext next previous (k ∷ ks) = (next previous ≡ ok k) × AreNext next (some k) ks

-- whether a list of groups, each with its members, refers to a member
abbrev pub is_referenced : ℕ → List (ℕ × List ℕ) → Bool
is_referenced ref [] = false
is_referenced ref ((k, refs) ∷ groups) = is_member ref refs || is_referenced ref groups

abbrev pub keys_of : List (ℕ × List ℕ) → List ℕ
keys_of [] = []
keys_of ((k, refs) ∷ groups) = k ∷ keys_of groups

module _ {W : Type 0} (calls : SelectorCalls W) (slots : W → ℕ → Slots)
    (laws : UpdateLaws ⦃key_eq = nat_eq⦄ calls.group slots) (ctx : SelectorContext) (outer : ℕ)
    (opened : ctx.map_of_groups.fd ≡ some outer)
    (sized : is_group_map ctx.map_of_groups ≡ true) where
  -- The group `key` can be opened and holds these members.
  pub record IsOpenGroup (w : W) (key : ℕ) (refs : List ℕ) : Type 0 where
    pub id : ℕ
    pub fd : ℕ
    pub last : ℕ
    pub linked : calls.groups.lookup w outer key ≡ ok id
    pub given : calls.map_get_fd w id ≡ ok fd
    pub members : IsGroup (slots w fd) last refs

  abbrev pub AreOpenGroups : W → List (ℕ × List ℕ) → Type 0
  AreOpenGroups w [] = Unit {0}
  AreOpenGroups w ((k, refs) ∷ groups) = IsOpenGroup w k refs × AreOpenGroups w groups

  pub open_group_map_lem :
      (key : ℕ) (refs : List ℕ) (s : Proc W) (g : IsOpenGroup s.world key refs)
      → open_group_map calls ctx (record { group_ref = key }) s
        ≡ (ok g.fd, record s { open_fds = s.open_fds + 1 })
  unfolding open_group_map
  open_group_map_lem key refs s g =
      ap (λ o. open_group_in calls ctx (record { group_ref = key }) o s) opened
      ∙ rw (sized, g.linked, g.given) refl

  look_in_group_lem :
      (ref key : ℕ) (refs : List ℕ) (s : Proc W)
      → IsOpenGroup s.world key refs
      → look_in_group calls ctx ref key s ≡ (is_member ref refs, s)
  unfolding get_number_of_members_in_group
  look_in_group_lem ref key refs s g =
      ap (look_in calls ref) (open_group_map_lem key refs s g)
      ∙ (let count : calls.group.lookup s.world g.fd 0 ≡ ok (length refs) =
            laws.lookup_find s.world g.fd 0 ∙ rw (g.members.counted) refl in
          let fds : s.open_fds + 1 - 1 ≡ s.open_fds = omega arith in
          let found : is_counted_member calls g.fd ref (ok (length refs)) s.world
              ≡ is_member ref refs =
            rw
              (
                find_member_entry_idx_in_group_lem calls slots laws g.fd ref s.world g.last refs
                    g.members,
                index_from-zero 1 ref refs (omega arith),
              )
              (ground arith) in
          rw (count, found, fds) refl)

  -- one round of the loop
  abbrev round : ℕ → ℕ → ℕ → Bool × Proc W → Result Bool × Proc W
  round fuel ref key (found, s) =
      unless_found calls found (calls.groups.next_key s.world outer (some key))
        (λ next_key. in_use_from calls fuel ctx outer ref next_key) s

  or_false : (b : Bool) (s : Proc W) → ◌≡◌ {A = Result Bool × Proc W} (ok b, s) (ok (b || false), s)
  or_false true s = refl
  or_false false s = refl

  if_or :
      (b c : Bool) (s : Proc W)
      → ◌≡◌ {A = Result Bool × Proc W} (if b then (ok true, s) else (ok c, s)) (ok (b || c), s)
  if_or true c s = refl
  if_or false c s = refl

  in_use_from_lem :
      (fuel ref key : ℕ) (refs : List ℕ) (groups : List (ℕ × List ℕ)) (s : Proc W)
      → AreOpenGroups s.world ((key, refs) ∷ groups)
      → AreNext (calls.groups.next_key s.world outer) (some key) (keys_of groups)
      → length groups < fuel
      → in_use_from calls fuel ctx outer ref key s
        ≡ (ok (is_referenced ref ((key, refs) ∷ groups)), s)
  unfolding in_use_from
  in_use_from_lem zero ref key refs groups s (g, gs) next enough = absurd (omega arith)
  in_use_from_lem (suc fuel) ref key refs [] s (g, gs) (e, next) enough =
      ap (round fuel ref key) (look_in_group_lem ref key refs s g)
      ∙ rw next (or_false (is_member ref refs) s)
  in_use_from_lem (suc fuel) ref key refs ((k, refs') ∷ groups) s (g, gs) (next, later) enough =
      let rest = in_use_from_lem fuel ref k refs' groups s gs later (omega arith) in
      ap (round fuel ref key) (look_in_group_lem ref key refs s g)
      ∙ rw (next, rest) (if_or (is_member ref refs) (is_referenced ref ((k, refs') ∷ groups)) s)

  -- Let the map of groups be open with keys and values of 4 bytes, let the kernel list the keys of
  -- `groups`, and let each of these groups be openable and hold its list of members. Then a member
  -- is in use exactly when one of the lists has it; as many rounds as there are groups are enough,
  -- and the process is as before, with every group closed.
  pub member_in_use_lem :
      (fuel ref : ℕ) (groups : List (ℕ × List ℕ)) (s : Proc W)
      → AreOpenGroups s.world groups
      → AreNext (calls.groups.next_key s.world outer) none (keys_of groups)
      → length groups ≤ fuel
      → member_in_use calls fuel ctx ref s ≡ (ok (is_referenced ref groups), s)
  unfolding member_in_use
  member_in_use_lem fuel ref [] s gs (e, next) enough =
      ap (λ o. in_use_in calls fuel ctx ref o s) opened ∙ rw next refl
  member_in_use_lem fuel ref ((key, refs) ∷ groups) s (g, gs) (next, later) enough =
      ap (λ o. in_use_in calls fuel ctx ref o s) opened
      ∙ rw (next, in_use_from_lem fuel ref key refs groups s (g, gs) later (omega arith)) refl

  module _ (members : W → ℕ → ℕ → Option (List ℕ))
      (member_laws : MapLaws ⦃key_eq = nat_eq⦄ calls.members members) (fd fuel : ℕ)
      (member : MemberContext) (groups : List (ℕ × List ℕ)) (s : Proc W)
      (members_opened : ctx.map_of_members.fd ≡ some fd)
      (members_sized : (ctx.map_of_members.key_size == 4) ≡ true)
      (group_sized : is_group_map ctx.group ≡ true) (gs : AreOpenGroups s.world groups)
      (listed : AreNext (calls.groups.next_key s.world outer) none (keys_of groups))
      (enough : length groups ≤ fuel) where
    del-run :
        del_member calls fuel (some ctx) (some member) s
        ≡ delete_unused calls fuel ctx fd member.member_ref
            (ok (is_referenced member.member_ref groups))
            s
    unfolding del_member
    del-run =
        ap (λ o. delete_in calls fuel ctx member o s) members_opened
        ∙ rw
            (
              members_sized,
              ap (has_groups calls) opened,
              group_sized,
              member_in_use_lem fuel member.member_ref groups s gs listed enough,
            )
            refl

    -- In a selector with open maps of members and groups, with keys of 4 bytes (in the groups also
    -- values), whose groups are as `groups` says: a member that one of the groups refers to is not
    -- deleted, the result is EBUSY and nothing changes. As much fuel as there are groups is enough.
    pub del_member-used :
        is_referenced member.member_ref groups ≡ true
        → del_member calls fuel (some ctx) (some member) s ≡ (err ebusy, s)
    del_member-used used =
        del-run ∙ ap (λ b. delete_unused calls fuel ctx fd member.member_ref (ok b) s) used

    -- In a selector without a cache, with open maps of members and groups, with keys of 4 bytes (in
    -- the groups also values), whose groups are as `groups` says: the deletion of a member that is
    -- there and that no group refers to succeeds; it removes the entry of this member and keeps
    -- every other. As much fuel as there are groups is enough.
    pub del_member-unused :
        (value : List ℕ)
        → ctx.cache.fd ≡ none
        → is_referenced member.member_ref groups ≡ false
        → members s.world fd member.member_ref ≡ some value
        → (w : W) × (del_member calls fuel (some ctx) (some member) s
            ≡ (ok tt, record s { world = w }))
          × ((n j : ℕ)
              → members w n j ≡ (
                  if fd == n
                  then (if member.member_ref == j then none else members s.world n j)
                  else members s.world n j))
    unfolding clear_table_cache
    del_member-unused value closed unused there =
        let (w, deleted) = member_laws.delete_present s.world fd member.member_ref value there in
        (
          w,
          del-run
              ∙ ap (λ b. delete_unused calls fuel ctx fd member.member_ref (ok b) s) unused
              ∙ rw
                  (
                    deleted,
                    clear_table_cache-closed calls.cache_map (replicate ctx.cache.value_size 0) fuel
                        ctx.cache (record s { world = w }) closed,
                  )
                  refl,
          λ n j. member_laws.delete_find s.world w fd member.member_ref n j deleted,
        )
