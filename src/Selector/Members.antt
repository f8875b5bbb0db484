-- ===== src/Selector/Members.antt =====
-- lib/nikss_action_selector.c: the members of a selector or of an action profile. The functions are
-- modelled for a context whose group is closed, as it is between two calls of this file.
use nikss.Base.{
  ℕ, zero, suc, ◌+◌, Bool, true, false, not, ◌&&◌, Option, none, some, ◌==◌, if◌then◌else◌,
  replicate,
}
use nikss.Bpf.Types.{Result, ok, err, hangs, MapCalls, MapDescriptor, noexist, einval, efbig, ebusy}
use nikss.Bpf.Exec.{Proc, Exec, command, close_fds, continue}
use nikss.Table.Clear.{clear_table_cache, after}
use nikss.Selector.Types.{SelectorCalls, SelectorContext, MemberContext, invalid_reference}
use nikss.Selector.Groups.{
  open_group_map, get_number_of_members_in_group, find_member_entry_idx_in_group, is_group_map,
  ignoring,
}

abbrev pub settled : {W : Type 0} → Result (Unit {0}) × W → Proc W → Result (Unit {0}) × Proc W
settled (r, w) s = (r, record s { world = w })

module _ {W V : Type 0} (calls : MapCalls W ℕ V) where
  -- The loop from `ref` on, for so many rounds; with the invalid reference no round has succeeded.
  unfoldable pub reserve_from : ℕ → ℕ → V → ℕ → W → ℕ × W
  reserve_from zero fd value ref w = (invalid_reference, w)
  reserve_from (suc rounds) fd value ref w =
      let rest = reserve_from rounds fd value (ref + 1) w in
      elim (calls.update w fd ref value noexist) [ ok w' ↦ (ref, w') | err e ↦ rest | hangs ↦ rest ]

  abbrev pub reserve_in : MapDescriptor → V → Option ℕ → W → ℕ × W
  reserve_in map value none w = (invalid_reference, w)
  reserve_in map value (some fd) w =
      if not (map.key_size == 4)
      then (invalid_reference, w)
      else reserve_from map.max_entries fd value 1 w

  -- `value` is the data, or zeros where it is NULL. The map has less than 2 ^ 32 - 1 entries, so that
  -- the counter of the loop does not wrap around.
  unfoldable pub find_and_reserve_reference : MapDescriptor → V → W → ℕ × W
  find_and_reserve_reference map value w = reserve_in map value map.fd w

module _ {W : Type 0} (calls : SelectorCalls W) where
  abbrev pub update_in : SelectorContext → MemberContext → Option ℕ → Exec W (Unit {0})
  update_in ctx m none s = (err einval, s)
  update_in ctx m (some fd) s =
      settled (calls.table_entry_update ctx.map_of_members ctx.cache m.member_ref m.action s.world)
        s

  -- It writes the entry of the table of members, which also clears the cache.
  unfoldable pub update_member : Option SelectorContext → Option MemberContext → Exec W (Unit {0})
  update_member (some ctx) (some m) s = update_in ctx m ctx.map_of_members.fd s
  update_member _ _ s = (err einval, s)

  -- After a failure the reservation is taken back, and the code of that is not looked at.
  abbrev pub undo_unless : ℕ → ℕ → Result (Unit {0}) × Proc W → Result (Unit {0}) × Proc W
  undo_unless fd ref (ok u, s) = (ok u, s)
  undo_unless fd ref (hangs, s) = (hangs, s)
  undo_unless fd ref (err e, s) =
      (err e, record s { world = after (calls.members.delete s.world fd ref) s.world })

  abbrev pub add_reserved :
      SelectorContext
      → MemberContext
      → ℕ
      → ℕ × W
      → Proc W
      → (Result (Unit {0}) × MemberContext) × Proc W
  add_reserved ctx m fd (ref, w) s =
      let m' = record m { member_ref = ref } in
      if ref == invalid_reference
      then ((err efbig, m'), record s { world = w })
      else (let (r, s') =
            undo_unless fd ref (update_member (some ctx) (some m') (record s { world = w })) in
          ((r, m'), s'))

  abbrev pub add_in :
      SelectorContext
      → MemberContext
      → Option ℕ
      → Proc W
      → (Result (Unit {0}) × MemberContext) × Proc W
  add_in ctx m none s = ((err einval, m), s)
  add_in ctx m (some fd) s =
      add_reserved ctx m fd
        (find_and_reserve_reference calls.members ctx.map_of_members
          (replicate ctx.map_of_members.value_size 0) s.world)
        s

  -- Returns the member too, whose reference is set, also where the function fails later.
  unfoldable pub add_member :
      Option SelectorContext
      → Option MemberContext
      → Proc W
      → (Result (Unit {0}) × Option MemberContext) × Proc W
  unfolding update_member
  add_member (some ctx) (some m) s =
      let ((r, m'), s') = add_in ctx m ctx.map_of_members.fd s in ((r, some m'), s')
  add_member _ m s = ((err einval, m), s)

  -- whether the open group `fd` has the member
  abbrev pub is_counted_member : ℕ → ℕ → Result ℕ → W → Bool
  is_counted_member fd ref (ok number_of_members) w =
      not (find_member_entry_idx_in_group calls fd number_of_members ref w == 0)
  is_counted_member fd ref (err e) w = false
  is_counted_member fd ref hangs w = false

  -- One group is opened, looked through and closed; one that cannot be opened is passed over.
  abbrev pub look_in : ℕ → Result ℕ × Proc W → Bool × Proc W
  look_in ref (ok fd, s) = (
    is_counted_member fd ref (get_number_of_members_in_group calls fd s).0 s.world,
    close_fds (some fd) s,
  )
  look_in ref (err e, s) = (false, s)
  look_in ref (hangs, s) = (false, s)

  abbrev pub look_in_group : SelectorContext → ℕ → ℕ → Proc W → Bool × Proc W
  look_in_group ctx ref key s =
      look_in ref (open_group_map calls ctx (record { group_ref = key }) s)

  -- the condition of the loop, where `rest` is what it does from the next key on
  abbrev pub unless_found : Bool → Result ℕ → (ℕ → Exec W Bool) → Exec W Bool
  unless_found found (ok next_key) rest s = if found then (ok true, s) else rest next_key s
  unless_found found (err e) rest s = (ok found, s)
  unless_found found hangs rest s = (hangs, s)

  -- The `do … while` loop over the keys of the map of groups, from `key` on.
  unfoldable pub in_use_from : ℕ → SelectorContext → ℕ → ℕ → ℕ → Exec W Bool
  in_use_from zero ctx groups_fd ref key s = (hangs, s)
  in_use_from (suc fuel) ctx groups_fd ref key s =
      let (found, s') = look_in_group ctx ref key s in
      unless_found found (calls.groups.next_key s'.world groups_fd (some key))
        (λ next_key. in_use_from fuel ctx groups_fd ref next_key) s'

  abbrev pub in_use_first : ℕ → SelectorContext → ℕ → ℕ → Result ℕ → Exec W Bool
  in_use_first fuel ctx fd ref (ok key) s = in_use_from fuel ctx fd ref key s
  in_use_first fuel ctx fd ref (err e) s = (ok false, s)
  in_use_first fuel ctx fd ref hangs s = (hangs, s)

  abbrev pub in_use_in : ℕ → SelectorContext → ℕ → Option ℕ → Exec W Bool
  in_use_in fuel ctx ref none s = (ok false, s)
  in_use_in fuel ctx ref (some fd) s =
      in_use_first fuel ctx fd ref (calls.groups.next_key s.world fd none) s

  unfoldable pub member_in_use : ℕ → SelectorContext → ℕ → Exec W Bool
  unfolding in_use_from
  member_in_use fuel ctx ref s = in_use_in fuel ctx ref ctx.map_of_groups.fd s

  abbrev pub delete_unused : ℕ → SelectorContext → ℕ → ℕ → Result Bool → Exec W (Unit {0})
  delete_unused fuel ctx fd ref (ok true) s = (err ebusy, s)
  delete_unused fuel ctx fd ref (ok false) s =
      continue (command (λ w. calls.members.delete w fd ref) s).0
        (λ u s'.
          ignoring (
            clear_table_cache calls.cache_map (replicate ctx.cache.value_size 0) fuel ctx.cache s'))
        (command (λ w. calls.members.delete w fd ref) s).1
  delete_unused fuel ctx fd ref (err e) s = (err e, s)
  delete_unused fuel ctx fd ref hangs s = (hangs, s)

  abbrev pub has_groups : Option ℕ → Bool
  has_groups none = false
  has_groups (some fd) = true

  abbrev pub delete_in : ℕ → SelectorContext → MemberContext → Option ℕ → Exec W (Unit {0})
  delete_in fuel ctx m none s = (err einval, s)
  delete_in fuel ctx m (some fd) s =
      if not (ctx.map_of_members.key_size == 4)
      then (err einval, s)
      else if has_groups ctx.map_of_groups.fd && not (is_group_map ctx.group)
      then (err einval, s)
      else (let (used, s') = member_in_use fuel ctx m.member_ref s in
          delete_unused fuel ctx fd m.member_ref used s')

  -- The fuel bounds the loop over the groups, and the clearing of the cache.
  unfoldable pub del_member : ℕ → Option SelectorContext → Option MemberContext → Exec W (Unit {0})
  unfolding member_in_use in_use_from clear_table_cache
  del_member fuel (some ctx) (some m) s = delete_in fuel ctx m ctx.map_of_members.fd s
  del_member fuel _ _ s = (err einval, s)
