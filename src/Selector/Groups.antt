-- ===== src/Selector/Groups.antt =====
-- lib/nikss_action_selector.c: the map of a group, which holds the number of its members at the key 0
-- and their references behind it.
use nikss.Base.{
  ℕ, zero, suc, ◌+◌, ◌-◌, Bool, true, false, not, ◌&&◌, ◌||◌, Option, none, some, List, [], ◌∷◌,
  ◌==◌, if◌then◌else◌, ◌%◌, ◌^◌, replicate,
}
use nikss.Bpf.Types.{
  Result, ok, err, hangs, MapDescriptor, any, einval, enoent, eperm, eexist, is_ok,
}
use nikss.Bpf.Exec.{Proc, Exec, ◌>>◌, query, command, finally, close_fds}
use nikss.Table.Clear.{clear_table_cache}
use nikss.Selector.Types.{
  SelectorCalls, SelectorContext, MemberContext, GroupContext, invalid_reference,
}

-- uint32_t arithmetic
abbrev pub inc32 : ℕ → ℕ
inc32 n = (n + 1) % 2 ^ 32

abbrev pub is_group_map : MapDescriptor → Bool
is_group_map md = md.key_size == 4 && md.value_size == 4

-- The entries that are written in one batch: the last member goes to the place of the removed one.
abbrev pub removal_batch : ℕ → ℕ → ℕ → List (ℕ × ℕ)
removal_batch index_to_remove number_of_members last_member_ref =
    let shorter = (0, number_of_members - 1) ∷ (number_of_members, 0) ∷ [] in
    if index_to_remove == number_of_members
    then shorter
    else (index_to_remove, last_member_ref) ∷ shorter

-- the code of clearing the cache is dropped
abbrev pub ignoring : {W : Type 0} → Result (Unit {0}) × Proc W → Result (Unit {0}) × Proc W
ignoring (ok u, s) = (ok tt, s)
ignoring (err e, s) = (ok tt, s)
ignoring (hangs, s) = (hangs, s)

module _ {W : Type 0} (calls : SelectorCalls W) where
  -- The descriptor of the group in the context, as `open_group_map` leaves it.
  abbrev group_fd : Result ℕ → Proc W → Result ℕ × Proc W
  group_fd (ok fd) s = (ok fd, record s { open_fds = s.open_fds + 1 })
  group_fd (err e) s = (err enoent, s)
  group_fd hangs s = (hangs, s)

  abbrev group_by_id : Result ℕ → Exec W ℕ
  group_by_id (ok inner_map_id) s = group_fd (calls.map_get_fd s.world inner_map_id) s
  group_by_id (err e) s = (err enoent, s)
  group_by_id hangs s = (hangs, s)

  abbrev pub open_group_in : SelectorContext → GroupContext → Option ℕ → Exec W ℕ
  open_group_in ctx g none s = (err einval, s)
  open_group_in ctx g (some fd) s =
      if not (is_group_map ctx.map_of_groups)
      then (err einval, s)
      else group_by_id (calls.groups.lookup s.world fd g.group_ref) s

  -- Returns the new `ctx->group.fd`.
  unfoldable pub open_group_map : SelectorContext → GroupContext → Exec W ℕ
  open_group_map ctx g s = open_group_in ctx g ctx.map_of_groups.fd s

  unfoldable pub get_number_of_members_in_group : ℕ → Exec W ℕ
  get_number_of_members_in_group fd = query (λ w. calls.group.lookup w fd 0)

  unfoldable pub update_number_of_members_in_group : ℕ → ℕ → Exec W (Unit {0})
  update_number_of_members_in_group fd new_value =
      command (λ w. calls.group.update w fd 0 new_value any)

  abbrev is_ref : Result ℕ → ℕ → Bool
  is_ref (ok current_member_ref) member_ref = current_member_ref == member_ref
  is_ref (err e) member_ref = false
  is_ref hangs member_ref = false

  -- The `for` loop from `index` on, for so many rounds.
  unfoldable pub find_member_from : ℕ → ℕ → ℕ → ℕ → W → ℕ
  find_member_from zero fd index member_ref w = 0
  find_member_from (suc rounds) fd index member_ref w =
      let rest = find_member_from rounds fd (index + 1) member_ref w in
      if is_ref (calls.group.lookup w fd index) member_ref then index else rest

  unfoldable pub find_member_entry_idx_in_group : ℕ → ℕ → ℕ → W → ℕ
  find_member_entry_idx_in_group fd number_of_members member_ref w =
      find_member_from number_of_members fd 1 member_ref w

  -- The new member is written behind the others, and then counted.
  unfoldable pub store_member : ℕ → ℕ → ℕ → Exec W (Unit {0})
  store_member fd member_ref number_of_members = do
    command (λ w. calls.group.update w fd (inc32 number_of_members) member_ref any)
    update_number_of_members_in_group fd (inc32 number_of_members)

  abbrev append_counted : ℕ → ℕ → Result ℕ → Exec W (Unit {0})
  append_counted fd member_ref (ok number_of_members) s =
      if not (find_member_entry_idx_in_group fd number_of_members member_ref s.world == 0)
      then (err eexist, s)
      else store_member fd member_ref number_of_members s
  append_counted fd member_ref (err e) s = (err eperm, s)
  append_counted fd member_ref hangs s = (hangs, s)

  -- `ctx->group`: its sizes, and the descriptor that is open in it
  unfoldable pub append_member_to_group : MapDescriptor → ℕ → MemberContext → Exec W (Unit {0})
  append_member_to_group group fd member s =
      if not (is_group_map group)
      then (err einval, s)
      else append_counted fd member.member_ref (get_number_of_members_in_group fd s).0 s

  abbrev settled : Result (Unit {0}) × W → Proc W → Result (Unit {0}) × Proc W
  settled (r, w) s = (r, record s { world = w })

  abbrev remove_last_known : ℕ → ℕ → ℕ → Result ℕ → Exec W (Unit {0})
  remove_last_known fd index_to_remove number_of_members (ok last_member_ref) s =
      settled
        (calls.group_update_batch s.world fd
          (removal_batch index_to_remove number_of_members last_member_ref))
        s
  remove_last_known fd index_to_remove number_of_members (err e) s = (err e, s)
  remove_last_known fd index_to_remove number_of_members hangs s = (hangs, s)

  abbrev remove_at : ℕ → ℕ → ℕ → Exec W (Unit {0})
  remove_at fd number_of_members index_to_remove s =
      if index_to_remove == 0
      then (err enoent, s)
      else remove_last_known fd index_to_remove number_of_members
          (calls.group.lookup s.world fd number_of_members) s

  abbrev remove_counted : ℕ → ℕ → Result ℕ → Exec W (Unit {0})
  remove_counted fd member_ref (ok number_of_members) s =
      remove_at fd number_of_members
        (find_member_entry_idx_in_group fd number_of_members member_ref s.world) s
  remove_counted fd member_ref (err e) s = (err eperm, s)
  remove_counted fd member_ref hangs s = (hangs, s)

  unfoldable pub remove_member_from_group : MapDescriptor → ℕ → MemberContext → Exec W (Unit {0})
  remove_member_from_group group fd member s =
      if not (is_group_map group)
      then (err einval, s)
      else if member.member_ref == invalid_reference
      then (err einval, s)
      else remove_counted fd member.member_ref (get_number_of_members_in_group fd s).0 s

  -- `bpf_map_lookup_elem` on the map of members, the value dropped
  unfoldable pub validate_member_reference : SelectorContext → MemberContext → W → Bool
  validate_member_reference ctx member w = elim ctx.map_of_members.fd [
    | none ↦ false
    | some fd ↦ is_ok (calls.members.lookup w fd member.member_ref)
  ]

  -- Both functions open the group, work on it and close it.
  abbrev pub in_open_group :
      (ℕ → Exec W (Unit {0})) → Result ℕ × Proc W → Result (Unit {0}) × Proc W
  in_open_group body (ok fd, s) = finally (body fd) (close_fds (some fd)) s
  in_open_group body (err e, s) = (err e, s)
  in_open_group body (hangs, s) = (hangs, s)

  abbrev pub with_group_open :
      SelectorContext → GroupContext → (ℕ → Exec W (Unit {0})) → Exec W (Unit {0})
  with_group_open ctx g body s = in_open_group body (open_group_map ctx g s)

  abbrev is_closed : Option ℕ → Bool
  is_closed none = true
  is_closed (some fd) = false

  -- What the cache is cleared with; a failure is only reported, but the code of it is returned.
  unfoldable pub add_member_to_group :
      ℕ → Option SelectorContext → Option GroupContext → Option MemberContext → Exec W (Unit {0})
  add_member_to_group fuel (some ctx) (some g) (some m) s =
      if not (is_group_map ctx.group)
        || not (is_closed ctx.group.fd)
        || not (validate_member_reference ctx m s.world)
      then (err einval, s)
      else (with_group_open ctx g (λ fd. append_member_to_group ctx.group fd m)
            >> clear_table_cache calls.cache_map (replicate ctx.cache.value_size 0) fuel ctx.cache)
          s
  add_member_to_group fuel _ _ _ s = (err einval, s)

  unfoldable pub del_member_from_group :
      ℕ → Option SelectorContext → Option GroupContext → Option MemberContext → Exec W (Unit {0})
  del_member_from_group fuel (some ctx) (some g) (some m) s =
      if not (is_group_map ctx.group)
        || not (is_closed ctx.group.fd)
        || m.member_ref == invalid_reference
      then (err einval, s)
      else (with_group_open ctx g (λ fd. remove_member_from_group ctx.group fd m) >> λ s.
            ignoring (
              clear_table_cache calls.cache_map (replicate ctx.cache.value_size 0) fuel ctx.cache
                s))
          s
  del_member_from_group fuel _ _ _ s = (err einval, s)
