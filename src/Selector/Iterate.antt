-- ===== src/Selector/Iterate.antt =====
-- lib/nikss_action_selector.c: the iterators over groups, over the members of a group and over all
-- members, whose position is kept in the context. They return what they found, or `none` for NULL.
use nikss.Base.{ℕ, not, Option, none, some, ◌==◌, ltb, if◌then◌else◌}
use nikss.Bpf.Types.{Result, ok, err, hangs}
use nikss.Bpf.Exec.{Proc, close_fds}
use nikss.Selector.Types.{
  SelectorCalls, SelectorContext, MemberContext, GroupContext, Action, invalid_reference,
}
use nikss.Selector.Groups.{is_group_map, open_group_map, get_number_of_members_in_group, inc32}
use nikss.Selector.Context.{closed, group_init, member_init}

-- What an iterator gives: an item, the context and the process.
abbrev pub Iterated : Type 0 → Type 0 → Type 0
Iterated W A = Option A × SelectorContext × Proc W

-- the key behind the last one, from the first one on at the invalid reference
abbrev pub position : ℕ → Option ℕ
position id = if id == invalid_reference then none else some id

module _ {W : Type 0} (calls : SelectorCalls W) where
  abbrev pub with_group : SelectorContext → Result ℕ → Proc W → Iterated W GroupContext
  with_group ctx (ok key) s = (
    some (record { group_ref = key }),
    record ctx { current_group = record { group_ref = key }; current_group_id = key },
    s,
  )
  with_group ctx (err e) s = (none, record ctx { current_group_id = invalid_reference }, s)
  with_group ctx hangs s = (none, record ctx { current_group_id = invalid_reference }, s)

  abbrev pub next_group_in : SelectorContext → Option ℕ → Proc W → Iterated W GroupContext
  next_group_in ctx none s = (none, ctx, s)
  next_group_in ctx (some fd) s =
      if not (ctx.map_of_groups.key_size == 4)
      then (none, ctx, s)
      else with_group (record ctx { group = closed ctx.group; current_group = group_init })
          (calls.groups.next_key s.world fd (position ctx.current_group_id))
          (close_fds ctx.group.fd s)

  unfoldable pub get_next_group : SelectorContext → Proc W → Iterated W GroupContext
  get_next_group ctx s = next_group_in ctx ctx.map_of_groups.fd s

  abbrev pub with_action :
      (SelectorContext → MemberContext → SelectorContext)
      → SelectorContext
      → MemberContext
      → Result Action
      → Proc W
      → Iterated W MemberContext
  with_action done ctx m (ok action) s =
      let m' = record m { action = action } in
      (some m', done (record ctx { current_member = m' }) m', s)
  with_action done ctx m (err e) s = (none, record ctx { current_member = m }, s)
  with_action done ctx m hangs s = (none, record ctx { current_member = m }, s)

  abbrev pub get_member_action : SelectorContext → MemberContext → W → Result Action
  get_member_action ctx m w = calls.table_entry_get ctx.map_of_members m.member_ref w

  -- `err_or_no_more_members`
  abbrev pub no_more_members : SelectorContext → Proc W → Iterated W MemberContext
  no_more_members ctx s = (
    none,
    record ctx { group = closed ctx.group; current_member_id = 0 },
    close_fds ctx.group.fd s,
  )

  abbrev pub with_reference : SelectorContext → Result ℕ → Proc W → Iterated W MemberContext
  with_reference ctx (ok ref) s =
      let m = record member_init { member_ref = ref } in
      with_action (λ c m'. c) ctx m (get_member_action ctx m s.world) s
  with_reference ctx (err e) s = no_more_members ctx s
  with_reference ctx hangs s = no_more_members ctx s

  abbrev pub member_behind : SelectorContext → ℕ → Result ℕ → Proc W → Iterated W MemberContext
  member_behind ctx fd (ok number_of_members) s =
      let ctx' = record ctx { current_member_id = inc32 ctx.current_member_id } in
      if ltb ctx.current_member_id number_of_members
      then with_reference ctx' (calls.group.lookup s.world fd ctx'.current_member_id) s
      else no_more_members ctx s
  member_behind ctx fd (err e) s = no_more_members ctx s
  member_behind ctx fd hangs s = no_more_members ctx s

  abbrev pub member_in : SelectorContext → Option ℕ → Proc W → Iterated W MemberContext
  member_in ctx none s = no_more_members ctx s
  member_in ctx (some fd) s = member_behind ctx fd (get_number_of_members_in_group calls fd s).0 s

  abbrev pub reopened : SelectorContext → Result ℕ × Proc W → Iterated W MemberContext
  reopened ctx (ok fd, s) =
      member_in (record ctx { group = record ctx.group { fd = some fd }; current_member_id = 0 })
        (some fd) s
  reopened ctx (err e, s) = no_more_members ctx s
  reopened ctx (hangs, s) = no_more_members ctx s

  abbrev pub reopen : SelectorContext → GroupContext → Proc W → Iterated W MemberContext
  reopen ctx g s =
      let ctx' = record ctx { group = closed ctx.group; current_group_id = g.group_ref } in
      reopened ctx' (open_group_map calls ctx' g (close_fds ctx.group.fd s))

  -- The open group of the context is used again where it is the one that is asked for.
  abbrev pub member_of :
      SelectorContext → GroupContext → Option ℕ → Proc W → Iterated W MemberContext
  member_of ctx g none s = reopen ctx g s
  member_of ctx g (some fd) s =
      if not (ctx.current_group_id == g.group_ref)
      then reopen ctx g s
      else member_in ctx (some fd) s

  unfoldable pub get_next_group_member :
      SelectorContext → GroupContext → Proc W → Iterated W MemberContext
  unfolding open_group_map get_number_of_members_in_group
  get_next_group_member ctx g s =
      if not (is_group_map ctx.group)
      then (none, ctx, s)
      else member_of (record ctx { current_member = member_init }) g ctx.group.fd s

  abbrev pub with_member : SelectorContext → Result ℕ → Proc W → Iterated W MemberContext
  with_member ctx (ok ref) s =
      let m = record member_init { member_ref = ref } in
      with_action (λ c m'. record c { current_member_id = m'.member_ref }) ctx m
        (get_member_action ctx m s.world) s
  with_member ctx (err e) s = (none, record ctx { current_member_id = invalid_reference }, s)
  with_member ctx hangs s = (none, record ctx { current_member_id = invalid_reference }, s)

  abbrev pub next_member_in : SelectorContext → Option ℕ → Proc W → Iterated W MemberContext
  next_member_in ctx none s = (none, ctx, s)
  next_member_in ctx (some fd) s =
      if not (ctx.map_of_members.key_size == 4)
      then (none, ctx, s)
      else with_member (record ctx { current_member = member_init })
          (calls.members.next_key s.world fd (position ctx.current_member_id)) s

  unfoldable pub get_next_member : SelectorContext → Proc W → Iterated W MemberContext
  get_next_member ctx s = next_member_in ctx ctx.map_of_members.fd s
