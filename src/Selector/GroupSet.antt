-- ===== src/Selector/GroupSet.antt =====
-- lib/nikss_action_selector.c: the set of groups of a selector, and the action of an empty group.
use nikss.Base.{ℕ, ◌+◌, ◌-◌, not, Option, none, some, ◌==◌, if◌then◌else◌, replicate}
use nikss.Bpf.Types.{Result, ok, err, hangs, MapDescriptor, MapInfo, einval, efbig}
use nikss.Bpf.Exec.{Proc, Exec, command, query, ◌>>◌, pure}
use nikss.Table.Clear.{clear_table_cache}
use nikss.Selector.Types.{
  SelectorCalls, SelectorContext, MemberContext, GroupContext, Action, invalid_reference,
}
use nikss.Selector.Groups.{is_group_map, ignoring}
use nikss.Selector.Members.{find_and_reserve_reference, reserve_from, settled}

module _ {W : Type 0} (calls : SelectorCalls W) where
  abbrev no_group_error : ℕ → Result (Unit {0})
  no_group_error ref = if ref == invalid_reference then err efbig else ok tt

  -- The new map is put at the reference, and its descriptor is closed again.
  abbrev insert_group :
      SelectorContext
      → GroupContext
      → Result (ℕ × W)
      → Proc W
      → (Result (Unit {0}) × GroupContext) × Proc W
  insert_group ctx g (err e) s = ((err e, g), s)
  insert_group ctx g hangs s = ((hangs, g), s)
  insert_group ctx g (ok (fd, w)) s =
      let (ref, w') = find_and_reserve_reference calls.groups ctx.map_of_groups fd w in
      (
        (no_group_error ref, record g { group_ref = ref }),
        record s { world = w'; open_fds = s.open_fds + 1 - 1 },
      )

  abbrev attr_of : MapDescriptor → MapInfo
  attr_of md = record {
    type = md.type;
    key_size = md.key_size;
    value_size = md.value_size;
    max_entries = md.max_entries;
  }

  abbrev add_group_in :
      SelectorContext
      → GroupContext
      → Option ℕ
      → Option ℕ
      → Proc W
      → (Result (Unit {0}) × GroupContext) × Proc W
  add_group_in ctx g none group_fd s = ((err einval, g), s)
  add_group_in ctx g (some fd) (some group_fd) s = ((err einval, g), s)
  add_group_in ctx g (some fd) none s =
      if not (is_group_map ctx.group)
      then ((err einval, g), s)
      else insert_group ctx g (calls.create_map s.world (attr_of ctx.group)) s

  -- Returns the group too, whose reference is set.
  unfoldable pub add_group :
      Option SelectorContext
      → Option GroupContext
      → Proc W
      → (Result (Unit {0}) × Option GroupContext) × Proc W
  unfolding find_and_reserve_reference reserve_from
  add_group (some ctx) (some g) s =
      let ((r, g'), s') = add_group_in ctx g ctx.map_of_groups.fd ctx.group.fd s in
      ((r, some g'), s')
  add_group _ g s = ((err einval, g), s)

  abbrev del_group_in : ℕ → SelectorContext → GroupContext → Option ℕ → Exec W (Unit {0})
  del_group_in fuel ctx g none s = (err einval, s)
  del_group_in fuel ctx g (some fd) s =
      (command (λ w. calls.groups.delete w fd g.group_ref) >> λ s'.
      ignoring
        (clear_table_cache calls.cache_map (replicate ctx.cache.value_size 0) fuel ctx.cache s'))
        s

  unfoldable pub del_group : ℕ → Option SelectorContext → Option GroupContext → Exec W (Unit {0})
  unfolding clear_table_cache
  del_group fuel (some ctx) (some g) s = del_group_in fuel ctx g ctx.map_of_groups.fd s
  del_group fuel _ _ s = (err einval, s)

  abbrev get_group_in : SelectorContext → GroupContext → Option ℕ → Exec W (Unit {0})
  get_group_in ctx g none s = (err einval, s)
  get_group_in ctx g (some fd) s =
      if not (is_group_map ctx.map_of_groups)
      then (err einval, s)
      else (query (λ w. calls.groups.lookup w fd g.group_ref) >> pure tt) s

  unfoldable pub get_group : Option SelectorContext → Option GroupContext → Exec W (Unit {0})
  get_group (some ctx) (some g) s = get_group_in ctx g ctx.map_of_groups.fd s
  get_group _ _ s = (err einval, s)

  abbrev set_action_in : SelectorContext → Action → Option ℕ → Exec W (Unit {0})
  set_action_in ctx action none s = (err einval, s)
  set_action_in ctx action (some fd) s =
      if not (ctx.empty_group_action.key_size == 4)
      then (err einval, s)
      else settled (calls.table_entry_update ctx.empty_group_action ctx.cache 0 action s.world) s

  unfoldable pub set_empty_group_action : Option SelectorContext → Option Action → Exec W (Unit {0})
  set_empty_group_action (some ctx) (some action) s =
      set_action_in ctx action ctx.empty_group_action.fd s
  set_empty_group_action _ _ s = (err einval, s)

  -- an action that was read is given to the member
  abbrev pub take_action : MemberContext → Result Action → Result (Unit {0}) × MemberContext
  take_action m (ok action) = (ok tt, record m { action = action })
  take_action m (err e) = (err e, m)
  take_action m hangs = (hangs, m)

  abbrev get_action_in :
      SelectorContext → MemberContext → Option ℕ → W → Result (Unit {0}) × MemberContext
  get_action_in ctx m none w = (err einval, m)
  get_action_in ctx m (some fd) w =
      if not (ctx.empty_group_action.key_size == 4)
      then (err einval, m)
      else take_action m (calls.table_entry_get ctx.empty_group_action 0 w)

  unfoldable pub get_empty_group_action :
      Option SelectorContext → Option MemberContext → W → Result (Unit {0}) × Option MemberContext
  get_empty_group_action (some ctx) (some m) w =
      let (r, m') = get_action_in ctx m ctx.empty_group_action.fd w in (r, some m')
  get_empty_group_action _ m w = (err einval, m)
