-- ===== src/Selector/Descriptors.antt =====
-- The file descriptors that adding and removing members of a group (lib/nikss_action_selector.c)
-- open and close.
use nikss.Base.{
  ℕ, ◌+◌, ◌≡◌, ◌∙◌, refl, Bool, true, false, Option, none, some, if◌then◌else◌, arith, replicate,
  List,
}
use nikss.Bpf.Types.{Result, ok, err, hangs, MapDescriptor}
use nikss.Bpf.Exec.{Proc, Exec, continue}
use nikss.Table.Clear.{clear_table_cache, delete_all_map_entries}
use nikss.Selector.Types.{SelectorCalls, SelectorContext, MemberContext, GroupContext}
use nikss.Selector.Groups.{
  open_group_map, append_member_to_group, remove_member_from_group, in_open_group, with_group_open,
  add_member_to_group, del_member_from_group, ignoring, store_member,
  get_number_of_members_in_group, update_number_of_members_in_group,
}

-- The process holds as many descriptors as before.
abbrev pub KeepsFds : {W A : Type 0} → Exec W A → Type 0
KeepsFds {W} m = (s : Proc W) → (m s).1.open_fds ≡ s.open_fds

module _ {W : Type 0} (calls : SelectorCalls W) where
  clear_table_cache-fds :
      (fuel : ℕ) (map : MapDescriptor) (zeros : List ℕ)
      → KeepsFds (clear_table_cache calls.cache_map zeros fuel map)
  unfolding clear_table_cache delete_all_map_entries
  clear_table_cache-fds fuel map zeros s = ground arith

  append-fds :
      (md : MapDescriptor) (fd : ℕ) (m : MemberContext)
      → KeepsFds (append_member_to_group calls md fd m)
  unfolding append_member_to_group store_member get_number_of_members_in_group
      update_number_of_members_in_group
  append-fds md fd m s = ground arith

  remove-fds :
      (md : MapDescriptor) (fd : ℕ) (m : MemberContext)
      → KeepsFds (remove_member_from_group calls md fd m)
  unfolding remove_member_from_group get_number_of_members_in_group
  remove-fds md fd m s = ground arith

  abbrev one_if_ok : Result ℕ → ℕ
  one_if_ok (ok fd) = 1
  one_if_ok (err e) = 0
  one_if_ok hangs = 0

  open_group_map-fds :
      (ctx : SelectorContext) (g : GroupContext) (s : Proc W)
      → (open_group_map calls ctx g s).1.open_fds
        ≡ s.open_fds + one_if_ok (open_group_map calls ctx g s).0
  unfolding open_group_map
  open_group_map-fds ctx g s = ground arith

  in_open_group-fds :
      (body : ℕ → Exec W (Unit {0})) (n : ℕ)
      → ((fd : ℕ) → KeepsFds (body fd))
      → (r : Result ℕ × Proc W) → r.1.open_fds ≡ n + one_if_ok r.0
      → (in_open_group calls body r).1.open_fds ≡ n
  in_open_group-fds body n h (ok fd, s) e = omega (arith, h fd s, e)
  in_open_group-fds body n h (err x, s) e = omega (arith, e)
  in_open_group-fds body n h (hangs, s) e = omega (arith, e)

  with_group_open-fds :
      (ctx : SelectorContext) (g : GroupContext) (body : ℕ → Exec W (Unit {0}))
      → ((fd : ℕ) → KeepsFds (body fd))
      → KeepsFds (with_group_open calls ctx g body)
  with_group_open-fds ctx g body h s =
      in_open_group-fds body s.open_fds h (open_group_map calls ctx g s)
        (open_group_map-fds ctx g s)

  continue-fds :
      (r : Result (Unit {0}) × Proc W) (f : Exec W (Unit {0})) (n : ℕ)
      → r.1.open_fds ≡ n
      → KeepsFds f
      → (continue r.0 (λ u. f) r.1).1.open_fds ≡ n
  continue-fds (ok u, s) f n e h = h s ∙ e
  continue-fds (err x, s) f n e h = e
  continue-fds (hangs, s) f n e h = e

  ignoring-fds : (r : Result (Unit {0}) × Proc W) → (ignoring r).1.open_fds ≡ r.1.open_fds
  ignoring-fds (ok u, s) = refl
  ignoring-fds (err x, s) = refl
  ignoring-fds (hangs, s) = refl

  if-fds :
      (b : Bool) (r q : Result (Unit {0}) × Proc W) (n : ℕ)
      → r.1.open_fds ≡ n
      → q.1.open_fds ≡ n
      → (if b then r else q).1.open_fds ≡ n
  if-fds true r q n h h' = h
  if-fds false r q n h h' = h'

  -- Whatever the kernel answers, and also for null arguments, adding a member to a group leaves as
  -- many file descriptors open as before.
  pub add_member_to_group-fds :
      (fuel : ℕ) (ctx : Option SelectorContext) (g : Option GroupContext) (m : Option MemberContext)
      (s : Proc W)
      → (add_member_to_group calls fuel ctx g m s).1.open_fds ≡ s.open_fds
  unfolding add_member_to_group
  add_member_to_group-fds fuel none g m s = refl
  add_member_to_group-fds fuel (some ctx) none m s = refl
  add_member_to_group-fds fuel (some ctx) (some g) none s = refl
  add_member_to_group-fds fuel (some ctx) (some g) (some m) s =
      let run : Exec W (Unit {0}) =
        with_group_open calls ctx g (λ fd. append_member_to_group calls ctx.group fd m) in
      if-fds _ (_, s) _ s.open_fds refl
        (continue-fds (run s)
          (clear_table_cache calls.cache_map (replicate ctx.cache.value_size 0) fuel ctx.cache)
          s.open_fds (with_group_open-fds ctx g _ (λ fd. append-fds ctx.group fd m) s)
          (clear_table_cache-fds fuel ctx.cache (replicate ctx.cache.value_size 0)))

  -- Whatever the kernel answers, and also for null arguments, removing a member from a group leaves
  -- as many file descriptors open as before.
  pub del_member_from_group-fds :
      (fuel : ℕ) (ctx : Option SelectorContext) (g : Option GroupContext) (m : Option MemberContext)
      (s : Proc W)
      → (del_member_from_group calls fuel ctx g m s).1.open_fds ≡ s.open_fds
  unfolding del_member_from_group
  del_member_from_group-fds fuel none g m s = refl
  del_member_from_group-fds fuel (some ctx) none m s = refl
  del_member_from_group-fds fuel (some ctx) (some g) none s = refl
  del_member_from_group-fds fuel (some ctx) (some g) (some m) s =
      let run : Exec W (Unit {0}) =
        with_group_open calls ctx g (λ fd. remove_member_from_group calls ctx.group fd m) in
      let clear : Exec W (Unit {0}) =
        clear_table_cache calls.cache_map (replicate ctx.cache.value_size 0) fuel ctx.cache in
      if-fds _ (_, s) _ s.open_fds refl
        (continue-fds (run s) (λ s'. ignoring (clear s')) s.open_fds
          (with_group_open-fds ctx g _ (λ fd. remove-fds ctx.group fd m) s)
          (λ s'.
            ignoring-fds (clear s')
            ∙ clear_table_cache-fds fuel ctx.cache (replicate ctx.cache.value_size 0) s'))
