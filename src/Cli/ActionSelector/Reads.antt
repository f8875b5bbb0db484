-- ===== src/Cli/ActionSelector/Reads.antt =====
-- The loop of CLI/action_selector.c over the members of a group, from opening the group on.
use nikss.Base.{
  ℕ, zero, suc, ◌+◌, ◌<◌, ◌^◌, ◌≡◌, ◌∙◌, sym, refl, ap, true, not, none, some, List, length,
  get_elem?, if◌then◌else◌, arith, nat_eq,
}
use nikss.Bpf.Types.{UpdateLaws, ok}
use nikss.Bpf.Exec.{Proc, close_fds}
use nikss.Selector.Types.{SelectorCalls, SelectorContext, GroupContext}
use nikss.Selector.Groups.{is_group_map, open_group_map}
use nikss.Selector.GroupList.{Slots}
use nikss.Selector.InUse.{IsOpenGroup, open_group_map_lem}
use nikss.Selector.Iterate.{get_next_group_member, member_of, reopened}
use nikss.Selector.Context.{member_init}
use nikss.Cli.ActionSelector.{read_member_refs, after_member}
use nikss.Cli.ActionSelector.Loop.{
  AreReadable, IsReading, next-open, member_in_lem, read_member_refs-rest,
}

module _ {W : Type 0} (calls : SelectorCalls W) (slots : W → ℕ → Slots)
    (laws : UpdateLaws ⦃key_eq = nat_eq⦄ calls.group slots) (c : SelectorContext) (outer : ℕ)
    (opened : c.map_of_groups.fd ≡ some outer) (sized : is_group_map c.map_of_groups ≡ true) where
  -- Let the group `g` of a selector be openable and hold the list `refs` in a map of less than 2 ^
  -- 32 keys, let no group be open in the context, and let the action of each member be readable.
  -- Then the tool reads exactly the references in `refs`, in their order; one round more than there
  -- are members is enough, and the group is closed again.
  pub read_member_refs_lem :
      (g : GroupContext) (refs : List ℕ) (s : Proc W) (fuel : ℕ)
      (group : IsOpenGroup calls slots laws c outer opened sized s.world g.group_ref refs)
      → group.last < 2 ^ 32
      → c.group.fd ≡ none
      → is_group_map c.group ≡ true
      → AreReadable calls c.map_of_members s.world refs
      → length refs < fuel
      → (c' : SelectorContext) × (read_member_refs calls fuel g c s ≡ (ok refs, c', s))
        × (c'.group.fd ≡ none)
  unfolding read_member_refs get_next_group_member
  read_member_refs_lem g refs s zero group bound closed inner readable lt = elim lt [ ]
  read_member_refs_lem g refs s (suc fuel) group bound closed inner readable lt =
      let s1 : Proc W = record s { open_fds = s.open_fds + 1 } in
      let c1 : SelectorContext = record c {
        current_member = member_init;
        group = record c.group { fd = none };
        current_group_id = g.group_ref;
      } in
      let c2 : SelectorContext = record c1 {
        group = record c.group { fd = some group.fd };
        current_member_id = 0;
      } in
      let at : IsReading calls slots laws g group.fd group.last refs c.map_of_members s1
          group.members bound 0 c2 =
        record {
          is_open = refl;
          sized = inner;
          same_group = refl;
          same_place = refl;
          same_table = refl;
        } in
      let (c', run, shut) =
        read_member_refs-rest calls slots laws g group.fd group.last refs c.map_of_members s1
          group.members bound (suc fuel) 0 c2 refs at (omega arith)
          (λ j x e. ap (get_elem? refs) (omega arith) ∙ e) readable lt in
      let first : get_next_group_member calls c g s ≡ get_next_group_member calls c2 g s1 =
        ap
          (λ b.
            if not b
            then (none, c, s)
            else member_of calls (record c { current_member = member_init }) g c.group.fd s)
          inner
        ∙ ap (λ o. member_of calls (record c { current_member = member_init }) g o s) closed
        ∙ ap (λ o. reopened calls c1 (open_group_map calls c1 g (close_fds o s))) closed
        ∙ ap (reopened calls c1) (
            open_group_map_lem calls slots laws c1 outer opened sized g.group_ref refs s (record {
              id = group.id;
              fd = group.fd;
              last = group.last;
              linked = group.linked;
              given = group.given;
              members = group.members;
            }))
        ∙ sym (
            next-open calls slots laws g group.fd group.last refs c.map_of_members s1 group.members
              bound 0 c2 at
            ∙ sym (
                member_in_lem calls slots laws g group.fd group.last refs c.map_of_members s1
                  group.members bound c2)) in
      (
        c',
        ap (after_member calls (read_member_refs calls fuel g)) first
            ∙ run
            ∙ ap (λ (n : ℕ). (ok refs, c', record s { open_fds = n })) (omega arith),
        shut,
      )
