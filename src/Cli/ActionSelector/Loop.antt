-- ===== src/Cli/ActionSelector/Loop.antt =====
-- The loop over the members of a group that is open: one round, and the rounds from one member on.
use nikss.Base.{
  ℕ, zero, suc, ◌+◌, ◌<◌, ◌^◌, ◌≡◌, ◌∙◌, refl, ap, true, false, not, none, some, List, [], ◌∷◌,
  length, get_elem?, if◌then◌else◌, arith, ◌==◌, ltb, nat_eq, nat_refl,
}
use nikss.Bpf.Types.{UpdateLaws, ok, MapDescriptor}
use nikss.Bpf.Exec.{Proc, close_fds}
use nikss.Selector.Types.{SelectorCalls, SelectorContext, MemberContext, GroupContext, Action}
use nikss.Selector.Groups.{inc32, is_group_map, get_number_of_members_in_group}
use nikss.Selector.GroupList.{Slots, IsGroup}
use nikss.Selector.Iterate.{
  get_next_group_member, member_of, member_in, member_behind, with_reference, with_action,
  no_more_members, reopen,
}
use nikss.Selector.Context.{member_init}
use nikss.Cli.ActionSelector.{read_member_refs, after_member, add_ref, free_member}

-- The action of each member can be read.
abbrev pub AreReadable : {W : Type 0} → SelectorCalls W → MapDescriptor → W → List ℕ → Type 0
AreReadable calls table w [] = Unit {0}
AreReadable calls table w (ref ∷ refs) =
    ((action : Action) × (calls.table_entry_get table ref w ≡ ok action))
    × AreReadable calls table w refs

module _ {W : Type 0} (calls : SelectorCalls W) (slots : W → ℕ → Slots)
    (laws : UpdateLaws ⦃key_eq = nat_eq⦄ calls.group slots) (g : GroupContext) (fd last : ℕ)
    (all : List ℕ) (table : MapDescriptor) (s : Proc W)
    (group : IsGroup (slots s.world fd) last all) (bound : last < 2 ^ 32) where
  -- The group is open in the context, and `i` members are read.
  pub record IsReading (i : ℕ) (c : SelectorContext) : Type 0 where
    pub is_open : c.group.fd ≡ some fd
    pub sized : is_group_map c.group ≡ true
    pub same_group : c.current_group_id ≡ g.group_ref
    pub same_place : c.current_member_id ≡ i
    pub same_table : c.map_of_members ≡ table

  count_read : get_number_of_members_in_group calls fd s ≡ (ok (length all), s)
  unfolding get_number_of_members_in_group
  count_read = rw (laws.lookup_find s.world fd 0, group.counted) refl

  abbrev fresh : SelectorContext → SelectorContext
  fresh c = record c { current_member = member_init }

  pub member_in_lem :
      (c : SelectorContext)
      → member_in calls c (some fd) s ≡ member_behind calls c fd (ok (length all)) s
  member_in_lem c = ap (λ r. member_behind calls c fd r.0 s) count_read

  pub next-open :
      (i : ℕ) (c : SelectorContext)
      → IsReading i c
      → get_next_group_member calls c g s ≡ member_behind calls (fresh c) fd (ok (length all)) s
  unfolding get_next_group_member
  next-open i c r =
      ap (λ b. if not b then (none, c, s) else member_of calls (fresh c) g c.group.fd s) r.sized
      ∙ ap (λ o. member_of calls (fresh c) g o s) r.is_open
      ∙ ap
          (λ b. if not b then reopen calls (fresh c) g s else member_in calls (fresh c) (some fd) s)
          (ap (λ (n : ℕ). n == g.group_ref) r.same_group ∙ nat_refl g.group_ref)
      ∙ member_in_lem (fresh c)

  abbrev behind : SelectorContext → MemberContext → SelectorContext
  behind c m = record c { current_member = m; current_member_id = inc32 c.current_member_id }

  -- One call reads the member at the place of the context.
  next-member :
      (i ref : ℕ) (action : Action) (c : SelectorContext)
      → IsReading i c
      → get_elem? all i ≡ some ref
      → i < length all
      → calls.table_entry_get table ref s.world ≡ ok action
      → get_next_group_member calls c g s ≡ (
          let m : MemberContext = record { member_ref = ref; action = action } in
          (some m, behind c m, s))
  next-member i ref action c r here lt readable =
      let more : ltb c.current_member_id (length all) ≡ true =
        ap (λ (n : ℕ). ltb n (length all)) r.same_place ∙ ground arith in
      let at : inc32 c.current_member_id ≡ suc i =
        ap inc32 r.same_place ∙ omega (arith, group.fits) in
      let read : calls.group.lookup s.world fd (inc32 c.current_member_id) ≡ ok ref =
        ap (calls.group.lookup s.world fd) at
        ∙ laws.lookup_find s.world fd (suc i)
        ∙ rw (group.stored i ref here) refl in
      let acted : calls.table_entry_get c.map_of_members ref s.world ≡ ok action =
        ap (λ t. calls.table_entry_get t ref s.world) r.same_table ∙ readable in
      next-open i c r
      ∙ (let c' : SelectorContext = record c {
        current_member = member_init;
        current_member_id = inc32 c.current_member_id;
      } in
          ap
            (λ b.
              if b
              then with_reference calls c' (calls.group.lookup s.world fd c'.current_member_id) s
              else no_more_members calls (fresh c) s)
            more
          ∙ ap (λ o. with_reference calls c' o s) read
          ∙ ap (λ o. with_action calls (λ c m'. c) c' (record member_init { member_ref = ref }) o s)
              acted)

  next-end :
      (c : SelectorContext)
      → IsReading (length all) c
      → get_next_group_member calls c g s ≡ no_more_members calls (fresh c) s
  next-end c r =
      let no_more : ltb c.current_member_id (length all) ≡ false =
        ap (λ (n : ℕ). ltb n (length all)) r.same_place ∙ ground arith in
      next-open (length all) c r ∙ rw no_more refl

  pub read_member_refs-rest :
      (fuel i : ℕ) (c : SelectorContext) (refs : List ℕ)
      → IsReading i c
      → i + length refs ≡ length all
      → ((j x : ℕ) → get_elem? refs j ≡ some x → get_elem? all (i + j) ≡ some x)
      → AreReadable calls table s.world refs
      → length refs < fuel
      → (c' : SelectorContext) × (read_member_refs calls fuel g c s
          ≡ (ok refs, c', close_fds (some fd) s))
        × (c'.group.fd ≡ none)
  unfolding read_member_refs
  read_member_refs-rest zero i c refs r count stored readable lt = elim lt [ ]
  read_member_refs-rest (suc fuel) i c [] r count stored readable lt =
      let end : IsReading (length all) c = record {
        is_open = r.is_open;
        sized = r.sized;
        same_group = r.same_group;
        same_place = r.same_place ∙ omega (arith, count);
        same_table = r.same_table;
      } in
      let c' : SelectorContext = record (fresh c) {
        group = record c.group { fd = none };
        current_member_id = 0;
      } in
      (
        c',
        ap (after_member calls (read_member_refs calls fuel g)) (next-end c end)
            ∙ ap (λ o. (ok [], c', close_fds o s)) r.is_open,
        refl,
      )
  read_member_refs-rest (suc fuel) i c (ref ∷ refs) r count stored ((action, acted), readable) lt =
      let m : MemberContext = record { member_ref = ref; action = action } in
      let (c', run, closed) =
        read_member_refs-rest fuel (suc i) (free_member calls (behind c m)) refs
          (record {
            is_open = r.is_open;
            sized = r.sized;
            same_group = r.same_group;
            same_place = ap inc32 r.same_place ∙ omega (arith, count, group.fits);
            same_table = r.same_table;
          })
          (omega (arith, count)) (λ j x e. ap (get_elem? all) (omega arith) ∙ stored (suc j) x e)
          readable (omega arith) in
      (
        c',
        ap (after_member calls (read_member_refs calls fuel g)) (
              next-member i ref action c r (ap (get_elem? all) (omega arith) ∙ stored 0 ref refl)
                (omega (arith, count)) acted)
            ∙ ap (add_ref calls ref) run,
        closed,
      )
