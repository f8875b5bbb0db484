-- ===== src/Selector/AddMember.antt =====
-- `nikss_action_selector_add_member` on the contents of the map of members.
use nikss.Base.{
  ℕ, ◌<◌, ◌≤◌, ◌≡◌, ◌∙◌, sym, refl, ap, true, false, Option, none, some, List, arith, ◌==◌, nat_eq,
  nat_refl, replicate, inl, inr, Option-cases, Bool-cases, ltb, ◌+◌, subst,
}
use nikss.Bpf.Types.{MapLaws, Result, ok, err, hangs, noexist}
use nikss.Bpf.Exec.{Proc}
use nikss.Table.Clear.{after}
use nikss.Selector.Types.{SelectorCalls, SelectorContext, MemberContext, invalid_reference, Action}
use nikss.Selector.Members.{
  reserve_from, find_and_reserve_reference, update_member, add_member, add_reserved, undo_unless,
  settled, add_in, reserve_in, update_in,
}
use nikss.Selector.Reserve.{Reserved, full, took, reserve_from_lem}

module _ {W : Type 0} (calls : SelectorCalls W) (members : W → ℕ → ℕ → Option (List ℕ))
    (laws : MapLaws ⦃key_eq = nat_eq⦄ calls.members members) (ctx : SelectorContext) (fd : ℕ)
    (opened : ctx.map_of_members.fd ≡ some fd)
    (sized : (ctx.map_of_members.key_size == 4) ≡ true) where
  abbrev zeros : List ℕ
  zeros = replicate ctx.map_of_members.value_size 0

  abbrev reserved : W → ℕ × W
  reserved w = reserve_from calls.members ctx.map_of_members.max_entries fd zeros 1 w

  find-run :
      (w : W) → find_and_reserve_reference calls.members ctx.map_of_members zeros w ≡ reserved w
  unfolding find_and_reserve_reference
  find-run w =
      ap (λ o. reserve_in calls.members ctx.map_of_members zeros o w) opened ∙ rw sized refl

  abbrev finished :
      (Result (Unit {0}) × MemberContext) × Proc W
      → (Result (Unit {0}) × Option MemberContext) × Proc W
  finished ((r, m), s) = ((r, some m), s)

  add-run :
      (m : MemberContext) (s : Proc W)
      → add_member calls (some ctx) (some m) s
        ≡ finished (add_reserved calls ctx m fd (reserved s.world) s)
  unfolding add_member
  add-run m s =
      ap (λ o. finished (add_in calls ctx m o s)) opened
      ∙ ap (λ r. finished (add_reserved calls ctx m fd r s)) (find-run s.world)

  update-run :
      (m : MemberContext) (s : Proc W)
      → update_member calls (some ctx) (some m) s
        ≡ settled
            (calls.table_entry_update ctx.map_of_members ctx.cache m.member_ref m.action s.world)
            s
  unfolding update_member
  update-run m s = ap (λ o. update_in calls ctx m o s) opened

  -- a reference that can be reserved was free
  free_before :
      (w w' : W) (ref : ℕ)
      → calls.members.update w fd ref zeros noexist ≡ ok w'
      → members w fd ref ≡ none
  free_before w w' ref h = elim (Option-cases (members w fd ref)) [
    | inl e ↦ e
    | inr (u, e) ↦ (let refused = laws.update_noexist w fd ref zeros u e in cc)
  ]

  -- what an `add_member` does once a reference is reserved
  took-run :
      (m : MemberContext) (s : Proc W) (ref : ℕ) (w : W)
      → 0 < ref
      → add_reserved calls ctx m fd (ref, w) s ≡ (
          let (r, s') =
            undo_unless calls fd ref
              (settled (calls.table_entry_update ctx.map_of_members ctx.cache ref m.action w) s) in
          ((r, record m { member_ref = ref }), s'))
  took-run m s ref w pos =
      let valid : (ref == invalid_reference) ≡ false = ground arith in
      rw (valid, update-run (record m { member_ref = ref }) (record s { world = w })) refl

  abbrev limit : ℕ
  limit = 1 + ctx.map_of_members.max_entries

  lowest_of :
      (w w1 : W) (ref : ℕ) (r : ℕ × W)
      → 0 < ref
      → ref < limit
      → ((j : ℕ) → 0 < j → j < ref → (v : List ℕ) × (members w fd j ≡ some v))
      → calls.members.update w fd ref zeros noexist ≡ ok w1
      → Reserved calls.members fd zeros w 1 limit r
      → r ≡ (ref, w1)
  lowest_of w w1 ref r pos lt taken free (full h) = absurd (h ref (omega arith) lt w1 free)
  lowest_of w w1 ref r pos lt taken free (took j w' le lt' done h) = elim (Bool-cases (ltb j ref)) [
    | inl below ↦
        (let (v, e) = taken j (omega arith) (ground arith) in
          let refused = laws.update_noexist w fd j zeros v e in absurd (cc))
    | inr above ↦ elim (Bool-cases (ltb ref j)) [
      | inl past ↦ absurd (h ref (omega arith) (ground arith) w1 free)
      | inr here ↦
          (let same : j ≡ ref = ground arith in
            let run : calls.members.update w fd ref zeros noexist ≡ ok w' =
              subst (λ k. calls.members.update w fd k zeros noexist ≡ ok w') same done in
            let same_world : w' ≡ w1 = cc in rw (same, same_world) refl)
    ]
  ]

  -- The reservation is taken back.
  undone :
      (w w1 w2 : W) (ref : ℕ)
      → calls.members.update w fd ref zeros noexist ≡ ok w1
      → ((n j : ℕ) → members w2 n j ≡ members w1 n j)
      → (n j : ℕ) → members (after (calls.members.delete w2 fd ref) w2) n j ≡ members w n j
  undone w w1 w2 ref done kept n j =
      let there : members w1 fd ref ≡ some zeros =
        laws.update_find w w1 fd ref zeros noexist fd ref done
        ∙ rw (nat_refl fd, nat_refl ref) refl in
      let (w3, deleted) = laws.delete_present w2 fd ref zeros (kept fd ref ∙ there) in
      let free = free_before w w1 ref done in
      ap (λ r. members (after r w2) n j) deleted
      ∙ laws.delete_find w2 w3 fd ref n j deleted
      ∙ ground (arith, kept n j, laws.update_find w w1 fd ref zeros noexist n j done, free)

  -- Let the map of members be open with keys of 4 bytes. If all references below `ref` are taken,
  -- `ref` is not 0 and at most the size of the map, and the kernel accepts the reservation of `ref`
  -- and then the write of the action, the new member gets the reference `ref`, and the world is that
  -- after the write.
  pub add_member-lowest :
      (m : MemberContext) (s : Proc W) (ref : ℕ) (w w' : W)
      → 0 < ref
      → ref ≤ ctx.map_of_members.max_entries
      → ((j : ℕ) → 0 < j → j < ref → (v : List ℕ) × (members s.world fd j ≡ some v))
      → calls.members.update s.world fd ref zeros noexist ≡ ok w
      → calls.table_entry_update ctx.map_of_members ctx.cache ref m.action w ≡ (ok tt, w')
      → add_member calls (some ctx) (some m) s
        ≡ ((ok tt, some (record m { member_ref = ref })), record s { world = w' })
  add_member-lowest m s ref w w' pos le taken free written =
      let reservation =
        lowest_of s.world w ref (reserved s.world) pos (omega arith) taken free
          (reserve_from_lem calls.members fd zeros s.world ctx.map_of_members.max_entries 1) in
      add-run m s
      ∙ ap (λ r. finished (add_reserved calls ctx m fd r s)) reservation
      ∙ ap finished (took-run m s ref w pos ∙ rw written refl)

  module _
      (fails : (w w' : W) (ref : ℕ) (action : Action) (e n j : ℕ)
        → calls.table_entry_update ctx.map_of_members ctx.cache ref action w ≡ (err e, w')
        → members w' n j ≡ members w n j)
      (m : MemberContext) (m' : Option MemberContext) (s s' : Proc W) (e : ℕ) where
    failed_write :
        (ref : ℕ) (w : W) (r : Result (Unit {0})) (w' : W)
        → calls.members.update s.world fd ref zeros noexist ≡ ok w
        → calls.table_entry_update ctx.map_of_members ctx.cache ref m.action w ≡ (r, w')
        → finished (
            let (r', s'') = undo_unless calls fd ref (settled (r, w') s) in
            ((r', record m { member_ref = ref }), s''))
          ≡ ((err e, m'), s')
        → (n j : ℕ) → members s'.world n j ≡ members s.world n j
    failed_write ref w (ok u) w' done wrote h n j = absurd (cc)
    failed_write ref w hangs w' done wrote h n j = absurd (cc)
    failed_write ref w (err e') w' done wrote h n j =
        ap (λ r. members r.1.world n j) (sym h)
        ∙ undone s.world w w' ref done (λ n' j'. fails w w' ref m.action e' n' j' wrote) n j

    failed_of :
        (r : ℕ × W)
        → Reserved calls.members fd zeros s.world 1 limit r
        → finished (add_reserved calls ctx m fd r s) ≡ ((err e, m'), s')
        → (n j : ℕ) → members s'.world n j ≡ members s.world n j
    failed_of r (full h) failed n j = ap (λ r. members r.1.world n j) (sym failed)
    failed_of r (took ref w le lt done h) failed n j =
        let (r, w') = calls.table_entry_update ctx.map_of_members ctx.cache ref m.action w in
        failed_write ref w r w' done refl (sym (ap finished (took-run m s ref w le)) ∙ failed) n j

    -- Let the map of members be open with keys of 4 bytes, and let a failed write of an entry leave
    -- the contents of the maps of members as they were. Where adding a member fails, for lack of a
    -- reference or because its action cannot be written, the contents are the same as before the
    -- call: the reservation is taken back.
    pub add_member-failed :
        add_member calls (some ctx) (some m) s ≡ ((err e, m'), s')
        → (n j : ℕ) → members s'.world n j ≡ members s.world n j
    add_member-failed failed n j =
        failed_of (reserved s.world)
          (reserve_from_lem calls.members fd zeros s.world ctx.map_of_members.max_entries 1)
          (sym (add-run m s) ∙ failed) n j
