-- ===== src/Selector/Tests.antt =====
-- Tests of action selectors, and examples of what is proved of them.
use nikss.Base.{
  ℕ, ◌+◌, ◌<◌, ◌≡◌, refl, none, some, List, [], ◌∷◌, ◌++◌, ◌==◌, if◌then◌else◌, arith, nat_eq, zero,
  suc,
}
use nikss.Bpf.Types.{ok, err, eexist, enoent, ebusy, einval}
use nikss.Bpf.Exec.{Proc}
use nikss.Selector.Types.{MemberContext, Action}
use nikss.Selector.Groups.{append_member_to_group, remove_member_from_group}
use nikss.Selector.GroupList.{IsGroup}
use nikss.Selector.SwapRemove.{count}
use nikss.Selector.Append.{append_member_to_group-taken, append_member_to_group-new}
use nikss.Selector.Remove.{remove_member_from_group-missing, remove_member_from_group-found}
use nikss.Selector.Members.{
  add_member, del_member, member_in_use, find_and_reserve_reference, reserve_from, update_member,
}
use nikss.Selector.AddMember.{add_member-lowest, add_member-failed}
use nikss.Selector.InUse.{
  member_in_use_lem, del_member-used, del_member-unused, is_referenced, IsOpenGroup,
}
use nikss.Selector.Sim.{
  SimWorld, sim_calls, sim_slots, sim_slots-laws, sim_members, sim_members-laws, sim_slots-batches,
  sim_ctx, sim_member, selecting, pair, pair-IsGroup, inner,
}

pair-IsOpenGroup :
    IsOpenGroup sim_calls sim_slots sim_slots-laws sim_ctx 1 refl refl selecting.world 5 pair
pair-IsOpenGroup = record {
  id = 10;
  fd = 10;
  last = 3;
  linked = refl;
  given = refl;
  members = pair-IsGroup;
}

append-taken_example :
    append_member_to_group sim_calls inner 10 (sim_member 2) selecting ≡ (err eexist, selecting)
append-taken_example =
    append_member_to_group-taken sim_calls sim_slots sim_slots-laws 10 3 pair selecting pair-IsGroup
      inner refl (sim_member 2) refl

append-new_example :
    (w : SimWorld) × (append_member_to_group sim_calls inner 10 (sim_member 3) selecting
      ≡ (ok tt, record selecting { world = w }))
    × IsGroup (sim_slots w 10) 3 (pair ++ 3 ∷ [])
append-new_example =
    append_member_to_group-new sim_calls sim_slots sim_slots-laws 10 3 pair selecting pair-IsGroup
      inner refl (sim_member 3) refl (omega arith) (omega arith)

remove-missing_example :
    remove_member_from_group sim_calls inner 10 (sim_member 3) selecting ≡ (err enoent, selecting)
remove-missing_example =
    remove_member_from_group-missing sim_calls sim_slots sim_slots-laws sim_slots-batches 10 3 pair
      selecting pair-IsGroup inner refl (sim_member 3) refl refl

remove-found_example :
    (w : SimWorld) × (refs' : List ℕ) × (remove_member_from_group sim_calls inner 10
        (sim_member 1)
        selecting
      ≡ (ok tt, record selecting { world = w }))
    × IsGroup (sim_slots w 10) 3 refs'
    × ((k : ℕ) → count k refs' + (if (1 == k) then 1 else 0) ≡ count k pair)
remove-found_example =
    remove_member_from_group-found sim_calls sim_slots sim_slots-laws sim_slots-batches 10 3 pair
      selecting pair-IsGroup inner refl (sim_member 1) refl refl

abbrev with_actions : List (ℕ × ℕ × List ℕ) → SimWorld
with_actions t = record selecting.world { actions = t }

abbrev pair_actions : List (ℕ × ℕ × List ℕ)
pair_actions = (2, 1, 7 ∷ []) ∷ (2, 2, 8 ∷ []) ∷ []

taken_below : (j : ℕ) → 0 < j → j < 3 → (v : List ℕ) × (sim_members selecting.world 2 j ≡ some v)
taken_below zero pos lt = absurd (omega arith)
taken_below (suc zero) pos lt = (7 ∷ [], refl)
taken_below (suc (suc zero)) pos lt = (8 ∷ [], refl)
taken_below (suc (suc (suc j))) pos lt = absurd (omega arith)

lowest_example : add_member sim_calls (some sim_ctx) (some (sim_member 0)) selecting ≡ (
  (ok tt, some (sim_member 3)),
  record selecting {
    world = record selecting.world {
      actions = (2, 1, 7 ∷ []) ∷ (2, 2, 8 ∷ []) ∷ (2, 3, 0 ∷ []) ∷ [];
    };
  },
)
lowest_example =
    add_member-lowest sim_calls sim_members sim_members-laws sim_ctx 2 refl refl (sim_member 0)
      selecting 3 (with_actions (pair_actions ++ (2, 3, 0 ∷ 0 ∷ 0 ∷ 0 ∷ []) ∷ []))
      (with_actions (pair_actions ++ (2, 3, 0 ∷ []) ∷ [])) (omega arith) (omega arith) taken_below
      refl refl

-- the action 99 cannot be written
abbrev refused_member : MemberContext
refused_member = record { member_ref = 0; action = record { action_id = 99; params = [] } }

failed_writes :
    (w w' : SimWorld) (ref : ℕ) (action : Action) (e n j : ℕ)
    → sim_calls.table_entry_update sim_ctx.map_of_members sim_ctx.cache ref action w ≡ (err e, w')
    → sim_members w' n j ≡ sim_members w n j
failed_writes w w' ref action e n j h = ground arith

abbrev after_failure : Proc SimWorld
after_failure = record selecting { world = with_actions pair_actions }

add_fails :
    add_member sim_calls (some sim_ctx) (some refused_member) selecting
    ≡ ((err einval, some (record refused_member { member_ref = 3 })), after_failure)
unfolding add_member find_and_reserve_reference reserve_from update_member
add_fails = refl

add-failed_example : sim_members after_failure.world 2 3 ≡ sim_members selecting.world 2 3
add-failed_example =
    add_member-failed sim_calls sim_members sim_members-laws sim_ctx 2 refl refl failed_writes
      refused_member (some (record refused_member { member_ref = 3 })) selecting after_failure
      einval add_fails 2 3

member_in_use_example :
    member_in_use sim_calls 1 sim_ctx 2 selecting
    ≡ (ok (is_referenced 2 ((5, pair) ∷ [])), selecting)
member_in_use_example =
    member_in_use_lem sim_calls sim_slots sim_slots-laws sim_ctx 1 refl refl 1 2 ((5, pair) ∷ [])
      selecting (pair-IsOpenGroup, tt) (refl, (enoent, refl)) (omega arith)

del-used_example :
    del_member sim_calls 1 (some sim_ctx) (some (sim_member 2)) selecting ≡ (err ebusy, selecting)
del-used_example =
    del_member-used sim_calls sim_slots sim_slots-laws sim_ctx 1 refl refl sim_members
      sim_members-laws 2 1 (sim_member 2) ((5, pair) ∷ []) selecting refl refl refl
      (pair-IsOpenGroup, tt) (refl, (enoent, refl)) (omega arith) refl

abbrev spare : Proc SimWorld
spare = record selecting {
  world = record selecting.world { actions = (2, 1, 7 ∷ []) ∷ (2, 3, 8 ∷ []) ∷ [] };
}

spare-IsOpenGroup :
    IsOpenGroup sim_calls sim_slots sim_slots-laws sim_ctx 1 refl refl spare.world 5 pair
spare-IsOpenGroup = record {
  id = 10;
  fd = 10;
  last = 3;
  linked = refl;
  given = refl;
  members = pair-IsGroup;
}

del-unused_example :
    (w : SimWorld) × (del_member sim_calls 1 (some sim_ctx) (some (sim_member 3)) spare
      ≡ (ok tt, record spare { world = w }))
    × ((n j : ℕ)
        → sim_members w n j ≡ (
            if 2 == n
            then (if 3 == j then none else sim_members spare.world n j)
            else sim_members spare.world n j))
del-unused_example =
    del_member-unused sim_calls sim_slots sim_slots-laws sim_ctx 1 refl refl sim_members
      sim_members-laws 2 1 (sim_member 3) ((5, pair) ∷ []) spare refl refl refl
      (spare-IsOpenGroup, tt) (refl, (enoent, refl)) (omega arith) (8 ∷ []) refl refl refl
