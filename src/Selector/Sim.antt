-- ===== src/Selector/Sim.antt =====
-- A kernel with a selector, on which tests and examples run: the map of groups 1 and the map of
-- members 2, and a group 5 whose map is 10.
use nikss.Base.{
  ℕ, ◌+◌, ◌≡◌, ◌∙◌, refl, Option, none, some, List, [], ◌∷◌, ◌==◌, if◌then◌else◌, nat_eq, arith,
  zero, suc, ◌≤◌, get_elem?,
}
use nikss.Bpf.Types.{
  Result, ok, err, enoent, einval, MapInfo, MapType, MapLaws, UpdateLaws, MapDescriptor,
}
use nikss.Bpf.Assoc.{find, write, find-write, assoc_calls, assoc_calls-laws, assoc_calls-updates}
use nikss.Bpf.Exec.{Proc}
use nikss.Selector.Types.{SelectorCalls, SelectorContext, MemberContext, GroupContext, Action}
use nikss.Selector.GroupList.{Slots, IsGroup}
use nikss.Selector.Remove.{BatchLaws, overwritten}
use nikss.Selector.Context.{ctx_init, empty_action}

pub record SimWorld : Type 0 where
  pub links : List (ℕ × ℕ × ℕ)
  pub cells : List (ℕ × ℕ × ℕ)
  pub actions : List (ℕ × ℕ × List ℕ)
  pub next_map : ℕ

abbrev pub write_all : List (ℕ × ℕ × ℕ) → ℕ → List (ℕ × ℕ) → List (ℕ × ℕ × ℕ)
write_all t fd [] = t
write_all t fd ((k, v) ∷ kvs) = write_all (write t fd k v) fd kvs

abbrev inner_info : MapInfo
inner_info = record { type = MapType.array; key_size = 4; value_size = 4; max_entries = 8 }

abbrev action_of : Option (List ℕ) → Result Action
action_of none = err enoent
action_of (some v) = ok (record { action_id = 1; params = v ∷ [] })

-- The action 99 cannot be written.
abbrev pub sim_calls : SelectorCalls SimWorld
sim_calls = record {
  files = record {
    obj_get = λ w p. err enoent;
    obj_get_info = λ w m. ok inner_info;
    map_get_fd = λ w m. ok m;
    create_map = λ w i. ok (w.next_map, record w { next_map = w.next_map + 1 });
  };
  groups = assoc_calls 4 (λ w. w.links) (λ w t. record w { links = t });
  group = assoc_calls 64 (λ w. w.cells) (λ w t. record w { cells = t });
  members = assoc_calls 3 (λ w. w.actions) (λ w t. record w { actions = t });
  cache_map = record {
    lookup = λ w m k. err enoent;
    update = λ w m k v f. err enoent;
    delete = λ w m k. err enoent;
    next_key = λ w m k. err enoent;
  };
  group_update_batch = λ w fd kvs. (ok tt, record w { cells = write_all w.cells fd kvs });
  table_entry_update = λ table cache ref action w.
      if action.action_id == 99
      then (err einval, w)
      else (ok tt, record w { actions = write w.actions 2 ref (action.action_id ∷ []) });
  table_entry_get = λ table ref w. action_of (find w.actions 2 ref);
}

abbrev pub sim_slots : SimWorld → ℕ → Slots
sim_slots w fd k = find w.cells fd k

abbrev pub sim_members : SimWorld → ℕ → ℕ → Option (List ℕ)
sim_members w fd k = find w.actions fd k

pub sim_slots-laws : UpdateLaws sim_calls.group sim_slots
sim_slots-laws = assoc_calls-updates 64 (λ w. w.cells) (λ w t. record w { cells = t }) (λ w t. refl)

pub sim_members-laws : MapLaws sim_calls.members sim_members
sim_members-laws =
    assoc_calls-laws 3 (λ w. w.actions) (λ w t. record w { actions = t }) (λ w t. refl)

find-write_all :
    (kvs : List (ℕ × ℕ)) (t : List (ℕ × ℕ × ℕ)) (fd : ℕ) (f : Slots)
    → ((j : ℕ) → find t fd j ≡ f j)
    → (j : ℕ) → find (write_all t fd kvs) fd j ≡ overwritten kvs f j
find-write_all [] t fd f h j = h j
find-write_all ((k, v) ∷ kvs) t fd f h j =
    find-write_all kvs (write t fd k v) fd (λ i. if k == i then some v else f i)
      (λ i. find-write t fd k v fd i ∙ ground (arith, h i)) j

pub sim_slots-batches : BatchLaws sim_calls sim_slots
sim_slots-batches = record {
  batch_present = λ w fd kvs present. (
    record w { cells = write_all w.cells fd kvs },
    refl,
    find-write_all kvs w.cells fd (λ j. find w.cells fd j) (λ j. refl),
  );
}

abbrev pub inner : MapDescriptor
inner = record { fd = none; type = MapType.array; key_size = 4; value_size = 4; max_entries = 8 }

abbrev pub sim_ctx : SelectorContext
sim_ctx = record ctx_init {
  map_of_groups = record inner { fd = some 1 };
  group = inner;
  map_of_members = record inner { fd = some 2; max_entries = 3 };
}

abbrev pub sim_group : GroupContext
sim_group = record { group_ref = 5 }

abbrev pub sim_member : ℕ → MemberContext
sim_member ref = record { member_ref = ref; action = empty_action }

-- The group has the members 1 and 2 and room for one more.
abbrev pub selecting : Proc SimWorld
selecting = record {
  world = record {
    links = (1, 5, 10) ∷ [];
    cells = (10, 0, 2) ∷ (10, 1, 1) ∷ (10, 2, 2) ∷ (10, 3, 0) ∷ [];
    actions = (2, 1, 7 ∷ []) ∷ (2, 2, 8 ∷ []) ∷ [];
    next_map = 11;
  };
  open_fds = 4;
}

abbrev pub pair : List ℕ
pair = 1 ∷ 2 ∷ []

pair-stored : (i x : ℕ) → get_elem? pair i ≡ some x → sim_slots selecting.world 10 (suc i) ≡ some x
pair-stored zero x h = h
pair-stored (suc zero) x h = h
pair-stored (suc (suc i)) x h = ground arith

pair-slot : (i : ℕ) → i ≤ 3 → (u : ℕ) × (sim_slots selecting.world 10 i ≡ some u)
pair-slot zero le = (2, refl)
pair-slot (suc zero) le = (1, refl)
pair-slot (suc (suc zero)) le = (2, refl)
pair-slot (suc (suc (suc zero))) le = (0, refl)
pair-slot (suc (suc (suc (suc i)))) le = absurd (omega arith)

pub pair-IsGroup : IsGroup (sim_slots selecting.world 10) 3 pair
pair-IsGroup = record { counted = refl; stored = pair-stored; slot = pair-slot; fits = omega arith }
