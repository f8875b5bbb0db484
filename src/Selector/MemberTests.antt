-- ===== src/Selector/MemberTests.antt =====
-- An example of the actions of members, in the world of the tests of tables.
use nikss.Base.{ℕ, ◌≡◌, refl, some, [], ◌∷◌, arith}
use nikss.Bpf.Types.{ok, err, enotsup, MapType}
use nikss.Bpf.Exec.{Proc}
use nikss.Bpf.Assoc.{find}
use nikss.Struct.Equal.{bytes_eq}
use nikss.Table.Sim.{SimWorld, sim_calls, sim_entries-laws, map_of, start}
use nikss.Selector.Types.{SelectorCalls, SelectorContext, MemberContext}
use nikss.Selector.Context.{ctx_init}
use nikss.Selector.Members.{update_member}
use nikss.Selector.Iterate.{get_member_action}
use nikss.Selector.TableEntry.{with_tables}
use nikss.Selector.MemberAction.{HasRoom, get_member_action-update_member}

abbrev other_calls : SelectorCalls SimWorld
other_calls = record {
  files = sim_calls.files;
  groups = sim_calls.tuples;
  group = sim_calls.tuples;
  members = sim_calls.defaults;
  cache_map = sim_calls.cached;
  group_update_batch = λ w fd kvs. (err enotsup, w);
  table_entry_update = λ table cache ref action w. (err enotsup, w);
  table_entry_get = λ table ref w. err enotsup;
}

abbrev selector_calls : SelectorCalls SimWorld
selector_calls = with_tables sim_calls 3 other_calls

abbrev ctx : SelectorContext
ctx = record ctx_init { map_of_members = record (map_of MapType.hash 4 6) { fd = some 5 } }

abbrev member : ℕ → MemberContext
member ref = record {
  member_ref = ref;
  action = record { action_id = 3; params = (7 ∷ []) ∷ (8 ∷ []) ∷ [] };
}

-- The member 2 is reserved; the member 1 has an action.
abbrev two_members : Proc SimWorld
two_members = record start {
  world = record start.world {
    entries =
        (5, 1 ∷ 0 ∷ 0 ∷ 0 ∷ [], 4 ∷ 0 ∷ 0 ∷ 0 ∷ 5 ∷ 6 ∷ [])
        ∷ (5, 2 ∷ 0 ∷ 0 ∷ 0 ∷ [], 0 ∷ 0 ∷ 0 ∷ 0 ∷ 0 ∷ 0 ∷ [])
        ∷ [];
  };
}

abbrev room : HasRoom ctx (member 2).action 5
room = record {
  opened = refl;
  key_sized = refl;
  value_sized = refl;
  no_trie = refl;
  no_array = refl;
  uncached = refl;
}

member_example :
    (s : Proc SimWorld) × (update_member selector_calls (some ctx) (some (member 2)) two_members
      ≡ (ok tt, s))
    × (get_member_action selector_calls ctx (member 2) s.world
        ≡ ok (record { action_id = 3; params = (7 ∷ 8 ∷ []) ∷ [] }))
    × (get_member_action selector_calls ctx (member 1) s.world
        ≡ get_member_action selector_calls ctx (member 1) two_members.world)
member_example =
    get_member_action-update_member other_calls sim_calls 3 (λ w fd k. find w.entries fd k)
      sim_entries-laws ctx (member 2) 5 room two_members (0 ∷ 0 ∷ 0 ∷ 0 ∷ 0 ∷ 0 ∷ []) (member 1)
      (omega arith) (omega arith) (omega arith) (ground arith) refl
