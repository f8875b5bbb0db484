-- ===== src/Pre/Tests.antt =====
-- Tests on concrete kernels, and the theorems at inputs where their hypotheses hold.
use nikss.Base.{◌≡◌, refl, true, some, [], ◌∷◌, arith}
use nikss.Bpf.Types.{ok, err, enoent, eexist, MapDescriptor, MapType}
use nikss.Bpf.Open.{open_bpf_map, update_map_info}
use nikss.Pre.Maps.{open_pr_map, open_pr_maps, open_session_map}
use nikss.Pre.Session.{create_pre_session, do_create_pre_session}
use nikss.Pre.Entry.{
  key_of, pre_session_insert_entry, pre_session_del_entry, insert_node, delete_node, find_previous,
}
use nikss.Pre.CloneSession.{
  CloneSessionCtx, closed_cursor, session_create, entry_update, clone_session_table,
}
use nikss.Pre.Chain.{IsSession, has_key}
use nikss.Pre.Sim.{
  SimWorld, sim_calls, sim_nodes, sim_nodes-laws, booted, holding, holding-IsOpenable, member, two,
  three, two-IsSession, three-IsSession, stored,
}
use nikss.Pre.Update.{
  pre_session_insert_entry-new, pre_session_insert_entry-taken, pre_session_del_entry_lem,
}
use nikss.Pre.Blocked.{pre_session_del_entry-no_zeros, pre_session_del_entry-is_hidden}
use nikss.Pre.Scan.{NextSession, pre_get_next_session_lem}
use nikss.Pre.Descriptors.{pre_session_del_entry-fds}
use nikss.Pre.Walk.{pre_get_next_session}

abbrev outer_map : MapDescriptor
outer_map = record {
  fd = some 1;
  type = MapType.array_of_maps;
  key_size = 4;
  value_size = 4;
  max_entries = 16;
}

abbrev five : CloneSessionCtx
five = record { id = 5; cursor = closed_cursor }

-- A session is created and given an entry, which is then there twice no more.
second_is_refused :
    (let s = (session_create sim_calls (some 1) five booted).1 in
      let s' = (entry_update sim_calls (some 1) (some five) (some (member 7 1)) s).1 in
      (entry_update sim_calls (some 1) (some five) (some (member 7 1)) s').0)
    ≡ err eexist
unfolding session_create create_pre_session open_pr_maps do_create_pre_session entry_update
    pre_session_insert_entry open_pr_map open_session_map open_bpf_map update_map_info insert_node
second_is_refused = refl

insert-new_example :
    (w' : SimWorld) × (pre_session_insert_entry sim_calls
        (some 1)
        clone_session_table
        5
        (some (member 4 4))
        (holding two)
      ≡ (ok tt, record (holding two) { world = w' }))
    × IsSession (sim_nodes w' 10) (member 4 4 ∷ two)
insert-new_example =
    pre_session_insert_entry-new sim_calls 1 clone_session_table 5 10 (holding two)
      (holding-IsOpenable two) (member 4 4) refl sim_nodes sim_nodes-laws two two-IsSession
      (stored (holding two).world (member 4 4) two) refl refl

insert-taken_example :
    pre_session_insert_entry sim_calls
      (some 1)
      clone_session_table
      5
      (some (member 9 1))
      (holding two)
    ≡ (err eexist, holding two)
insert-taken_example =
    pre_session_insert_entry-taken sim_calls 1 clone_session_table 5 10 (holding two)
      (holding-IsOpenable two) (member 9 1) refl sim_nodes sim_nodes-laws two two-IsSession refl

del-no_zeros_example :
    (w' : SimWorld) × (pre_session_del_entry sim_calls 3
        (some 1)
        clone_session_table
        5
        (some (member 9 1))
        (holding two)
      ≡ (ok tt, record (holding two) { world = w' }))
    × IsSession (sim_nodes w' 10) (member 7 1 ∷ [])
del-no_zeros_example =
    pre_session_del_entry-no_zeros sim_calls sim_nodes sim_nodes-laws 1 clone_session_table 5 10
      (holding two) (holding-IsOpenable two) (member 9 1) refl two two-IsSession 3 (omega arith)
      refl

del_example :
    (w' : SimWorld) × (pre_session_del_entry sim_calls 4
        (some 1)
        clone_session_table
        5
        (some (member 8 0))
        (holding three)
      ≡ (ok tt, record (holding three) { world = w' }))
    × IsSession (sim_nodes w' 10) two
del_example =
    pre_session_del_entry_lem sim_calls 1 clone_session_table 5 10 (holding three)
      (holding-IsOpenable three) (member 8 0) refl sim_nodes sim_nodes-laws three three-IsSession 4
      (omega arith)

del-is_hidden_example :
    (pre_session_del_entry sim_calls 4
        (some 1)
        clone_session_table
        5
        (some (member 9 1))
        (holding three)
      ≡ (err enoent, holding three))
    × (has_key (key_of (member 9 1)) three ≡ true)
del-is_hidden_example =
    pre_session_del_entry-is_hidden sim_calls sim_nodes sim_nodes-laws 1 clone_session_table 5 10
      (holding three) (holding-IsOpenable three) (member 9 1) refl three three-IsSession 4
      (omega arith) refl

scan_example :
    NextSession sim_calls 1 16
      (holding two).world
      2
      (pre_get_next_session sim_calls 15 outer_map 2 (holding two))
scan_example =
    pre_get_next_session_lem sim_calls 15 1 2 outer_map (holding two) refl refl refl refl
      (omega arith) (omega arith) (omega arith)

del-fds_example :
    (pre_session_del_entry sim_calls 3
      (some 1)
      clone_session_table
      5
      (some (member 4 4))
      (holding two)).1.open_fds
    ≡ 3
unfolding pre_session_del_entry open_pr_map open_session_map open_bpf_map update_map_info
    delete_node find_previous
del-fds_example =
    pre_session_del_entry-fds sim_calls 3 (some 1) clone_session_table 5 (some (member 4 4))
      (holding two) (λ e. cc)
