-- ===== src/Cli/Tests.antt =====
-- Tests of the command line tool's loops.
use nikss.Base.{◌≡◌, refl, some, arith, none, [], ◌∷◌}
use nikss.Bpf.Types.{ok}
use nikss.Pre.CloneSession.{CloneSessionCtx, closed_cursor, context_free}
use nikss.Pre.Opening.{with_fds}
use nikss.Pre.Sim.{
  sim_calls, sim_nodes, sim_nodes-laws, holding, holding-IsOpenable, two, two-IsSession,
}
use nikss.Cli.CloneSession.{read_entries}
use nikss.Cli.CloneSession.Reads.{read_entries_lem}
use nikss.Selector.Types.{SelectorContext}
use nikss.Selector.Sim.{
  sim_slots, sim_slots-laws, sim_ctx, sim_group, selecting, pair, pair-IsGroup,
}
use nikss.Selector.Sim.{sim_calls as selector_calls}
use nikss.Cli.ActionSelector.{read_member_refs}
use nikss.Cli.ActionSelector.Reads.{read_member_refs_lem}

read_entries_example :
    (c' : CloneSessionCtx) × (read_entries sim_calls 3
        (some 1)
        (record { id = 5; cursor = closed_cursor })
        (holding two)
      ≡ (ok two, c', with_fds 1 (holding two)))
    × ((context_free c' (with_fds 1 (holding two))).1 ≡ holding two)
read_entries_example =
    read_entries_lem sim_calls sim_nodes sim_nodes-laws 1 5 10 3 (holding two)
      (holding-IsOpenable two) two refl two-IsSession (omega arith)

read_member_refs_example :
    (c' : SelectorContext) × (read_member_refs selector_calls 3 sim_group sim_ctx selecting
      ≡ (ok pair, c', selecting))
    × (c'.group.fd ≡ none)
read_member_refs_example =
    read_member_refs_lem selector_calls sim_slots sim_slots-laws sim_ctx 1 refl refl sim_group pair
      selecting 3
      (record { id = 10; fd = 10; last = 3; linked = refl; given = refl; members = pair-IsGroup })
      (omega arith) refl refl
      (
        (record { action_id = 1; params = (7 ∷ []) ∷ [] }, refl),
        ((record { action_id = 1; params = (8 ∷ []) ∷ [] }, refl), tt),
      )
      (omega arith)
