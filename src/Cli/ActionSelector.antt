-- ===== src/Cli/ActionSelector.antt =====
-- CLI/action_selector.c: the loop of `create_json_group_entry` over the members of a group.
pub mod Loop
pub mod Reads
use nikss.Base.{ℕ, zero, suc, Option, none, some, List, [], ◌∷◌}
use nikss.Bpf.Types.{Result, ok, err, hangs}
use nikss.Bpf.Exec.{Proc}
use nikss.Selector.Types.{SelectorCalls, SelectorContext, MemberContext, GroupContext}
use nikss.Selector.Context.{emptied}
use nikss.Selector.Iterate.{Iterated, get_next_group_member}

module _ {W : Type 0} (calls : SelectorCalls W) where
  abbrev pub MemberRefs : Type 0
  MemberRefs = Result (List ℕ) × SelectorContext × Proc W

  -- `nikss_action_selector_member_free` on the member of the context
  abbrev pub free_member : SelectorContext → SelectorContext
  free_member c = record c {
    current_member = record c.current_member { action = emptied c.current_member.action };
  }

  abbrev pub add_ref : ℕ → MemberRefs → MemberRefs
  add_ref ref (ok refs, c, s) = (ok (ref ∷ refs), c, s)
  add_ref ref (err e, c, s) = (err e, c, s)
  add_ref ref (hangs, c, s) = (hangs, c, s)

  abbrev pub after_member :
      (SelectorContext → Proc W → MemberRefs) → Iterated W MemberContext → MemberRefs
  after_member rest (none, c, s) = (ok [], c, s)
  after_member rest (some m, c, s) = add_ref m.member_ref (rest (free_member c) s)

  -- The references that are shown as `member_refs`. An allocation does not fail here.
  unfoldable pub read_member_refs : ℕ → GroupContext → SelectorContext → Proc W → MemberRefs
  read_member_refs zero g c s = (hangs, c, s)
  read_member_refs (suc fuel) g c s =
      after_member (read_member_refs fuel g) (get_next_group_member calls c g s)
