-- ===== src/Selector/Types.antt =====
-- The data of lib/nikss_action_selector.c, and the calls that it makes.
use nikss.Base.{ℕ, List}
use nikss.Bpf.Types.{Result, FileCalls, MapCalls, MapDescriptor}

-- `nikss_action_t`, less the names of its parameters
pub record Action : Type 0 where
  pub action_id : ℕ
  pub params : List (List ℕ)

-- `nikss_action_selector_member_context_t`
pub record MemberContext : Type 0 where
  pub member_ref : ℕ
  pub action : Action

-- `nikss_action_selector_group_context_t`
pub record GroupContext : Type 0 where
  pub group_ref : ℕ

-- NIKSS_ACTION_SELECTOR_INVALID_REFERENCE
abbrev pub invalid_reference : ℕ
invalid_reference = 0

-- `nikss_action_selector_context_t`, less its BTF
pub record SelectorContext : Type 0 where
  pub map_of_groups : MapDescriptor
  pub group : MapDescriptor
  pub map_of_members : MapDescriptor
  pub empty_group_action : MapDescriptor
  pub cache : MapDescriptor
  pub current_group : GroupContext
  pub current_group_id : ℕ
  pub current_member : MemberContext
  pub current_member_id : ℕ

-- The calls on the maps of a selector. The two functions of lib/nikss_table.c that this file calls
-- are parameters too: they write and read the action of one entry of a table, given the table, the
-- cache and the key.
pub record SelectorCalls (World : Type 0) : Type 0 where
  pub files : FileCalls World
  pub open files use *
  pub groups : MapCalls World ℕ ℕ
  pub group : MapCalls World ℕ ℕ
  pub members : MapCalls World ℕ (List ℕ)
  pub cache_map : MapCalls World (List ℕ) (List ℕ)
  -- bpf_map_update_batch, which may have written some entries where it fails
  pub group_update_batch : World → ℕ → List (ℕ × ℕ) → Result (Unit {0}) × World
  pub table_entry_update :
      MapDescriptor → MapDescriptor → ℕ → Action → World → Result (Unit {0}) × World
  pub table_entry_get : MapDescriptor → ℕ → World → Result Action
