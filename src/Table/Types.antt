-- ===== src/Table/Types.antt =====
-- The data of lib/nikss_table.c (include/nikss/nikss.h), and the calls that it makes.
use nikss.Base.{ℕ, Bool, true, false, Option, List}
use nikss.Bpf.Types.{FileCalls, MapCalls, MapDescriptor}
use nikss.Selector.Types.{Action}
use nikss.Struct.Buffer.{Bytes}

pub data MatchKind : Type 0 where
  exact lpm ternary range : MatchKind

abbrev pub is_lpm : MatchKind → Bool
is_lpm MatchKind.lpm = true
is_lpm MatchKind.exact = false
is_lpm MatchKind.ternary = false
is_lpm MatchKind.range = false

abbrev pub is_ternary_kind : MatchKind → Bool
is_ternary_kind MatchKind.ternary = true
is_ternary_kind MatchKind.exact = false
is_ternary_kind MatchKind.lpm = false
is_ternary_kind MatchKind.range = false

-- `nikss_match_key_t`, of which the members of the union stand side by side; `none` is a null
-- pointer.
pub record MatchKey : Type 0 where
  pub type : MatchKind
  pub bytes : Option Bytes
  pub prefix_len : ℕ
  pub mask : Option Bytes

-- The type of a table's key as libbpf reads it from BTF: a member of a struct has an offset in bits
-- and a type of some size.
pub record KeyMember : Type 0 where
  pub bit_offset : ℕ
  pub type_size : ℕ

pub data KeyType : Type 0 where
  int_type : KeyType
  -- the flag tells whether it has a member named __dummy_table_key
  struct_type : Bool → List KeyMember → KeyType
  other_type : KeyType

-- `nikss_table_entry_t`, less direct counters and meters, and the copies that its iterators give out
pub record TableEntry : Type 0 where
  pub match_keys : List MatchKey
  pub action : Option Action
  pub priority : ℕ
  pub current_match_key_id : ℕ
  pub current_action_param_id : ℕ

-- `nikss_table_entry_ctx_t`, where the BTF describes at most the type of the key: `key_type` is
-- `none` where there is no BTF or no such type. There are no direct objects without the type of the
-- value.
pub record TableContext : Type 0 where
  pub table : MapDescriptor
  pub default_entry : MapDescriptor
  pub is_indirect : Bool
  pub is_ternary : Bool
  pub prefixes : MapDescriptor
  pub tuple_map : MapDescriptor
  pub cache : MapDescriptor
  pub key_type : Option KeyType
  pub current_raw_key : Option Bytes
  pub current_raw_key_mask : Option Bytes

-- The calls on the maps of a table: its entries, or those of a tuple of a ternary table, the list of
-- prefixes, the numbers of tuples and the maps they stand for, the default entry, the cache.
pub record TableCalls (World : Type 0) : Type 0 where
  pub files : FileCalls World
  pub open files use *
  pub entries : MapCalls World Bytes Bytes
  pub prefix_list : MapCalls World Bytes Bytes
  pub tuples : MapCalls World ℕ ℕ
  pub defaults : MapCalls World ℕ Bytes
  pub cached : MapCalls World Bytes Bytes
