-- ===== src/Table/MatchKey.antt =====
-- lib/nikss_table.c: match keys, and the entry that holds them. A null pointer is `none`.
use nikss.Base.{
  ℕ, ◌+◌, ◌%◌, ◌^◌, Bool, false, not, ◌&&◌, ◌||◌, Option, none, some, List, [], ◌∷◌, ◌++◌,
  if◌then◌else◌, get_elem?,
}
use nikss.Bpf.Types.{Result, ok, err, einval, enodata, eexist, eperm}
use nikss.Selector.Types.{Action}
use nikss.Struct.Buffer.{Bytes}
use nikss.Table.Types.{MatchKind, MatchKey, TableEntry, is_lpm, is_ternary_kind}

abbrev pub matchkey_init : MatchKey
matchkey_init = record { type = MatchKind.exact; bytes = none; prefix_len = 0; mask = none }

abbrev pub matchkey_type : MatchKey → MatchKind → MatchKey
matchkey_type mk type = record mk { type = type }

unfoldable pub matchkey_data : MatchKey → Option Bytes → Result (Unit {0}) × MatchKey
matchkey_data mk none = (err einval, mk)
matchkey_data mk (some bytes) = elim mk.bytes [
  | some old ↦ (err eexist, mk)
  | none ↦ (ok tt, record mk { bytes = some bytes })
]

unfoldable pub matchkey_prefix_len : MatchKey → ℕ → Result (Unit {0}) × MatchKey
matchkey_prefix_len mk prefix =
    if is_lpm mk.type then (ok tt, record mk { prefix_len = prefix }) else (err einval, mk)

unfoldable pub matchkey_mask : MatchKey → Option Bytes → Result (Unit {0}) × MatchKey
matchkey_mask mk none = (err einval, mk)
matchkey_mask mk (some mask) =
    if not (is_ternary_kind mk.type) then (err einval, mk) else elim mk.mask [
      | some old ↦ (err eexist, mk)
      | none ↦ (ok tt, record mk { mask = some mask })
    ]

abbrev pub has_lpm : List MatchKey → Bool
has_lpm [] = false
has_lpm (k ∷ ks) = is_lpm k.type || has_lpm ks

-- The entry takes the data, and a ternary key's mask, from the key, which is the last component.
unfoldable pub table_entry_matchkey :
    TableEntry → MatchKey → Result (Unit {0}) × TableEntry × MatchKey
table_entry_matchkey entry mk = elim mk.bytes [
  | none ↦ (err enodata, entry, mk)
  | some bytes ↦ if is_lpm mk.type && has_lpm entry.match_keys then (err eperm, entry, mk) else (
    ok tt,
    record entry { match_keys = entry.match_keys ++ mk ∷ [] },
    record mk { bytes = none; mask = if is_ternary_kind mk.type then none else mk.mask },
  )
]

abbrev next_key_of : Option MatchKey → TableEntry → Option MatchKey × TableEntry
next_key_of none entry = (none, record entry { current_match_key_id = 0 })
next_key_of (some mk) entry =
    (some mk, record entry { current_match_key_id = entry.current_match_key_id + 1 })

unfoldable pub table_entry_get_next_matchkey : TableEntry → Option MatchKey × TableEntry
table_entry_get_next_matchkey entry =
    next_key_of (get_elem? entry.match_keys entry.current_match_key_id) entry

-- An entry that has an action keeps it, and the action given is left alone.
unfoldable pub table_entry_action : TableEntry → Action → TableEntry × Action
table_entry_action entry act = elim entry.action [
  | some old ↦ (entry, act)
  | none ↦ (record entry { action = some act }, record act { params = [] })
]

abbrev pub table_entry_priority : TableEntry → ℕ → TableEntry
table_entry_priority entry priority = record entry { priority = priority % 2 ^ 32 }

abbrev pub table_entry_init : TableEntry
table_entry_init = record {
  match_keys = [];
  action = none;
  priority = 0;
  current_match_key_id = 0;
  current_action_param_id = 0;
}
