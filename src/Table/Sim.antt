-- ===== src/Table/Sim.antt =====
-- A world on which the functions on tables run: a cache of one entry, and all else in association
-- lists.
use nikss.Base.{
  ℕ, ◌+◌, ◌≡◌, refl, ap, ◌∙◌, true, false, Option, none, some, List, [], ◌∷◌, if◌then◌else◌, nat_eq,
  ◌<◌, arith, length, beq_refl, sym,
}
use nikss.Bpf.Types.{
  Result, ok, err, enoent, MapType, MapDescriptor, UpdateLaws, MapLaws, closed_descriptor,
}
use nikss.Bpf.Assoc.{find, assoc_calls, assoc_calls-updates, assoc_calls-laws}
use nikss.Bpf.Exec.{Proc}
use nikss.Struct.Buffer.{Bytes}
use nikss.Struct.Equal.{bytes_beq, bytes_eq}
use nikss.Table.Emptied.{KeyLaws, first_of, without}
use nikss.Table.Types.{TableContext, TableCalls, MatchKey, MatchKind, TableEntry}

pub record SimWorld : Type 0 where
  pub entries : List (ℕ × Bytes × Bytes)
  pub prefixes : List (ℕ × Bytes × Bytes)
  pub tuples : List (ℕ × ℕ × ℕ)
  pub defaults : List (ℕ × ℕ × Bytes)
  pub cached : Option Bytes
  pub last_map : ℕ

abbrev pub cached_keys : SimWorld → ℕ → List Bytes
cached_keys w fd = elim w.cached [ none ↦ [] | some k ↦ k ∷ [] ]

abbrev drop_cached : Option Bytes → Bytes → SimWorld → Result SimWorld
drop_cached none k w = err enoent
drop_cached (some j) k w = if bytes_beq j k then ok (record w { cached = none }) else err enoent

abbrev pub sim_calls : TableCalls SimWorld
sim_calls = record {
  files = record {
    obj_get = λ w path. err enoent;
    obj_get_info = λ w fd. err enoent;
    map_get_fd = λ w id. ok id;
    create_map = λ w info. ok (w.last_map + 1, record w { last_map = w.last_map + 1 });
  };
  entries = assoc_calls 8 (λ w. w.entries) (λ w t. record w { entries = t });
  prefix_list = assoc_calls 8 (λ w. w.prefixes) (λ w t. record w { prefixes = t });
  tuples = assoc_calls 8 (λ w. w.tuples) (λ w t. record w { tuples = t });
  defaults = assoc_calls 8 (λ w. w.defaults) (λ w t. record w { defaults = t });
  cached = record {
    lookup = λ w fd k. err enoent;
    update = λ w fd k v f. ok (record w { cached = some k });
    delete = λ w fd k. drop_cached w.cached k w;
    next_key = λ w fd k. first_of (cached_keys w fd);
  };
}

pub sim_entries-laws : UpdateLaws sim_calls.entries (λ w fd k. find w.entries fd k)
sim_entries-laws =
    assoc_calls-updates 8 (λ w. w.entries) (λ w t. record w { entries = t }) (λ w t. refl)

pub sim_prefixes-laws : MapLaws sim_calls.prefix_list (λ w fd k. find w.prefixes fd k)
sim_prefixes-laws =
    assoc_calls-laws 8 (λ w. w.prefixes) (λ w t. record w { prefixes = t }) (λ w t. refl)

delete_cached :
    (o : Option Bytes) (w : SimWorld) (k : Bytes) (ks : List Bytes)
    → (elim o as (λ x. List Bytes) [ none ↦ [] | some j ↦ j ∷ [] ]) ≡ k ∷ ks
    → (drop_cached o k w ≡ ok (record w { cached = none })) × ([] ≡ without k (k ∷ ks))
delete_cached none w k ks h = absurd (cc)
delete_cached (some j) w k ks h =
    let same : j ≡ k = cc in
    let rest : [] ≡ ks = cc in (rw (same, beq_refl k) refl, rw (beq_refl k) (ap (without k) rest))

pub sim_cached-laws : KeyLaws sim_calls.cached cached_keys
sim_cached-laws = record {
  next_first = λ w fd. refl;
  next_restarts = λ w fd k h. refl;
  delete_listed = λ w fd k ks h.
      let (deleted, gone) = delete_cached w.cached w k ks h in
      (record w { cached = none }, deleted, gone ∙ ap (without k) (sym h));
}

at_most_one :
    (o : Option Bytes) → length (elim o as (λ x. List Bytes) [ none ↦ [] | some j ↦ j ∷ [] ]) < 2
at_most_one none = omega arith
at_most_one (some j) = omega arith

pub cached_keys-bounded : (w : SimWorld) (fd : ℕ) → length (cached_keys w fd) < 2
cached_keys-bounded w fd = at_most_one w.cached

abbrev pub map_of : MapType → ℕ → ℕ → MapDescriptor
map_of type key_size value_size = record {
  fd = none;
  type = type;
  key_size = key_size;
  value_size = value_size;
  max_entries = 8;
}

-- A hash table with keys of 2 bytes, and values with an action's number and 2 bytes of parameters.
abbrev pub plain_table : TableContext
plain_table = record {
  table = record (map_of MapType.hash 2 6) { fd = some 5 };
  default_entry = closed_descriptor;
  is_indirect = false;
  is_ternary = false;
  prefixes = closed_descriptor;
  tuple_map = closed_descriptor;
  cache = closed_descriptor;
  key_type = none;
  current_raw_key = none;
  current_raw_key_mask = none;
}

abbrev pub cached_table : TableContext
cached_table = record plain_table { cache = record (map_of MapType.hash 2 6) { fd = some 9 } }

-- A ternary table with keys of 4 bytes, and values with an action's number and a priority.
abbrev pub ternary_table : TableContext
ternary_table = record plain_table {
  table = map_of MapType.hash 4 8;
  is_ternary = true;
  prefixes = record (map_of MapType.hash 4 12) { fd = some 6 };
  tuple_map = record (map_of MapType.hash_of_maps 4 4) { fd = some 7 };
}

abbrev pub exact_key : Bytes → MatchKey
exact_key bytes = record { type = MatchKind.exact; bytes = some bytes; prefix_len = 0; mask = none }

abbrev pub prefix_key : Bytes → ℕ → MatchKey
prefix_key bytes prefix_len = record {
  type = MatchKind.lpm;
  bytes = some bytes;
  prefix_len = prefix_len;
  mask = none;
}

abbrev pub ternary_key : Bytes → Bytes → MatchKey
ternary_key bytes mask = record {
  type = MatchKind.ternary;
  bytes = some bytes;
  prefix_len = 0;
  mask = some mask;
}

abbrev pub entry_with : List MatchKey → TableEntry
entry_with keys = record {
  match_keys = keys;
  action = some (record { action_id = 3; params = (7 ∷ []) ∷ (8 ∷ []) ∷ [] });
  priority = 0;
  current_match_key_id = 0;
  current_action_param_id = 0;
}

abbrev pub start : Proc SimWorld
start = record {
  world = record {
    entries = [];
    prefixes = [];
    tuples = [];
    defaults = [];
    cached = some (1 ∷ 2 ∷ []);
    last_map = 20;
  };
  open_fds = 4;
}
