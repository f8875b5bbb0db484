-- ===== src/Table/Stored.antt =====
-- Adding and reading entries in lib/nikss_table.c, on the contents of the map of a table without
-- tuples.
use nikss.Base.{
  ℕ, ◌<◌, ◌^◌, ◌≡◌, ◌∙◌, refl, ap, false, not, ◌||◌, Option, none, some, List, [], ◌∷◌, length,
  ◌==◌, if◌then◌else◌, arith, nat_refl, beq_refl,
}
use nikss.Bpf.Types.{
  Result, ok, err, UpdateFlag, UpdateLaws, enotsup, einval, enodata, noexist, exist, any, eexist,
}
use nikss.Bpf.Exec.{Proc}
use nikss.Selector.Types.{Action}
use nikss.Struct.Buffer.{Bytes}
use nikss.Struct.Equal.{bytes_eq}
use nikss.Struct.Constructed.{concat, zeros}
use nikss.Table.Types.{TableContext, TableCalls, TableEntry, MatchKey}
use nikss.Table.MatchKey.{table_entry_init}
use nikss.Table.Write.{construct_buffer}
use nikss.Table.Keys.{is_lpm_trie, fill_key_btf_info, fill_key_byte_by_byte}
use nikss.Table.Values.{fill_value_btf_info, fill_value_byte_by_byte, blob}
use nikss.Table.Joined.{all_bytes, fill_key_byte_by_byte-plain}
use nikss.Table.Encoded.{value_bytes, fill_value_byte_by_byte_lem, parse_table_value_no_btf_lem}
use nikss.Table.Clear.{is_array, clear_table_cache-closed}
use nikss.Table.Entry.{
  key_buffer, value_buffer, write_tuple, write_open, write_action, write_built, then_clear_cache,
  table_entry_write, table_entry_add, open_tuple, close_after,
}
use nikss.Table.Get.{table_entry_get, read_tuple, read_open, read_key, parse_table_value, entry_of}
use nikss.Table.Tuples.{
  Tuple, mask_of, ternary_table_open_tuple, ternary_table_close_tuple, close_table,
}

abbrev pub entry_key : TableEntry → Bytes
entry_key entry = all_bytes false entry.match_keys

-- A table without tuples, whose key has no type and which is no trie, with an entry that makes up a
-- key.
pub record KeyFits (ctx : TableContext) (entry : TableEntry) (fd : ℕ) : Type 0 where
  pub plain : ctx.is_ternary ≡ false
  pub untyped : ctx.key_type ≡ none
  pub no_trie : is_lpm_trie ctx.table.type ≡ false
  pub opened : ctx.table.fd ≡ some fd
  pub key_sized : (ctx.table.key_size == 0) ≡ false
  pub value_sized : (ctx.table.value_size == 0) ≡ false
  pub key_fits : length (entry_key entry) ≡ ctx.table.key_size

-- The same for a table that is no array, with an entry that makes up a key and a value.
pub record Fits (ctx : TableContext) (entry : TableEntry) (action : Action) (fd : ℕ) : Type 0 where
  pub keys : KeyFits ctx entry fd
  pub open keys use *
  pub no_array : is_array ctx.table.type ≡ false
  pub acting : entry.action ≡ some action
  pub value_fits : length (value_bytes ctx entry action) ≡ ctx.table.value_size

pub construct_buffer-untyped :
    (size : ℕ) (ctx : TableContext) (f g : Bytes → Result Bytes)
    → ctx.key_type ≡ none
    → construct_buffer size ctx f g ≡ g (zeros size)
unfolding construct_buffer
construct_buffer-untyped size ctx f g untyped = rw untyped refl

module _ (ctx : TableContext) (entry : TableEntry) (fd : ℕ) (fits : KeyFits ctx entry fd) where
  key_built : key_buffer ctx entry ≡ ok (entry_key entry)
  key_built =
      construct_buffer-untyped ctx.table.key_size ctx (fill_key_btf_info ctx entry)
        (fill_key_byte_by_byte ctx entry) fits.untyped
      ∙ fill_key_byte_by_byte-plain ctx entry fits.no_trie
      ∙ ground (arith, fits.key_fits)

  module _ {W : Type 0} (calls : TableCalls W) (fuel : ℕ) where
    read_open_lem :
        (w : W)
        → read_open calls fuel ctx none entry ctx.table.fd w
          ≡ parse_table_value ctx entry.match_keys (calls.entries.lookup w fd (entry_key entry))
    read_open_lem w =
        ap (λ o. read_open calls fuel ctx none entry o w) fits.opened
        ∙ ap
            (λ b.
              if b || ctx.table.value_size == 0
              then err einval
              else read_key calls fuel ctx none entry fd (key_buffer ctx entry) w)
            fits.key_sized
        ∙ ap
            (λ b.
              if b
              then err einval
              else read_key calls fuel ctx none entry fd (key_buffer ctx entry) w)
            fits.value_sized
        ∙ ap (λ q. read_key calls fuel ctx none entry fd q w) key_built

    -- reading, which does not look at the action of the entry
    pub get_lem :
        (s : Proc W) (k : MatchKey) (ks : List MatchKey)
        → entry.match_keys ≡ k ∷ ks
        → (table_entry_get calls fuel entry ctx s).0
          ≡ parse_table_value ctx entry.match_keys
              (calls.entries.lookup s.world fd (entry_key entry))
    unfolding table_entry_get
    get_lem s k ks keyed =
        ap
          (λ ms.
            (elim ms as (λ x. Tuple W TableEntry) [
              | [] ↦ (err enodata, ctx, s)
              | j ∷ js ↦ read_tuple calls fuel entry (open_tuple calls fuel entry exist ctx s)
            ]).0)
          keyed
        ∙ ap
            (λ b.
              (read_tuple calls fuel entry (
                if b
                then mask_of calls (ternary_table_open_tuple calls fuel entry exist ctx s)
                else (ok none, ctx, s))).0)
            fits.plain
        ∙ read_open_lem s.world

module _ (ctx : TableContext) (entry : TableEntry) (action : Action) (fd : ℕ)
    (fits : Fits ctx entry action fd) where
  abbrev value : Bytes
  value = value_bytes ctx entry action

  value_built : value_buffer ctx.table.value_size ctx entry action ≡ ok value
  value_built =
      construct_buffer-untyped ctx.table.value_size ctx (fill_value_btf_info ctx entry action)
        (fill_value_byte_by_byte ctx entry action) fits.untyped
      ∙ fill_value_byte_by_byte_lem ctx entry action
      ∙ ground (arith, fits.value_fits)

  module _ {W : Type 0} (calls : TableCalls W) (fuel : ℕ) (s : Proc W) where
    closed_after : (r : Result (Unit {0}) × Proc W) → close_after calls fuel ctx r ≡ (r.0, ctx, r.1)
    unfolding ternary_table_close_tuple
    closed_after r =
        ap
          (λ b.
            let (ctx', s') = if b then close_table calls ctx r.1 else (ctx, r.1) in (r.0, ctx', s'))
          fits.plain

    write_open_lem :
        (flag : UpdateFlag)
        → write_open calls fuel ctx entry flag none ctx.table.fd s
          ≡ then_clear_cache calls fuel ctx
              (calls.entries.update s.world fd (entry_key entry) value flag)
              s
    write_open_lem flag =
        ap (λ o. write_open calls fuel ctx entry flag none o s) fits.opened
        ∙ ap
            (λ b.
              if b || ctx.table.value_size == 0
              then (err enotsup, s)
              else write_action calls fuel ctx entry flag none fd entry.action s)
            fits.key_sized
        ∙ ap
            (λ b.
              if b
              then (err enotsup, s)
              else write_action calls fuel ctx entry flag none fd entry.action s)
            fits.value_sized
        ∙ ap (λ a. write_action calls fuel ctx entry flag none fd a s) fits.acting
        ∙ ap
            (λ k.
              write_built calls fuel ctx flag none fd k
                (value_buffer ctx.table.value_size ctx entry action) s)
            (key_built ctx entry fd fits.keys)
        ∙ ap (λ v. write_built calls fuel ctx flag none fd (ok (entry_key entry)) v s) value_built
        ∙ ap
            (λ b.
              then_clear_cache calls fuel ctx
                (calls.entries.update s.world fd (entry_key entry) value (if b then any else flag))
                s)
            fits.no_array

    write_lem :
        (flag : UpdateFlag) (r : Result W)
        → calls.entries.update s.world fd (entry_key entry) value flag ≡ r
        → table_entry_write calls fuel entry flag ctx s
          ≡ ((then_clear_cache calls fuel ctx r s).0, ctx, (then_clear_cache calls fuel ctx r s).1)
    unfolding table_entry_write
    write_lem flag r updated =
        ap
          (λ b. write_tuple calls fuel entry flag (
            if b
            then mask_of calls (ternary_table_open_tuple calls fuel entry flag ctx s)
            else (ok none, ctx, s)))
          fits.plain
        ∙ ap (close_after calls fuel ctx)
            (write_open_lem flag ∙ ap (λ q. then_clear_cache calls fuel ctx q s) updated)
        ∙ closed_after (then_clear_cache calls fuel ctx r s)

    module _ (contents : W → ℕ → Bytes → Option Bytes)
        (laws : UpdateLaws calls.entries contents) where
      -- Let an entry fit a table without tuples that is no array and no trie. Adding an entry whose
      -- key is there fails with EEXIST and changes nothing.
      pub table_entry_add-taken :
          (old : Bytes)
          → contents s.world fd (entry_key entry) ≡ some old
          → table_entry_add calls fuel entry ctx s ≡ (err eexist, ctx, s)
      unfolding table_entry_add
      table_entry_add-taken old there =
          write_lem noexist (err eexist)
            (laws.update_noexist s.world fd (entry_key entry) value old there)

      pub found :
          (flag : UpdateFlag) (w : W)
          → calls.entries.update s.world fd (entry_key entry) value flag ≡ ok w
          → calls.entries.lookup w fd (entry_key entry) ≡ ok value
      found flag w updated =
          laws.lookup_find w fd (entry_key entry)
          ∙ rw
              (
                laws.update_find s.world w fd (entry_key entry) value flag fd (entry_key entry)
                    updated,
                nat_refl fd,
                beq_refl (entry_key entry),
              )
              refl

      -- what an entry with the same key reads
      stored_get :
          (reader : TableEntry) (k : MatchKey) (ks : List MatchKey) (flag : UpdateFlag) (w : W)
          (s' : Proc W)
          → KeyFits ctx reader fd
          → reader.match_keys ≡ k ∷ ks
          → entry_key reader ≡ entry_key entry
          → action.action_id < 2 ^ 32
          → entry.priority < 2 ^ 32
          → calls.entries.update s.world fd (entry_key entry) value flag ≡ ok w
          → s'.world ≡ w
          → (table_entry_get calls fuel reader ctx s').0
            ≡ ok (record table_entry_init {
              match_keys = reader.match_keys;
              action = some (record {
                action_id = if not ctx.is_indirect then action.action_id else 0;
                params = blob (concat action.params);
              });
              priority = 0;
            })
      stored_get reader k ks flag w s' readable keyed same lt lt' updated now =
          get_lem ctx reader fd readable calls fuel s' k ks keyed
          ∙ ap
              (λ v.
                parse_table_value ctx reader.match_keys
                  (calls.entries.lookup v fd (entry_key reader)))
              now
          ∙ ap (λ j. parse_table_value ctx reader.match_keys (calls.entries.lookup w fd j)) same
          ∙ ap (parse_table_value ctx reader.match_keys) (found flag w updated)
          ∙ ap (entry_of reader.match_keys) (parse_table_value_no_btf_lem ctx entry action lt lt')
          ∙ ap
              (λ b. entry_of reader.match_keys (
                ok (
                  if not ctx.is_indirect then action.action_id else 0,
                  if b then entry.priority else 0,
                  blob (concat action.params),
                )))
              fits.plain

      -- a write that the map accepts, where there is no cache
      pub written_lem :
          (flag : UpdateFlag) (w : W)
          → ctx.cache.fd ≡ none
          → calls.entries.update s.world fd (entry_key entry) value flag ≡ ok w
          → table_entry_write calls fuel entry flag ctx s ≡ (ok tt, ctx, record s { world = w })
      written_lem flag w uncached updated =
          write_lem flag (ok w) updated
          ∙ ap (λ q. (q.0, ctx, q.1))
              (clear_table_cache-closed calls.cached (zeros ctx.cache.value_size) fuel ctx.cache
                (record s { world = w }) uncached)

      -- Let an entry with at least one key fit a table without tuples that is no array and no trie
      -- and has no cache; let the number of its action and its priority be less than 2 ^ 32, and let
      -- the map accept it. Then adding it succeeds, and reading the entry of the same key gives its
      -- action's number, except for an indirect table, and all parameters as a single one.
      pub table_entry_get-table_entry_add :
          (k : MatchKey) (ks : List MatchKey) (w : W)
          → entry.match_keys ≡ k ∷ ks
          → ctx.cache.fd ≡ none
          → action.action_id < 2 ^ 32
          → entry.priority < 2 ^ 32
          → calls.entries.update s.world fd (entry_key entry) value noexist ≡ ok w
          → (table_entry_add calls fuel entry ctx s ≡ (ok tt, ctx, record s { world = w }))
            × ((table_entry_get calls fuel entry ctx (record s { world = w })).0
                ≡ ok (record table_entry_init {
                  match_keys = entry.match_keys;
                  action = some (record {
                    action_id = if not ctx.is_indirect then action.action_id else 0;
                    params = blob (concat action.params);
                  });
                  priority = 0;
                }))
      unfolding table_entry_add
      table_entry_get-table_entry_add k ks w keyed uncached lt lt' updated = (
        written_lem noexist w uncached updated,
        stored_get entry k ks noexist w (record s { world = w }) fits.keys keyed refl lt lt' updated
            refl,
      )
