-- ===== src/ValueSet/Ternary.antt =====
-- A value set of lib/nikss_value_set.c that is a ternary table.
use Prim.Native.String.{String}
use nikss.Base.{
  ℕ, ◌+◌, ◌≡◌, ◌∙◌, refl, ap, subst, Bool, true, false, not, Option, none, some, List, [], ◌∷◌,
  length, ◌==◌, if◌then◌else◌, arith,
}
use nikss.Bpf.Types.{
  Result, ok, err, hangs, MapInfo, MapDescriptor, closed_descriptor, eperm, einval, enoent,
  FileCalls, exist,
}
use nikss.Bpf.Exec.{Proc}
use nikss.Bpf.Open.{
  open_bpf_map, update_map_info, use_pinned, fill_map_info, build_ebpf_map_filename,
}
use nikss.Struct.Buffer.{Bytes}
use nikss.Table.Types.{TableContext, TableCalls, TableEntry, MatchKey}
use nikss.Table.Keys.{is_lpm_trie, fill_key_btf_info, fill_key_byte_by_byte}
use nikss.Table.Joined.{all_bytes, fill_key_byte_by_byte-plain}
use nikss.Table.Stored.{construct_buffer-untyped}
use nikss.Table.Opening.{open_ternary_table, table_entry_ctx_init}
use nikss.Table.Entry.{key_buffer}
use nikss.ValueSet.Context.{
  ValueSetContext, value_set_context_init, value_set_context_name, open_cache, take_ternary, Opened,
}
use nikss.ValueSet.Entries.{
  table_context, value_set_insert, value_set_delete, insert_key, without_context,
}
use nikss.Table.Tuples.{
  Tuple, clear_both, mask_of, ternary_table_open_tuple, open_maps, post_if_open,
  prepare_ternary_table_delete, post_ternary_table_delete,
}
use nikss.Table.Delete.{table_entry_del, delete_prepared, delete_open}

-- a set whose map has no metadata
abbrev IsBlank : ValueSetContext → Type 0
IsBlank ctx =
    (ctx.set_map.key_size ≡ 0) × (is_lpm_trie ctx.set_map.type ≡ false) × (ctx.key_type ≡ none)

abbrev BlankIfTernary : {W : Type 0} → Result (Unit {0}) × ValueSetContext × Proc W → Type 0
BlankIfTernary (r, ctx, s) = r ≡ ok tt → ctx.is_ternary_match ≡ true → IsBlank ctx

module _ {W : Type 0} (files : FileCalls W) (pipeline_id : ℕ) (name : String) where
  take_ternary-Blank :
      (ctx : ValueSetContext) (r : Result (Unit {0})) (table : TableContext) (s : Proc W)
      → IsBlank ctx
      → BlankIfTernary (take_ternary files pipeline_id name ctx (r, table, s))
  take_ternary-Blank ctx (ok u) table s blank done ternary = blank
  take_ternary-Blank ctx (err e) table s blank done ternary = blank
  take_ternary-Blank ctx hangs table s blank done ternary = blank

  abbrev finished : Result (Unit {0}) × MapDescriptor × Proc W → Opened files pipeline_id name
  finished (r, md, s) =
      let ctx = record value_set_context_init { set_map = md } in
      elim r [
        | ok u ↦ open_cache files pipeline_id name ctx s
        | err e ↦
            if e == enoent
            then take_ternary files pipeline_id name ctx
                (open_ternary_table files pipeline_id name table_entry_ctx_init s)
            else open_cache files pipeline_id name ctx s
        | hangs ↦ (hangs, ctx, s)
      ]

  picked :
      (b : Bool) (ctx : ValueSetContext) (s : Proc W)
      → IsBlank ctx
      → BlankIfTernary (
          if b
          then take_ternary files pipeline_id name ctx
              (open_ternary_table files pipeline_id name table_entry_ctx_init s)
          else open_cache files pipeline_id name ctx s)
  picked true ctx s blank =
      let (r, table, s') = open_ternary_table files pipeline_id name table_entry_ctx_init s in
      take_ternary-Blank ctx r table s' blank
  picked false ctx s blank = λ done ternary. blank

  failed :
      (e : ℕ) (fd : Option ℕ) (s : Proc W)
      → BlankIfTernary (finished (err e, record closed_descriptor { fd = fd }, s))
  failed e fd s =
      picked (e == enoent)
        (record value_set_context_init { set_map = record closed_descriptor { fd = fd } }) s
        (refl, refl, refl)

  no_hang : (md : MapDescriptor) (s : Proc W) → BlankIfTernary (finished (hangs, md, s))
  no_hang md s done ternary = absurd (cc)

  described :
      (fd : ℕ) (r : Result MapInfo) (s : Proc W)
      → BlankIfTernary
          (finished (fill_map_info files r (record closed_descriptor { fd = some fd }) s))
  described fd (ok info) s = λ done ternary. absurd (cc)
  described fd (err e) s = failed e (some fd) s
  described fd hangs s = no_hang (record closed_descriptor { fd = some fd }) s

  finished-Blank :
      (r : Result ℕ) (s : Proc W)
      → BlankIfTernary (finished (use_pinned files r closed_descriptor s))
  unfolding update_map_info
  finished-Blank (ok fd) s =
      described fd (files.obj_get_info s.world fd) (record s { open_fds = s.open_fds + 1 })
  finished-Blank (err e) s = failed e none s
  finished-Blank hangs s = no_hang closed_descriptor s

  named-Blank :
      (s : Proc W)
      → BlankIfTernary (value_set_context_name files pipeline_id name value_set_context_init s)
  unfolding value_set_context_name open_bpf_map
  named-Blank s =
      finished-Blank (files.obj_get s.world (build_ebpf_map_filename pipeline_id name)) s

module _ {W : Type 0} (calls : TableCalls W) where
  refused :
      (ctx : ValueSetContext) (fd : Option ℕ) (s : Proc W)
      → insert_key calls ctx fd (err eperm) s ≡ (err eperm, s)
  refused ctx none s = refl
  refused ctx (some fd) s = refl

module _ {W : Type 0} (calls : TableCalls W) (fuel : ℕ) (entry : TableEntry) (tec : TableContext)
    (s : Proc W) (empty : tec.table.key_size ≡ 0)
    (sized : (tec.prefixes.key_size == 0) ≡ false) where
  -- keys of no bytes do not go with prefixes of some
  mismatched :
      (p t fd : Option ℕ) → open_maps calls fuel p t fd entry exist tec s ≡ (err einval, tec, s)
  mismatched none t fd = refl
  mismatched (some p) none fd = refl
  mismatched (some p) (some t) (some fd) = refl
  mismatched (some p) (some t) none =
      let differ : not (tec.table.key_size == tec.prefixes.key_size) ≡ true =
        ground (arith, empty, sized) in
      rw differ refl

module _ {W : Type 0} (calls : TableCalls W) (fuel : ℕ) (tec : TableContext) (s : Proc W) where
  post_kept :
      (b : Bool) (fd : Option ℕ)
      → (let (r, ctx, s') =
            (if b then post_if_open calls fuel none fd tec s else (ok tt, tec, s)) in
          elim r as (λ x. Tuple W (Unit {0})) [
            | hangs ↦ (hangs, ctx, s')
            | ok u ↦ (err einval, ctx, s')
            | err e ↦ (err einval, ctx, s')
          ])
        ≡ (err einval, tec, s)
  post_kept true none = refl
  post_kept true (some fd) = refl
  post_kept false fd = refl

module _ {W : Type 0} (calls : TableCalls W) (fuel : ℕ) (ctx : ValueSetContext)
    (blank : IsBlank ctx) (entry : TableEntry) where
  insert-refused :
      (s : Proc W)
      → (length (all_bytes false entry.match_keys) == 0) ≡ false
      → value_set_insert calls ctx entry s ≡ (err eperm, s)
  unfolding value_set_insert
  insert-refused s keyed =
      let tec : TableContext = table_context ctx in
      let built : key_buffer tec entry ≡ err eperm =
        construct_buffer-untyped ctx.set_map.key_size tec (fill_key_btf_info tec entry)
          (fill_key_byte_by_byte tec entry) blank.2
        ∙ fill_key_byte_by_byte-plain tec entry blank.1
        ∙ rw (blank.0, keyed) refl in
      ap (λ k. insert_key calls ctx ctx.set_map.fd k s) built ∙ refused calls ctx ctx.set_map.fd s

  delete-refused :
      (s : Proc W) (k : MatchKey) (ks : List MatchKey)
      → ctx.is_ternary_match ≡ true
      → (ctx.prefixes.key_size == 0) ≡ false
      → entry.match_keys ≡ k ∷ ks
      → value_set_delete calls fuel ctx entry s ≡ (err einval, s)
  unfolding value_set_delete table_entry_del prepare_ternary_table_delete post_ternary_table_delete
      ternary_table_open_tuple
  delete-refused s k ks ternary sized keyed =
      let tec : TableContext = table_context ctx in
      ap
        (λ b. without_context calls (
          if b
          then delete_prepared calls fuel entry entry.match_keys
              (prepare_ternary_table_delete calls fuel entry tec s)
          else delete_open calls fuel tec none entry tec.table.fd s))
        ternary
      ∙ ap
          (λ ms. without_context calls (
            delete_prepared calls fuel entry ms (elim ms as (λ x. Tuple W (Option Bytes)) [
              | [] ↦ clear_both calls fuel tec s
              | j ∷ js ↦ mask_of calls (ternary_table_open_tuple calls fuel entry exist tec s)
            ])))
          keyed
      ∙ ap
          (λ q. without_context calls (delete_prepared calls fuel entry (k ∷ ks) (mask_of calls q)))
          (mismatched calls fuel entry tec s blank.0 sized tec.prefixes.fd tec.tuple_map.fd
            tec.table.fd)
      ∙ ap (without_context calls) (post_kept calls fuel tec s ctx.is_ternary_match ctx.set_map.fd)

-- Let a value set be opened under a name as a new context and come out ternary, with masks of some
-- bytes. Then no entry with keys can be inserted or deleted: insertion gives EPERM if the keys have
-- any bytes, deletion EINVAL, and nothing changes.
pub value_set-ternary :
    {W : Type 0} (calls : TableCalls W) (fuel pipeline_id : ℕ) (name : String) (s0 s : Proc W)
    (ctx : ValueSetContext) (entry : TableEntry) (k : MatchKey) (ks : List MatchKey)
    → value_set_context_name calls.files pipeline_id name value_set_context_init s0
      ≡ (ok tt, ctx, s)
    → ctx.is_ternary_match ≡ true
    → (ctx.prefixes.key_size == 0) ≡ false
    → entry.match_keys ≡ k ∷ ks
    → (length (all_bytes false entry.match_keys) == 0) ≡ false
    → (value_set_insert calls ctx entry s ≡ (err eperm, s))
      × (value_set_delete calls fuel ctx entry s ≡ (err einval, s))
value_set-ternary calls fuel pipeline_id name s0 s ctx entry k ks opened ternary sized keyed long =
    let blank : IsBlank ctx =
      subst BlankIfTernary opened (named-Blank calls.files pipeline_id name s0) refl ternary in
    (
      insert-refused calls fuel ctx blank entry s long,
      delete-refused calls fuel ctx blank entry s k ks ternary sized keyed,
    )
