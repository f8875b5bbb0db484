-- ===== src/Table/Delete.antt =====
-- lib/nikss_table.c: deleting an entry of a table, or all of them.
use nikss.Base.{ℕ, Option, none, some, List, [], ◌∷◌, ◌==◌, if◌then◌else◌, replicate}
use nikss.Bpf.Types.{Result, ok, err, hangs, ebadf, enotsup}
use nikss.Bpf.Exec.{Proc, Exec}
use nikss.Struct.Buffer.{Bytes}
use nikss.Table.Types.{MatchKey, TableContext, TableCalls, TableEntry}
use nikss.Table.Tuples.{Tuple, prepare_ternary_table_delete, post_ternary_table_delete}
use nikss.Table.Clear.{clear_table_cache, delete_all_map_entries}
use nikss.Table.Entry.{key_buffer, masked_key, then_clear_cache}

module _ {W : Type 0} (calls : TableCalls W) (fuel : ℕ) where
  -- The code behind `clean_up`, whose own error is not looked at.
  abbrev pub post_after :
      TableContext → Option Bytes → Result (Unit {0}) × Proc W → Tuple W (Unit {0})
  post_after ctx mask (r, s) =
      let (r', ctx', s') = post_ternary_table_delete calls fuel mask ctx s in
      elim r' [ hangs ↦ (hangs, ctx', s') | ok u ↦ (r, ctx', s') | err e ↦ (r, ctx', s') ]

  abbrev pub delete_built : TableContext → Option Bytes → ℕ → Result Bytes → Exec W (Unit {0})
  delete_built ctx mask fd (ok key) s =
      then_clear_cache calls fuel ctx (calls.entries.delete s.world fd (masked_key ctx mask key)) s
  delete_built ctx mask fd (err e) s = (err e, s)
  delete_built ctx mask fd hangs s = (hangs, s)

  abbrev pub clear_after : TableContext → Result (Unit {0}) × Proc W → Result (Unit {0}) × Proc W
  clear_after ctx (ok u, s) =
      clear_table_cache calls.cached (replicate ctx.cache.value_size 0) fuel ctx.cache s
  clear_after ctx (err e, s) = (err e, s)
  clear_after ctx (hangs, s) = (hangs, s)

  abbrev pub without_context : TableContext → Result (Unit {0}) × Proc W → Tuple W (Unit {0})
  without_context ctx (r, s) = (r, ctx, s)

  -- The returns before `clean_up` leave it out.
  abbrev pub delete_keyed :
      TableContext → Option Bytes → TableEntry → ℕ → List MatchKey → Proc W → Tuple W (Unit {0})
  delete_keyed ctx mask entry fd [] s = without_context ctx (
      clear_after ctx
        (delete_all_map_entries calls.entries (replicate ctx.table.value_size 0) fuel ctx.table s))
  delete_keyed ctx mask entry fd (k ∷ ks) s =
      post_after ctx mask (delete_built ctx mask fd (key_buffer ctx entry) s)

  abbrev pub delete_open :
      TableContext → Option Bytes → TableEntry → Option ℕ → Proc W → Tuple W (Unit {0})
  delete_open ctx mask entry none s = (err ebadf, ctx, s)
  delete_open ctx mask entry (some fd) s =
      if ctx.table.key_size == 0
      then (err enotsup, ctx, s)
      else delete_keyed ctx mask entry fd entry.match_keys s

  -- A ternary table without keys in the entry has been emptied when it was prepared.
  abbrev pub delete_prepared :
      TableEntry → List MatchKey → Tuple W (Option Bytes) → Tuple W (Unit {0})
  delete_prepared entry [] (ok mask, ctx, s) = post_after ctx mask (ok tt, s)
  delete_prepared entry (k ∷ ks) (ok mask, ctx, s) = delete_open ctx mask entry ctx.table.fd s
  delete_prepared entry keys (err e, ctx, s) = post_after ctx none (err e, s)
  delete_prepared entry keys (hangs, ctx, s) = (hangs, ctx, s)

  unfoldable pub table_entry_del : TableEntry → TableContext → Proc W → Tuple W (Unit {0})
  table_entry_del entry ctx s =
      if ctx.is_ternary
      then delete_prepared entry entry.match_keys
          (prepare_ternary_table_delete calls fuel entry ctx s)
      else delete_open ctx none entry ctx.table.fd s
