-- ===== src/Cli/CloneSession.antt =====
-- CLI/clone_session.c: the loops that read the entries of a session. The JSON that they build
-- is left out, and with it the failures of its allocation.
pub mod Reads
use nikss.Base.{ℕ, zero, suc, Option, none, some, List, [], ◌∷◌}
use nikss.Bpf.Types.{Result, ok, err, hangs}
use nikss.Bpf.Exec.{Proc}
use nikss.Pre.Types.{PreCalls, CloneSessionEntry}
use nikss.Pre.CloneSession.{CloneSessionCtx, get_next_entry, entry_init}

module _ {W : Type 0} (calls : PreCalls W) where
  -- `nikss_clone_session_entry_free` on the entry that was read, which is the context's own
  abbrev pub free_entry : CloneSessionCtx → CloneSessionCtx
  free_entry c = record c {
    cursor = record c.cursor { current_entry = entry_init c.current_entry };
  }

  abbrev pub add_entry :
      CloneSessionEntry
      → Result (List CloneSessionEntry) × CloneSessionCtx × Proc W
      → Result (List CloneSessionEntry) × CloneSessionCtx × Proc W
  add_entry e (ok es, c, s) = (ok (e ∷ es), c, s)
  add_entry e (err x, c, s) = (err x, c, s)
  add_entry e (hangs, c, s) = (hangs, c, s)

  abbrev pub after_read :
      (CloneSessionCtx → Proc W → Result (List CloneSessionEntry) × CloneSessionCtx × Proc W)
      → Option CloneSessionEntry × CloneSessionCtx × Proc W
      → Result (List CloneSessionEntry) × CloneSessionCtx × Proc W
  after_read rest (none, c, s) = (ok [], c, s)
  after_read rest (some e, c, s) = add_entry e (rest (free_entry c) s)

  -- the loop of `create_json_single_session`
  pub read_entries :
      ℕ
      → Option ℕ
      → CloneSessionCtx
      → Proc W
      → Result (List CloneSessionEntry) × CloneSessionCtx × Proc W
  read_entries zero ctx c s = (hangs, c, s)
  read_entries (suc fuel) ctx c s =
      after_read (read_entries fuel ctx) (get_next_entry calls ctx c s)
