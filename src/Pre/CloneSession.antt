-- ===== src/Pre/CloneSession.antt =====
-- lib/nikss_pre.c, "Clone session": the functions of nikss_pre.h on clone sessions. A null pointer is
-- `none`, and a setter's argument has the width of its field.
use Prim.Native.String.{String}
use nikss.Base.{ℕ, Bool, false, not, ◌==◌, Option, none, some, if◌then◌else◌}
use nikss.Bpf.Types.{Result, ok, err, hangs, einval, MapDescriptor, closed_descriptor}
use nikss.Bpf.Exec.{Proc, Exec, close_fds}
use nikss.Bpf.Open.{Opening}
use nikss.Pre.Types.{PreCalls, CloneSessionEntry, zero_entry}
use nikss.Pre.Maps.{open_pr_map}
use nikss.Pre.Session.{create_pre_session, remove_pre_session, pre_session_exists}
use nikss.Pre.Entry.{pre_session_insert_entry, pre_session_del_entry}
use nikss.Pre.Walk.{EntryCursor, pre_get_next_entry, pre_get_next_session}

abbrev pub clone_session_table : String
clone_session_table = "clone_session_tbl"

abbrev pub clone_session_table_inner : String
clone_session_table_inner = "clone_session_tbl_inner"

-- `nikss_clone_session_ctx_t`
pub record CloneSessionCtx : Type 0 where
  pub id : ℕ
  pub cursor : EntryCursor
  pub open cursor use *

abbrev pub closed_cursor : EntryCursor
closed_cursor = record {
  session_map = closed_descriptor;
  current_egress_port = 0;
  current_instance = 0;
  current_entry = zero_entry;
}

-- nikss_clone_session_context_init
abbrev pub context_init : CloneSessionCtx
context_init = record { id = 0; cursor = closed_cursor }

abbrev pub drop_session_map : CloneSessionCtx → CloneSessionCtx
drop_session_map c = record c {
  cursor = record c.cursor { session_map = record c.session_map { fd = none } };
}

module _ {W : Type 0} where
  -- nikss_clone_session_context_free
  unfoldable pub context_free : CloneSessionCtx → Proc W → CloneSessionCtx × Proc W
  context_free c s = (drop_session_map c, close_fds c.session_map.fd s)

  -- nikss_clone_session_id
  unfoldable pub set_id : CloneSessionCtx → ℕ → Proc W → CloneSessionCtx × Proc W
  set_id c id s = (drop_session_map (record c { id = id }), close_fds c.session_map.fd s)

-- nikss_clone_session_get_id
unfoldable pub get_id : Option CloneSessionCtx → ℕ
get_id none = 0
get_id (some c) = c.id

-- nikss_clone_session_entry_init, nikss_clone_session_entry_free
unfoldable pub entry_init : CloneSessionEntry → CloneSessionEntry
entry_init e = zero_entry

-- nikss_clone_session_entry_port, _instance, _cos
unfoldable pub entry_port : CloneSessionEntry → ℕ → CloneSessionEntry
entry_port e egress_port = record e { egress_port = egress_port }

unfoldable pub entry_instance : CloneSessionEntry → ℕ → CloneSessionEntry
entry_instance e instance_id = record e { instance = instance_id }

unfoldable pub entry_cos : CloneSessionEntry → ℕ → CloneSessionEntry
entry_cos e class_of_service = record e { class_of_service = class_of_service }

unfoldable pub entry_truncate_enable : CloneSessionEntry → ℕ → CloneSessionEntry
entry_truncate_enable e packet_length_bytes = record e {
  truncate = 1;
  packet_length_bytes = packet_length_bytes;
}

unfoldable pub entry_truncate_disable : CloneSessionEntry → CloneSessionEntry
entry_truncate_disable e = record e { truncate = 0; packet_length_bytes = 0 }

unfoldable pub entry_get_truncate_state : Option CloneSessionEntry → Bool
entry_get_truncate_state none = false
entry_get_truncate_state (some e) = not (e.truncate == 0)

unfoldable pub entry_get_truncate_length : Option CloneSessionEntry → ℕ
entry_get_truncate_length none = 0
entry_get_truncate_length (some e) = if e.truncate == 0 then 0 else e.packet_length_bytes

module _ {W : Type 0} (calls : PreCalls W) where
  -- nikss_clone_session_exists
  unfoldable pub session_exists : Option ℕ → Option CloneSessionCtx → Proc W → Bool × Proc W
  session_exists ctx none s = (false, s)
  session_exists ctx (some c) s = pre_session_exists calls ctx clone_session_table c.id s

  -- nikss_clone_session_create, which takes no null session
  unfoldable pub session_create : Option ℕ → CloneSessionCtx → Exec W (Unit {0})
  session_create ctx c =
      create_pre_session calls ctx clone_session_table clone_session_table_inner c.id

  -- nikss_clone_session_delete
  unfoldable pub session_delete : Option ℕ → Option CloneSessionCtx → Exec W (Unit {0})
  session_delete ctx none s = (err einval, s)
  session_delete ctx (some c) s = remove_pre_session calls ctx clone_session_table c.id s

  -- nikss_clone_session_entry_update
  unfoldable pub entry_update :
      Option ℕ → Option CloneSessionCtx → Option CloneSessionEntry → Exec W (Unit {0})
  entry_update ctx none entry s = (err einval, s)
  entry_update ctx (some c) entry s =
      pre_session_insert_entry calls ctx clone_session_table c.id entry s

  -- nikss_clone_session_entry_delete
  unfoldable pub entry_delete :
      ℕ → Option ℕ → Option CloneSessionCtx → Option CloneSessionEntry → Exec W (Unit {0})
  entry_delete fuel ctx none entry s = (err einval, s)
  entry_delete fuel ctx (some c) entry s =
      pre_session_del_entry calls fuel ctx clone_session_table c.id entry s

  abbrev pub entry_or_null :
      CloneSessionCtx
      → Result (Unit {0}) × EntryCursor × Proc W
      → Option CloneSessionEntry × CloneSessionCtx × Proc W
  entry_or_null c (ok u, cursor, s) = (some cursor.current_entry, record c { cursor = cursor }, s)
  entry_or_null c (err e, cursor, s) = (none, record c { cursor = cursor }, s)
  entry_or_null c (hangs, cursor, s) = (none, record c { cursor = cursor }, s)

  -- nikss_clone_session_get_next_entry
  unfoldable pub get_next_entry :
      Option ℕ → CloneSessionCtx → Proc W → Option CloneSessionEntry × CloneSessionCtx × Proc W
  get_next_entry none c s = (none, c, s)
  get_next_entry (some ctx) c s =
      entry_or_null c (pre_get_next_entry calls (some ctx) clone_session_table c.id c.cursor s)

-- `nikss_clone_session_list_t`
pub record CloneSessionList : Type 0 where
  pub sessions_map : MapDescriptor
  pub current_id : ℕ
  pub current_session : CloneSessionCtx

module _ {W : Type 0} (calls : PreCalls W) where
  abbrev list_of : Opening W → Result (Unit {0}) × CloneSessionList × Proc W
  list_of (r, md, s) =
      (r, record { sessions_map = md; current_id = 0; current_session = context_init }, s)

  -- nikss_clone_session_list_init
  unfoldable pub list_init : ℕ → Proc W → Result (Unit {0}) × CloneSessionList × Proc W
  list_init ctx s = list_of (open_pr_map calls ctx clone_session_table s)

  -- nikss_clone_session_list_free
  unfoldable pub list_free : CloneSessionList → Proc W → CloneSessionList × Proc W
  list_free l s = (
    record l {
      sessions_map = record l.sessions_map { fd = none };
      current_session = drop_session_map l.current_session;
    },
    close_fds l.current_session.session_map.fd (close_fds l.sessions_map.fd s),
  )

  abbrev group_or_null :
      CloneSessionList → Result (Unit {0}) × ℕ → Option CloneSessionCtx × CloneSessionList
  group_or_null l (ok u, n) =
      let c : CloneSessionCtx = record { id = n; cursor = closed_cursor } in
      (some c, record l { current_id = n; current_session = c })
  group_or_null l (err e, n) = (none, record l { current_id = n })
  group_or_null l (hangs, n) = (none, record l { current_id = n })

  -- nikss_clone_session_list_get_next_group: the context is initialised anew, so a map that the last
  -- session has left open is not closed.
  unfoldable pub list_get_next_group :
      ℕ → CloneSessionList → Proc W → Option CloneSessionCtx × CloneSessionList
  list_get_next_group fuel l s =
      group_or_null l (pre_get_next_session calls fuel l.sessions_map l.current_id s)
