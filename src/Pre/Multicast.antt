-- ===== src/Pre/Multicast.antt =====
-- lib/nikss_pre.c, "Multicast groups": the functions of nikss_pre.h on multicast groups.
use Prim.Native.String.{String}
use nikss.Base.{ℕ, Bool, false, Option, none, some}
use nikss.Bpf.Types.{Result, ok, err, hangs, einval, MapDescriptor, closed_descriptor}
use nikss.Bpf.Exec.{Proc, Exec, close_fds}
use nikss.Bpf.Open.{Opening}
use nikss.Pre.Types.{PreCalls, CloneSessionEntry, zero_entry}
use nikss.Pre.Maps.{open_pr_map}
use nikss.Pre.Session.{create_pre_session, remove_pre_session, pre_session_exists}
use nikss.Pre.Entry.{pre_session_insert_entry, pre_session_del_entry}
use nikss.Pre.Walk.{EntryCursor, pre_get_next_entry, pre_get_next_session}

abbrev pub multicast_group_table : String
multicast_group_table = "multicast_grp_tbl"

abbrev pub multicast_group_table_inner : String
multicast_group_table_inner = "multicast_grp_tbl_inner"

-- `nikss_mcast_grp_member_t`
pub record McastGrpMember : Type 0 where
  pub egress_port : ℕ
  pub instance : ℕ

abbrev pub zero_member : McastGrpMember
zero_member = record { egress_port = 0; instance = 0 }

-- `nikss_mcast_grp_ctx_t`
pub record McastGrpCtx : Type 0 where
  pub id : ℕ
  pub group_map : MapDescriptor
  pub current_member : McastGrpMember
  pub current_egress_port : ℕ
  pub current_instance : ℕ

-- nikss_mcast_grp_context_init
abbrev pub grp_context_init : McastGrpCtx
grp_context_init = record {
  id = 0;
  group_map = closed_descriptor;
  current_member = zero_member;
  current_egress_port = 0;
  current_instance = 0;
}

module _ {W : Type 0} where
  -- nikss_mcast_grp_context_free
  unfoldable pub grp_context_free : McastGrpCtx → Proc W → McastGrpCtx × Proc W
  grp_context_free g s = (grp_context_init, close_fds g.group_map.fd s)

  -- nikss_mcast_grp_id, which takes no null group: it would read through the pointer
  unfoldable pub grp_id : McastGrpCtx → ℕ → Proc W → McastGrpCtx × Proc W
  grp_id g mcast_grp_id s = (
    record g { id = mcast_grp_id; group_map = record g.group_map { fd = none } },
    close_fds g.group_map.fd s,
  )

-- the entry that is built for a member
abbrev pub entry_of_member : McastGrpMember → CloneSessionEntry
entry_of_member m = record zero_entry { egress_port = m.egress_port; instance = m.instance }

module _ {W : Type 0} (calls : PreCalls W) where
  -- nikss_mcast_grp_create, which takes no null group
  unfoldable pub grp_create : Option ℕ → McastGrpCtx → Exec W (Unit {0})
  grp_create ctx g =
      create_pre_session calls ctx multicast_group_table multicast_group_table_inner g.id

  -- nikss_mcast_grp_exists
  unfoldable pub grp_exists : Option ℕ → Option McastGrpCtx → Proc W → Bool × Proc W
  grp_exists ctx none s = (false, s)
  grp_exists ctx (some g) s = pre_session_exists calls ctx multicast_group_table g.id s

  -- nikss_mcast_grp_delete
  unfoldable pub grp_delete : Option ℕ → Option McastGrpCtx → Exec W (Unit {0})
  grp_delete ctx none s = (err einval, s)
  grp_delete ctx (some g) s = remove_pre_session calls ctx multicast_group_table g.id s

  -- nikss_mcast_grp_member_update
  unfoldable pub member_update :
      Option ℕ → Option McastGrpCtx → Option McastGrpMember → Exec W (Unit {0})
  member_update ctx (some g) (some m) s =
      pre_session_insert_entry calls ctx multicast_group_table g.id (some (entry_of_member m)) s
  member_update ctx _ _ s = (err einval, s)

  -- nikss_mcast_grp_member_delete
  unfoldable pub member_delete :
      ℕ → Option ℕ → Option McastGrpCtx → Option McastGrpMember → Exec W (Unit {0})
  member_delete fuel ctx (some g) (some m) s =
      pre_session_del_entry calls fuel ctx multicast_group_table g.id (some (entry_of_member m)) s
  member_delete fuel ctx _ _ s = (err einval, s)

  -- the arguments of `pre_get_next_entry`: the entry is a local variable
  abbrev cursor_of : McastGrpCtx → EntryCursor
  cursor_of g = record {
    session_map = g.group_map;
    current_egress_port = g.current_egress_port;
    current_instance = g.current_instance;
    current_entry = zero_entry;
  }

  abbrev moved_to : McastGrpCtx → EntryCursor → McastGrpCtx
  moved_to g c = record g {
    group_map = c.session_map;
    current_egress_port = c.current_egress_port;
    current_instance = c.current_instance;
  }

  abbrev member_of : CloneSessionEntry → McastGrpMember
  member_of e = record { egress_port = e.egress_port; instance = e.instance }

  abbrev member_or_null :
      McastGrpCtx
      → Result (Unit {0}) × EntryCursor × Proc W
      → Option McastGrpMember × McastGrpCtx × Proc W
  member_or_null g (ok u, c, s) = (
    some (member_of c.current_entry),
    record (moved_to g c) { current_member = member_of c.current_entry },
    s,
  )
  member_or_null g (err e, c, s) = (none, moved_to g c, s)
  member_or_null g (hangs, c, s) = (none, moved_to g c, s)

  -- nikss_mcast_grp_get_next_member
  unfoldable pub get_next_member :
      Option ℕ → McastGrpCtx → Proc W → Option McastGrpMember × McastGrpCtx × Proc W
  get_next_member none g s = (none, g, s)
  get_next_member (some ctx) g s =
      member_or_null g
        (pre_get_next_entry calls (some ctx) multicast_group_table g.id (cursor_of g) s)

-- `nikss_mcast_grp_list_t`
pub record McastGrpList : Type 0 where
  pub groups_map : MapDescriptor
  pub current_id : ℕ
  pub current_group : McastGrpCtx

module _ {W : Type 0} (calls : PreCalls W) where
  abbrev grp_list_of : Opening W → Result (Unit {0}) × McastGrpList × Proc W
  grp_list_of (r, md, s) =
      (r, record { groups_map = md; current_id = 0; current_group = grp_context_init }, s)

  -- nikss_mcast_grp_list_init
  unfoldable pub grp_list_init : ℕ → Proc W → Result (Unit {0}) × McastGrpList × Proc W
  grp_list_init ctx s = grp_list_of (open_pr_map calls ctx multicast_group_table s)

  abbrev next_grp_or_null : McastGrpList → Result (Unit {0}) × ℕ → Option McastGrpCtx × McastGrpList
  next_grp_or_null l (ok u, n) =
      let g : McastGrpCtx = record grp_context_init { id = n } in
      (some g, record l { current_id = n; current_group = g })
  next_grp_or_null l (err e, n) = (none, record l { current_id = n })
  next_grp_or_null l (hangs, n) = (none, record l { current_id = n })

  -- nikss_mcast_grp_list_get_next_group
  unfoldable pub grp_list_get_next_group :
      ℕ → McastGrpList → Proc W → Option McastGrpCtx × McastGrpList
  grp_list_get_next_group fuel l s =
      next_grp_or_null l (pre_get_next_session calls fuel l.groups_map l.current_id s)
