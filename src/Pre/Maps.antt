-- ===== src/Pre/Maps.antt =====
-- lib/nikss_pre.c, "Common functions": opening the maps of clone sessions and multicast groups.
use Prim.Native.String.{String}
use nikss.Base.{ℕ, ◌+◌, Bool, not, ◌&&◌, Option, none, some, ◌==◌, if◌then◌else◌}
use nikss.Bpf.Types.{Result, ok, err, hangs, ebadf, einval, MapDescriptor, closed_descriptor}
use nikss.Bpf.Exec.{Proc, close_fds}
use nikss.Bpf.Open.{Opening, open_bpf_map, update_map_info}
use nikss.Pre.Types.{PreCalls, elem_t_size, element_size}

abbrev pub is_session_map : MapDescriptor → Bool
is_session_map md = md.key_size == elem_t_size && md.value_size == element_size

abbrev pub is_outer_map : MapDescriptor → Bool
is_outer_map md = md.key_size == 4 && md.value_size == 4

module _ {W : Type 0} (calls : PreCalls W) where
  -- the code at `err:`, where only the outer map is asked for
  abbrev close_if_failed : Opening W → Opening W
  close_if_failed (ok u, md, s) = (ok u, md, s)
  close_if_failed (err e, md, s) = (err e, record md { fd = none }, close_fds md.fd s)
  close_if_failed (hangs, md, s) = (hangs, md, s)

  -- `open_pr_maps(ctx, pr_map_outer, NULL, outer, NULL)`
  unfoldable pub open_pr_map : ℕ → String → Proc W → Opening W
  open_pr_map pipeline_id name s =
      close_if_failed (open_bpf_map calls.files pipeline_id name closed_descriptor s)

  abbrev close_both_if_failed :
      Opening W → MapDescriptor → Result (Unit {0}) × MapDescriptor × MapDescriptor × Proc W
  close_both_if_failed (ok u, inner, s) outer = (ok u, outer, inner, s)
  close_both_if_failed (err e, inner, s) outer = (
    err e,
    record outer { fd = none },
    record inner { fd = none },
    close_fds outer.fd (close_fds inner.fd s),
  )
  close_both_if_failed (hangs, inner, s) outer = (hangs, outer, inner, s)

  abbrev then_open_inner :
      ℕ → String → Opening W → Result (Unit {0}) × MapDescriptor × MapDescriptor × Proc W
  then_open_inner pipeline_id inner (ok u, outer, s) =
      close_both_if_failed (open_bpf_map calls.files pipeline_id inner closed_descriptor s) outer
  then_open_inner pipeline_id inner (err e, outer, s) =
      (err e, record outer { fd = none }, closed_descriptor, close_fds outer.fd s)
  then_open_inner pipeline_id inner (hangs, outer, s) = (hangs, outer, closed_descriptor, s)

  -- `open_pr_maps` with a name for the inner map
  unfoldable pub open_pr_maps :
      ℕ → String → String → Proc W → Result (Unit {0}) × MapDescriptor × MapDescriptor × Proc W
  open_pr_maps pipeline_id outer inner s =
      then_open_inner pipeline_id inner
        (open_bpf_map calls.files pipeline_id outer closed_descriptor s)

  abbrev check_session_map : Opening W → Opening W
  check_session_map (ok u, md, s) =
      if not (is_session_map md) then (err einval, md, s) else (ok u, md, s)
  check_session_map (err e, md, s) = (err e, md, s)
  check_session_map (hangs, md, s) = (hangs, md, s)

  abbrev use_inner_fd : Result ℕ → MapDescriptor → Proc W → Opening W
  use_inner_fd (ok fd) md s = check_session_map (
      update_map_info calls.files (record md { fd = some fd })
        (record s { open_fds = s.open_fds + 1 }))
  use_inner_fd (err e) md s = (err e, md, s)
  use_inner_fd hangs md s = (hangs, md, s)

  abbrev use_inner_id : Result ℕ → MapDescriptor → Proc W → Opening W
  use_inner_id (ok inner_map_id) md s = use_inner_fd (calls.map_get_fd s.world inner_map_id) md s
  use_inner_id (err e) md s = (err e, md, s)
  use_inner_id hangs md s = (hangs, md, s)

  abbrev session_map_of : MapDescriptor → MapDescriptor → ℕ → Option ℕ → Proc W → Opening W
  session_map_of pr_map md session none s = (err ebadf, md, s)
  session_map_of pr_map md session (some fd) s =
      if not (is_outer_map pr_map)
      then (err einval, md, s)
      else use_inner_id (calls.outer.lookup s.world fd session) md s

  -- A session map that is not one, or that cannot be described, stays open: the callers close it.
  unfoldable pub open_session_map : MapDescriptor → MapDescriptor → ℕ → Proc W → Opening W
  open_session_map pr_map session_map session s =
      session_map_of pr_map (record session_map { fd = none; key_size = 0; value_size = 0 }) session
        pr_map.fd s
