-- ===== src/Pre/Session.antt =====
-- lib/nikss_pre.c: creating and removing a session or group, and asking whether it exists.
-- A function of the library is given the pipeline of its context; a null context is `none`.
use Prim.Native.String.{String}
use nikss.Base.{ℕ, ◌+◌, Bool, true, false, not, ◌||◌, Option, none, some, ◌==◌, if◌then◌else◌}
use nikss.Bpf.Types.{
  Result, ok, err, hangs, ebadf, einval, MapDescriptor, MapInfo, MapType, any, noexist,
}
use nikss.Bpf.Exec.{Proc, Exec, ◌>>◌, command, close_fds, finally}
use nikss.Bpf.Open.{Opening}
use nikss.Pre.Types.{PreCalls, Element, zero_elem, zero_entry}
use nikss.Pre.Maps.{is_session_map, is_outer_map, open_pr_map, open_pr_maps}

abbrev pub is_array_of_maps : MapType → Bool
is_array_of_maps MapType.array_of_maps = true
is_array_of_maps MapType.hash = false
is_array_of_maps MapType.array = false
is_array_of_maps MapType.queue = false
is_array_of_maps MapType.hash_of_maps = false
is_array_of_maps MapType.lpm_trie = false
is_array_of_maps MapType.other = false

abbrev pub head_of_new_list : Element
head_of_new_list = record { entry = zero_entry; next_id = zero_elem }

abbrev pub info_of : MapDescriptor → MapInfo
info_of md = record {
  type = md.type;
  key_size = md.key_size;
  value_size = md.value_size;
  max_entries = md.max_entries;
}

module _ {W : Type 0} (calls : PreCalls W) where
  -- add head in inner map; add inner map to outer map
  abbrev link_session : MapDescriptor → ℕ → ℕ → ℕ → Exec W (Unit {0})
  link_session pr_map pr_map_fd session inner_map_fd = do
    command (λ w. calls.inner.update w inner_map_fd zero_elem head_of_new_list any)
    command (λ w.
        calls.outer.update w pr_map_fd session inner_map_fd
          (if is_array_of_maps pr_map.type then any else noexist))

  abbrev fill_created : MapDescriptor → ℕ → ℕ → Result (ℕ × W) → Exec W (Unit {0})
  fill_created pr_map pr_map_fd session (ok (inner_map_fd, w)) s =
      finally (link_session pr_map pr_map_fd session inner_map_fd) (close_fds (some inner_map_fd))
        (record { world = w; open_fds = s.open_fds + 1 })
  fill_created pr_map pr_map_fd session (err e) s = (err e, s)
  fill_created pr_map pr_map_fd session hangs s = (hangs, s)

  abbrev create_checked :
      MapDescriptor → MapDescriptor → ℕ → Option ℕ → Option ℕ → Exec W (Unit {0})
  create_checked pr_map session_template session none template_fd s = (err ebadf, s)
  create_checked pr_map session_template session (some fd) none s = (err ebadf, s)
  create_checked pr_map session_template session (some fd) (some template_fd) s =
      if not (pr_map.key_size == 4) || not (is_session_map session_template)
      then (err einval, s)
      else fill_created pr_map fd session (calls.create_map s.world (info_of session_template)) s

  unfoldable pub do_create_pre_session : MapDescriptor → MapDescriptor → ℕ → Exec W (Unit {0})
  do_create_pre_session pr_map session_template session =
      create_checked pr_map session_template session pr_map.fd session_template.fd

  abbrev create_in :
      ℕ → Result (Unit {0}) × MapDescriptor × MapDescriptor × Proc W → Result (Unit {0}) × Proc W
  create_in session (ok u, outer, inner, s) =
      finally (do_create_pre_session outer inner session)
        (λ s. close_fds outer.fd (close_fds inner.fd s)) s
  create_in session (err e, outer, inner, s) = (err e, close_fds outer.fd (close_fds inner.fd s))
  create_in session (hangs, outer, inner, s) = (hangs, s)

  unfoldable pub create_pre_session : Option ℕ → String → String → ℕ → Exec W (Unit {0})
  create_pre_session none pr_map pr_map_inner session s = (err einval, s)
  create_pre_session (some ctx) pr_map pr_map_inner session s =
      if session == 0
      then (err einval, s)
      else create_in session (open_pr_maps calls ctx pr_map pr_map_inner s)

  abbrev delete_at : MapDescriptor → ℕ → Option ℕ → Exec W (Unit {0})
  delete_at pr_map session none s = (err ebadf, s)
  delete_at pr_map session (some fd) s =
      if not (pr_map.key_size == 4)
      then (err einval, s)
      else command (λ w. calls.outer.delete w fd session) s

  abbrev remove_in : ℕ → Opening W → Result (Unit {0}) × Proc W
  remove_in session (ok u, pr_map, s) =
      finally (delete_at pr_map session pr_map.fd) (close_fds pr_map.fd) s
  remove_in session (err e, pr_map, s) = (err e, close_fds pr_map.fd s)
  remove_in session (hangs, pr_map, s) = (hangs, s)

  unfoldable pub remove_pre_session : Option ℕ → String → ℕ → Exec W (Unit {0})
  remove_pre_session none pr_map_name session s = (err einval, s)
  remove_pre_session (some ctx) pr_map_name session s =
      if session == 0
      then (err einval, s)
      else remove_in session (open_pr_map calls ctx pr_map_name s)

  abbrev is_valid_id : Result ℕ → Bool
  is_valid_id (ok inner_map_id) = not (inner_map_id == 0)
  is_valid_id (err e) = false
  is_valid_id hangs = false

  abbrev exists_at : MapDescriptor → ℕ → Option ℕ → Proc W → Bool
  exists_at pr_map session none s = false
  exists_at pr_map session (some fd) s =
      if not (is_outer_map pr_map)
      then false
      else is_valid_id (calls.outer.lookup s.world fd session)

  abbrev exists_in : ℕ → Opening W → Bool × Proc W
  exists_in session (ok u, pr_map, s) =
      (exists_at pr_map session pr_map.fd s, close_fds pr_map.fd s)
  exists_in session (err e, pr_map, s) = (false, s)
  exists_in session (hangs, pr_map, s) = (false, close_fds pr_map.fd s)

  unfoldable pub pre_session_exists : Option ℕ → String → ℕ → Proc W → Bool × Proc W
  pre_session_exists none pr_map_name session s = (false, s)
  pre_session_exists (some ctx) pr_map_name session s =
      exists_in session (open_pr_map calls ctx pr_map_name s)
