-- ===== src/Pre/Entry.antt =====
-- lib/nikss_pre.c: adding an entry to the list of a session or group, and deleting one.
use Prim.Native.String.{String}
use nikss.Base.{ℕ, zero, suc, not, ◌&&◌, Option, none, some, ◌==◌, if◌then◌else◌}
use nikss.Bpf.Types.{
  Result, ok, err, hangs, enoent, ebadf, einval, MapDescriptor, closed_descriptor, any, noexist,
  exist,
}
use nikss.Bpf.Exec.{
  Proc, Exec, ◌>>=◌, ◌>>◌, pure, fail, give_up, query, command, close_fds, finally,
}
use nikss.Bpf.Open.{Opening}
use nikss.Pre.Types.{PreCalls, ElemT, CloneSessionEntry, Element, zero_elem}
use nikss.Pre.Maps.{is_session_map, open_pr_map, open_session_map}

abbrev pub key_of : CloneSessionEntry → ElemT
key_of entry = record { port = entry.egress_port; instance = entry.instance }

module _ {W : Type 0} (calls : PreCalls W) where
  -- Both functions open the session map, work on it, and close both maps at `err:`.
  abbrev pub with_session_map :
      (MapDescriptor → Exec W (Unit {0})) → MapDescriptor → Opening W → Result (Unit {0}) × Proc W
  with_session_map body pr_map (ok u, session_map, s) =
      finally (body session_map) (λ s. close_fds session_map.fd (close_fds pr_map.fd s)) s
  with_session_map body pr_map (err e, session_map, s) =
      (err e, close_fds session_map.fd (close_fds pr_map.fd s))
  with_session_map body pr_map (hangs, session_map, s) = (hangs, s)

  abbrev pub with_pr_map :
      (MapDescriptor → Exec W (Unit {0})) → ℕ → Opening W → Result (Unit {0}) × Proc W
  with_pr_map body session (ok u, pr_map, s) =
      with_session_map body pr_map (open_session_map calls pr_map closed_descriptor session s)
  with_pr_map body session (err e, pr_map, s) = (err e, s)
  with_pr_map body session (hangs, pr_map, s) = (hangs, s)

  -- the steps 1 to 4, on the session map
  unfoldable pub insert_node : ℕ → CloneSessionEntry → Exec W (Unit {0})
  insert_node fd entry = do
    head ← query (λ w. calls.inner.lookup w fd zero_elem)
    command (λ w.
        calls.inner.update w fd (key_of entry) (record { entry = entry; next_id = head.next_id })
          noexist)
    command (λ w. calls.inner.update w fd zero_elem (record head { next_id = key_of entry }) any)

  -- A map that is no session map ends the function with the code of the opening before it, 0.
  abbrev pub insert_checked : CloneSessionEntry → MapDescriptor → Option ℕ → Exec W (Unit {0})
  insert_checked entry session_map none s = (err ebadf, s)
  insert_checked entry session_map (some fd) s =
      if not (is_session_map session_map) then (ok tt, s) else insert_node fd entry s

  unfoldable pub pre_session_insert_entry :
      Option ℕ → String → ℕ → Option CloneSessionEntry → Exec W (Unit {0})
  pre_session_insert_entry (some ctx) pr_map_name session (some entry) s =
      if entry.instance == 0 && entry.egress_port == 0
      then (err einval, s)
      else with_pr_map (λ session_map. insert_checked entry session_map session_map.fd) session
          (open_pr_map calls ctx pr_map_name s)
  pre_session_insert_entry _ pr_map_name session _ s = (err einval, s)

  -- The `do … while` loop: the key and the value of the node before the one to delete. The loop
  -- ends at the first node whose port or instance is 0.
  unfoldable pub find_previous : ℕ → ℕ → ElemT → ElemT → Exec W (ElemT × Element)
  find_previous zero fd target prev_elem_key = give_up
  find_previous (suc fuel) fd target prev_elem_key = do
    prev_elem_value ← query (λ w. calls.inner.lookup w fd prev_elem_key)
    let next = prev_elem_value.next_id
    let rest = find_previous fuel fd target next
    if next.instance == target.instance && next.port == target.port
        then pure (prev_elem_key, prev_elem_value)
        else (if not (next.port == 0) && not (next.instance == 0) then rest else fail enoent)

  unfoldable pub delete_node : ℕ → ℕ → ElemT → Exec W (Unit {0})
  delete_node fuel fd target = do
    (prev_elem_key, prev_elem_value) ← find_previous fuel fd target zero_elem
    elem_to_delete ← query (λ w. calls.inner.lookup w fd target)
    command (λ w.
        calls.inner.update w fd prev_elem_key
          (record prev_elem_value { next_id = elem_to_delete.next_id }) exist)
    command (λ w. calls.inner.delete w fd target)

  abbrev pub delete_checked : ℕ → CloneSessionEntry → MapDescriptor → Option ℕ → Exec W (Unit {0})
  delete_checked fuel entry session_map none s = (err ebadf, s)
  delete_checked fuel entry session_map (some fd) s =
      if not (is_session_map session_map)
      then (err einval, s)
      else delete_node fuel fd (key_of entry) s

  unfoldable pub pre_session_del_entry :
      ℕ → Option ℕ → String → ℕ → Option CloneSessionEntry → Exec W (Unit {0})
  pre_session_del_entry fuel (some ctx) pr_map_name session (some entry) s =
      if entry.instance == 0 && entry.egress_port == 0
      then (err einval, s)
      else with_pr_map (λ session_map. delete_checked fuel entry session_map session_map.fd) session
          (open_pr_map calls ctx pr_map_name s)
  pre_session_del_entry fuel _ pr_map_name session _ s = (err einval, s)
