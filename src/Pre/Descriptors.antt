-- ===== src/Pre/Descriptors.antt =====
-- The file descriptors that the functions on sessions and groups (lib/nikss_pre.c) open and close.
use Prim.Native.String.{String}
use nikss.Base.{
  ℕ, zero, suc, ◌+◌, ◌≡◌, ◌≢◌, ◌∙◌, refl, Bool, true, false, not, ◌&&◌, Option, none, some,
  if◌then◌else◌, arith, Bool-cases, inl, inr, ◌==◌,
}
use nikss.Bpf.Types.{Result, ok, err, hangs, enoent, MapDescriptor, closed_descriptor}
use nikss.Bpf.Exec.{Proc, Exec, continue, pure, fail}
use nikss.Bpf.Open.{Opening, open_bpf_map, update_map_info}
use nikss.Pre.Types.{zero_elem, PreCalls, ElemT, Element, CloneSessionEntry}
use nikss.Pre.Maps.{open_pr_map, open_session_map, open_pr_maps}
use nikss.Pre.Session.{
  do_create_pre_session, create_pre_session, remove_pre_session, pre_session_exists,
}
use nikss.Pre.Entry.{
  key_of, insert_node, find_previous, delete_node, with_session_map, with_pr_map, insert_checked,
  delete_checked, pre_session_insert_entry, pre_session_del_entry,
}

abbrev pub fd_count : Option ℕ → ℕ
fd_count none = 0
fd_count (some fd) = 1

abbrev is_err : {A : Type 0} → Result A → Bool
is_err (ok a) = false
is_err (err e) = true
is_err hangs = false

module _ {W A : Type 0} where
  continue-state :
      {B : Type 0} (r : Result B) (f : B → Exec W A) (s : Proc W)
      → ((b : B) → (f b s).1 ≡ s)
      → (continue r f s).1 ≡ s
  continue-state (ok b) f s h = h b
  continue-state (err e) f s h = refl
  continue-state hangs f s h = refl

  pick-state :
      (b c : Bool) (p q r : Exec W A) (s : Proc W)
      → (p s).1 ≡ s
      → (q s).1 ≡ s
      → (r s).1 ≡ s
      → ((if b then p else (if c then q else r)) s).1 ≡ s
  pick-state true c p q r s h h' h'' = h
  pick-state false true p q r s h h' h'' = h'
  pick-state false false p q r s h h' h'' = h''

module _ {W : Type 0} (calls : PreCalls W) where
  open_bpf_map-fds :
      (ctx : ℕ) (name : String) (s : Proc W)
      → (open_bpf_map calls.files ctx name closed_descriptor s).2.open_fds
        ≡ s.open_fds + fd_count (open_bpf_map calls.files ctx name closed_descriptor s).1.fd
  unfolding open_bpf_map update_map_info
  open_bpf_map-fds ctx name s = ground arith

  open_pr_map-fds :
      (ctx : ℕ) (name : String) (s : Proc W)
      → (open_pr_map calls ctx name s).2.open_fds
        ≡ s.open_fds + fd_count (open_pr_map calls ctx name s).1.fd
  unfolding open_pr_map
  open_pr_map-fds ctx name s = ground (arith, open_bpf_map-fds ctx name s)

  open_session_map-fds :
      (md md' : MapDescriptor) (n : ℕ) (s : Proc W)
      → (open_session_map calls md md' n s).2.open_fds
        ≡ s.open_fds + fd_count (open_session_map calls md md' n s).1.fd
  unfolding open_session_map update_map_info
  open_session_map-fds md md' n s = ground arith

  insert_node-fds :
      (fd : ℕ) (e : CloneSessionEntry) (s : Proc W)
      → (insert_node calls fd e s).1.open_fds ≡ s.open_fds
  unfolding insert_node
  insert_node-fds fd e s = ground arith

  find_previous-state :
      (fuel fd : ℕ) (t k : ElemT) (s : Proc W) → (find_previous calls fuel fd t k s).1 ≡ s
  unfolding find_previous
  find_previous-state zero fd t k s = refl
  find_previous-state (suc fuel) fd t k s =
      continue-state (calls.inner.lookup s.world fd k) _ s (λ v.
        pick-state {A = ElemT × Element}
          (v.next_id.instance == t.instance && v.next_id.port == t.port)
          (not (v.next_id.port == 0) && not (v.next_id.instance == 0)) (pure (k, v))
          (find_previous calls fuel fd t v.next_id) (fail enoent) s refl
          (find_previous-state fuel fd t v.next_id s) refl)

  delete_node-fds :
      (fuel fd : ℕ) (t : ElemT) (s : Proc W)
      → (delete_node calls fuel fd t s).1.open_fds ≡ s.open_fds
  unfolding delete_node
  delete_node-fds fuel fd t s = ground (arith, find_previous-state fuel fd t zero_elem s)

  -- What a body that keeps the count of descriptors leaves behind, run between the openings and
  -- `err:`.
  module _ (body : MapDescriptor → Exec W (Unit {0}))
      (keeps : (md : MapDescriptor) (s : Proc W) → (body md s).1.open_fds ≡ s.open_fds) where
    with_session_map-fds :
        (n : ℕ) (pr_map : MapDescriptor) (r : Opening W)
        → r.2.open_fds ≡ n + fd_count pr_map.fd + fd_count r.1.fd
        → (with_session_map calls body pr_map r).0 ≢ hangs
        → (with_session_map calls body pr_map r).1.open_fds ≡ n
    with_session_map-fds n pr_map (ok u, md, s) e h = ground (arith, keeps md s)
    with_session_map-fds n pr_map (err c, md, s) e h = ground arith
    with_session_map-fds n pr_map (hangs, md, s) e h = absurd (h refl)

    with_pr_map-fds :
        (n session : ℕ) (r : Opening W)
        → r.2.open_fds ≡ n + fd_count r.1.fd
        → (is_err r.0 ≡ true → fd_count r.1.fd ≡ 0)
        → (with_pr_map calls body session r).0 ≢ hangs
        → (with_pr_map calls body session r).1.open_fds ≡ n
    with_pr_map-fds n session (ok u, md, s) e c h =
        with_session_map-fds n md (open_session_map calls md closed_descriptor session s)
          (open_session_map-fds md closed_descriptor session s ∙ omega arith) h
    with_pr_map-fds n session (err x, md, s) e c h = ground arith
    with_pr_map-fds n session (hangs, md, s) e c h = absurd (h refl)

  insert_checked-fds :
      (e : CloneSessionEntry) (md : MapDescriptor) (fd : Option ℕ) (s : Proc W)
      → (insert_checked calls e md fd s).1.open_fds ≡ s.open_fds
  insert_checked-fds e md none s = refl
  insert_checked-fds e md (some fd) s = ground (arith, insert_node-fds fd e s)

  delete_checked-fds :
      (fuel : ℕ) (e : CloneSessionEntry) (md : MapDescriptor) (fd : Option ℕ) (s : Proc W)
      → (delete_checked calls fuel e md fd s).1.open_fds ≡ s.open_fds
  delete_checked-fds fuel e md none s = refl
  delete_checked-fds fuel e md (some fd) s = ground (arith, delete_node-fds fuel fd (key_of e) s)

  open_pr_map-closed :
      (ctx : ℕ) (name : String) (s : Proc W)
      → is_err (open_pr_map calls ctx name s).0 ≡ true
      → fd_count (open_pr_map calls ctx name s).1.fd ≡ 0
  unfolding open_pr_map
  open_pr_map-closed ctx name s h = ground arith

  -- Adding an entry leaves as many file descriptors open as there were, whatever the arguments and
  -- the answers of the kernel, unless a call does not return.
  pub pre_session_insert_entry-fds :
      (ctx : Option ℕ) (name : String) (session : ℕ) (e : Option CloneSessionEntry) (s : Proc W)
      → (pre_session_insert_entry calls ctx name session e s).0 ≢ hangs
      → (pre_session_insert_entry calls ctx name session e s).1.open_fds ≡ s.open_fds
  unfolding pre_session_insert_entry
  pre_session_insert_entry-fds (some ctx) name session (some e) s h =
      elim (Bool-cases (e.instance == 0 && e.egress_port == 0)) [
        | inl zeros ↦ rw zeros
        | inr other ↦ rw other (
            with_pr_map-fds _ (λ md s. insert_checked-fds e md md.fd s) s.open_fds session
              (open_pr_map calls ctx name s) (open_pr_map-fds ctx name s)
              (open_pr_map-closed ctx name s) (rw other at h))
      ]
  pre_session_insert_entry-fds (some ctx) name session none s h = refl
  pre_session_insert_entry-fds none name session (some e) s h = refl
  pre_session_insert_entry-fds none name session none s h = refl

  -- Deleting an entry leaves as many file descriptors open as there were, whatever the arguments and
  -- the answers of the kernel, unless a call or the walk does not return.
  pub pre_session_del_entry-fds :
      (fuel : ℕ) (ctx : Option ℕ) (name : String) (session : ℕ) (e : Option CloneSessionEntry)
      (s : Proc W)
      → (pre_session_del_entry calls fuel ctx name session e s).0 ≢ hangs
      → (pre_session_del_entry calls fuel ctx name session e s).1.open_fds ≡ s.open_fds
  unfolding pre_session_del_entry
  pre_session_del_entry-fds fuel (some ctx) name session (some e) s h =
      elim (Bool-cases (e.instance == 0 && e.egress_port == 0)) [
        | inl zeros ↦ rw zeros
        | inr other ↦ rw other (
            with_pr_map-fds _ (λ md s. delete_checked-fds fuel e md md.fd s) s.open_fds session
              (open_pr_map calls ctx name s) (open_pr_map-fds ctx name s)
              (open_pr_map-closed ctx name s) (rw other at h))
      ]
  pre_session_del_entry-fds fuel (some ctx) name session none s h = refl
  pre_session_del_entry-fds fuel none name session (some e) s h = refl
  pre_session_del_entry-fds fuel none name session none s h = refl

  do_create_pre_session-fds :
      (outer inner : MapDescriptor) (session : ℕ) (s : Proc W)
      → (do_create_pre_session calls outer inner session s).0 ≢ hangs
      → (do_create_pre_session calls outer inner session s).1.open_fds ≡ s.open_fds
  unfolding do_create_pre_session
  do_create_pre_session-fds outer inner session s h = ground arith

  open_pr_maps-fds :
      (ctx : ℕ) (name inner : String) (s : Proc W)
      → let r = open_pr_maps calls ctx name inner s in
        r.3.open_fds ≡ s.open_fds + fd_count r.1.fd + fd_count r.2.fd
  unfolding open_pr_maps
  open_pr_maps-fds ctx name inner s = ground (
    arith,
    open_bpf_map-fds ctx name s,
    open_bpf_map-fds ctx inner (open_bpf_map calls.files ctx name closed_descriptor s).2,
  )

  -- Removing a session leaves as many file descriptors open as there were, whatever the arguments and
  -- the answers of the kernel, unless a call does not return.
  pub remove_pre_session-fds :
      (ctx : Option ℕ) (name : String) (session : ℕ) (s : Proc W)
      → (remove_pre_session calls ctx name session s).0 ≢ hangs
      → (remove_pre_session calls ctx name session s).1.open_fds ≡ s.open_fds
  unfolding remove_pre_session
  remove_pre_session-fds none name session s h = refl
  remove_pre_session-fds (some ctx) name session s h = ground (arith, open_pr_map-fds ctx name s)

  -- Asking whether a session exists leaves as many file descriptors open as there were, whatever the
  -- arguments and the answers of the kernel.
  pub pre_session_exists-fds :
      (ctx : Option ℕ) (name : String) (session : ℕ) (s : Proc W)
      → (pre_session_exists calls ctx name session s).1.open_fds ≡ s.open_fds
  unfolding pre_session_exists
  pre_session_exists-fds none name session s = refl
  pre_session_exists-fds (some ctx) name session s =
      ground (arith, open_pr_map-fds ctx name s, open_pr_map-closed ctx name s)

  -- Creating a session leaves as many file descriptors open as there were, on every branch, whatever
  -- the arguments and the answers of the kernel, unless a call does not return.
  pub create_pre_session-fds :
      (ctx : Option ℕ) (name inner : String) (session : ℕ) (s : Proc W)
      → (create_pre_session calls ctx name inner session s).0 ≢ hangs
      → (create_pre_session calls ctx name inner session s).1.open_fds ≡ s.open_fds
  unfolding create_pre_session
  create_pre_session-fds none name inner session s h = refl
  create_pre_session-fds (some ctx) name inner session s h = ground (
    arith,
    open_pr_maps-fds ctx name inner s,
    do_create_pre_session-fds (open_pr_maps calls ctx name inner s).1
        (open_pr_maps calls ctx name inner s).2 session (open_pr_maps calls ctx name inner s).3,
  )
