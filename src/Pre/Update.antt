-- ===== src/Pre/Update.antt =====
-- `nikss_clone_session_entry_update`, `nikss_mcast_grp_member_update` and the two deletions, as they
-- run on a session that exists: what they do to its list.
use Prim.Native.String.{String}
use nikss.Base.{
  ℕ, ◌≡◌, ◌∙◌, ap, Bool-cases, inl, inr, Option, some, arith, true, false, ◌&&◌, ◌==◌, List, ◌∷◌,
  length, ◌<◌, if◌then◌else◌,
}
use nikss.Bpf.Types.{Result, ok, err, closed_descriptor, MapLaws, eexist, enoent, noexist}
use nikss.Bpf.Exec.{Proc, close_fds}
use nikss.Pre.Types.{PreCalls, ElemT, CloneSessionEntry, Element, zero_elem, elem_beq, elem_eq}
use nikss.Pre.Entry.{
  key_of, insert_node, delete_node, pre_session_insert_entry, pre_session_del_entry,
}
use nikss.Pre.Chain.{node, has_key, next_of, erase, IsSession}
use nikss.Pre.Find.{walk_finds}
use nikss.Pre.Insert.{insert_node-taken, insert_node-new}
use nikss.Pre.Delete.{delete_node-missed, delete_node-found}
use nikss.Pre.Opening.{IsOpenable, open_pr_map_lem, open_session_map_lem, with_fds}

not_head :
    (entry : CloneSessionEntry)
    → elem_beq zero_elem (key_of entry) ≡ false
    → (entry.instance == 0 && entry.egress_port == 0) ≡ false
not_head entry nz = ground arith

module _ {W : Type 0} (calls : PreCalls W) (ctx : ℕ) (name : String) (session fd : ℕ) (s : Proc W)
    (o : IsOpenable calls s.world ctx name session fd) (entry : CloneSessionEntry)
    (nz : elem_beq zero_elem (key_of entry) ≡ false) where
  -- the process while the session's map is open, and after both maps are closed
  abbrev inside : Proc W
  inside = with_fds 1 (with_fds 1 s)

  abbrev closing : Result (Unit {0}) × Proc W → Result (Unit {0}) × Proc W
  closing (r, s') = (r, close_fds (some fd) (close_fds (some o.outer) s'))

  insert-run :
      pre_session_insert_entry calls (some ctx) name session (some entry) s
      ≡ closing (insert_node calls fd entry inside)
  unfolding pre_session_insert_entry
  insert-run = rw (
    not_head entry nz,
    open_pr_map_lem calls ctx name session fd s o,
    open_session_map_lem calls ctx name session fd s o closed_descriptor 1,
    o.inner_key,
    o.inner_value,
  )

  delete-run :
      (fuel : ℕ)
      → pre_session_del_entry calls fuel (some ctx) name session (some entry) s
        ≡ closing (delete_node calls fuel fd (key_of entry) inside)
  unfolding pre_session_del_entry
  delete-run fuel = rw (
    not_head entry nz,
    open_pr_map_lem calls ctx name session fd s o,
    open_session_map_lem calls ctx name session fd s o closed_descriptor 1,
    o.inner_key,
    o.inner_value,
  )

  closing_lem :
      (r : Result (Unit {0})) (w : W)
      → closing (r, record inside { world = w }) ≡ (r, record s { world = w })
  closing_lem r w = ground arith

  module _ (nodes : W → ℕ → ElemT → Option Element) (laws : MapLaws calls.inner nodes)
      (xs : List CloneSessionEntry) (list : IsSession (nodes s.world fd) xs) where
    -- On a session whose maps can be opened and whose inner map holds a list of distinct entries,
    -- and for an entry whose port and instance are not both 0: if its port and instance are in the
    -- list, the insertion is refused with EEXIST, and nothing changes.
    pub pre_session_insert_entry-taken :
        has_key (key_of entry) xs ≡ true
        → pre_session_insert_entry calls (some ctx) name session (some entry) s ≡ (err eexist, s)
    pre_session_insert_entry-taken taken =
        insert-run
        ∙ ap closing (insert_node-taken calls nodes laws fd xs inside list entry taken)
        ∙ closing_lem (err eexist) s.world

    -- On a session whose maps can be opened and whose inner map holds a list of distinct entries,
    -- and for an entry whose port and instance are not both 0: if it is not in the list and the
    -- kernel has room for it, the insertion puts it in front of the list, and both maps that were
    -- opened are closed.
    pub pre_session_insert_entry-new :
        (w : W)
        → has_key (key_of entry) xs ≡ false
        → calls.inner.update s.world fd (key_of entry) (node entry (next_of xs)) noexist ≡ ok w
        → (w' : W) × (pre_session_insert_entry calls (some ctx) name session (some entry) s
            ≡ (ok tt, record s { world = w' }))
          × IsSession (nodes w' fd) (entry ∷ xs)
    pre_session_insert_entry-new w fresh added =
        let (w', run, list') =
          insert_node-new calls nodes laws fd xs inside list entry w nz fresh added in
        (w', insert-run ∙ ap closing run ∙ closing_lem (ok tt) w', list')

    -- On a session whose maps can be opened and whose inner map holds a list of distinct entries,
    -- and for an entry whose port and instance are not both 0: the deletion does what the walk that
    -- stops at a port or an instance 0 lets it do. Where the walk gets to the entry it is cut out of
    -- the list, elsewhere the result is ENOENT and nothing changes. One round more than there are
    -- entries is enough. Both maps are closed.
    pub pre_session_del_entry_lem :
        (fuel : ℕ)
        → length xs < fuel
        → (w' : W) × (pre_session_del_entry calls fuel (some ctx) name session (some entry) s ≡ (
            if walk_finds (key_of entry) xs
            then (ok tt, record s { world = w' })
            else (err enoent, s)))
          × IsSession
              (nodes w' fd)
              (if walk_finds (key_of entry) xs then erase (key_of entry) xs else xs)
    pre_session_del_entry_lem fuel enough = elim (Bool-cases (walk_finds (key_of entry) xs)) [
      | inl found ↦
          (let (w', run, list') =
              delete_node-found calls nodes laws fd fuel xs inside list enough (key_of entry) nz
                found in
            (
              w',
              rw found (delete-run fuel ∙ ap closing run ∙ closing_lem (ok tt) w'),
              rw found list',
            ))
      | inr missed ↦ (
        s.world,
        rw missed (
            delete-run fuel
            ∙ ap closing (
                delete_node-missed calls nodes laws fd fuel xs inside list enough (key_of entry) nz
                  missed)
            ∙ closing_lem (err enoent) s.world),
        rw missed list,
      )
    ]
