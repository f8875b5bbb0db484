-- ===== src/Cli/CloneSession/Reads.antt =====
-- The loop of CLI/clone_session.c over the entries of a session, on its list.
use nikss.Base.{
  ℕ, zero, suc, ◌+◌, ◌<◌, ◌≡◌, ◌∙◌, refl, ap, false, Option, some, arith, ◌==◌, List, [], ◌∷◌,
  length, ◌-◌, sym,
}
use nikss.Bpf.Types.{ok, MapLaws}
use nikss.Bpf.Exec.{Proc, close_fds}
use nikss.Pre.Types.{PreCalls, ElemT, CloneSessionEntry, Element, zero_elem, zero_entry, elem_eq}
use nikss.Pre.Entry.{key_of}
use nikss.Pre.Chain.{IsChain, IsDistinct, IsSession}
use nikss.Pre.Walk.{rewound, cursor_key, next_in_map, pre_get_next_entry}
use nikss.Pre.CloneSession.{
  CloneSessionCtx, clone_session_table, closed_cursor, get_next_entry, entry_or_null, context_free,
}
use nikss.Pre.Opening.{IsOpenable, with_fds, descriptor_of}
use nikss.Pre.Iterate.{
  next_in_map_lem, next_result, at_entry, pre_get_next_entry-open, pre_get_next_entry-closed,
}
use nikss.Cli.CloneSession.{read_entries, free_entry, after_read, add_entry}

module _ {W : Type 0} (calls : PreCalls W) (nodes : W → ℕ → ElemT → Option Element)
    (laws : MapLaws calls.inner nodes) (ctx id fd : ℕ) (nz : (id == 0) ≡ false) where
  -- A cursor over the session's open map, at the node `k`.
  record IsAt (k : ElemT) (c : CloneSessionCtx) : Type 0 where
    pub same_id : c.id ≡ id
    pub is_open : c.session_map.fd ≡ some fd
    pub same_key : cursor_key c.cursor ≡ k

  get_next_entry-open :
      (c : CloneSessionCtx) (s : Proc W) (k : ElemT)
      → IsAt k c
      → get_next_entry calls (some ctx) c s
        ≡ entry_or_null calls c (next_in_map calls (some fd) c.cursor s)
  unfolding get_next_entry
  get_next_entry-open c s k at =
      ap
        (λ (n : ℕ).
          entry_or_null calls c
            (pre_get_next_entry calls (some ctx) clone_session_table n c.cursor s))
        at.same_id
      ∙ ap (entry_or_null calls c)
          (pre_get_next_entry-open calls ctx id fd clone_session_table c.cursor s nz at.is_open)

  get_next_entry-lem :
      (c : CloneSessionCtx) (s : Proc W) (k : ElemT) (e : CloneSessionEntry)
      (xs : List CloneSessionEntry)
      → IsAt k c
      → IsChain (nodes s.world fd) k e xs
      → IsDistinct xs
      → get_next_entry calls (some ctx) c s
        ≡ (let r = next_result xs c.cursor in entry_or_null calls c (r.0, r.1, s))
  get_next_entry-lem c s k e xs at h d =
      get_next_entry-open c s k at
      ∙ ap (entry_or_null calls c)
          (next_in_map_lem calls nodes laws fd s c.cursor k e xs at.same_key h d)

  -- The loop from a node on reads the entries behind it, and leaves the cursor at the head.
  read_entries-rest :
      (fuel : ℕ) (c : CloneSessionCtx) (s : Proc W) (k : ElemT) (e : CloneSessionEntry)
      (xs : List CloneSessionEntry)
      → IsAt k c
      → IsChain (nodes s.world fd) k e xs
      → IsDistinct xs
      → length xs < fuel
      → (c' : CloneSessionCtx) × (read_entries calls fuel (some ctx) c s ≡ (ok xs, c', s))
        × IsAt zero_elem c'
  unfolding read_entries
  read_entries-rest zero c s k e xs at h d lt = elim lt [ ]
  read_entries-rest (suc fuel) c s k e [] at h d lt = (
    record c { cursor = rewound c.cursor },
    ap (after_read calls (read_entries calls fuel (some ctx)))
        (get_next_entry-lem c s k e [] at h d),
    record { same_id = at.same_id; is_open = at.is_open; same_key = refl },
  )
  read_entries-rest (suc fuel) c s k e (x ∷ xs) at h d lt =
      let c' : CloneSessionCtx = free_entry calls (record c { cursor = at_entry x c.cursor }) in
      let (c'', run, at'') =
        read_entries-rest fuel c' s (key_of x) x xs
          (record { same_id = at.same_id; is_open = at.is_open; same_key = refl }) h.1 d.2
          (omega arith) in
      (
        c'',
        ap (after_read calls (read_entries calls fuel (some ctx)))
              (get_next_entry-lem c s k e (x ∷ xs) at h d)
            ∙ ap (add_entry calls x) run,
        at'',
      )

reopened : {W : Type 0} (s : Proc W) → record s { open_fds = s.open_fds + 1 - 1 } ≡ s
reopened s = ground arith

-- On a session with an id other than 0 whose maps can be opened, and whose inner map holds a list
-- `xs` of distinct entries, a new context reads exactly `xs`, in the order of the list, with one
-- round more than there are entries. One descriptor stays open, the map of the session in the
-- context, and freeing the context closes it.
pub read_entries_lem :
    {W : Type 0} (calls : PreCalls W) (nodes : W → ℕ → ElemT → Option Element)
    (laws : MapLaws calls.inner nodes) (ctx id fd fuel : ℕ) (s : Proc W)
    (o : IsOpenable calls s.world ctx clone_session_table id fd) (xs : List CloneSessionEntry)
    → (id == 0) ≡ false
    → IsSession (nodes s.world fd) xs
    → length xs < fuel
    → (c' : CloneSessionCtx) × (read_entries calls fuel
          (some ctx)
          (record { id = id; cursor = closed_cursor })
          s
        ≡ (ok xs, c', with_fds 1 s))
      × ((context_free c' (with_fds 1 s)).1 ≡ s)
unfolding read_entries get_next_entry context_free
read_entries_lem calls nodes laws ctx id fd zero s o xs nz session lt = elim lt [ ]
read_entries_lem calls nodes laws ctx id fd (suc fuel) s o xs nz session lt =
    let c : CloneSessionCtx = record {
      id = id;
      cursor = rewound (record closed_cursor { session_map = descriptor_of fd o.inner_info });
    } in
    let (c', run, at) =
      read_entries-rest calls nodes laws ctx id fd nz (suc fuel) c (with_fds 1 s) zero_elem
        zero_entry xs (record { same_id = refl; is_open = refl; same_key = refl }) session.chain
        session.distinct lt in
    (
      c',
      ap
            (λ r.
              after_read calls (read_entries calls fuel (some ctx))
                (entry_or_null calls (record { id = id; cursor = closed_cursor }) r))
            (pre_get_next_entry-closed calls ctx id fd clone_session_table closed_cursor s o nz
              refl)
          ∙ ap (after_read calls (read_entries calls fuel (some ctx))) (
              sym (
                get_next_entry-open calls nodes laws ctx id fd nz c (with_fds 1 s) zero_elem
                  (record { same_id = refl; is_open = refl; same_key = refl })))
          ∙ run,
      ap (λ f. close_fds f (with_fds 1 s)) at.is_open ∙ reopened s,
    )
