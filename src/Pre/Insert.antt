-- ===== src/Pre/Insert.antt =====
-- `pre_session_insert_entry` of lib/nikss_pre.c on the map of a session.
use nikss.Base.{ℕ, ◌≡◌, ◌∙◌, true, false, Option, some, List, ◌∷◌, nat_refl}
use nikss.Bpf.Types.{ok, err, MapLaws, eexist, any, noexist}
use nikss.Bpf.Exec.{Proc}
use nikss.Pre.Types.{
  PreCalls, ElemT, CloneSessionEntry, Element, zero_elem, zero_entry, elem_beq, elem_eq,
}
use nikss.Pre.Entry.{key_of, insert_node}
use nikss.Pre.Chain.{node, has_key, next_of, IsChain-head, IsChain-find, IsSession, elem_beq_comm}
use nikss.Pre.Lists.{IsSession-Pushed}

module _ {W : Type 0} (calls : PreCalls W) (nodes : W → ℕ → ElemT → Option Element)
    (laws : MapLaws calls.inner nodes) (fd : ℕ) (xs : List CloneSessionEntry) (s : Proc W)
    (session : IsSession (nodes s.world fd) xs) where
  head_read : calls.inner.lookup s.world fd zero_elem ≡ ok (node zero_entry (next_of xs))
  head_read =
      laws.lookup_find s.world fd zero_elem
      ∙ rw (IsChain-head (nodes s.world fd) zero_elem zero_entry xs session.chain)

  -- A key that is in the list is refused.
  pub insert_node-taken :
      (entry : CloneSessionEntry)
      → has_key (key_of entry) xs ≡ true
      → insert_node calls fd entry s ≡ (err eexist, s)
  unfolding insert_node
  insert_node-taken entry taken =
      let (x, e) =
        IsChain-find (nodes s.world fd) zero_elem zero_entry xs (key_of entry) session.chain
          taken in
      rw (head_read, laws.update_noexist s.world fd (key_of entry) (node entry (next_of xs)) _ e)

  -- After the node the head is written, which cannot fail.
  pub insert_node-new :
      (entry : CloneSessionEntry) (w : W)
      → elem_beq zero_elem (key_of entry) ≡ false
      → has_key (key_of entry) xs ≡ false
      → calls.inner.update s.world fd (key_of entry) (node entry (next_of xs)) noexist ≡ ok w
      → (w' : W) × (insert_node calls fd entry s ≡ (ok tt, record s { world = w' }))
        × IsSession (nodes w' fd) (entry ∷ xs)
  unfolding insert_node
  insert_node-new entry w nz fresh added =
      let kept : nodes w fd zero_elem ≡ some (node zero_entry (next_of xs)) =
        laws.update_find s.world w fd (key_of entry) (node entry (next_of xs)) noexist fd zero_elem
          added
        ∙ rw (nat_refl fd, elem_beq_comm (key_of entry) zero_elem, nz)
            (IsChain-head (nodes s.world fd) zero_elem zero_entry xs session.chain) in
      let (w', moved) =
        laws.update_present w fd zero_elem (node zero_entry (key_of entry)) _ any kept (cc) in
      (
        w',
        rw (head_read, added, moved),
        IsSession-Pushed (nodes s.world fd) (nodes w' fd) xs session entry nz fresh (λ j.
            laws.update_find w w' fd zero_elem (node zero_entry (key_of entry)) any fd j moved
            ∙ rw (
              nat_refl fd,
              laws.update_find s.world w fd (key_of entry) (node entry (next_of xs)) noexist fd j
                  added,
              nat_refl fd,
            )),
      )
