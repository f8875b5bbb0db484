-- ===== src/Pre/Delete.antt =====
-- `pre_session_del_entry` of lib/nikss_pre.c on the map of a session.
use nikss.Base.{
  ℕ, ◌<◌, ◌≡◌, refl, ◌∙◌, subst, Bool, true, false, Option, some, List, [], ◌∷◌, if◌then◌else◌,
  arith, Bool-cases, length, inl, inr, nat_refl,
}
use nikss.Bpf.Types.{ok, err, MapLaws, exist, enoent}
use nikss.Bpf.Exec.{Proc}
use nikss.Pre.Types.{
  PreCalls, ElemT, CloneSessionEntry, Element, zero_elem, zero_entry, elem_beq, elem_eq,
}
use nikss.Pre.Entry.{key_of, delete_node}
use nikss.Pre.Find.{walk_finds, find_previous_lem}
use nikss.Pre.Chain.{
  Contents, node, has_key, previous_of, next_after, erase, IsChain, IsSession, IsChain-find,
  elem_eq_of,
}
use nikss.Pre.Lists.{IsSession-Cut}

pub walk_finds-has_key :
    (t : ElemT) (xs : List CloneSessionEntry) → walk_finds t xs ≡ true → has_key t xs ≡ true
walk_finds-has_key t [] h = h
walk_finds-has_key t (x ∷ xs) h = ground (arith, walk_finds-has_key t xs)

-- The node before a key of the list points to it.
previous_of-find :
    (f : Contents) (t k : ElemT) (e : CloneSessionEntry) (xs : List CloneSessionEntry)
    → IsChain f k e xs
    → has_key t xs ≡ true
    → f (previous_of t k e xs).0 ≡ some (node (previous_of t k e xs).1 t)
previous_of-find f t k e [] h m = cc
previous_of-find f t k e (x ∷ xs) h m = elim (Bool-cases (elem_beq (key_of x) t)) [
  | inl here ↦ rw here (subst (λ a. f k ≡ some (node e a)) (elem_eq_of (key_of x) t here) h.0)
  | inr later ↦ rw later (previous_of-find f t (key_of x) x xs h.1 (ground arith))
]

still_there :
    {o : Option Element} (b : Bool) (v : Element) {x : Element}
    → o ≡ some x
    → (u : Element) × ((if b then some v else o) ≡ some u)
still_there true v h = (v, refl)
still_there false v {x} h = (x, h)

module _ {W : Type 0} (calls : PreCalls W) (nodes : W → ℕ → ElemT → Option Element)
    (laws : MapLaws calls.inner nodes) (fd fuel : ℕ) (xs : List CloneSessionEntry) (s : Proc W)
    (session : IsSession (nodes s.world fd) xs) (enough : length xs < fuel) (t : ElemT)
    (nz : elem_beq zero_elem t ≡ false) where
  pub delete_node-missed : walk_finds t xs ≡ false → delete_node calls fuel fd t s ≡ (err enoent, s)
  unfolding delete_node
  delete_node-missed missed = rw (
    find_previous_lem calls nodes laws fd s t fuel zero_elem zero_entry xs nz session.chain enough,
    missed,
  )

  -- The calls of the function on the nodes that it has found.
  delete_node-calls :
      (x pe : CloneSessionEntry) (p : ElemT) (w w' : W)
      → walk_finds t xs ≡ true
      → previous_of t zero_elem zero_entry xs ≡ (p, pe)
      → nodes s.world fd t ≡ some (node x (next_after t xs))
      → calls.inner.update s.world fd p (node pe (next_after t xs)) exist ≡ ok w
      → calls.inner.delete w fd t ≡ ok w'
      → delete_node calls fuel fd t s ≡ (ok tt, record s { world = w' })
  unfolding delete_node
  delete_node-calls x pe p w w' found prev at updated deleted = rw (
    find_previous_lem calls nodes laws fd s t fuel zero_elem zero_entry xs nz session.chain enough,
    found,
    prev,
    laws.lookup_find s.world fd t,
    at,
    updated,
    deleted,
  )

  pub delete_node-found :
      walk_finds t xs ≡ true
      → (w' : W) × (delete_node calls fuel fd t s ≡ (ok tt, record s { world = w' }))
        × IsSession (nodes w' fd) (erase t xs)
  delete_node-found found =
      let m : has_key t xs ≡ true = walk_finds-has_key t xs found in
      let prev : ElemT × CloneSessionEntry = previous_of t zero_elem zero_entry xs in
      let v : Element = node prev.1 (next_after t xs) in
      let (x, at) = IsChain-find (nodes s.world fd) zero_elem zero_entry xs t session.chain m in
      let (w, updated) =
        laws.update_present s.world fd prev.0 v _ exist
          (previous_of-find (nodes s.world fd) t zero_elem zero_entry xs session.chain m) (cc) in
      let after : (j : ElemT)
          → nodes w fd j ≡ (if elem_beq prev.0 j then some v else nodes s.world fd j) =
        λ j. laws.update_find s.world w fd prev.0 v exist fd j updated ∙ rw (nat_refl fd) in
      let there : (u : Element) × (nodes w fd t ≡ some u) =
        let (u, here) = still_there (elem_beq prev.0 t) v at in (u, after t ∙ here) in
      let (w', deleted) = laws.delete_present w fd t there.0 there.1 in
      (
        w',
        delete_node-calls x prev.1 prev.0 w w' found refl at updated deleted,
        IsSession-Cut (nodes s.world fd) (nodes w' fd) xs session t m
            (λ j. laws.delete_find w w' fd t fd j deleted ∙ rw (nat_refl fd, after j)),
      )
