-- ===== src/Pre/Find.antt =====
-- The loop of `pre_session_del_entry` that looks for the node before the one to delete.
use nikss.Base.{
  ℕ, zero, suc, ◌<◌, ◌≡◌, refl, ◌∙◌, ap, Bool, true, false, ◌||◌, ◌&&◌, not, Option, some, List, [],
  ◌∷◌, if◌then◌else◌, arith, ◌==◌, length,
}
use nikss.Bpf.Types.{Result, ok, err, MapLaws, enoent}
use nikss.Bpf.Exec.{Proc}
use nikss.Pre.Types.{PreCalls, ElemT, CloneSessionEntry, Element, zero_elem, elem_beq, elem_eq}
use nikss.Pre.Entry.{key_of, find_previous}
use nikss.Pre.Chain.{node, previous_of, IsChain}

-- The loop gets to the node of `t`: the nodes before it have a port and an instance that are not 0.
abbrev pub walk_finds : ElemT → List CloneSessionEntry → Bool
walk_finds t [] = false
walk_finds t (x ∷ xs) =
    elem_beq (key_of x) t || (not (x.egress_port == 0) && not (x.instance == 0) && walk_finds t xs)

-- the order of the tests in the source
same_elem : (a b : ElemT) → (a.instance == b.instance && a.port == b.port) ≡ elem_beq a b
same_elem a b = ground arith

if_apply :
    {S A : Type 0} (b : Bool) (f g : S → A) (s : S)
    → (if b then f else g) s ≡ (if b then f s else g s)
if_apply true f g s = refl
if_apply false f g s = refl

module _ {W : Type 0} (calls : PreCalls W) (nodes : W → ℕ → ElemT → Option Element)
    (laws : MapLaws calls.inner nodes) (fd : ℕ) (s : Proc W) (t : ElemT) where
  -- what the loop returns for a chain `xs` behind the node at `k`
  abbrev walk_result : ElemT → CloneSessionEntry → List CloneSessionEntry → Result (ElemT × Element)
  walk_result k e xs =
      let prev = previous_of t k e xs in
      if walk_finds t xs then ok (prev.0, node prev.1 t) else err enoent

  find_previous-step :
      (fuel : ℕ) (k : ElemT) (e : CloneSessionEntry) (next : ElemT)
      → nodes s.world fd k ≡ some (node e next)
      → find_previous calls (suc fuel) fd t k s ≡ (
          if elem_beq next t
          then (ok (k, node e next), s)
          else if not (next.port == 0) && not (next.instance == 0)
          then find_previous calls fuel fd t next s
          else (err enoent, s))
  unfolding find_previous
  find_previous-step fuel k e next h =
      rw (laws.lookup_find s.world fd k, h, same_elem next t)
        (if_apply (elem_beq next t) _ _ s
          ∙ ap (λ r. if elem_beq next t then (ok (k, node e next), s) else r)
              (if_apply (not (next.port == 0) && not (next.instance == 0)) _ _ s))

  -- With more rounds than nodes the loop ends.
  pub find_previous_lem :
      (fuel : ℕ) (k : ElemT) (e : CloneSessionEntry) (xs : List CloneSessionEntry)
      → elem_beq zero_elem t ≡ false
      → IsChain (nodes s.world fd) k e xs
      → length xs < fuel
      → find_previous calls fuel fd t k s ≡ (walk_result k e xs, s)
  find_previous_lem zero k e xs nz h lt = elim lt [ ]
  find_previous_lem (suc fuel) k e [] nz h lt = find_previous-step fuel k e zero_elem h ∙ rw nz
  find_previous_lem (suc fuel) k e (x ∷ xs) nz h lt =
      find_previous-step fuel k e (key_of x) h.0
      ∙ ground (arith, find_previous_lem fuel (key_of x) x xs nz h.1)
