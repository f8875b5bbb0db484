-- ===== src/Table/AssocKeys.antt =====
-- The iteration over the keys of an association list, as an instance of the laws of the kernel's.
use nikss.Base.{
  ℕ, ◌≡◌, ◌∙◌, refl, ap, true, false, ◌&&◌, some, List, [], ◌∷◌, ◌==◌, arith, Eq, beq_refl,
  Bool-cases, inl, inr,
}
use nikss.Bpf.Assoc.{find, remove, keys, first_key, key_after, delete_by, assoc_calls}
use nikss.Table.Emptied.{first_of, is_listed, without, KeyLaws}

first_key_lem : {K : Type 0} (ks : List K) → first_key ks ≡ first_of ks
first_key_lem [] = refl
first_key_lem (k ∷ ks) = refl

module _ {K : Type 0} ⦃e : Eq K⦄ where
  key_after-restarts :
      (all ks : List K) (k : K) → is_listed k ks ≡ false → key_after all ks k ≡ first_of all
  key_after-restarts all [] k h = first_key_lem all
  key_after-restarts all (j ∷ ks) k h = ground (arith, key_after-restarts all ks k)

module _ {K V : Type 0} ⦃e : Eq K⦄ where
  keys-remove :
      (t : List (ℕ × K × V)) (m : ℕ) (k : K) → keys (remove t m k) m ≡ without k (keys t m)
  keys-remove [] m k = refl
  keys-remove ((n, j, v) ∷ t) m k = ground (arith, keys-remove t m k)

  find-listed :
      (t : List (ℕ × K × V)) (m : ℕ) (k : K)
      → is_listed k (keys t m) ≡ true
      → (v : V) × (find t m k ≡ some v)
  find-listed [] m k h = ground arith
  find-listed ((n, j, v) ∷ t) m k h = elim (Bool-cases (n == m && e.beq j k)) [
    | inl t' ↦ (v, rw t' refl)
    | inr f ↦ rw f (find-listed t m k (ground (arith, h, f)))
  ]

  -- the calls on a list as the whole world
  pub assoc_calls-KeyLaws :
      (capacity : ℕ)
      → KeyLaws {W = List (ℕ × K × V)} (assoc_calls capacity (λ t. t) (λ w t. t)) (λ t m. keys t m)
  assoc_calls-KeyLaws capacity = record {
    next_first = λ t m. first_key_lem (keys t m);
    next_restarts = λ t m k h. key_after-restarts (keys t m) (keys t m) k h;
    delete_listed = λ t m k ks h.
        let (v, there) = find-listed t m k (ap (is_listed k) h ∙ rw (beq_refl k) refl) in
        (
          remove t m k,
          ap (λ o. delete_by capacity (λ t. t) (λ w t. t) o t m k) there,
          keys-remove t m k,
        );
  }
