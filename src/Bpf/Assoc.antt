-- ===== src/Bpf/Assoc.antt =====
-- Maps as an association list with a bound on its entries: an implementation of the calls on maps,
-- which shows that their laws can hold, and on which tests run.
use nikss.Base.{
  ℕ, ◌≡◌, ◌≢◌, refl, ◌&&◌, Option, none, some, List, [], ◌∷◌, Eq, ◌==◌, ltb, if◌then◌else◌, arith,
  length,
}
use nikss.Bpf.Types.{
  Result, ok, err, enoent, eexist, e2big, UpdateFlag, any, noexist, exist, MapCalls, MapLaws,
  found_or_enoent, UpdateLaws,
}

module _ {K V : Type 0} ⦃e : Eq K⦄ where
  abbrev pub find : List (ℕ × K × V) → ℕ → K → Option V
  find [] m k = none
  find ((n, j, v) ∷ t) m k = if n == m && e.beq j k then some v else find t m k

  abbrev pub write : List (ℕ × K × V) → ℕ → K → V → List (ℕ × K × V)
  write [] m k v = (m, k, v) ∷ []
  write ((n, j, u) ∷ t) m k v =
      if n == m && e.beq j k then (m, k, v) ∷ t else (n, j, u) ∷ write t m k v

  abbrev pub remove : List (ℕ × K × V) → ℕ → K → List (ℕ × K × V)
  remove [] m k = []
  remove ((n, j, u) ∷ t) m k =
      if n == m && e.beq j k then remove t m k else (n, j, u) ∷ remove t m k

  pub find-write :
      (t : List (ℕ × K × V)) (m : ℕ) (k : K) (v : V) (n : ℕ) (j : K)
      → find (write t m k v) n j
        ≡ (if m == n then (if e.beq k j then some v else find t n j) else find t n j)
  find-write [] m k v n j = ground arith
  find-write ((i, l, u) ∷ t) m k v n j =
      ground (arith, find-write t m k v n j, e.beq_iff l k, e.beq_iff k j, e.beq_iff l j)

  find-remove :
      (t : List (ℕ × K × V)) (m : ℕ) (k : K) (n : ℕ) (j : K)
      → find (remove t m k) n j
        ≡ (if m == n then (if e.beq k j then none else find t n j) else find t n j)
  find-remove [] m k n j = ground arith
  find-remove ((i, l, u) ∷ t) m k n j =
      ground (arith, find-remove t m k n j, e.beq_iff l k, e.beq_iff k j, e.beq_iff l j)

  abbrev pub keys : List (ℕ × K × V) → ℕ → List K
  keys [] m = []
  keys ((n, k, v) ∷ t) m = if n == m then k ∷ keys t m else keys t m

abbrev pub first_key : {K : Type 0} → List K → Result K
first_key [] = err enoent
first_key (k ∷ ks) = ok k

module _ {K : Type 0} ⦃e : Eq K⦄ where
  -- the key behind `k`, or the first one if `k` is not there
  abbrev pub key_after : List K → List K → K → Result K
  key_after all [] k = first_key all
  key_after all (j ∷ ks) k = if e.beq j k then first_key ks else key_after all ks k

  abbrev pub key_from : List K → Option K → Result K
  key_from all none = first_key all
  key_from all (some k) = key_after all all k

-- The table is a part of a larger state `W`.
module _ {W K V : Type 0} ⦃e : Eq K⦄ (capacity : ℕ) (table : W → List (ℕ × K × V))
    (with_table : W → List (ℕ × K × V) → W) where
  abbrev write_new : W → ℕ → K → V → UpdateFlag → Result W
  write_new w m k v exist = err enoent
  write_new w m k v any =
      if ltb (length (table w)) capacity
      then ok (with_table w (write (table w) m k v))
      else err e2big
  write_new w m k v noexist =
      if ltb (length (table w)) capacity
      then ok (with_table w (write (table w) m k v))
      else err e2big

  abbrev write_old : W → ℕ → K → V → UpdateFlag → Result W
  write_old w m k v exist = ok (with_table w (write (table w) m k v))
  write_old w m k v any = ok (with_table w (write (table w) m k v))
  write_old w m k v noexist = err eexist

  abbrev update_by : Option V → W → ℕ → K → V → UpdateFlag → Result W
  update_by none w m k v f = write_new w m k v f
  update_by (some u) w m k v f = write_old w m k v f

  abbrev pub delete_by : Option V → W → ℕ → K → Result W
  delete_by none w m k = err enoent
  delete_by (some u) w m k = ok (with_table w (remove (table w) m k))

  abbrev pub assoc_calls : MapCalls W K V
  assoc_calls = record {
    lookup = λ w m k. found_or_enoent (find (table w) m k);
    update = λ w m k v f. update_by (find (table w) m k) w m k v f;
    delete = λ w m k. delete_by (find (table w) m k) w m k;
    next_key = λ w m k. key_from (keys (table w) m) k;
  }

  module _ (table_with : (w : W) (t : List (ℕ × K × V)) → table (with_table w t) ≡ t) where
    update_by_find :
        (o : Option V) (w w' : W) (m : ℕ) (k : K) (v : V) (f : UpdateFlag)
        → update_by o w m k v f ≡ ok w'
        → table w' ≡ write (table w) m k v
    update_by_find o w w' m k v f h = ground (arith, table_with w (write (table w) m k v))

    delete_by_find :
        (o : Option V) (w w' : W) (m : ℕ) (k : K)
        → delete_by o w m k ≡ ok w'
        → table w' ≡ remove (table w) m k
    delete_by_find o w w' m k h = ground (arith, table_with w (remove (table w) m k))

    present :
        (w : W) (m : ℕ) (k : K) (v : V) (f : UpdateFlag)
        → f ≢ noexist
        → (w' : W) × (write_old w m k v f ≡ ok w')
    present w m k v any ne = (with_table w (write (table w) m k v), refl)
    present w m k v exist ne = (with_table w (write (table w) m k v), refl)
    present w m k v noexist ne = absurd (ne refl)

    pub assoc_calls-updates : UpdateLaws assoc_calls (λ w m k. find (table w) m k)
    assoc_calls-updates = record {
      lookup_find = λ w m k. refl;
      update_find = λ w w' m k v f n j h.
          rw (update_by_find (find (table w) m k) w w' m k v f h) (find-write (table w) m k v n j);
      update_noexist = λ w m k v u h. rw h;
      update_present = λ w m k v u f h ne. rw h (present w m k v f ne);
    }

    pub assoc_calls-laws : MapLaws assoc_calls (λ w m k. find (table w) m k)
    assoc_calls-laws = record {
      updates = assoc_calls-updates;
      delete_find = λ w w' m k n j h.
          rw (delete_by_find (find (table w) m k) w w' m k h) (find-remove (table w) m k n j);
      delete_present = λ w m k u h. (with_table w (remove (table w) m k), rw h);
      delete_absent = λ w m k h. (enoent, rw h);
    }
