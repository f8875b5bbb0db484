-- ===== src/Table/AddPrefix.antt =====
-- `add_ternary_table_prefix` of lib/nikss_table.c on the list of prefixes.
use nikss.Base.{
  ℕ, zero, suc, ◌+◌, ◌<◌, ◌≤◌, ◌^◌, ◌≡◌, ◌∙◌, sym, refl, ap, subst, Bool, true, false, ◌||◌, Option,
  none, some, List, [], ◌∷◌, ◌++◌, length, ◌==◌, if◌then◌else◌, arith, Bool-cases, inl, inr,
  nat_refl,
}
use nikss.Bpf.Types.{ok, MapCalls, UpdateLaws, noexist, any}
use nikss.Struct.Buffer.{Bytes}
use nikss.Struct.Equal.{bytes_beq, bytes_beq_iff, bytes_eq}
use nikss.Struct.Constructed.{zeros}
use nikss.Table.Prefixes.{
  PrefixMetadata, tuple_id, next_mask, has_next, new_node, point_to, highest, walk_prefixes,
  add_ternary_table_prefix, add_behind, link_last, head_value,
}
use nikss.Table.PrefixList.{
  IsLaidOut, Prefix, Nodes, has_mask, IsPrefixChain, IsSeparate, IsPrefixList, highest_of,
  length-point_to, has_next-point_to, next_mask-point_to, tuple_id-point_to, length-new_node,
  tuple_id-new_node, has_next-new_node, slice-zeros, length-zeros,
}

pub bytes_refl : (a : Bytes) → bytes_beq a a ≡ true
bytes_refl a = (bytes_beq_iff a a).1 refl

pub bytes_beq_comm : (a b : Bytes) → bytes_beq a b ≡ bytes_beq b a
bytes_beq_comm a b = ground (arith, bytes_beq_iff a b, bytes_beq_iff b a)

pub has_mask-ne :
    (a b : Bytes) (ps : List Prefix)
    → has_mask a ps ≡ false
    → has_mask b ps ≡ true
    → bytes_beq a b ≡ false
has_mask-ne a b [] h m = cc
has_mask-ne a b ((p, id) ∷ ps) h m =
    ground (arith, has_mask-ne a b ps, bytes_beq_iff p a, bytes_beq_iff p b, bytes_beq_iff a b)

-- Every number of a tuple in the list is less than `id`.
abbrev pub IsAbove : ℕ → List Prefix → Type 0
IsAbove id [] = Unit {0}
IsAbove id ((p, n) ∷ ps) = (n < id) × IsAbove id ps

highest_of-le : (ps : List Prefix) (id : ℕ) → id ≤ highest_of ps id
highest_of-le [] id = omega arith
highest_of-le ((p, n) ∷ ps) id = ground (arith, highest_of-le ps (highest n id))

pub highest_of-IsAbove : (ps : List Prefix) (id : ℕ) → IsAbove (highest_of ps id + 1) ps
highest_of-IsAbove [] id = tt
highest_of-IsAbove ((p, n) ∷ ps) id =
    (ground (arith, highest_of-le ps (highest n id)), highest_of-IsAbove ps (highest n id))

has_mask-append :
    (a mask : Bytes) (id : ℕ) (ps : List Prefix)
    → has_mask a ps ≡ false
    → bytes_beq mask a ≡ false
    → has_mask a (ps ++ (mask, id) ∷ []) ≡ false
has_mask-append a mask id [] h ne = rw ne refl
has_mask-append a mask id ((p, n) ∷ ps) h ne = ground (arith, has_mask-append a mask id ps, h, ne)

pub IsSeparate-zeros :
    (key_size : ℕ) (ps : List Prefix)
    → IsSeparate key_size ps
    → has_mask (zeros key_size) ps ≡ false
IsSeparate-zeros key_size [] h = refl
IsSeparate-zeros key_size ((p, n) ∷ ps) h =
    ground (arith, h.0, bytes_beq_comm p (zeros key_size), IsSeparate-zeros key_size ps h.2)

-- a prefix of the list is in the map
pub IsPrefixChain-find :
    (md : PrefixMetadata) (size : ℕ) (f : Nodes) (value : Bytes) (ps : List Prefix) (a : Bytes)
    → IsPrefixChain md size f value ps
    → has_mask a ps ≡ true
    → (u : Bytes) × (f a ≡ some u)
IsPrefixChain-find md size f value [] a chain m = cc
IsPrefixChain-find md size f value ((p, n) ∷ ps) a chain m = elim (Bool-cases (bytes_beq p a)) [
  | inl t ↦
      (let (flag, pointed, (u, at, long, numbered, chain')) = chain in
        (u, subst (λ k. f k ≡ some u) ((bytes_beq_iff p a).0 t) at))
  | inr e ↦
      (let (flag, pointed, (u, at, long, numbered, chain')) = chain in
        IsPrefixChain-find md size f u ps a chain' (ground (arith, m, e)))
]

pub still_there :
    {o : Option Bytes} (b : Bool) (v : Bytes) {x : Bytes}
    → o ≡ some x
    → (u : Bytes) × ((if b then some v else o) ≡ some u)
still_there true v h = (v, refl)
still_there false v {x} h = (x, h)

module _ {W : Type 0} (calls : MapCalls W Bytes Bytes) (contents : W → ℕ → Bytes → Option Bytes)
    (laws : UpdateLaws calls contents) (md : PrefixMetadata) (size : ℕ) (laid : IsLaidOut md size)
    (fd : ℕ) (w : W) (mask : Bytes) (whole : length mask ≡ md.next_mask_size) where
  -- the contents when the node `node` of the new prefix is there and the one at `key` points to it
  abbrev Linked : Bytes → Bytes → Bytes → Nodes → Type 0
  Linked key value node g =
      (j : Bytes)
      → g j ≡ (
          if bytes_beq key j
          then some (point_to md mask value)
          else if bytes_beq mask j
          then some node
          else contents w fd j)

  -- the node at `key` in the contents `g`, where the links lead through `ps`
  abbrev Holds : Nodes → Bytes → ℕ → List Prefix → Type 0
  Holds g key id ps =
      (u : Bytes) × (g key ≡ some u)
      × (length u ≡ size)
      × (tuple_id md u ≡ id)
      × IsPrefixChain md size g u ps

  module _ (id : ℕ) (small : id < 2 ^ 32) where
    last_node :
        (key value : Bytes) (g : Nodes)
        → length value ≡ size
        → bytes_beq key mask ≡ false
        → Linked key value (new_node md size id) g
        → Holds g key (tuple_id md value) ((mask, id) ∷ [])
    last_node key value g long ne linked = (
      point_to md mask value,
      linked key ∙ rw (bytes_refl key) refl,
      length-point_to md size laid mask value long whole,
      tuple_id-point_to md size laid mask value long whole,
      (
        rw (has_next-point_to md size laid mask value long whole) refl,
        next_mask-point_to md size laid mask value long whole,
        (
          new_node md size id,
          linked mask ∙ rw (ne, bytes_refl mask) refl,
          length-new_node md size laid id,
          tuple_id-new_node md size laid id small,
          has_next-new_node md size laid id,
        ),
      ),
    )

  -- The loop ends at a node behind which the new prefix comes to stand.
  abbrev Ends : ℕ → Bytes → Bytes → List Prefix → ℕ → Type 0
  Ends fuel key value ps id =
      (k : Bytes) × ((v : Bytes) × (walk_prefixes calls md fd fuel key value id w
          ≡ ok (k, v, highest_of ps id))
        × ((bytes_beq k key || has_mask k ps) ≡ true)
        × ((g : Nodes) (n : ℕ)
            → n < 2 ^ 32
            → Linked k v (new_node md size n) g
            → Holds g key (tuple_id md value) (ps ++ (mask, n) ∷ [])))

  walk_prefixes-step :
      (fuel : ℕ) (key value p u : Bytes) (id n : ℕ)
      → (has_next md value == 0) ≡ false
      → next_mask md value ≡ p
      → contents w fd p ≡ some u
      → tuple_id md u ≡ n
      → walk_prefixes calls md fd (suc fuel) key value id w
        ≡ walk_prefixes calls md fd fuel p u (highest n id) w
  unfolding walk_prefixes
  walk_prefixes-step fuel key value p u id n flag pointed at numbered =
      rw (walk_prefixes, flag, pointed, laws.lookup_find w fd p, at, numbered)
        (ap (λ k. walk_prefixes calls md fd fuel k u (highest n id) w) pointed)

  walk_prefixes_lem :
      (fuel : ℕ) (key value : Bytes) (ps : List Prefix) (id : ℕ)
      → contents w fd key ≡ some value
      → length value ≡ size
      → IsPrefixChain md size (contents w fd) value ps
      → IsSeparate md.next_mask_size ps
      → has_mask key ps ≡ false
      → bytes_beq key mask ≡ false
      → has_mask mask ps ≡ false
      → length ps < fuel
      → Ends fuel key value ps id
  unfolding walk_prefixes
  walk_prefixes_lem zero key value ps id at long chain separate fresh ne new lt = elim lt [ ]
  walk_prefixes_lem (suc fuel) key value [] id at long chain separate fresh ne new lt = (
    key,
    (
      value,
      rw (walk_prefixes, chain) refl,
      rw (bytes_refl key) refl,
      λ g n small linked. last_node n small key value g long ne linked,
    ),
  )
  walk_prefixes_lem (suc fuel) key value ((p, n) ∷ ps) id at long chain separate fresh ne new lt =
      let (linked', pointed, (u, at', long', numbered, chain')) = chain in
      let ne' : bytes_beq p mask ≡ false = ground (arith, new) in
      let (k, (v, run, m, holds)) =
        walk_prefixes_lem fuel p u ps (highest n id) at' long' chain' separate.2 separate.1 ne'
          (ground (arith, new)) (omega arith) in
      let other : bytes_beq k key ≡ false =
        bytes_beq_comm k key
        ∙ has_mask-ne key k ((p, n) ∷ ps) fresh (ground (arith, m, bytes_beq_iff k p)) in
      (
        k,
        (
          v,
          walk_prefixes-step fuel key value p u id n linked' pointed at' numbered ∙ run,
          ground (arith, m, bytes_beq_comm k p),
          λ g i small link. (
            value,
            link key ∙ rw (other, bytes_beq_comm mask key, ne) at,
            long,
            refl,
            (
              linked',
              pointed,
              subst (λ (j : ℕ). Holds g p j (ps ++ (mask, i) ∷ [])) numbered (holds g i small link),
            ),
          ),
        ),
      )

  abbrev pub new_id : List Prefix → ℕ
  new_id ps = highest_of ps 0 + 1

  -- the two writes of the function
  add_prefix-calls :
      (fuel : ℕ) (head k v : Bytes) (id : ℕ) (w1 w2 : W)
      → head_value calls md fd size (calls.lookup w fd (zeros md.next_mask_size)) ≡ head
      → walk_prefixes calls md fd fuel (zeros md.next_mask_size) head 0 w ≡ ok (k, v, id)
      → calls.update w fd mask (new_node md size (id + 1)) noexist ≡ ok w1
      → calls.update w1 fd k (point_to md mask v) any ≡ ok w2
      → add_ternary_table_prefix calls md fd fuel md.next_mask_size size mask w
        ≡ (ok (new_node md size (id + 1)), w2)
  unfolding add_ternary_table_prefix
  add_prefix-calls fuel head k v id w1 w2 start run added linked =
      ap
        (λ h.
          add_behind calls md fd size mask
            (walk_prefixes calls md fd fuel (zeros md.next_mask_size) h 0 w) w)
        start
      ∙ ap (λ r. add_behind calls md fd size mask r w) run
      ∙ rw (added, link_last, linked) refl

  -- what the two writes leave
  written :
      (k v node : Bytes) (w1 w2 : W)
      → calls.update w fd mask node noexist ≡ ok w1
      → calls.update w1 fd k (point_to md mask v) any ≡ ok w2
      → Linked k v node (contents w2 fd)
  written k v node w1 w2 added linked j =
      laws.update_find w1 w2 fd k (point_to md mask v) any fd j linked
      ∙ rw (nat_refl fd, laws.update_find w w1 fd mask node noexist fd j added, nat_refl fd) refl

  IsSeparate-append :
      (key_size id : ℕ) (ps : List Prefix)
      → IsSeparate key_size ps
      → has_mask mask ps ≡ false
      → bytes_beq (zeros key_size) mask ≡ false
      → IsSeparate key_size (ps ++ (mask, id) ∷ [])
  IsSeparate-append key_size id [] separate new nz = (nz, refl, tt)
  IsSeparate-append key_size id ((p, n) ∷ ps) separate new nz = (
    separate.0,
    has_mask-append p mask id ps separate.1 (ground (arith, new, bytes_beq_comm p mask)),
    IsSeparate-append key_size id ps separate.2 (ground (arith, new)) nz,
  )

  -- Let a map hold a list of prefixes, let the mask be no prefix of it and not all zeros, let the
  -- new number of a tuple fit into 32 bits, and let the map accept the new node. Then the function
  -- succeeds, with the value of the new node, and the map holds the list with the mask at its end;
  -- the number of its tuple is above all those of the list. One round more than there are prefixes
  -- is enough.
  pub add_ternary_table_prefix-next :
      (fuel : ℕ) (ps : List Prefix) (w1 : W)
      → IsPrefixList md size (contents w fd) ps
      → has_mask mask ps ≡ false
      → bytes_beq (zeros md.next_mask_size) mask ≡ false
      → new_id ps < 2 ^ 32
      → length ps < fuel
      → calls.update w fd mask (new_node md size (new_id ps)) noexist ≡ ok w1
      → (w2 : W) × (add_ternary_table_prefix calls md fd fuel md.next_mask_size size mask w
          ≡ (ok (new_node md size (new_id ps)), w2))
        × IsPrefixList md size (contents w2 fd) (ps ++ (mask, new_id ps) ∷ [])
        × IsAbove (new_id ps) ps
  add_ternary_table_prefix-next fuel ps w1 list new nz small enough added =
      let zero_key : Bytes = zeros md.next_mask_size in
      let node : Bytes = new_node md size (new_id ps) in
      let fresh : has_mask zero_key ps ≡ false =
        IsSeparate-zeros md.next_mask_size ps list.separate in
      let (k, (v, run, m, holds)) =
        walk_prefixes_lem fuel zero_key list.head ps 0 list.head_there list.head_long list.chain
          list.separate fresh nz new enough in
      let at : (u : Bytes) × (contents w fd k ≡ some u) = elim (Bool-cases (bytes_beq k zero_key)) [
        | inl t ↦ (
          list.head,
          subst (λ j. contents w fd j ≡ some list.head) (sym ((bytes_beq_iff k zero_key).0 t))
              list.head_there,
        )
        | inr e ↦
            IsPrefixChain-find md size (contents w fd) list.head ps k list.chain
              (ground (arith, m, e))
      ] in
      let there = still_there (bytes_beq mask k) node at.1 in
      let (w2, linked) =
        laws.update_present w1 fd k (point_to md mask v) there.0 any
          (laws.update_find w w1 fd mask node noexist fd k added ∙ rw (nat_refl fd) there.1) (cc) in
      let (u, at', long, numbered, chain) =
        holds (contents w2 fd) (new_id ps) small (written k v node w1 w2 added linked) in
      (
        w2,
        add_prefix-calls fuel list.head k v (highest_of ps 0) w1 w2
            (rw (laws.lookup_find w fd zero_key, list.head_there) refl) run added linked,
        record {
          head = u;
          head_there = at';
          head_long = long;
          chain = chain;
          separate = IsSeparate-append md.next_mask_size (new_id ps) ps list.separate new nz;
        },
        highest_of-IsAbove ps 0,
      )

  -- Let a map have no head, let the mask not be all zeros, and let the map accept the node of the
  -- mask and the head behind it. Then the function succeeds and the map holds the list of the mask
  -- alone, with the tuple 1.
  pub add_ternary_table_prefix-first :
      (fuel : ℕ) (w1 w2 : W)
      → contents w fd (zeros md.next_mask_size) ≡ none
      → bytes_beq (zeros md.next_mask_size) mask ≡ false
      → 0 < fuel
      → calls.update w fd mask (new_node md size 1) noexist ≡ ok w1
      → calls.update w1 fd (zeros md.next_mask_size) (point_to md mask (zeros size)) any ≡ ok w2
      → (add_ternary_table_prefix calls md fd fuel md.next_mask_size size mask w
          ≡ (ok (new_node md size 1), w2))
        × IsPrefixList md size (contents w2 fd) ((mask, 1) ∷ [])
  unfolding walk_prefixes
  add_ternary_table_prefix-first zero w1 w2 absent nz lt added linked = elim lt [ ]
  add_ternary_table_prefix-first (suc fuel) w1 w2 absent nz lt added linked =
      let zero_key : Bytes = zeros md.next_mask_size in
      let (u, at', long, numbered, chain) =
        last_node 1 (omega arith) zero_key (zeros size) (contents w2 fd) (length-zeros size) nz
          (written zero_key (zeros size) (new_node md size 1) w1 w2 added linked) in
      (
        add_prefix-calls (suc fuel) (zeros size) zero_key (zeros size) 0 w1 w2
            (rw (laws.lookup_find w fd zero_key, absent) refl)
            (rw (walk_prefixes, slice-zeros md.has_next_offset 1 size) refl) added linked,
        record {
          head = u;
          head_there = at';
          head_long = long;
          chain = chain;
          separate = (nz, refl, tt);
        },
      )
