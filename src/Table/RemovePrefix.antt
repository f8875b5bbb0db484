-- ===== src/Table/RemovePrefix.antt =====
-- `ternary_table_remove_prefix` of lib/nikss_table.c on the list of prefixes.
use nikss.Base.{
  ℕ, zero, suc, ◌<◌, ◌≡◌, ◌∙◌, sym, refl, ap, subst, true, false, ◌||◌, Option, none, some, List,
  [], ◌∷◌, length, ◌==◌, if◌then◌else◌, arith, Bool-cases, inl, inr, nat_refl,
}
use nikss.Bpf.Types.{Result, ok, err, hangs, MapCalls, MapLaws, exist}
use nikss.Struct.Buffer.{Bytes}
use nikss.Struct.Equal.{bytes_beq, bytes_beq_iff, bytes_eq}
use nikss.Struct.Slices.{slice, length-copy_at, slice-written, slice-before, length-slice}
use nikss.Struct.Fields.{copy_at}
use nikss.Struct.Constructed.{zeros}
use nikss.Counter.Value.{of_bytes}
use nikss.Table.Clear.{after}
use nikss.Table.Prefixes.{
  PrefixMetadata, tuple_id, next_mask, has_next, find_prefix, copy_link,
  ternary_table_remove_prefix, remove_known, remove_from, remove_behind, drop_relinked, drop_node,
}
use nikss.Table.PrefixList.{
  IsLaidOut, Prefix, Nodes, has_mask, IsPrefixChain, IsSeparate, IsPrefixList,
}
use nikss.Table.AddPrefix.{bytes_refl, bytes_beq_comm, has_mask-ne, IsSeparate-zeros}

abbrev pub erase : Bytes → List Prefix → List Prefix
erase t [] = []
erase t ((p, n) ∷ ps) = if bytes_beq p t then ps else (p, n) ∷ erase t ps

-- the number of the tuple of a prefix
abbrev pub number_of : Bytes → List Prefix → ℕ
number_of t [] = 0
number_of t ((p, n) ∷ ps) = if bytes_beq p t then n else number_of t ps

not-has_mask-erase :
    (a t : Bytes) (ps : List Prefix) → has_mask a ps ≡ false → has_mask a (erase t ps) ≡ false
not-has_mask-erase a t [] h = refl
not-has_mask-erase a t ((p, n) ∷ ps) h = ground (arith, not-has_mask-erase a t ps)

IsSeparate-erase :
    (key_size : ℕ) (t : Bytes) (ps : List Prefix)
    → IsSeparate key_size ps
    → IsSeparate key_size (erase t ps)
IsSeparate-erase key_size t [] h = tt
IsSeparate-erase key_size t ((p, n) ∷ ps) h = elim (Bool-cases (bytes_beq p t)) [
  | inl here ↦ rw here h.2
  | inr later ↦ rw later (h.0, not-has_mask-erase p t ps h.1, IsSeparate-erase key_size t ps h.2)
]

module _ (md : PrefixMetadata) (size : ℕ) (laid : IsLaidOut md size) where
  -- a node that takes over the link of another one
  module _ (from to : Bytes) (long : length from ≡ size) (long' : length to ≡ size) where
    abbrev masked : Bytes
    masked = copy_at md.next_mask_offset (next_mask md from) to

    mask_long : length (next_mask md from) ≡ md.next_mask_size
    mask_long =
        length-slice md.next_mask_offset md.next_mask_size from
          (omega (arith, long, laid.mask_next, laid.flag_last))

    flag_long : length (slice md.has_next_offset 1 from) ≡ 1
    flag_long = length-slice md.has_next_offset 1 from (omega (arith, long, laid.flag_last))

    length-masked : length masked ≡ size
    length-masked = length-copy_at md.next_mask_offset (next_mask md from) to ∙ long'

    abbrev linked : Bytes
    linked = copy_at md.has_next_offset (slice md.has_next_offset 1 from) masked

    relinked : copy_link md from to ≡ linked
    relinked =
        ap (λ (n : ℕ). copy_at md.has_next_offset (slice md.has_next_offset n from) masked)
          laid.flag_size

    length-copy_link : length (copy_link md from to) ≡ size
    length-copy_link =
        ap length relinked
        ∙ length-copy_at md.has_next_offset (slice md.has_next_offset 1 from) masked
        ∙ length-masked

    has_next-copy_link : has_next md (copy_link md from to) ≡ has_next md from
    has_next-copy_link =
        ap (has_next md) relinked
        ∙ ap (λ (n : ℕ). of_bytes (slice md.has_next_offset n linked)) (sym flag_long)
        ∙ ap of_bytes (
            slice-written md.has_next_offset (slice md.has_next_offset 1 from) masked
              (omega (arith, length-masked, flag_long, laid.flag_last)))

    next_mask-copy_link : next_mask md (copy_link md from to) ≡ next_mask md from
    next_mask-copy_link =
        ap (next_mask md) relinked
        ∙ slice-before md.next_mask_offset md.next_mask_size md.has_next_offset
            (slice md.has_next_offset 1 from) masked laid.mask_next
        ∙ ap (λ (n : ℕ). slice md.next_mask_offset n masked) (sym mask_long)
        ∙ slice-written md.next_mask_offset (next_mask md from) to
            (omega (arith, long', mask_long, laid.mask_next, laid.flag_last))

    tuple_id-copy_link : tuple_id md (copy_link md from to) ≡ tuple_id md to
    tuple_id-copy_link =
        ap (tuple_id md) relinked
        ∙ ap of_bytes (
            slice-before md.tuple_id_offset 4 md.has_next_offset (slice md.has_next_offset 1 from)
              masked (omega (arith, laid.id_first, laid.mask_next))
            ∙ slice-before md.tuple_id_offset 4 md.next_mask_offset (next_mask md from) to
                laid.id_first)

-- A chain is kept by a node with the same link, where the nodes of the chain are kept.
IsPrefixChain-kept :
    (md : PrefixMetadata) (size : ℕ) (f g : Nodes) (v v' : Bytes) (ps : List Prefix)
    → has_next md v' ≡ has_next md v
    → next_mask md v' ≡ next_mask md v
    → ((j : Bytes) → has_mask j ps ≡ true → g j ≡ f j)
    → IsPrefixChain md size f v ps
    → IsPrefixChain md size g v' ps
IsPrefixChain-kept md size f g v v' [] flag link keep chain = flag ∙ chain
IsPrefixChain-kept md size f g v v' ((p, n) ∷ ps) flag link keep chain =
    let (more, pointed, (u, at, long, numbered, rest)) = chain in
    (
      rw flag more,
      link ∙ pointed,
      (
        u,
        keep p (rw (bytes_refl p) refl) ∙ at,
        long,
        numbered,
        IsPrefixChain-kept md size f g u u ps refl refl (λ j m. keep j (ground (arith, m))) rest,
      ),
    )

after_keeps :
    {W : Type 0} (r : Result W) (w : W) (f : W → Option Bytes)
    → ((w' : W) → r ≡ ok w' → f w' ≡ f w)
    → f (after r w) ≡ f w
after_keeps (ok w') w f h = h w' refl
after_keeps (err e) w f h = refl
after_keeps hangs w f h = refl

some_inj : {a b : Bytes} → some a ≡ some b → a ≡ b
some_inj h = cc

module _ {W : Type 0} (calls : MapCalls W Bytes Bytes) (contents : W → ℕ → Bytes → Option Bytes)
    (laws : MapLaws calls contents) (md : PrefixMetadata) (size : ℕ) (laid : IsLaidOut md size)
    (fd : ℕ) (w : W) (t : Bytes) where
  -- the contents when `t` is gone and the node at `key` has the value `v`
  abbrev Unlinked : Bytes → Bytes → Nodes → Type 0
  Unlinked key v g =
      (j : Bytes)
      → g j ≡ (if bytes_beq t j then none else if bytes_beq key j then some v else contents w fd j)

  abbrev Holds : Nodes → Bytes → ℕ → List Prefix → Type 0
  Holds g key id ps =
      (u : Bytes) × (g key ≡ some u)
      × (length u ≡ size)
      × (tuple_id md u ≡ id)
      × IsPrefixChain md size g u ps

  -- The loop ends at a node from which the one at `t` can be cut out.
  abbrev Finds : ℕ → Bytes → Bytes → List Prefix → Bytes → Type 0
  Finds fuel key value ps target =
      (k : Bytes) × ((v : Bytes) × (find_prefix calls md fd fuel t key value w ≡ ok (some (k, v)))
        × (contents w fd k ≡ some v)
        × ((bytes_beq k key || has_mask k ps) ≡ true)
        × (bytes_beq t k ≡ false)
        × ((g : Nodes)
            → Unlinked k (copy_link md target v) g
            → Holds g key (tuple_id md value) (erase t ps)))

  find_prefix-here :
      (fuel : ℕ) (key value p : Bytes)
      → next_mask md value ≡ p
      → bytes_beq p t ≡ true
      → find_prefix calls md fd (suc fuel) t key value w ≡ ok (some (key, value))
  unfolding find_prefix
  find_prefix-here fuel key value p pointed here = rw (find_prefix, pointed, here) refl

  find_prefix-step :
      (fuel : ℕ) (key value p u : Bytes)
      → (has_next md value == 0) ≡ false
      → next_mask md value ≡ p
      → bytes_beq p t ≡ false
      → contents w fd p ≡ some u
      → find_prefix calls md fd (suc fuel) t key value w ≡ find_prefix calls md fd fuel t p u w
  unfolding find_prefix
  find_prefix-step fuel key value p u flag pointed ne at =
      rw (find_prefix, pointed, ne, flag, pointed, laws.lookup_find w fd p, at)
        (ap (λ k. find_prefix calls md fd fuel t k u w) pointed)

  -- a node that takes over the link of the one at `t` behind it
  cut_here :
      (key value target : Bytes) (ps : List Prefix) (g : Nodes)
      → length value ≡ size
      → bytes_beq t key ≡ false
      → has_mask key ps ≡ false
      → has_mask t ps ≡ false
      → length target ≡ size
      → IsPrefixChain md size (contents w fd) target ps
      → Unlinked key (copy_link md target value) g
      → Holds g key (tuple_id md value) ps
  cut_here key value target ps g long ne fresh gone long' rest un = (
    copy_link md target value,
    un key ∙ rw (ne, bytes_refl key) refl,
    length-copy_link md size laid target value long' long,
    tuple_id-copy_link md size laid target value long' long,
    IsPrefixChain-kept md size (contents w fd) g target (copy_link md target value) ps
        (has_next-copy_link md size laid target value long' long)
        (next_mask-copy_link md size laid target value long' long)
        (λ j m. un j ∙ rw (has_mask-ne t j ps gone m, has_mask-ne key j ps fresh m) refl) rest,
  )

  find_prefix_lem :
      (fuel : ℕ) (key value : Bytes) (ps : List Prefix) (target : Bytes)
      → contents w fd key ≡ some value
      → length value ≡ size
      → IsPrefixChain md size (contents w fd) value ps
      → IsSeparate md.next_mask_size ps
      → has_mask key ps ≡ false
      → bytes_beq t key ≡ false
      → has_mask t ps ≡ true
      → contents w fd t ≡ some target
      → length ps < fuel
      → Finds fuel key value ps target
  find_prefix_lem zero key value ps target at long chain separate fresh ne m there lt = elim lt [ ]
  find_prefix_lem (suc fuel) key value [] target at long chain separate fresh ne m there lt = cc
  find_prefix_lem (suc fuel) key value ((p, n) ∷ ps) target at long chain separate fresh ne m there
        lt =
      let (more, pointed, (u, at', long', numbered, rest)) = chain in
      elim (Bool-cases (bytes_beq p t)) [
        | inl here ↦
            (let same : p ≡ t = (bytes_beq_iff p t).0 here in
              let found : u ≡ target = some_inj (sym at' ∙ ap (contents w fd) same ∙ there) in
              (
                key,
                (
                  value,
                  find_prefix-here fuel key value p pointed here,
                  at,
                  rw (bytes_refl key) refl,
                  ne,
                  λ g un.
                      subst (λ ps'. Holds g key (tuple_id md value) ps') {x = ps}
                        {y = erase t ((p, n) ∷ ps)} (rw here refl)
                        (cut_here key value target ps g long ne (ground (arith, fresh))
                          (subst (λ a. has_mask a ps ≡ false) same separate.1)
                          (subst (λ a. length a ≡ size) found long')
                          (subst (λ a. IsPrefixChain md size (contents w fd) a ps) found rest) un),
                ),
              ))
        | inr later ↦
            (let (k, (v, run, at2, mem, ne2, holds)) =
                find_prefix_lem fuel p u ps target at' long' rest separate.2 separate.1
                  (bytes_beq_comm t p ∙ later) (ground (arith, m, later)) there (omega arith) in
              let other : bytes_beq k key ≡ false =
                bytes_beq_comm k key
                ∙ has_mask-ne key k ((p, n) ∷ ps) fresh (ground (arith, mem, bytes_beq_comm k p)) in
              (
                k,
                (
                  v,
                  find_prefix-step fuel key value p u more pointed later at' ∙ run,
                  at2,
                  ground (arith, mem, bytes_beq_comm k p),
                  ne2,
                  λ g un.
                      subst (λ ps'. Holds g key (tuple_id md value) ps') {x = (p, n) ∷ erase t ps}
                        {y = erase t ((p, n) ∷ ps)} (rw later refl)
                        (
                          value,
                          un key ∙ rw (ne, other) at,
                          long,
                          refl,
                          (
                            more,
                            pointed,
                            subst (λ (i : ℕ). Holds g p i (erase t ps)) numbered (holds g un),
                          ),
                        ),
                ),
              ))
      ]

  -- The prefix of a chain is there, with the number of its tuple.
  chain_at :
      (value : Bytes) (ps : List Prefix)
      → IsPrefixChain md size (contents w fd) value ps
      → has_mask t ps ≡ true
      → (u : Bytes) × (contents w fd t ≡ some u) × (tuple_id md u ≡ number_of t ps)
  chain_at value [] chain m = cc
  chain_at value ((p, n) ∷ ps) chain m =
      let (more, pointed, (u, at, long, numbered, rest)) = chain in
      elim (Bool-cases (bytes_beq p t)) [
        | inl here ↦ (
          u,
          subst (λ a. contents w fd a ≡ some u) ((bytes_beq_iff p t).0 here) at,
          rw here numbered,
        )
        | inr later ↦
            (let (u', at', numbered') = chain_at u ps rest (ground (arith, m, later)) in
              (u', at', rw later numbered'))
      ]

  module _ (tuples : MapCalls W ℕ ℕ) (tuple_fd : ℕ) where
    drop_node_lem :
        (target : Bytes) (w1 w2 : W) (id : ℕ)
        → calls.delete w1 fd t ≡ ok w2
        → tuple_id md target ≡ id
        → drop_node calls md fd tuples tuple_fd t target w1
          ≡ after (tuples.delete w2 tuple_fd id) w2
    drop_node_lem target w1 w2 id deleted numbered =
        ap (λ r. let w' = after r w1 in after (tuples.delete w' tuple_fd (tuple_id md target)) w')
          deleted
        ∙ ap (λ (i : ℕ). after (tuples.delete w2 tuple_fd i) w2) numbered

    remove_prefix-calls :
        (fuel : ℕ) (head target k v : Bytes) (w1 : W)
        → contents w fd t ≡ some target
        → contents w fd (zeros md.next_mask_size) ≡ some head
        → find_prefix calls md fd fuel t (zeros md.next_mask_size) head w ≡ ok (some (k, v))
        → calls.update w fd k (copy_link md target v) exist ≡ ok w1
        → ternary_table_remove_prefix calls md fd tuples tuple_fd fuel md.next_mask_size t w
          ≡ (ok tt, drop_node calls md fd tuples tuple_fd t target w1)
    unfolding ternary_table_remove_prefix
    remove_prefix-calls fuel head target k v w1 there at run updated =
        ap (λ r. remove_known calls md fd tuples tuple_fd fuel md.next_mask_size t r w)
          {x = calls.lookup w fd t} {y = ok target} (laws.lookup_find w fd t ∙ rw there refl)
        ∙ ap
            (λ r.
              remove_from calls md fd tuples tuple_fd fuel t target (zeros md.next_mask_size) r w)
            {x = calls.lookup w fd (zeros md.next_mask_size)} {y = ok head}
            (laws.lookup_find w fd (zeros md.next_mask_size) ∙ rw at refl)
        ∙ ap (λ r. remove_behind calls md fd tuples tuple_fd t target r w) run
        ∙ ap (λ r. drop_relinked calls md fd tuples tuple_fd t target r w) updated

    -- Let a map hold a list of prefixes with the mask among them, and let a deletion from the map of
    -- tuples leave it alone. Then the function succeeds, deletes the tuple with the number of that
    -- prefix, and the map holds the list without it. One round more than there are prefixes is
    -- enough.
    pub ternary_table_remove_prefix_lem :
        (fuel : ℕ) (ps : List Prefix)
        → IsPrefixList md size (contents w fd) ps
        → has_mask t ps ≡ true
        → length ps < fuel
        → ((w1 w2 : W) (id : ℕ) (j : Bytes)
            → tuples.delete w1 tuple_fd id ≡ ok w2
            → contents w2 fd j ≡ contents w1 fd j)
        → (w2 : W) × (ternary_table_remove_prefix calls md fd tuples tuple_fd fuel md.next_mask_size
              t w
            ≡ (ok tt, after (tuples.delete w2 tuple_fd (number_of t ps)) w2))
          × IsPrefixList md size
              (contents (after (tuples.delete w2 tuple_fd (number_of t ps)) w2) fd)
              (erase t ps)
    ternary_table_remove_prefix_lem fuel ps list m enough apart =
        let zero_key : Bytes = zeros md.next_mask_size in
        let fresh : has_mask zero_key ps ≡ false =
          IsSeparate-zeros md.next_mask_size ps list.separate in
        let nz : bytes_beq t zero_key ≡ false =
          bytes_beq_comm t zero_key ∙ has_mask-ne zero_key t ps fresh m in
        let (target, there, numbered) = chain_at list.head ps list.chain m in
        let (k, (v, run, at, mem, ne, holds)) =
          find_prefix_lem fuel zero_key list.head ps target list.head_there list.head_long
            list.chain list.separate fresh nz m there enough in
        let (w1, updated) = laws.update_present w fd k (copy_link md target v) v exist at (cc) in
        let kept : contents w1 fd t ≡ some target =
          laws.update_find w w1 fd k (copy_link md target v) exist fd t updated
          ∙ rw (nat_refl fd, bytes_beq_comm k t, ne) there in
        let (w2, deleted) = laws.delete_present w1 fd t target kept in
        let w3 : W = after (tuples.delete w2 tuple_fd (number_of t ps)) w2 in
        let dropped : drop_node calls md fd tuples tuple_fd t target w1 ≡ w3 =
          drop_node_lem target w1 w2 (number_of t ps) deleted numbered in
        let un : Unlinked k (copy_link md target v) (contents w3 fd) = λ j.
          after_keeps (tuples.delete w2 tuple_fd (number_of t ps)) w2 (λ w'. contents w' fd j)
            (λ w' h. apart w2 w' (number_of t ps) j h)
          ∙ laws.delete_find w1 w2 fd t fd j deleted
          ∙ rw
              (
                nat_refl fd,
                laws.update_find w w1 fd k (copy_link md target v) exist fd j updated,
                nat_refl fd,
              )
              refl in
        let (u, at', long, same, chain) = holds (contents w3 fd) un in
        (
          w2,
          remove_prefix-calls fuel list.head target k v w1 there list.head_there run updated
              ∙ ap (λ w'. (ok tt, w')) dropped,
          record {
            head = u;
            head_there = at';
            head_long = long;
            chain = chain;
            separate = IsSeparate-erase md.next_mask_size t ps list.separate;
          },
        )
