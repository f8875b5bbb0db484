-- ===== src/Table/PrefixTests.antt =====
-- Examples of what is proved of the list of prefixes of a ternary table.
use nikss.Base.{ℕ, ◌≡◌, refl, Option, none, some, [], ◌∷◌, arith, ap, sym, nat_eq}
use nikss.Bpf.Types.{ok}
use nikss.Bpf.Assoc.{find, delete_by}
use nikss.Struct.Buffer.{Bytes}
use nikss.Struct.Equal.{bytes_eq}
use nikss.Table.Clear.{after}
use nikss.Table.Prefixes.{
  PrefixMetadata, add_ternary_table_prefix, ternary_table_remove_prefix, new_node,
}
use nikss.Table.PrefixList.{IsLaidOut, IsPrefixList}
use nikss.Table.AddPrefix.{add_ternary_table_prefix-next, IsAbove}
use nikss.Table.RemovePrefix.{ternary_table_remove_prefix_lem}
use nikss.Table.Sim.{SimWorld, sim_calls, sim_prefixes-laws, start}

-- of a table with keys of 4 bytes
abbrev md : PrefixMetadata
md = record {
  tuple_id_offset = 0;
  next_mask_offset = 4;
  next_mask_size = 4;
  has_next_offset = 8;
  has_next_size = 1;
}

laid : IsLaidOut md 12
laid = record {
  id_first = omega arith;
  mask_next = omega arith;
  flag_last = omega arith;
  flag_size = refl;
}

abbrev zero_mask : Bytes
zero_mask = 0 ∷ 0 ∷ 0 ∷ 0 ∷ []

abbrev mask : Bytes
mask = 255 ∷ 255 ∷ 0 ∷ 0 ∷ []

abbrev longer : Bytes
longer = 255 ∷ 255 ∷ 255 ∷ 0 ∷ []

abbrev head : Bytes
head = 0 ∷ 0 ∷ 0 ∷ 0 ∷ 255 ∷ 255 ∷ 0 ∷ 0 ∷ 1 ∷ 0 ∷ 0 ∷ 0 ∷ []

abbrev contents : SimWorld → ℕ → Bytes → Option Bytes
contents w fd k = find w.prefixes fd k

abbrev one : SimWorld
one = record start.world {
  prefixes = (6, mask, new_node md 12 1) ∷ (6, zero_mask, head) ∷ [];
  tuples = (7, 1, 21) ∷ [];
}

one-IsPrefixList : IsPrefixList md 12 (contents one 6) ((mask, 1) ∷ [])
one-IsPrefixList = record {
  head = head;
  head_there = refl;
  head_long = refl;
  chain = (refl, refl, (new_node md 12 1, refl, refl, refl, refl));
  separate = (refl, refl, tt);
}

next_example :
    (w2 : SimWorld) × (add_ternary_table_prefix sim_calls.prefix_list md 6 3 4 12 longer one
      ≡ (ok (new_node md 12 2), w2))
    × IsPrefixList md 12 (contents w2 6) ((mask, 1) ∷ (longer, 2) ∷ [])
    × IsAbove 2 ((mask, 1) ∷ [])
next_example =
    add_ternary_table_prefix-next sim_calls.prefix_list contents sim_prefixes-laws.updates md 12
      laid 6 one longer refl 3 ((mask, 1) ∷ [])
      (record one {
        prefixes =
            (6, mask, new_node md 12 1) ∷ (6, zero_mask, head) ∷ (6, longer, new_node md 12 2) ∷ [];
      })
      one-IsPrefixList refl refl (omega arith) (omega arith) refl

-- The map of tuples and that of prefixes are different ones.
tuples_apart :
    (o : Option ℕ) (w1 w2 : SimWorld) (id : ℕ)
    → delete_by 8 (λ w. w.tuples) (λ w t. record w { tuples = t }) o w1 7 id ≡ ok w2
    → w2.prefixes ≡ w1.prefixes
tuples_apart none w1 w2 id h = sym (ap (λ r. (after r w1).prefixes) h)
tuples_apart (some n) w1 w2 id h = sym (ap (λ r. (after r w1).prefixes) h)

remove_example :
    (w2 : SimWorld) × (ternary_table_remove_prefix sim_calls.prefix_list md 6 sim_calls.tuples 7 3 4
        mask one
      ≡ (ok tt, after (sim_calls.tuples.delete w2 7 1) w2))
    × IsPrefixList md 12 (contents (after (sim_calls.tuples.delete w2 7 1) w2) 6) []
remove_example =
    ternary_table_remove_prefix_lem sim_calls.prefix_list contents sim_prefixes-laws md 12 laid 6
      one mask sim_calls.tuples 7 3 ((mask, 1) ∷ []) one-IsPrefixList refl (omega arith)
      (λ w1 w2 id j h. ap (λ t. find t 6 j) (tuples_apart (find w1.tuples 7 id) w1 w2 id h))
