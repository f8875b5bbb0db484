-- ===== src/Table/Joined.antt =====
-- The key of an entry in lib/nikss_table.c: which bytes are written.
use nikss.Base.{
  ℕ, zero, suc, ◌+◌, ◌-◌, ◌*◌, ◌≤◌, ◌≡◌, ◌∙◌, sym, refl, ap, Bool, true, false, not, ◌&&◌, List, [],
  ◌∷◌, ◌++◌, length, length-append, ltb, ◌==◌, if◌then◌else◌, arith, Bool-cases, inl, inr, map,
}
use nikss.Bpf.Types.{ok, err, eperm}
use nikss.Struct.Buffer.{Bytes}
use nikss.Struct.Fields.{copy_at}
use nikss.Struct.Constructed.{concat, zeros, append_nil, append_assoc}
use nikss.Counter.Value.{to_bytes}
use nikss.Table.Types.{TableEntry, TableContext, MatchKey, is_lpm, is_ternary_kind}
use nikss.Table.Write.{reversed}
use nikss.Table.Keys.{fill_keys, fill_key_byte_by_byte, key_size, key_bytes, is_lpm_trie, given}
use nikss.Table.Encoded.{filled, filled_behind, filled_too_long, copy_at-next}

-- the fields of a key, one behind the other
abbrev pub all_bytes : Bool → List MatchKey → Bytes
all_bytes as_trie mks = concat (map (key_bytes as_trie) mks)

length-reversed : (xs acc : Bytes) → length (reversed xs acc) ≡ length xs + length acc
length-reversed [] acc = omega arith
length-reversed (x ∷ xs) acc = omega (arith, length-reversed xs (x ∷ acc))

length-key_bytes : (as_trie : Bool) (mk : MatchKey) → length (key_bytes as_trie mk) ≡ key_size mk
length-key_bytes as_trie mk = elim (Bool-cases (as_trie && is_lpm mk.type)) [
  | inl t ↦ rw t (omega (arith, length-reversed (given mk.bytes) []))
  | inr f ↦ rw f refl
]

fill_keys-plain :
    (mks : List MatchKey) (pre : Bytes) (left : ℕ)
    → fill_keys false mks (length pre) left (pre ++ zeros left)
      ≡ filled pre (all_bytes false mks) left
unfolding fill_keys
fill_keys-plain [] pre zero = refl
fill_keys-plain [] pre (suc left) = ground arith
fill_keys-plain (mk ∷ mks) pre left =
    let p : Bytes = given mk.bytes in
    elim (Bool-cases (ltb left (length p))) [
      | inl t ↦ rw t (sym (filled_too_long pre p (all_bytes false mks) left (ground arith)))
      | inr f ↦
          let le : length p ≤ left = ground arith in
          rw f (
            ap (fill_keys false mks (length pre + length p) (left - length p))
              (copy_at-next pre p left le)
            ∙ ap
                (λ (n : ℕ).
                  fill_keys false mks n (left - length p) ((pre ++ p) ++ zeros (left - length p)))
                (sym (length-append pre p))
            ∙ fill_keys-plain mks (pre ++ p) (left - length p)
            ∙ filled_behind pre p (all_bytes false mks) left le)
    ]

-- Let a table be no LPM trie. The key written is the data of all match keys one behind the other; the
-- result is EPERM if it does not have the size of the table's keys.
pub fill_key_byte_by_byte-plain :
    (ctx : TableContext) (entry : TableEntry)
    → is_lpm_trie ctx.table.type ≡ false
    → fill_key_byte_by_byte ctx entry (zeros ctx.table.key_size) ≡ (
        if length (all_bytes false entry.match_keys) == ctx.table.key_size
        then ok (all_bytes false entry.match_keys)
        else err eperm)
unfolding fill_key_byte_by_byte
fill_key_byte_by_byte-plain ctx entry kind =
    rw kind (fill_keys-plain entry.match_keys [] ctx.table.key_size)

abbrev pub no_ternary : List MatchKey → Bool
no_ternary [] = true
no_ternary (mk ∷ mks) = not (is_ternary_kind mk.type) && no_ternary mks

-- the bits that count of a field
abbrev pub field_bits : MatchKey → ℕ
field_bits mk = if is_lpm mk.type then mk.prefix_len else key_size mk * 8

-- the bits that count of all fields behind `before` bytes: all those of the last one's, with what is
-- before it
abbrev pub prefix_bits : List MatchKey → ℕ → ℕ → ℕ
prefix_bits [] before last = last
prefix_bits (mk ∷ mks) before last =
    prefix_bits mks (before + key_size mk) (before * 8 + field_bits mk)

copy_at-over : (p h bs : Bytes) → length p ≡ length h → copy_at 0 p (h ++ bs) ≡ p ++ bs
copy_at-over [] [] [] e = refl
copy_at-over [] [] (b ∷ bs) e = refl
copy_at-over [] (x ∷ h) bs e = absurd (omega arith)
copy_at-over (y ∷ p) [] bs e = absurd (omega arith)
copy_at-over (y ∷ p) (x ∷ h) bs e = ap (λ cs. y ∷ cs) (copy_at-over p h bs (omega arith))

-- the buffer after a field of a trie's key and the length of the prefix
next_buffer :
    (h h' body p : Bytes) (left : ℕ)
    → length h ≡ 4
    → length h' ≡ 4
    → length p ≤ left
    → copy_at 0 h' (copy_at (4 + length body) p ((h ++ body) ++ zeros left))
      ≡ (h' ++ (body ++ p)) ++ zeros (left - length p)
next_buffer h h' body p left four four' le =
    let behind : length (h ++ body) ≡ 4 + length body = omega (arith, length-append h body) in
    let zs : Bytes = zeros (left - length p) in
    ap (λ (n : ℕ). copy_at 0 h' (copy_at n p ((h ++ body) ++ zeros left))) (sym behind)
    ∙ ap (copy_at 0 h') (copy_at-next (h ++ body) p left le)
    ∙ ap (λ bs. copy_at 0 h' (bs ++ zs)) (append_assoc h body p)
    ∙ ap (copy_at 0 h') (append_assoc h (body ++ p) zs)
    ∙ copy_at-over h' h ((body ++ p) ++ zs) (omega (arith, four, four'))
    ∙ sym (append_assoc h' (body ++ p) zs)

fill_keys-trie :
    (mks : List MatchKey) (last : ℕ) (body : Bytes) (left : ℕ)
    → no_ternary mks ≡ true
    → fill_keys true mks (4 + length body) left ((to_bytes 4 last ++ body) ++ zeros left)
      ≡ filled (to_bytes 4 (prefix_bits mks (length body) last) ++ body) (all_bytes true mks) left
unfolding fill_keys
fill_keys-trie [] last body zero h = refl
fill_keys-trie [] last body (suc left) h = ground arith
fill_keys-trie (mk ∷ mks) last body left h =
    let p : Bytes = key_bytes true mk in
    let n : ℕ = key_size mk in
    let size : length p ≡ n = length-key_bytes true mk in
    let kind : is_ternary_kind mk.type ≡ false = ground (arith, h) in
    let kinds : no_ternary mks ≡ true = ground (arith, h) in
    let bits : ℕ = length body * 8 + field_bits mk in
    let total : ℕ = prefix_bits mks (length body + n) bits in
    elim (Bool-cases (ltb left n)) [
      | inl t ↦ rw t (
          sym (
            filled_too_long (to_bytes 4 total ++ body) p (all_bytes true mks) left
              (ground (arith, size))))
      | inr f ↦
          let le : length p ≤ left = ground (arith, size) in
          rw (f, kind)
            (ap
                (λ (k : ℕ). fill_keys true mks (4 + length body + n) (left - n) (
                  copy_at 0 (to_bytes 4 (k * 8 + field_bits mk))
                    (copy_at (4 + length body) p ((to_bytes 4 last ++ body) ++ zeros left))))
                {x = 4 + length body - 4} {y = length body} (omega arith)
              ∙ ap (fill_keys true mks (4 + length body + n) (left - n))
                  (next_buffer (to_bytes 4 last) (to_bytes 4 bits) body p left refl refl le)
              ∙ ap
                  (λ (k : ℕ).
                    fill_keys true mks (4 + length body + k) (left - k)
                      ((to_bytes 4 bits ++ (body ++ p)) ++ zeros (left - length p)))
                  (sym size)
              ∙ ap
                  (λ (k : ℕ).
                    fill_keys true mks k (left - length p)
                      ((to_bytes 4 bits ++ (body ++ p)) ++ zeros (left - length p)))
                  {x = 4 + length body + length p} {y = 4 + length (body ++ p)}
                  (omega (arith, length-append body p))
              ∙ fill_keys-trie mks bits (body ++ p) (left - length p) kinds
              ∙ ap
                  (λ (k : ℕ).
                    filled (to_bytes 4 (prefix_bits mks k bits) ++ (body ++ p)) (all_bytes true mks)
                      (left - length p))
                  {x = length (body ++ p)} {y = length body + n}
                  (omega (arith, length-append body p, size))
              ∙ ap (λ bs. filled bs (all_bytes true mks) (left - length p))
                  (sym (append_assoc (to_bytes 4 total) body p))
              ∙ filled_behind (to_bytes 4 total ++ body) p (all_bytes true mks) left le)
    ]

-- Let a table be an LPM trie with keys of at least 4 bytes, and let no match key be ternary. The
-- first four bytes of the key written are the number of bits that count, those of the last field and
-- all before it; behind them stand all fields, that with the prefix in reverse; the result is EPERM
-- if they do not have the size of the table's keys.
pub fill_key_byte_by_byte-trie :
    (ctx : TableContext) (entry : TableEntry)
    → is_lpm_trie ctx.table.type ≡ true
    → 4 ≤ ctx.table.key_size
    → no_ternary entry.match_keys ≡ true
    → fill_key_byte_by_byte ctx entry (zeros ctx.table.key_size) ≡ (
        if 4 + length (all_bytes true entry.match_keys) == ctx.table.key_size
        then ok (to_bytes 4 (prefix_bits entry.match_keys 0 0) ++ all_bytes true entry.match_keys)
        else err eperm)
unfolding fill_key_byte_by_byte
fill_key_byte_by_byte-trie ctx entry kind le kinds =
    let n : ℕ = ctx.table.key_size in
    let long : ltb n 4 ≡ false = ground arith in
    let start : zeros n ≡ (to_bytes 4 0 ++ []) ++ zeros (n - 4) =
      ap zeros {x = n} {y = suc (suc (suc (suc (n - 4))))} (omega arith) in
    rw (kind, long)
      (ap (fill_keys true entry.match_keys 4 (n - 4)) start
        ∙ fill_keys-trie entry.match_keys 0 [] (n - 4) kinds
        ∙ ap (λ bs. filled bs (all_bytes true entry.match_keys) (n - 4))
            (append_nil (to_bytes 4 (prefix_bits entry.match_keys 0 0)))
        ∙ ground arith)
