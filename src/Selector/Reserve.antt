-- ===== src/Selector/Reserve.antt =====
-- `find_and_reserve_reference`, and `nikss_action_selector_add_member` on the contents of the map of
-- members.
use nikss.Base.{
  ℕ, zero, suc, ◌+◌, ◌<◌, ◌≤◌, ◌≡◌, ◌≢◌, sym, refl, arith, nat_eq, Bool-cases, inl, inr, ltb, subst,
}
use nikss.Bpf.Types.{MapCalls, Result, ok, err, hangs, noexist}
use nikss.Selector.Types.{invalid_reference}
use nikss.Selector.Members.{reserve_from}

module _ {W V : Type 0} (calls : MapCalls W ℕ V) (fd : ℕ) (value : V) (w : W) where
  abbrev pub IsRefused : ℕ → Type 0
  IsRefused j = (w' : W) → calls.update w fd j value noexist ≢ ok w'

  -- What is reserved among the references from `first` on, below `bound`.
  pub data Reserved (first bound : ℕ) : ℕ × W → Type 0 where
    full :
        ((j : ℕ) → first ≤ j → j < bound → IsRefused j)
        → Reserved first bound (invalid_reference, w)
    took :
        (ref : ℕ) (w' : W)
        → first ≤ ref
        → ref < bound
        → calls.update w fd ref value noexist ≡ ok w'
        → ((j : ℕ) → first ≤ j → j < ref → IsRefused j)
        → Reserved first bound (ref, w')

  abbrev round_of : Result W → ℕ → ℕ × W → ℕ × W
  round_of (ok w') ref rest = (ref, w')
  round_of (err e) ref rest = rest
  round_of hangs ref rest = rest

  reserve_from-suc :
      (rounds ref : ℕ)
      → reserve_from calls (suc rounds) fd value ref w
        ≡ round_of
            (calls.update w fd ref value noexist)
            ref
            (reserve_from calls rounds fd value (ref + 1) w)
  unfolding reserve_from
  reserve_from-suc rounds ref = ground arith

  IsRefused-first :
      (first j : ℕ) → IsRefused first → first ≤ j → ((first + 1 ≤ j) → IsRefused j) → IsRefused j
  IsRefused-first first j here le later = elim (Bool-cases (ltb first j)) [
    | inl t ↦ later (ground arith)
    | inr e ↦ (let same : first ≡ j = ground arith in subst IsRefused same here)
  ]

  skip :
      (first bound : ℕ) (r : ℕ × W)
      → IsRefused first
      → Reserved (first + 1) bound r
      → Reserved first bound r
  skip first bound r here (full h) =
      full (λ j le lt. IsRefused-first first j here le (λ le'. h j le' lt))
  skip first bound r here (took ref w' le lt done h) =
      took ref w' (omega arith) lt done
        (λ j le1 lt1. IsRefused-first first j here le1 (λ le'. h j le' lt1))

  by_round :
      (r : Result W) (first bound : ℕ) (rest : ℕ × W)
      → calls.update w fd first value noexist ≡ r
      → first < bound
      → Reserved (first + 1) bound rest
      → Reserved first bound (round_of r first rest)
  by_round (ok w') first bound rest h lt later =
      took first w' (omega arith) lt h (λ j le lt'. absurd (omega arith))
  by_round (err e) first bound rest h lt later = skip first bound rest (λ w' h'. cc) later
  by_round hangs first bound rest h lt later = skip first bound rest (λ w' h'. cc) later

  pub reserve_from_lem :
      (rounds first : ℕ)
      → Reserved first (first + rounds) (reserve_from calls rounds fd value first w)
  unfolding reserve_from
  reserve_from_lem zero first = full (λ j le lt. absurd (omega arith))
  reserve_from_lem (suc rounds) first =
      let bound : first + 1 + rounds ≡ first + suc rounds = omega arith in
      let rest : ℕ × W = reserve_from calls rounds fd value (first + 1) w in
      subst (Reserved first (first + suc rounds)) (sym (reserve_from-suc rounds first)) (
        by_round (calls.update w fd first value noexist) first (first + suc rounds) rest refl
          (omega arith)
          (subst (λ b. Reserved (first + 1) b rest) bound (reserve_from_lem rounds (first + 1))))
