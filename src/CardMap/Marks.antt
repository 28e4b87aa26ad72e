-- ===== src/CardMap/Marks.antt =====
-- `MARK_CARD` and `FOR_DIRTY_CARD`.
use smlnj.Prelude.{
  ℕ, ◌+◌, ◌%◌, ◌^◌, ◌≡◌, ap, List, [], ◌∷◌, ◌&&◌, ◌||◌, arith, ◌==◌, ltb, leb, if◌then◌else◌,
  Bool-cases, inl, inr,
}
use smlnj.CardMap.{CardMap, card_index, mark_card, is_dirty}

-- A marked card is dirty for the generations from the mark on, and stays dirty for those it was
-- dirty for; no other card changes.
pub is_dirty-mark_card :
    (cm : CardMap) (addr gen i max_gen : ℕ)
    → is_dirty (mark_card cm addr gen) i max_gen
      ≡ (is_dirty cm i max_gen || ((i == card_index cm addr % 2 ^ 32) && leb gen max_gen))
unfolding mark_card is_dirty
is_dirty-mark_card cm addr gen i max_gen =
    let c = card_index cm addr % 2 ^ 32 in
    elim (Bool-cases (ltb gen (cm.map c))) [
      | inl less ↦ elim (Bool-cases (i == c)) [
        | inl here ↦
            let k : i ≡ c = ground arith in
            let same : cm.map i ≡ cm.map c = ap cm.map k in rw (less, here) (ground (arith, same))
        | inr other ↦ rw (less, other) (ground arith)
      ]
      | inr more ↦ elim (Bool-cases (i == c)) [
        | inl here ↦
            let k : i ≡ c = ground arith in
            let same : cm.map i ≡ cm.map c = ap cm.map k in rw (more, here) (ground (arith, same))
        | inr other ↦ rw (more, other) (ground arith)
      ]
    ]

-- how often the card is in the list
abbrev pub times : ℕ → List ℕ → ℕ
times i [] = 0
times i (j ∷ js) = (if i == j then 1 else 0) + times i js
