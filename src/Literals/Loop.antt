-- ===== src/Literals/Loop.antt =====
-- The runs of the interpreter's loop.
use smlnj.Prelude.{
  ℕ, zero, suc, ◌+◌, ◌≤◌, ◌≡◌, refl, ◌⊎◌, inl, inr, Bool, true, false, List, [], ◌∷◌, arith, ltb,
  if◌then◌else◌,
}
use mathlib.Core.Path.{subst}
use smlnj.Literals.{State, StkItem, Outcome, ok, die, undefined, out_of_fuel}
use smlnj.Literals.Step.{Runtime, Turn, more, return, go_on, step, run, step_return}
use smlnj.Literals.Progress.{Ahead}
use smlnj.Literals.Ends.{
  step_ints-Ahead, step_strings-Ahead, step_rawints-Ahead, step_records-Ahead, step_vectors-Ahead,
  step_slots-Ahead,
}

-- a round goes on at `pc` or later, or ends the loop
abbrev pub Forward : ℕ → Outcome Turn → Type 0
Forward pc (ok (more stp)) = pc ≤ stp.pc
Forward pc (ok (return v stp)) = Unit
Forward pc die = Unit
Forward pc undefined = Unit
Forward pc out_of_fuel = ⊥

go_on-Forward : (pc : ℕ) (o : Outcome State) → Ahead pc o → Forward pc (go_on o)
go_on-Forward pc (ok stp) h = h
go_on-Forward pc die h = tt
go_on-Forward pc undefined h = tt
go_on-Forward pc out_of_fuel h = h

if-Forward :
    (pc : ℕ) (b : Bool) (x y : Outcome Turn)
    → Forward pc x
    → Forward pc y
    → Forward pc (if b then x else y)
if-Forward pc true x y hx hy = hx
if-Forward pc false x y hx hy = hy

step_return-Forward : (pc : ℕ) (stp : State) (op : ℕ) → Forward pc (step_return stp op)
unfolding step_return
step_return-Forward pc stp op = if-Forward pc (ltb op 255) die _ tt (stacked stp.stk)
  where
    stacked :
        (stk : List StkItem)
        → Forward pc (elim stk [ [] ↦ undefined | top ∷ _ ↦ ok (return top.val stp) ])
    stacked [] = tt
    stacked (top ∷ _) = tt

-- every round moves the program counter over at least the opcode
pub step-Forward : (rt : Runtime) (st : State) → Forward (st.pc + 1) (step rt st)
unfolding step
step-Forward rt st =
    let op = st.code st.pc in
    let stp = record st { pc = st.pc + 1 } in
    let pc = st.pc + 1 in
    let h : pc ≤ stp.pc = omega arith in
    if-Forward pc (ltb op 132) _ _ (go_on-Forward pc _ (step_ints-Ahead pc rt stp op h)) (
      if-Forward pc (ltb op 144) _ _ (go_on-Forward pc _ (step_strings-Ahead pc rt stp op h)) (
        if-Forward pc (ltb op 160) _ _ (go_on-Forward pc _ (step_rawints-Ahead pc rt stp op h)) (
          if-Forward pc (ltb op 200) _ _ (go_on-Forward pc _ (step_records-Ahead pc rt stp op h)) (
            if-Forward pc (ltb op 232) _ _ (go_on-Forward pc _ (step_vectors-Ahead pc rt stp op h))
              (if-Forward pc (ltb op 248) _ _ (go_on-Forward pc _ (step_slots-Ahead pc stp op h))
                (step_return-Forward pc stp op))))))

-- the states that the loop reaches
pub data Steps (rt : Runtime) : State → State → Type 0 where
  stop : {st : State} → Steps rt st st
  go : {st st' st'' : State} → step rt st ≡ ok (more st') → Steps rt st' st'' → Steps rt st st''

-- how the loop ends in a state
pub data Ends (rt : Runtime) (end : State) : Outcome (ℕ × State) → Type 0 where
  returns : {v : ℕ} {st : State} → step rt end ≡ ok (return v st) → Ends rt end (ok (v, st))
  dies : step rt end ≡ die → Ends rt end die
  breaks : step rt end ≡ undefined → Ends rt end undefined

Outcome-cases :
    (o : Outcome Turn)
    → ((st : State) × (o ≡ ok (more st)))
      ⊎ (((v : ℕ) × (st : State) × (o ≡ ok (return v st)))
          ⊎ ((o ≡ die) ⊎ ((o ≡ undefined) ⊎ (o ≡ out_of_fuel))))
Outcome-cases (ok (more st)) = inl (st, refl)
Outcome-cases (ok (return v st)) = inr (inl (v, st, refl))
Outcome-cases die = inr (inr (inl refl))
Outcome-cases undefined = inr (inr (inr (inl refl)))
Outcome-cases out_of_fuel = inr (inr (inr (inr refl)))

-- With `fuel` rounds the loop either ends, by a RETURN, a death or an access outside its arrays in
-- a state that it reaches, or it reaches a state whose program counter is at least `fuel` bytes
-- further on. So a run that stays within its code ends with as many rounds as the code has bytes.
pub run-Ends :
    (rt : Runtime) (fuel : ℕ) (st : State)
    → ((end : State) × Steps rt st end × Ends rt end (run rt fuel st))
      ⊎ ((end : State) × Steps rt st end × (st.pc + fuel ≤ end.pc))
unfolding run
run-Ends rt zero st = inr (st, stop, omega arith)
run-Ends rt (suc fuel) st = elim (Outcome-cases (step rt st)) [
  | inl (st', e) ↦
      let ahead : st.pc + 1 ≤ st'.pc =
        subst (λ (o : Outcome Turn). Forward (st.pc + 1) o) e (step-Forward rt st) in
      elim (run-Ends rt fuel st') [
        | inl (end, steps, w) ↦ inl (end, go e steps, rw (e, run) w)
        | inr (end, steps, far) ↦ inr (end, go e steps, omega arith)
      ]
  | inr (inl (v, st', e)) ↦ inl (st, stop, rw (e, run) (returns e))
  | inr (inr (inl e)) ↦ inl (st, stop, rw (e, run) (dies e))
  | inr (inr (inr (inl e))) ↦ inl (st, stop, rw (e, run) (breaks e))
  | inr (inr (inr (inr e))) ↦
      absurd (subst (λ (o : Outcome Turn). Forward (st.pc + 1) o) e (step-Forward rt st))
]
