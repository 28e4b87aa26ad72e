-- ===== src/Literals/Slots.antt =====
-- The STORE and LOAD instructions, and the opcodes that are reserved or unused.
use smlnj.Prelude.{
  ℕ, ◌+◌, ◌*◌, ◌/◌, ◌<◌, ◌≤◌, ◌≡◌, refl, ◌∙◌, ap, ◌⊎◌, inl, inr, true, false, List, ◌∷◌, arith,
  length, ltb, get_or, set, get_or-set_self, bit_and, Bool-cases,
}
use smlnj.Prelude.Bits.{bit_and-mask}
use smlnj.Literals.{StkItem, State, ok, die, vk_obj, push_ml_value}
use smlnj.Literals.Step.{
  Runtime, more, go_on, step, step_slots, store_slot, load_slot, step_strings, step_rawints,
  step_records, step_vectors, step_return,
}

-- a slot's short instructions
slot_bits : (base slot : ℕ) → base ≡ base / 8 * 8 → slot < 8 → bit_and (base + slot) 7 ≡ slot
slot_bits base slot e h = bit_and-mask 3 (base + slot) ∙ omega arith

step-slots :
    (rt : Runtime) (st : State)
    → 232 ≤ st.code st.pc
    → st.code st.pc < 248
    → step rt st ≡ go_on (step_slots (record st { pc = st.pc + 1 }) (st.code st.pc))
unfolding step
step-slots rt st lo hi = ground arith

store_op :
    (st : State) (top : StkItem) (rest : List StkItem) (slot : ℕ)
    → slot < 7
    → slot < st.max_saved
    → st.stk ≡ top ∷ rest
    → step_slots st (232 + slot) ≡ ok (record st { saved = set st.saved slot top.val })
unfolding step_slots store_slot
store_op st top rest slot short h stk =
    rw (slot_bits 232 slot refl (omega arith), stk, step_slots) (ground arith)

load_op :
    (st : State) (slot v : ℕ)
    → slot < 7
    → slot < st.max_saved
    → length st.stk < st.max_depth
    → get_or st.saved slot 0 ≡ v
    → step_slots st (240 + slot)
      ≡ ok (record st { stk = (record { val = v; kind = vk_obj }) ∷ st.stk })
unfolding step_slots load_slot push_ml_value
load_op st slot v short h depth e =
    rw (slot_bits 240 slot refl (omega arith), e, step_slots) (ground arith)

-- A STORE of an object to one of the seven short slots and a LOAD from it leave the stack with the
-- object again on top, above all that was there.
pub store-load :
    (rt : Runtime) (st : State) (v : ℕ) (rest : List StkItem) (slot : ℕ)
    → slot < 7
    → slot < st.max_saved
    → length st.saved ≡ st.max_saved
    → st.stk ≡ (record { val = v; kind = vk_obj }) ∷ rest
    → length st.stk < st.max_depth
    → st.code st.pc ≡ 232 + slot
    → st.code (st.pc + 1) ≡ 240 + slot
    → (st1 : State) × (st2 : State) × (step rt st ≡ ok (more st1))
      × (step rt st1 ≡ ok (more st2))
      × (st2.stk ≡ (record { val = v; kind = vk_obj }) ∷ st.stk)
      × (st2.pc ≡ st.pc + 2)
unfolding step step_slots store_slot load_slot push_ml_value
store-load rt st v rest slot short h len stk depth store load =
    let st1 = record st { pc = st.pc + 1; saved = set st.saved slot v } in
    let st2 = record st1 { pc = st1.pc + 1; stk = (record { val = v; kind = vk_obj }) ∷ st.stk } in
    let b1 = slot_bits 232 slot refl (omega arith) in
    let b2 = slot_bits 240 slot refl (omega arith) in
    let back = get_or-set_self st.saved slot v 0 (omega arith) in
    (
      st1,
      st2,
      step-slots rt st (omega arith) (omega arith)
          ∙ ap go_on (
              ap (step_slots (record st { pc = st.pc + 1 })) store
              ∙ store_op (record st { pc = st.pc + 1 }) (record { val = v; kind = vk_obj }) rest
                  slot short h stk),
      step-slots rt st1 (omega arith) (omega arith)
          ∙ ap go_on (
              ap (step_slots (record st1 { pc = st1.pc + 1 })) load
              ∙ load_op (record st1 { pc = st1.pc + 1 }) slot v short h depth back),
      refl,
      omega arith,
    )

-- the opcodes that the comments in the switch call reserved or unused
abbrev pub Reserved : ℕ → Type 0
Reserved op =
    ((134 ≤ op) × (op ≤ 135))
    ⊎ (((140 ≤ op) × (op ≤ 155))
        ⊎ (((194 ≤ op) × (op ≤ 199)) ⊎ (((203 ≤ op) × (op ≤ 231)) ⊎ ((248 ≤ op) × (op ≤ 254)))))

strings-die :
    (rt : Runtime) (st : State) (op : ℕ)
    → ((op ≡ 134) ⊎ (op ≡ 135)) ⊎ (140 ≤ op)
    → step_strings rt st op ≡ die
unfolding step_strings
strings-die rt st op h = ground arith

rawints-die : (st : State) (op : ℕ) → op < 156 → step_rawints st op ≡ die
unfolding step_rawints
rawints-die st op h = ground arith

records-die : (rt : Runtime) (st : State) (op : ℕ) → 194 ≤ op → step_records rt st op ≡ die
unfolding step_records
records-die rt st op h = ground arith

vectors-die : (rt : Runtime) (st : State) (op : ℕ) → 203 ≤ op → step_vectors rt st op ≡ die
unfolding step_vectors
vectors-die rt st op h = ground arith

return-die : (st : State) (op : ℕ) → op < 255 → step_return st op ≡ die
unfolding step_return
return-die st op h = ground arith

module _ (rt : Runtime) (st : State) where
  above : (k : ℕ) → k ≤ st.code st.pc → ltb (st.code st.pc) k ≡ false
  above k h = ground arith

  below : (k : ℕ) → st.code st.pc < k → ltb (st.code st.pc) k ≡ true
  below k h = ground arith

  step-strings :
      132 ≤ st.code st.pc
      → st.code st.pc < 144
      → step rt st ≡ go_on (step_strings rt (record st { pc = st.pc + 1 }) (st.code st.pc))
  unfolding step
  step-strings lo hi = ground arith

  step-rawints :
      144 ≤ st.code st.pc
      → st.code st.pc < 160
      → step rt st ≡ go_on (step_rawints (record st { pc = st.pc + 1 }) (st.code st.pc))
  unfolding step
  step-rawints lo hi = ground arith

  step-records :
      160 ≤ st.code st.pc
      → st.code st.pc < 200
      → step rt st ≡ go_on (step_records rt (record st { pc = st.pc + 1 }) (st.code st.pc))
  unfolding step
  step-records lo hi =
      rw (above 132 (omega arith), above 144 (omega arith), above 160 lo, below 200 hi, step) refl

  step-vectors :
      200 ≤ st.code st.pc
      → st.code st.pc < 232
      → step rt st ≡ go_on (step_vectors rt (record st { pc = st.pc + 1 }) (st.code st.pc))
  unfolding step
  step-vectors lo hi =
      rw
        (
          above 132 (omega arith),
          above 144 (omega arith),
          above 160 (omega arith),
          above 200 lo,
          below 232 hi,
          step,
        )
        refl

  step-return :
      248 ≤ st.code st.pc → step rt st ≡ step_return (record st { pc = st.pc + 1 }) (st.code st.pc)
  unfolding step
  step-return lo = ground arith

  abbrev op : ℕ
  op = st.code st.pc

  abbrev st' : State
  st' = record st { pc = st.pc + 1 }

  -- The interpreter dies on every opcode that is reserved for future use or unused, in any state.
  pub Reserved-die : Reserved (st.code st.pc) → step rt st ≡ die
  Reserved-die (inl h) =
      step-strings (omega arith) (omega arith) ∙ ap go_on (strings-die rt st' op (ground arith))
  Reserved-die (inr (inl h)) = elim (Bool-cases (ltb op 144)) [
    | inl e ↦ step-strings (omega arith) (ground arith) ∙ ap go_on (strings-die rt st' op (inr h.0))
    | inr e ↦
        step-rawints (ground arith) (omega arith) ∙ ap go_on (rawints-die st' op (omega arith))
  ]
  Reserved-die (inr (inr (inl h))) =
      step-records (omega arith) (omega arith) ∙ ap go_on (records-die rt st' op h.0)
  Reserved-die (inr (inr (inr (inl h)))) =
      step-vectors (omega arith) (omega arith) ∙ ap go_on (vectors-die rt st' op h.0)
  Reserved-die (inr (inr (inr (inr h)))) = step-return h.0 ∙ return-die st' op (omega arith)
