-- ===== src/Literals/Ends.antt =====
-- Where the program counter stands after each group of opcodes of build-literals-v3.c.
use smlnj.Prelude.{ℕ, ◌+◌, ◌≤◌, List, [], ◌∷◌, arith, ◌==◌, ltb, if◌then◌else◌, bit_and, set}
use smlnj.Literals.{
  State, StkItem, ok, undefined, get_bytes, get_signed, push_tagged_int, push_raw_int64,
  push_real32, push_real64, push_ml_value,
}
use smlnj.Literals.Step.{
  Runtime, step_ints, step_strings, step_rawints, step_records, step_vectors, store_slot, load_slot,
  step_slots,
}
use smlnj.Literals.Progress.{
  Ahead, if-Ahead, push-Ahead, push_string-Ahead, push_vector-Ahead, push_record-Ahead,
  push_raw_record-Ahead, push_mixed_record-Ahead,
}

module _ (pc : ℕ) (rt : Runtime) (stp : State) (op : ℕ) (h : pc ≤ stp.pc) where
  pub step_ints-Ahead : Ahead pc (step_ints stp op)
  unfolding step_ints get_signed get_bytes push_tagged_int push_raw_int64
  step_ints-Ahead = if-Ahead pc (ltb op 32) _ _ (push-Ahead pc _ _ _ h) (
      if-Ahead pc (ltb op 64) _ _ (push-Ahead pc _ _ _ h) (
        if-Ahead pc (ltb op 96) _ _ (push-Ahead pc _ _ _ h) (
          if-Ahead pc (ltb op 128) _ _ (push-Ahead pc _ _ _ h) (
            if-Ahead pc (op == 128) _ _ (push-Ahead pc _ _ _ (omega arith)) (
              if-Ahead pc (op == 129) _ _ (push-Ahead pc _ _ _ (omega arith)) (
                if-Ahead pc (op == 130) _ _ (push-Ahead pc _ _ _ (omega arith))
                  (push-Ahead pc _ _ _ (omega arith))))))))

  pub step_rawints-Ahead : Ahead pc (step_rawints stp op)
  unfolding step_rawints get_signed get_bytes push_raw_int64
  step_rawints-Ahead = if-Ahead pc (op == 156) _ _ (push-Ahead pc _ _ _ (omega arith)) (
      if-Ahead pc (op == 157) _ _ (push-Ahead pc _ _ _ (omega arith)) (
        if-Ahead pc (op == 158) _ _ (push-Ahead pc _ _ _ (omega arith))
          (if-Ahead pc (op == 159) _ _ (push-Ahead pc _ _ _ (omega arith)) tt)))

  pub step_strings-Ahead : Ahead pc (step_strings rt stp op)
  unfolding step_strings get_bytes push_real32 push_real64 push_ml_value
  step_strings-Ahead = if-Ahead pc (op == 132) _ _ (push-Ahead pc _ _ _ (omega arith)) (
      if-Ahead pc (op == 133) _ _ (push-Ahead pc _ _ _ (omega arith)) (
        if-Ahead pc (op == 136) _ _ (push-Ahead pc _ _ _ h) (
          if-Ahead pc (op == 137) _ _
            (push_string-Ahead pc rt.collect (get_bytes stp 1).1 (get_bytes stp 1).0 (omega arith))
            (if-Ahead pc (op == 138) _ _
              (push_string-Ahead pc rt.collect (get_bytes stp 2).1 (get_bytes stp 2).0
                (omega arith))
              (if-Ahead pc (op == 139) _ _
                (push_string-Ahead pc rt.collect (get_bytes stp 4).1 (get_bytes stp 4).0
                  (omega arith))
                tt)))))

  pub step_records-Ahead : Ahead pc (step_records rt stp op)
  unfolding step_records get_bytes
  step_records-Ahead =
      if-Ahead pc (ltb op 174) _ _ (push_record-Ahead pc rt.collect stp (bit_and op 15 + 1) h) (
        if-Ahead pc (op == 174) _ _
          (push_record-Ahead pc rt.collect (get_bytes stp 1).1 (get_bytes stp 1).0 (omega arith))
          (if-Ahead pc (op == 175) _ _
            (push_record-Ahead pc rt.collect (get_bytes stp 2).1 (get_bytes stp 2).0 (omega arith))
            (if-Ahead pc (ltb op 190) _ _
              (push_raw_record-Ahead pc rt.collect stp (bit_and op 15 + 1) h)
              (if-Ahead pc (op == 190) _ _
                (push_raw_record-Ahead pc rt.collect (get_bytes stp 1).1 (get_bytes stp 1).0
                  (omega arith))
                (if-Ahead pc (op == 191) _ _
                  (push_raw_record-Ahead pc rt.collect (get_bytes stp 2).1 (get_bytes stp 2).0
                    (omega arith))
                  (if-Ahead pc (op == 192) _ _
                    (push_mixed_record-Ahead pc rt.collect (get_bytes (get_bytes stp 1).1 1).1
                      (get_bytes stp 1).0 (get_bytes (get_bytes stp 1).1 1).0 (omega arith))
                    (if-Ahead pc (op == 193) _ _
                      (push_mixed_record-Ahead pc rt.collect (get_bytes (get_bytes stp 2).1 2).1
                        (get_bytes stp 2).0 (get_bytes (get_bytes stp 2).1 2).0 (omega arith))
                      tt)))))))

  pub step_vectors-Ahead : Ahead pc (step_vectors rt stp op)
  unfolding step_vectors get_bytes push_ml_value
  step_vectors-Ahead = if-Ahead pc (op == 200) _ _ (push-Ahead pc _ _ _ h) (
      if-Ahead pc (op == 201) _ _
        (push_vector-Ahead pc rt.collect (get_bytes stp 1).1 (get_bytes stp 1).0 (omega arith))
        (if-Ahead pc (op == 202) _ _
          (push_vector-Ahead pc rt.collect (get_bytes stp 2).1 (get_bytes stp 2).0 (omega arith))
          tt))

store_slot-Ahead : (pc : ℕ) (stp : State) (slot : ℕ) → pc ≤ stp.pc → Ahead pc (store_slot stp slot)
unfolding store_slot
store_slot-Ahead pc stp slot h = stacked stp.stk
  where
    stacked :
        (stk : List StkItem)
        → Ahead pc (elim stk [
          | [] ↦ undefined
          | top ∷ _ ↦
              if ltb slot stp.max_saved
              then ok (record stp { saved = set stp.saved slot top.val })
              else undefined
        ])
    stacked [] = tt
    stacked (top ∷ _) = if-Ahead pc (ltb slot stp.max_saved) _ _ h tt

load_slot-Ahead : (pc : ℕ) (stp : State) (slot : ℕ) → pc ≤ stp.pc → Ahead pc (load_slot stp slot)
unfolding load_slot push_ml_value
load_slot-Ahead pc stp slot h = if-Ahead pc (ltb slot stp.max_saved) _ _ (push-Ahead pc _ _ _ h) tt

pub step_slots-Ahead : (pc : ℕ) (stp : State) (op : ℕ) → pc ≤ stp.pc → Ahead pc (step_slots stp op)
unfolding step_slots get_bytes
step_slots-Ahead pc stp op h =
    if-Ahead pc (ltb op 239) _ _ (store_slot-Ahead pc stp (bit_and op 7) h) (
      if-Ahead pc (op == 239) _ _
        (store_slot-Ahead pc (get_bytes stp 2).1 (get_bytes stp 2).0 (omega arith))
        (if-Ahead pc (ltb op 247) _ _ (load_slot-Ahead pc stp (bit_and op 7) h)
          (load_slot-Ahead pc (get_bytes stp 2).1 (get_bytes stp 2).0 (omega arith))))
