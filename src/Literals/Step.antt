-- ===== src/Literals/Step.antt =====
-- runtime/gc/build-literals-v3.c: the opcodes and the loop of `BuildLiterals`.
use smlnj.Prelude.{ℕ, zero, suc, ◌+◌, ◌-◌, bit_and, [], ◌∷◌, ◌==◌, ltb, if◌then◌else◌, get_or, set}
use smlnj.Tags.{word_mod}
use smlnj.Literals.{
  State, Outcome, ok, die, undefined, out_of_fuel, Collector, get_bytes, get_signed,
  push_tagged_int, push_raw_int64, push_real32, push_real64, push_ml_value,
}
use smlnj.Literals.Push.{push_record, push_raw_record, push_mixed_record, push_string, push_vector}

-- an instruction goes on to the next, or returns a value
pub data Turn : Type 0 where
  more : State → Turn
  return : ℕ → State → Turn

abbrev pub go_on : Outcome State → Outcome Turn
go_on (ok stp) = ok (more stp)
go_on die = die
go_on undefined = undefined
go_on out_of_fuel = out_of_fuel

-- what the interpreter calls, and the addresses of the empty string and vector
pub record Runtime : Type 0 where
  pub collect : Collector
  pub widen : ℕ → ℕ
  pub ml_string0 : ℕ
  pub ml_vector0 : ℕ

-- 0x00 to 0x83: tagged integers, and the short raw integers
unfoldable pub step_ints : State → ℕ → Outcome State
unfolding get_signed push_tagged_int push_raw_int64
step_ints stp opcode =
    let (i8, stp8) = get_signed stp 1 in
    let (i16, stp16) = get_signed stp 2 in
    let (i32, stp32) = get_signed stp 4 in
    let (i64, stp64) = get_signed stp 8 in
    if ltb opcode 32
    then push_tagged_int stp opcode
    else if ltb opcode 64
    then push_tagged_int stp (opcode + word_mod - 64)
    else if ltb opcode 96
    then push_raw_int64 stp (opcode - 64)
    else if ltb opcode 128
    then push_raw_int64 stp (opcode + word_mod - 128)
    else if opcode == 128
    then push_tagged_int stp8 i8
    else if opcode == 129
    then push_tagged_int stp16 i16
    else if opcode == 130
    then push_tagged_int stp32 i32
    else push_tagged_int stp64 i64

-- 0x84 to 0x8F: reals, big integers and strings
unfoldable pub step_strings : Runtime → State → ℕ → Outcome State
unfolding get_bytes push_real32 push_real64 push_ml_value push_string
step_strings rt stp opcode =
    let (u8, stp8) = get_bytes stp 1 in
    let (u16, stp16) = get_bytes stp 2 in
    let (u32, stp32) = get_bytes stp 4 in
    let (u64, stp64) = get_bytes stp 8 in
    if opcode == 132
    then push_real32 rt.widen stp32 u32
    else if opcode == 133
    then push_real64 stp64 u64
    else if opcode == 136
    then push_ml_value stp rt.ml_string0
    else if opcode == 137
    then push_string rt.collect stp8 u8
    else if opcode == 138
    then push_string rt.collect stp16 u16
    else if opcode == 139
    then push_string rt.collect stp32 u32
    else die

-- 0x90 to 0x9F: raw integers
unfoldable pub step_rawints : State → ℕ → Outcome State
unfolding get_signed push_raw_int64
step_rawints stp opcode =
    let (i8, stp8) = get_signed stp 1 in
    let (i16, stp16) = get_signed stp 2 in
    let (i32, stp32) = get_signed stp 4 in
    let (i64, stp64) = get_signed stp 8 in
    if opcode == 156
    then push_raw_int64 stp8 i8
    else if opcode == 157
    then push_raw_int64 stp16 i16
    else if opcode == 158
    then push_raw_int64 stp32 i32
    else if opcode == 159
    then push_raw_int64 stp64 i64
    else die

-- 0xA0 to 0xC7: records
unfoldable pub step_records : Runtime → State → ℕ → Outcome State
unfolding get_bytes push_record push_raw_record push_mixed_record
step_records rt stp opcode =
    let (u8, stp8) = get_bytes stp 1 in
    let (u16, stp16) = get_bytes stp 2 in
    let (v8, stp88) = get_bytes stp8 1 in
    let (v16, stp1616) = get_bytes stp16 2 in
    if ltb opcode 174
    then push_record rt.collect stp (bit_and opcode 15 + 1)
    else if opcode == 174
    then push_record rt.collect stp8 u8
    else if opcode == 175
    then push_record rt.collect stp16 u16
    else if ltb opcode 190
    then push_raw_record rt.collect stp (bit_and opcode 15 + 1)
    else if opcode == 190
    then push_raw_record rt.collect stp8 u8
    else if opcode == 191
    then push_raw_record rt.collect stp16 u16
    else if opcode == 192
    then push_mixed_record rt.collect stp88 u8 v8
    else if opcode == 193
    then push_mixed_record rt.collect stp1616 u16 v16
    else die

-- 0xC8 to 0xE7: vectors
unfoldable pub step_vectors : Runtime → State → ℕ → Outcome State
unfolding get_bytes push_ml_value push_vector
step_vectors rt stp opcode =
    let (u8, stp8) = get_bytes stp 1 in
    let (u16, stp16) = get_bytes stp 2 in
    if opcode == 200
    then push_ml_value stp rt.ml_vector0
    else if opcode == 201
    then push_vector rt.collect stp8 u8
    else if opcode == 202
    then push_vector rt.collect stp16 u16
    else die

-- STORE: the top of the stack goes to a slot
unfoldable pub store_slot : State → ℕ → Outcome State
store_slot stp slot = elim stp.stk [
  | [] ↦ undefined
  | top ∷ _ ↦
      if ltb slot stp.max_saved
      then ok (record stp { saved = set stp.saved slot top.val })
      else undefined
]

-- LOAD: a slot's value is pushed
unfoldable pub load_slot : State → ℕ → Outcome State
unfolding push_ml_value
load_slot stp slot =
    if ltb slot stp.max_saved then push_ml_value stp (get_or stp.saved slot 0) else undefined

-- 0xE8 to 0xF7: the saved values
unfoldable pub step_slots : State → ℕ → Outcome State
unfolding get_bytes store_slot load_slot
step_slots stp opcode =
    let (u16, stp16) = get_bytes stp 2 in
    if ltb opcode 239
    then store_slot stp (bit_and opcode 7)
    else if opcode == 239
    then store_slot stp16 u16
    else if ltb opcode 247
    then load_slot stp (bit_and opcode 7)
    else load_slot stp16 u16

-- 0xF8 to 0xFF: CONCAT and RETURN
unfoldable pub step_return : State → ℕ → Outcome Turn
step_return stp opcode =
    if ltb opcode 255
    then die
    else elim stp.stk [ [] ↦ undefined | top ∷ _ ↦ ok (return top.val stp) ]

-- one round of the loop
unfoldable pub step : Runtime → State → Outcome Turn
unfolding step_ints step_strings step_rawints step_records step_vectors step_slots step_return
step rt state =
    let opcode = state.code state.pc in
    let stp = record state { pc = state.pc + 1 } in
    if ltb opcode 132
    then go_on (step_ints stp opcode)
    else if ltb opcode 144
    then go_on (step_strings rt stp opcode)
    else if ltb opcode 160
    then go_on (step_rawints stp opcode)
    else if ltb opcode 200
    then go_on (step_records rt stp opcode)
    else if ltb opcode 232
    then go_on (step_vectors rt stp opcode)
    else if ltb opcode 248
    then go_on (step_slots stp opcode)
    else step_return stp opcode

-- the loop, with fuel
unfoldable pub run : Runtime → ℕ → State → Outcome (ℕ × State)
unfolding step
run rt zero state = out_of_fuel
run rt (suc fuel) state = elim (step rt state) [
  | ok (more state') ↦ run rt fuel state'
  | ok (return v state') ↦ ok (v, state')
  | die ↦ die
  | undefined ↦ undefined
  | out_of_fuel ↦ out_of_fuel
]
