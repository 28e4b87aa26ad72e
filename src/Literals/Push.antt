-- ===== src/Literals/Push.antt =====
-- runtime/gc/build-literals-v3.c: the functions that allocate an object and push it.
use smlnj.Prelude.{
  ℕ, zero, suc, ◌+◌, ◌-◌, ◌*◌, ◌/◌, ◌%◌, ◌^◌, Option, none, some, List, [], ◌∷◌, ◌==◌, ltb, leb,
  if◌then◌else◌, length, ◌||◌,
}
use smlnj.Tags.{make_desc, make_mixed_desc, word_mod}
use smlnj.Tags.Dtag.{record', vec_hdr, raw}
use smlnj.MlState.{Mem, write, alloc_seq_hdr}
use smlnj.MlState.Objects.{alloc_fields}
use smlnj.Literals.{
  StkItem, Arena, State, Outcome, die, undefined, Collector, gc, check_gc, push_ml_value,
}

abbrev pub small_obj_szw : ℕ
small_obj_szw = 512

abbrev pub seq_poly : ℕ
seq_poly = 0

abbrev pub seq_word8 : ℕ
seq_word8 = 1

-- the `n` topmost slots, the deepest first, and the rest of the stack
unfoldable pub pop : ℕ → List StkItem → List ℕ → Option (List ℕ × List StkItem)
pop zero stk acc = some (acc, stk)
pop (suc n) [] acc = none
pop (suc n) (x ∷ stk) acc = pop n stk (x.val ∷ acc)

-- the common end of the record functions: the descriptor and the popped values are written, and
-- the object replaces them on the stack
unfoldable pub build : ℕ → ℕ → State → Outcome State
unfolding pop alloc_fields push_ml_value
build desc sz stp = elim (pop sz stp.stk []) [
  | none ↦ undefined
  | some (fields, rest) ↦
      let (obj, msp) = alloc_fields stp.msp desc fields in
      push_ml_value (record stp { msp = msp; stk = rest }) obj
]

-- `PushRecord`
unfoldable pub push_record : Collector → State → ℕ → Outcome State
unfolding build check_gc make_desc
push_record collect stp sz = build (make_desc sz record') sz (check_gc collect stp (8 * (sz + 1)))

-- `PushRawRecord`
unfoldable pub push_raw_record : Collector → State → ℕ → Outcome State
unfolding build check_gc make_desc
push_raw_record collect stp sz = build (make_desc sz raw) sz (check_gc collect stp (8 * (sz + 1)))

-- `PushMixedRecord`
unfoldable pub push_mixed_record : Collector → State → ℕ → ℕ → Outcome State
unfolding build check_gc make_mixed_desc
push_mixed_record collect stp ptr_len raw_len =
    let sz = ptr_len + raw_len in
    build (make_mixed_desc ptr_len raw_len) sz (check_gc collect stp (8 * (sz + 1)))

-- the word that `n` bytes of the instruction stream make in memory
unfoldable pub little_endian : (ℕ → ℕ) → ℕ → ℕ → ℕ
little_endian code pc zero = 0
little_endian code pc (suc n) = code pc + 256 * little_endian code (pc + 1) n

-- the `szw` words of a string's data object after `memcpy`: the last word was cleared before
unfoldable pub string_words : (ℕ → ℕ) → ℕ → ℕ → ℕ → List ℕ
unfolding little_endian
string_words code pc len zero = []
string_words code pc len (suc szw) =
    little_endian code pc (if ltb len 8 then len else 8) ∷ string_words code (pc + 8) (len - 8) szw

-- consecutive words from an address on
unfoldable pub write_words : Mem → ℕ → List ℕ → Mem
write_words m a [] = m
write_words m a (x ∷ xs) = write_words (write m a x) (a + 8) xs

abbrev pub avail_space : Arena → ℕ
avail_space ap = (ap.tosp_top + word_mod - ap.nextw) % word_mod

-- the collection that makes room in the string arena
unfoldable pub grow_strings : Collector → State → ℕ → State
unfolding gc
grow_strings collect stp szb =
    let ap = stp.strings in
    let stp' =
      gc collect (record stp { strings = record ap { req_size_b = ap.req_size_b + szb } }) 1 in
    let ap' = stp'.strings in record stp' { strings = record ap' { req_size_b = 0 } }

unfoldable pub check_strings : Collector → State → ℕ → State
unfolding grow_strings
check_strings collect stp szb =
    if (stp.strings.tosp_size_b == 0) || leb (avail_space stp.strings) szb
    then grow_strings collect stp szb
    else stp

-- the allocation of a large string's data object, in the first generation
unfoldable pub alloc_large : State → ℕ → List ℕ → ℕ × State
unfolding write_words
alloc_large stp desc words =
    let ap = stp.strings in
    let msp = stp.msp in
    (
      ap.nextw + 8,
      record stp {
        msp = record msp { mem = write_words (write msp.mem ap.nextw desc) (ap.nextw + 8) words };
        strings = record ap { nextw = ap.nextw + 8 + 8 * length words };
      },
    )

-- the header object of a sequence, pushed
unfoldable pub push_seq_hdr : State → ℕ → ℕ → ℕ → Outcome State
unfolding alloc_seq_hdr push_ml_value
push_seq_hdr stp desc data' len =
    let (res, msp) = alloc_seq_hdr stp.msp desc data' len in
    push_ml_value (record stp { msp = msp }) res

-- the two ways of `PushString`: through the first generation, and through the nursery
unfoldable pub push_large_string : Collector → State → ℕ → ℕ → Outcome State
unfolding make_desc string_words check_strings alloc_large push_seq_hdr
push_large_string collect stp len szw =
    let words = string_words stp.code stp.pc len szw in
    let (data', stp') =
      alloc_large (check_strings collect stp (8 * (szw + 1))) (make_desc szw raw) words in
    push_seq_hdr (record stp' { pc = stp'.pc + len }) (make_desc seq_word8 vec_hdr) data' len

unfoldable pub push_small_string : Collector → State → ℕ → ℕ → Outcome State
unfolding make_desc check_gc alloc_fields string_words push_seq_hdr
push_small_string collect stp len szw =
    let words = string_words stp.code stp.pc len szw in
    let stp' = check_gc collect stp (8 * (szw + 1 + 3)) in
    let (data', msp) = alloc_fields stp'.msp (make_desc szw raw) words in
    push_seq_hdr (record stp' { msp = msp; pc = stp'.pc + len }) (make_desc seq_word8 vec_hdr) data'
      len

-- `PushString`; an `int` length is not negative
unfoldable pub push_string : Collector → State → ℕ → Outcome State
unfolding push_large_string push_small_string
push_string collect stp len =
    let szw = (len + 1 + 7) / 8 in
    if leb (2 ^ 31) len
    then undefined
    else if ltb small_obj_szw szw
    then push_large_string collect stp len szw
    else push_small_string collect stp len szw

-- a vector's data object takes the popped values, then its header is pushed
unfoldable pub build_vector : ℕ → State → Outcome State
unfolding make_desc pop alloc_fields push_seq_hdr
build_vector len stp = elim (pop len stp.stk []) [
  | none ↦ undefined
  | some (fields, rest) ↦
      let (data', msp) = alloc_fields stp.msp (make_desc len record') fields in
      push_seq_hdr (record stp { msp = msp; stk = rest }) (make_desc seq_poly vec_hdr) data' len
]

-- `PushVector`
unfoldable pub push_vector : Collector → State → ℕ → Outcome State
unfolding check_gc build_vector
push_vector collect stp len =
    if ltb small_obj_szw len
    then die
    else build_vector len (check_gc collect stp (8 * (len + 1 + 3)))
