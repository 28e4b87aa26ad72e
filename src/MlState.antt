-- ===== src/MlState.antt =====
-- runtime/include/ml-state.h, runtime/include/ml-objects.h and the resumption continuations of
-- runtime/mach-dep/signal-util.c, for 64-bit words. Memory is a function from byte addresses to
-- words; an ML value is the word that stands for it.
pub mod Objects
pub mod Resume
use smlnj.Prelude.{ℕ, zero, suc, ◌+◌, ◌-◌, ◌*◌, ◌%◌, ◌^◌, List, [], ◌∷◌, ◌==◌, if◌then◌else◌}
use smlnj.Tags.{make_desc, int_to_ml, ml_unit, word_mod}
use smlnj.Tags.Dtag.{record', arr_data, raw}

abbrev pub Mem : Type 0
Mem = ℕ → ℕ

abbrev pub write : Mem → ℕ → ℕ → Mem
write m a x b = if a == b then x else m b

-- the fields of `struct ml_state` that the code below reads or writes
pub record MlState : Type 0 where
  pub mem : Mem
  pub alloc_ptr : ℕ
  pub limit_ptr : ℕ
  pub store_ptr : ℕ
  pub exn_cont : ℕ
  pub var_reg : ℕ
  pub link_reg : ℕ
  pub closure : ℕ
  pub cont : ℕ
  pub callee_save0 : ℕ
  pub callee_save1 : ℕ
  pub callee_save2 : ℕ
  pub arg : ℕ
  pub pc : ℕ

-- `ML_AllocWrite`
unfoldable pub alloc_write : MlState → ℕ → ℕ → MlState
alloc_write msp i x = record msp { mem = write msp.mem (msp.alloc_ptr + 8 * i) x }

-- `ML_Alloc`
unfoldable pub alloc : MlState → ℕ → ℕ × MlState
alloc msp n = (msp.alloc_ptr + 8 * 1, record msp { alloc_ptr = msp.alloc_ptr + 8 * (n + 1) })

unfoldable pub ref_alloc : MlState → ℕ → ℕ × MlState
unfolding alloc_write alloc make_desc
ref_alloc msp a = alloc (alloc_write (alloc_write msp 0 (make_desc 1 arr_data)) 1 a) 1

unfoldable pub alloc1 : MlState → ℕ → ℕ × MlState
unfolding alloc_write alloc make_desc
alloc1 msp a = alloc (alloc_write (alloc_write msp 0 (make_desc 1 record')) 1 a) 1

unfoldable pub alloc2 : MlState → ℕ → ℕ → ℕ × MlState
unfolding alloc_write alloc make_desc
alloc2 msp a b =
    let m = alloc_write (alloc_write msp 0 (make_desc 2 record')) 1 a in alloc (alloc_write m 2 b) 2

unfoldable pub alloc3 : MlState → ℕ → ℕ → ℕ → ℕ × MlState
unfolding alloc_write alloc make_desc
alloc3 msp a b c =
    let m = alloc_write (alloc_write msp 0 (make_desc 3 record')) 1 a in
    alloc (alloc_write (alloc_write m 2 b) 3 c) 3

unfoldable pub alloc4 : MlState → ℕ → ℕ → ℕ → ℕ → ℕ × MlState
unfolding alloc_write alloc make_desc
alloc4 msp a b c d =
    let m = alloc_write (alloc_write msp 0 (make_desc 4 record')) 1 a in
    alloc (alloc_write (alloc_write (alloc_write m 2 b) 3 c) 4 d) 4

unfoldable pub alloc5 : MlState → ℕ → ℕ → ℕ → ℕ → ℕ → ℕ × MlState
unfolding alloc_write alloc make_desc
alloc5 msp a b c d e =
    let m = alloc_write (alloc_write msp 0 (make_desc 5 record')) 1 a in
    let m' = alloc_write (alloc_write m 2 b) 3 c in alloc (alloc_write (alloc_write m' 4 d) 5 e) 5

unfoldable pub alloc6 : MlState → ℕ → ℕ → ℕ → ℕ → ℕ → ℕ → ℕ × MlState
unfolding alloc_write alloc make_desc
alloc6 msp a b c d e f =
    let m = alloc_write (alloc_write msp 0 (make_desc 6 record')) 1 a in
    let m' = alloc_write (alloc_write m 2 b) 3 c in
    alloc (alloc_write (alloc_write (alloc_write m' 4 d) 5 e) 6 f) 6

-- `ML_AllocSeqHdr`
unfoldable pub alloc_seq_hdr : MlState → ℕ → ℕ → ℕ → ℕ × MlState
unfolding alloc_write alloc int_to_ml
alloc_seq_hdr msp desc data' len =
    alloc (alloc_write (alloc_write (alloc_write msp 0 desc) 1 data') 2 (int_to_ml len)) 2

-- `ML_AllocWord`
unfoldable pub alloc_word : MlState → ℕ → ℕ × MlState
unfolding alloc_write alloc make_desc
alloc_word msp w = alloc (alloc_write (alloc_write msp 0 (make_desc 1 raw)) 1 w) 1

-- `ML_AllocReal64`, on the bits of the number: the pointer moves over the descriptor first
unfoldable pub alloc_real64 : MlState → ℕ → ℕ × MlState
unfolding make_desc
alloc_real64 msp d =
    let p = msp.alloc_ptr in
    let m = write (write msp.mem p (make_desc 1 raw)) (p + 8) d in
    (p + 8, record msp { mem = m; alloc_ptr = p + 8 + 8 * 1 })

-- `ML_AllocInt64` and `ML_AllocWord64`, on the bits of the number
unfoldable pub alloc_int64 : MlState → ℕ → ℕ × MlState
unfolding alloc_write alloc make_desc
alloc_int64 msp n = alloc (alloc_write (alloc_write msp 0 (make_desc 1 raw)) 1 n) 1

unfoldable pub alloc_word64 : MlState → ℕ → ℕ × MlState
unfolding alloc_write alloc make_desc
alloc_word64 msp w = alloc (alloc_write (alloc_write msp 0 (make_desc 1 raw)) 1 w) 1

-- `INT64_MLtoC` and `WORD64_MLtoC`
unfoldable pub word64_from_ml : MlState → ℕ → ℕ
word64_from_ml msp v = msp.mem v

-- `ML_AllocNanoseconds`: the casts make both factors words
unfoldable pub alloc_nanoseconds : MlState → ℕ → ℕ → ℕ × MlState
unfolding alloc_word64
alloc_nanoseconds msp sec usec = alloc_word64 msp ((1000000000 * sec + 1000 * usec) % word_mod)

-- `ML_RecordUpdate`
unfoldable pub record_update : MlState → ℕ → MlState
record_update msp addr =
    let p = msp.alloc_ptr in
    record msp {
      mem = write (write msp.mem p addr) (p + 8) msp.store_ptr;
      store_ptr = p;
      alloc_ptr = p + 8 * 2;
    }

-- `MakeResumeCont`
unfoldable pub make_resume_cont : MlState → ℕ → ℕ × MlState
unfolding alloc_write alloc make_desc
make_resume_cont msp resume =
    let m = alloc_write (alloc_write msp 0 (make_desc 10 record')) 1 resume in
    let m = alloc_write (alloc_write (alloc_write m 2 msp.arg) 3 msp.cont) 4 msp.closure in
    let m = alloc_write (alloc_write (alloc_write m 5 msp.link_reg) 6 msp.pc) 7 msp.exn_cont in
    let m = alloc_write (alloc_write m 8 msp.callee_save0) 9 msp.callee_save1 in
    alloc (alloc_write m 10 msp.callee_save2) 10

-- `MakeHandlerArg`, for a signal and its count
unfoldable pub make_handler_arg : MlState → ℕ → ℕ → ℕ → ℕ × MlState
unfolding make_resume_cont alloc3 int_to_ml
make_handler_arg msp sig_code sig_count resume =
    let (resume_cont, msp') = make_resume_cont msp resume in
    alloc3 msp' (int_to_ml sig_code) (int_to_ml sig_count) resume_cont

-- `LoadResumeState`
unfoldable pub load_resume_state : MlState → MlState
load_resume_state msp =
    let sel = λ (i : ℕ). msp.mem (msp.closure + 8 * i) in
    record msp {
      arg = sel 1;
      cont = sel 2;
      closure = sel 3;
      link_reg = sel 4;
      pc = sel 5;
      exn_cont = sel 6;
      callee_save0 = sel 7;
      callee_save1 = sel 8;
      callee_save2 = sel 9;
    }
