-- ===== src/MlState/Resume.antt =====
-- The resumption continuations of signal-util.c: what is in them, and what loading one does.
use smlnj.Prelude.{ℕ, ◌+◌, ◌*◌, ◌<◌, ◌≤◌, ◌≡◌, refl, List, [], ◌∷◌, arith, ap, ◌∙◌, sym}
use mathlib.Core.Path.{subst}
use smlnj.Tags.{make_desc, int_to_ml}
use smlnj.Tags.Dtag.{record'}
use smlnj.MlState.{MlState, alloc3, make_resume_cont, make_handler_arg, load_resume_state}
use smlnj.MlState.Objects.{
  Allocated, Words, Words-get, Words-frame, alloc_fields, alloc_fields-Allocated,
}

-- the fields of the continuation
abbrev pub saved : MlState → ℕ → List ℕ
saved msp resume =
    resume
    ∷ (msp.arg
        ∷ (msp.cont
            ∷ (msp.closure
                ∷ (msp.link_reg
                    ∷ (msp.pc
                        ∷ (msp.exn_cont
                            ∷ (msp.callee_save0
                                ∷ (msp.callee_save1 ∷ (msp.callee_save2 ∷ [])))))))))

pub make_resume_cont-Allocated :
    (msp : MlState) (resume : ℕ)
    → Allocated msp (make_desc 10 record') (saved msp resume) (make_resume_cont msp resume)
unfolding make_resume_cont alloc_fields
make_resume_cont-Allocated msp resume = alloc_fields-Allocated msp _ (saved msp resume)

-- the registers that a continuation holds, and those that it does not
pub record Resumed (msp q q' : MlState) : Type 0 where
  pub arg : q'.arg ≡ msp.arg
  pub cont : q'.cont ≡ msp.cont
  pub closure : q'.closure ≡ msp.closure
  pub link_reg : q'.link_reg ≡ msp.link_reg
  pub pc : q'.pc ≡ msp.pc
  pub exn_cont : q'.exn_cont ≡ msp.exn_cont
  pub callee_save0 : q'.callee_save0 ≡ msp.callee_save0
  pub callee_save1 : q'.callee_save1 ≡ msp.callee_save1
  pub callee_save2 : q'.callee_save2 ≡ msp.callee_save2
  pub var_reg : q'.var_reg ≡ q.var_reg
  pub heap : (q'.mem ≡ q.mem) × (q'.alloc_ptr ≡ q.alloc_ptr)

-- Loading the resumption state restores every register that `MakeResumeCont` saved, in any later
-- state whose closure register holds the continuation and whose memory still has that object; the
-- variable register and the heap stay as they are in that state.
pub load-make_resume_cont :
    (msp q : MlState) (resume : ℕ)
    → q.closure ≡ (make_resume_cont msp resume).0
    → ((b : ℕ)
        → msp.alloc_ptr ≤ b
        → b < (make_resume_cont msp resume).1.alloc_ptr
        → q.mem b ≡ (make_resume_cont msp resume).1.mem b)
    → Resumed msp q (load_resume_state q)
unfolding load_resume_state
load-make_resume_cont msp q resume here kept =
    let made = make_resume_cont-Allocated msp resume in
    let at : q.closure ≡ msp.alloc_ptr + 8 = here ∙ made.address in
    let fields : Words q.mem (msp.alloc_ptr + 8) (saved msp resume) =
      Words-frame (make_resume_cont msp resume).1.mem q.mem (msp.alloc_ptr + 8) (saved msp resume)
        (λ b lo hi. kept b (omega arith) (omega (arith, made.advanced))) made.filled in
    let field = λ (i : ℕ) (h : i < 10).
      ap (λ (c : ℕ). q.mem (c + 8 * i)) at
      ∙ Words-get q.mem (msp.alloc_ptr + 8) (saved msp resume) i fields h in
    record {
      arg = field 1 (omega arith);
      cont = field 2 (omega arith);
      closure = field 3 (omega arith);
      link_reg = field 4 (omega arith);
      pc = field 5 (omega arith);
      exn_cont = field 6 (omega arith);
      callee_save0 = field 7 (omega arith);
      callee_save1 = field 8 (omega arith);
      callee_save2 = field 9 (omega arith);
      var_reg = refl;
      heap = (refl, refl);
    }

-- The argument of the ML signal handler is a record of the signal's code, its count and the
-- resumption continuation, and building it leaves the continuation's fields in place.
pub make_handler_arg-record :
    (msp : MlState) (sig_code sig_count resume : ℕ)
    → Words
        (make_handler_arg msp sig_code sig_count resume).1.mem
        (make_handler_arg msp sig_code sig_count resume).0
        (int_to_ml sig_code ∷ (int_to_ml sig_count ∷ ((make_resume_cont msp resume).0 ∷ [])))
      × Words
          (make_handler_arg msp sig_code sig_count resume).1.mem
          (make_resume_cont msp resume).0
          (saved msp resume)
unfolding make_handler_arg alloc_fields
make_handler_arg-record msp sig_code sig_count resume =
    let (k, msp') = make_resume_cont msp resume in
    let cont = make_resume_cont-Allocated msp resume in
    let fields = int_to_ml sig_code ∷ (int_to_ml sig_count ∷ (k ∷ [])) in
    let arg = alloc_fields-Allocated msp' (make_desc 3 record') fields in
    let m = (alloc3 msp' (int_to_ml sig_code) (int_to_ml sig_count) k).1.mem in
    (
      subst (λ (a : ℕ). Words m a fields) (sym arg.address) arg.filled,
      subst (λ (a : ℕ). Words m a (saved msp resume)) (sym cont.address)
          (Words-frame msp'.mem m (msp.alloc_ptr + 8) (saved msp resume)
            (λ b lo hi. arg.below b (omega (arith, cont.advanced))) cont.filled),
    )
