-- ===== src/Examples/Vm.antt =====
-- A virtual processor with two signals, and an ML state with an empty memory.
use smlnj.Prelude.{
  ℕ, zero, suc, ◌+◌, ◌*◌, ◌%◌, ◌≡◌, ◌⊎◌, refl, true, false, [], ◌∷◌, some, arith, get_or,
}
use smlnj.Tags.{word_mod, make_desc, int_to_ml, ml_unit}
use smlnj.Tags.Dtag.{record', arr_data, raw}
use smlnj.Signals.{SignalNumbers, SigCount, no_signals, Vproc, gc_signal, choose_signal}
use smlnj.Signals.Choose.{Chosen, InRange, choose_signal-Chosen}
use smlnj.Signals.Gc.{Wanted, Recorded, gc_signal-cases}
use smlnj.MlState.{
  MlState, ref_alloc, alloc1, alloc2, alloc3, alloc4, alloc5, alloc6, alloc_seq_hdr, alloc_word,
  record_update, make_resume_cont, make_handler_arg, load_resume_state, alloc_real64, alloc_int64,
  alloc_word64, alloc_nanoseconds,
}
use smlnj.MlState.Objects.{
  Words, Allocated, StoreList, nil, allocators-Allocated, record_update-cons,
}
use smlnj.MlState.Resume.{saved, Resumed, load-make_resume_cont, make_handler_arg-record}

abbrev signals : SignalNumbers
signals = record { min_system_sig = 1; sigmap_sz = 4; runsig_gc = 3 }

abbrev pending : SigCount
pending = record { n_received = 5; n_handled = 2 }

-- signal 2 was received three times more than it was handled
abbrev vproc : Vproc
vproc = record {
  in_ml_flag = true;
  handler_pending = false;
  in_sig_handler = false;
  total_sig_count = pending;
  sig_counts = no_signals ∷ (no_signals ∷ (pending ∷ (no_signals ∷ [])));
  sig_code = 1;
  sig_count = 0;
  next_pending_sig = 3;
  gc_sig_state = 2;
  gc_sig_threshold = 1;
}

gc_signal-cases_example :
    (Wanted signals vproc 1 × Recorded signals vproc 1 (gc_signal signals vproc 1))
    ⊎ ((¬ Wanted signals vproc 1) × (gc_signal signals vproc 1 ≡ vproc))
gc_signal-cases_example = gc_signal-cases signals vproc 1 (omega arith)

counters-InRange : (i : ℕ) → InRange signals (get_or vproc.sig_counts i no_signals)
counters-InRange zero = record { received_word = omega arith; handled_word = omega arith }
counters-InRange (suc zero) = record { received_word = omega arith; handled_word = omega arith }
counters-InRange (suc (suc zero)) = record {
  received_word = omega arith;
  handled_word = omega arith;
}
counters-InRange (suc (suc (suc zero))) = record {
  received_word = omega arith;
  handled_word = omega arith;
}
counters-InRange (suc (suc (suc (suc i)))) = record {
  received_word = omega arith;
  handled_word = omega arith;
}

choose_signal-Chosen_example :
    (vsp' : Vproc) × (choose_signal signals 3 vproc ≡ some vsp') × Chosen signals vproc vsp'
choose_signal-Chosen_example =
    choose_signal-Chosen signals vproc 2 refl counters-InRange (omega arith, omega arith)
      (omega arith, omega arith) (ground arith)

abbrev ml : MlState
ml = record {
  mem = λ a. 0;
  alloc_ptr = 4096;
  limit_ptr = 8192;
  store_ptr = ml_unit;
  exn_cont = 11;
  var_reg = 13;
  link_reg = 15;
  closure = 17;
  cont = 19;
  callee_save0 = 21;
  callee_save1 = 23;
  callee_save2 = 25;
  arg = 27;
  pc = 29;
}

allocators-Allocated_example :
    Allocated ml (make_desc 1 arr_data) (3 ∷ []) (ref_alloc ml 3)
    × Allocated ml (make_desc 1 record') (3 ∷ []) (alloc1 ml 3)
    × Allocated ml (make_desc 2 record') (3 ∷ 5 ∷ []) (alloc2 ml 3 5)
    × Allocated ml (make_desc 3 record') (3 ∷ 5 ∷ 7 ∷ []) (alloc3 ml 3 5 7)
    × Allocated ml (make_desc 4 record') (3 ∷ 5 ∷ 7 ∷ 9 ∷ []) (alloc4 ml 3 5 7 9)
    × Allocated ml (make_desc 5 record') (3 ∷ 5 ∷ 7 ∷ 9 ∷ 11 ∷ []) (alloc5 ml 3 5 7 9 11)
    × Allocated ml (make_desc 6 record') (3 ∷ 5 ∷ 7 ∷ 9 ∷ 11 ∷ 13 ∷ []) (alloc6 ml 3 5 7 9 11 13)
    × Allocated ml 3 (5 ∷ int_to_ml 7 ∷ []) (alloc_seq_hdr ml 3 5 7)
    × Allocated ml (make_desc 1 raw) (3 ∷ []) (alloc_word ml 3)
    × Allocated ml (make_desc 1 raw) (3 ∷ []) (alloc_real64 ml 3)
    × Allocated ml (make_desc 1 raw) (3 ∷ []) (alloc_int64 ml 3)
    × Allocated ml (make_desc 1 raw) (3 ∷ []) (alloc_word64 ml 3)
    × Allocated ml
        (make_desc 1 raw)
        (((1000000000 * 3 + 1000 * 5) % word_mod) ∷ [])
        (alloc_nanoseconds ml 3 5)
allocators-Allocated_example = allocators-Allocated ml 3 5 7 9 11 13

record_update-cons_example :
    StoreList
      (record_update ml 640).mem
      (record_update ml 640).alloc_ptr
      (record_update ml 640).store_ptr
      (640 ∷ [])
record_update-cons_example = record_update-cons ml 640 (ground arith) nil

-- the state in which the continuation of `ml` is resumed
abbrev later : MlState
later =
    let (k, msp) = make_resume_cont ml 640 in
    record msp { closure = k; arg = 1; cont = 1; pc = 1; alloc_ptr = 6000 }

load-make_resume_cont_example : Resumed ml later (load_resume_state later)
load-make_resume_cont_example = load-make_resume_cont ml later 640 refl (λ b lo hi. refl)

make_handler_arg-record_example :
    Words
      (make_handler_arg ml 2 3 640).1.mem
      (make_handler_arg ml 2 3 640).0
      (int_to_ml 2 ∷ (int_to_ml 3 ∷ ((make_resume_cont ml 640).0 ∷ [])))
    × Words (make_handler_arg ml 2 3 640).1.mem (make_resume_cont ml 640).0 (saved ml 640)
make_handler_arg-record_example = make_handler_arg-record ml 2 3 640
