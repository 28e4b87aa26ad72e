-- ===== src/Examples/Interp.antt =====
-- The literal interpreter on short programs.
use smlnj.Prelude.{
  ℕ, ◌+◌, ◌-◌, ◌*◌, ◌%◌, ◌^◌, ◌∙◌, leb, if◌then◌else◌, ◌≡◌, refl, ap, inl, List, [], ◌∷◌, map,
  arith, length, get_or, ◌⊎◌, zero, suc, ◌<◌, ◌≤◌,
}
use mathlib.Core.Path.{subst}
use smlnj.Tags.{make_desc, make_mixed_desc, word_mod, ml_unit}
use smlnj.Tags.Dtag.{record', raw}
use smlnj.MlState.{Mem, MlState}
use smlnj.MlState.Objects.{Words}
use smlnj.Literals.{StkItem, State, Collector, ok, die, vk_obj, vk_rawint, vk_tagint, gc, gc_root}
use smlnj.Literals.Push.{push_record, push_raw_record, push_mixed_record}
use smlnj.Literals.Step.{Runtime, more, step}
use smlnj.Literals.Ints.{CodeAt, enc_int63, enc_int64, enc_int63-step, enc_int64-step}
use smlnj.Literals.Roots.{forward_item, gc-forwards}
use smlnj.Literals.Objects.{Built, push_records-Built}
use smlnj.Literals.Step.{run}
use smlnj.Literals.Loop.{Steps, Ends, run-Ends}
use smlnj.Literals.Strings.{StringPushed, push_string-StringPushed}
use smlnj.Literals.Push.{push_string}
use smlnj.Literals.Slots.{store-load, Reserved-die}

abbrev ml : MlState
ml = record {
  mem = λ a. 0;
  alloc_ptr = 4096;
  limit_ptr = 8192;
  store_ptr = ml_unit;
  exn_cont = 1;
  var_reg = 1;
  link_reg = 1;
  closure = 1;
  cont = 1;
  callee_save0 = 1;
  callee_save1 = 1;
  callee_save2 = 1;
  arg = 1;
  pc = 1;
}

abbrev code_of : List ℕ → ℕ → ℕ
code_of bs pc = get_or bs pc 0

abbrev slot_of : ℕ → StkItem
slot_of v = record { val = v; kind = vk_tagint }

-- a state at the start of some code, with three integers on the stack
abbrev state_of : List ℕ → State
state_of bs = record {
  msp = ml;
  strings = record { nextw = 0; tosp_top = 0; tosp_size_b = 0; req_size_b = 0 };
  code = code_of bs;
  code_sz = 100;
  pc = 0;
  stk = slot_of 3 ∷ (slot_of 5 ∷ (slot_of 7 ∷ []));
  saved = ml_unit ∷ (ml_unit ∷ []);
  max_depth = 8;
  max_saved = 2;
}

-- a collector that moves nothing
abbrev rt : Runtime
rt = record {
  collect = λ msp strings level root. (msp, (strings, root));
  widen = λ f. f;
  ml_string0 = 64;
  ml_vector0 = 128;
}

abbrev minus_200 : ℕ
minus_200 = word_mod - 200

bytes_63 : CodeAt (code_of (129 ∷ (255 ∷ (56 ∷ [])))) 0 (enc_int63 minus_200)
unfolding enc_int63
bytes_63 = (refl, (refl, (refl, tt)))

bytes_64 : CodeAt (code_of (157 ∷ (255 ∷ (56 ∷ [])))) 0 (enc_int64 minus_200)
unfolding enc_int64
bytes_64 = (refl, (refl, (refl, tt)))

enc_int63-step_example :
    step rt (state_of (129 ∷ (255 ∷ (56 ∷ []))))
    ≡ ok (
        more (record (state_of (129 ∷ (255 ∷ (56 ∷ [])))) {
          pc = 0 + length (enc_int63 minus_200);
          stk =
              (record { val = (2 * minus_200 + 1) % word_mod; kind = vk_tagint })
              ∷ (slot_of 3 ∷ (slot_of 5 ∷ (slot_of 7 ∷ [])));
        }))
enc_int63-step_example =
    enc_int63-step rt (state_of (129 ∷ (255 ∷ (56 ∷ [])))) minus_200 (omega arith) bytes_63
      (omega arith)

enc_int64-step_example :
    step rt (state_of (157 ∷ (255 ∷ (56 ∷ []))))
    ≡ ok (
        more (record (state_of (157 ∷ (255 ∷ (56 ∷ [])))) {
          pc = 0 + length (enc_int64 minus_200);
          stk =
              (record { val = minus_200; kind = vk_rawint })
              ∷ (slot_of 3 ∷ (slot_of 5 ∷ (slot_of 7 ∷ [])));
        }))
enc_int64-step_example =
    enc_int64-step rt (state_of (157 ∷ (255 ∷ (56 ∷ [])))) minus_200 (omega arith) bytes_64
      (omega arith)

-- an object at 6000 on the stack above an integer
abbrev object_of : ℕ → StkItem
object_of v = record { val = v; kind = vk_obj }

abbrev state_obj : List ℕ → State
state_obj bs = record (state_of bs) { stk = object_of 6000 ∷ (slot_of 5 ∷ []) }

-- a collector that moves what lies from 4096 on up by 2 ^ 20, and writes the new pointers there
abbrev moved : ℕ → ℕ
moved v = if leb 4096 v then v + 2 ^ 20 else v

abbrev moves : Collector
moves msp strings level root =
    (record msp { mem = λ a. moved (msp.mem (a - 2 ^ 20)) }, (strings, root + 2 ^ 20))

moved-Words :
    (m : Mem) (p : ℕ) (fields : List ℕ)
    → Words m p fields
    → Words (λ a. moved (m (a - 2 ^ 20))) (p + 2 ^ 20) (map moved fields)
moved-Words m p [] w = tt
moved-Words m p (x ∷ fields) w =
    let here : p + 2 ^ 20 - 2 ^ 20 ≡ p = omega arith in
    let next : p + 8 + 2 ^ 20 ≡ p + 2 ^ 20 + 8 = omega arith in
    (
      ap (λ (a : ℕ). moved (m a)) here ∙ ap moved w.0,
      subst (λ (q : ℕ). Words (λ a. moved (m (a - 2 ^ 20))) q (map moved fields)) next
          (moved-Words m (p + 8) fields w.1),
    )

gc-forwards_example :
    ((gc moves (state_obj []) 0).saved ≡ map moved (state_obj []).saved)
    × ((gc moves (state_obj []) 0).stk ≡ map (forward_item moved) (state_obj []).stk)
    × ((gc moves (state_obj []) 0).pc ≡ 0)
    × ((gc moves (state_obj []) 0).max_saved ≡ 2)
    × ((gc moves (state_obj []) 0).max_depth ≡ 8)
gc-forwards_example =
    gc-forwards moved moves (state_obj []) 0 refl (λ fields len w.
      moved-Words (gc_root (state_obj [])).1.mem (gc_root (state_obj [])).0 fields w)

push_records-Built_example :
    Built
      (state_of [])
      (make_desc 2 record')
      (slot_of 3 ∷ (slot_of 5 ∷ []))
      (slot_of 7 ∷ [])
      (push_record rt.collect (state_of []) 2)
    × Built
        (state_of [])
        (make_desc 2 raw)
        (slot_of 3 ∷ (slot_of 5 ∷ []))
        (slot_of 7 ∷ [])
        (push_raw_record rt.collect (state_of []) 2)
    × Built
        (state_of [])
        (make_mixed_desc 1 1)
        (slot_of 3 ∷ (slot_of 5 ∷ []))
        (slot_of 7 ∷ [])
        (push_mixed_record rt.collect (state_of []) 1 1)
push_records-Built_example =
    push_records-Built rt.collect (state_of []) (slot_of 3 ∷ (slot_of 5 ∷ [])) (slot_of 7 ∷ []) 1 1
      refl (omega arith) (omega arith) refl

store-load_example :
    (st1 : State) × (st2 : State) × (step rt (state_obj (233 ∷ (241 ∷ []))) ≡ ok (more st1))
    × (step rt st1 ≡ ok (more st2))
    × (st2.stk ≡ object_of 6000 ∷ (state_obj (233 ∷ (241 ∷ []))).stk)
    × (st2.pc ≡ 2)
store-load_example =
    store-load rt (state_obj (233 ∷ (241 ∷ []))) 6000 (slot_of 5 ∷ []) 1 (omega arith) (omega arith)
      refl refl (omega arith) refl refl

Reserved-die_example : step rt (state_of (134 ∷ [])) ≡ die
Reserved-die_example = Reserved-die rt (state_of (134 ∷ [])) (inl (omega arith, omega arith))

-- the code of 5 and of RETURN
run-Ends_example :
    ((end : State) × Steps rt (state_of (5 ∷ (255 ∷ []))) end
      × Ends rt end (run rt 3 (state_of (5 ∷ (255 ∷ [])))))
    ⊎ ((end : State) × Steps rt (state_of (5 ∷ (255 ∷ []))) end × (0 + 3 ≤ end.pc))
run-Ends_example = run-Ends rt 3 (state_of (5 ∷ (255 ∷ [])))

letters : (i : ℕ) → code_of (72 ∷ (105 ∷ [])) i < 256
letters zero = omega arith
letters (suc zero) = omega arith
letters (suc (suc i)) = omega arith

push_string-StringPushed_example :
    (st' : State) × (push_string rt.collect (state_of (72 ∷ (105 ∷ []))) 2 ≡ ok st')
    × StringPushed (state_of (72 ∷ (105 ∷ []))) 2 st'
push_string-StringPushed_example =
    push_string-StringPushed rt.collect (state_of (72 ∷ (105 ∷ []))) 2 letters (omega arith)
      (omega arith) (omega arith)
