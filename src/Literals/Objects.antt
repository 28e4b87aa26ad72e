-- ===== src/Literals/Objects.antt =====
-- The objects that the record instructions of build-literals-v3.c make.
use smlnj.Prelude.{
  ℕ, ◌+◌, ◌-◌, ◌*◌, ◌%◌, ◌<◌, ◌≤◌, ◌≡◌, refl, ap, ◌∙◌, some, true, false, List, [], ◌∷◌, ◌++◌,
  arith, length, ltb,
}
use smlnj.Tags.{make_desc, make_mixed_desc, word_mod}
use smlnj.Tags.Dtag.{record', raw}
use smlnj.MlState.{MlState}
use smlnj.MlState.Objects.{Allocated, alloc_fields, alloc_fields-Allocated}
use smlnj.Literals.{StkItem, State, Outcome, ok, vk_obj, Collector, check_gc, push_ml_value}
use smlnj.Literals.Push.{pop, build, push_record, push_raw_record, push_mixed_record}

-- the values of some slots, the top first, from the deepest one up
unfoldable pub values_up : List StkItem → List ℕ → List ℕ
values_up [] acc = acc
values_up (x ∷ xs) acc = values_up xs (x.val ∷ acc)

pop-values_up :
    (items rest : List StkItem) (acc : List ℕ)
    → pop (length items) (items ++ rest) acc ≡ some (values_up items acc, rest)
unfolding pop values_up
pop-values_up [] rest acc = refl
pop-values_up (x ∷ items) rest acc = pop-values_up items rest (x.val ∷ acc)

-- the object of the items is allocated and replaces them on the stack
pub record Built (stp : State) (desc : ℕ) (items rest : List StkItem) (r : Outcome State)
    : Type 0 where
  pub msp : MlState
  pub runs :
      r
      ≡ ok (record stp {
        msp = msp;
        stk = (record { val = stp.msp.alloc_ptr + 8; kind = vk_obj }) ∷ rest;
      })
  pub object : Allocated stp.msp desc (values_up items []) (stp.msp.alloc_ptr + 8, msp)

build-Built :
    (desc : ℕ) (stp : State) (items rest : List StkItem)
    → stp.stk ≡ items ++ rest
    → length rest < stp.max_depth
    → Built stp desc items rest (build desc (length items) stp)
unfolding build push_ml_value
build-Built desc stp items rest e room =
    let fields = values_up items [] in
    let made = alloc_fields-Allocated stp.msp desc fields in
    let popped : pop (length items) stp.stk [] ≡ some (fields, rest) =
      ap (λ (s : List StkItem). pop (length items) s []) e ∙ pop-values_up items rest [] in
    let room' : ltb (length rest) stp.max_depth ≡ true = ground arith in
    record {
      msp = (alloc_fields stp.msp desc fields).1;
      runs = rw (popped, build, made.address, room') refl;
      object = record {
        address = refl;
        described = made.described;
        filled = made.filled;
        advanced = made.advanced;
        below = made.below;
        above = made.above;
        registers = made.registers;
      };
    }

-- With room in the nursery and on the stack, each record instruction replaces the topmost slots
-- by one new object that holds their values, the deepest slot's value first: a record, a raw
-- record, or a mixed record with the given split. Nothing else of the state changes.
pub push_records-Built :
    (collect : Collector) (stp : State) (items rest : List StkItem) (ptr_len raw_len : ℕ)
    → stp.stk ≡ items ++ rest
    → length rest < stp.max_depth
    → 8 * (length items + 1) ≤ (stp.msp.limit_ptr + word_mod - stp.msp.alloc_ptr) % word_mod
    → ptr_len + raw_len ≡ length items
    → Built stp
        (make_desc (length items) record')
        items
        rest
        (push_record collect stp (length items))
      × Built stp
          (make_desc (length items) raw)
          items
          rest
          (push_raw_record collect stp (length items))
      × Built stp
          (make_mixed_desc ptr_len raw_len)
          items
          rest
          (push_mixed_record collect stp ptr_len raw_len)
unfolding push_record push_raw_record push_mixed_record check_gc
push_records-Built collect stp items rest ptr_len raw_len e room space split =
    let fits : ltb ((stp.msp.limit_ptr + word_mod - stp.msp.alloc_ptr) % word_mod)
          (8 * (length items + 1))
        ≡ false =
      ground arith in
    (
      rw (fits, check_gc) (build-Built _ stp items rest e room),
      rw (fits, check_gc) (build-Built _ stp items rest e room),
      rw (split, fits, check_gc) (build-Built _ stp items rest e room),
    )
