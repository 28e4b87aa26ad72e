-- ===== src/Literals/Roots.antt =====
-- The roots that `GC` of build-literals-v3.c hands to the collector and takes back.
use smlnj.Prelude.{
  ℕ, ◌+◌, ◌*◌, ◌≡◌, refl, ap, ◌∙◌, List, [], ◌∷◌, ◌++◌, map, arith, length, length-append,
}
use mathlib.Core.Path.{subst}
use smlnj.Tags.{make_desc}
use smlnj.Tags.Dtag.{record'}
use smlnj.MlState.{Mem, MlState, alloc_write, alloc}
use smlnj.MlState.Objects.{Words, write_from, alloc_fields, alloc_fields-Allocated}
use smlnj.Literals.{
  StkItem, State, Collector, root_of, restored, bottom_up, restore_saved, restore_stack, gc_root,
  gc,
}

write_from-append :
    (msp : MlState) (i : ℕ) (xs ys : List ℕ)
    → write_from (write_from msp i xs) (i + length xs) ys ≡ write_from msp i (xs ++ ys)
unfolding write_from
write_from-append msp i [] ys = ap (λ (j : ℕ). write_from msp j ys) (omega arith)
write_from-append msp i (x ∷ xs) ys =
    ap (λ (j : ℕ). write_from (write_from (alloc_write msp i x) (i + 1) xs) j ys) (omega arith)
    ∙ write_from-append (alloc_write msp i x) (i + 1) xs ys

length-bottom_up :
    (stk : List StkItem) (acc : List ℕ) → length (bottom_up stk acc) ≡ length stk + length acc
unfolding bottom_up
length-bottom_up [] acc = omega arith
length-bottom_up (x ∷ stk) acc = omega (arith, length-bottom_up stk (root_of x ∷ acc))

-- the fields of the root object
abbrev pub roots : State → List ℕ
roots stp = stp.saved ++ bottom_up stp.stk []

gc_root-alloc_fields :
    (stp : State)
    → length stp.saved ≡ stp.max_saved
    → gc_root stp ≡ alloc_fields stp.msp (make_desc (length (roots stp)) record') (roots stp)
unfolding gc_root alloc_fields
gc_root-alloc_fields stp h =
    let n : stp.max_saved + length stp.stk ≡ length (roots stp) =
      omega (arith, length-append stp.saved (bottom_up stp.stk []), length-bottom_up stp.stk []) in
    let i : stp.max_saved + 1 ≡ 1 + length stp.saved = omega arith in
    rw (i, n)
      (ap (λ (q : MlState). alloc q (length (roots stp)))
        (write_from-append (alloc_write stp.msp 0 (make_desc (length (roots stp)) record')) 1
          stp.saved (bottom_up stp.stk [])))

gc_root-Words :
    (stp : State)
    → length stp.saved ≡ stp.max_saved
    → Words (gc_root stp).1.mem (gc_root stp).0 (roots stp)
gc_root-Words stp h =
    let made =
      alloc_fields-Allocated stp.msp (make_desc (length (roots stp)) record') (roots stp) in
    rw (gc_root-alloc_fields stp h, made.address) made.filled

module _ (fwd : ℕ → ℕ) where
  -- a stack slot with its object forwarded
  abbrev pub forward_item : StkItem → StkItem
  forward_item x = restored x (fwd (root_of x))

  restore_saved-Words :
      (m : Mem) (p : ℕ) (saved rest : List ℕ)
      → Words m p (map fwd (saved ++ rest))
      → (restore_saved m p saved ≡ map fwd saved) × Words m (p + 8 * length saved) (map fwd rest)
  unfolding restore_saved
  restore_saved-Words m p [] rest w =
      (refl, subst (λ (q : ℕ). Words m q (map fwd rest)) (omega arith) w)
  restore_saved-Words m p (x ∷ saved) rest w =
      let (r, after) = restore_saved-Words m (p + 8) saved rest w.1 in
      (rw (w.0, r) refl, subst (λ (q : ℕ). Words m q (map fwd rest)) (omega arith) after)

  bottom_up-Words :
      (m : Mem) (p : ℕ) (stk : List StkItem) (acc : List ℕ)
      → Words m p (map fwd (bottom_up stk acc))
      → Words m (p + 8 * length stk) (map fwd acc)
  unfolding bottom_up
  bottom_up-Words m p [] acc w = subst (λ (q : ℕ). Words m q (map fwd acc)) (omega arith) w
  bottom_up-Words m p (x ∷ stk) acc w =
      subst (λ (q : ℕ). Words m q (map fwd acc)) (omega arith)
        (bottom_up-Words m p stk (root_of x ∷ acc) w).1

  restore_stack-Words :
      (m : Mem) (p : ℕ) (stk : List StkItem) (acc : List ℕ)
      → Words m p (map fwd (bottom_up stk acc))
      → restore_stack m p stk ≡ map forward_item stk
  unfolding restore_stack bottom_up
  restore_stack-Words m p [] acc w = refl
  restore_stack-Words m p (x ∷ stk) acc w =
      rw
        (
          (bottom_up-Words m p stk (root_of x ∷ acc) w).0,
          restore_stack-Words m p stk (root_of x ∷ acc) w,
        )
        refl

  -- A collection keeps the interpreter's state: the saved values are the forwarded ones, in order;
  -- each stack slot that holds an object has it forwarded, and every other slot, the program
  -- counter and the limits are as before. The collector is assumed to give the root object's
  -- copy the forwarded fields, as many as the root object has.
  pub gc-forwards :
      (collect : Collector) (stp : State) (gc_level : ℕ)
      → length stp.saved ≡ stp.max_saved
      → (let (msp', (_, root')) = collect (gc_root stp).1 stp.strings gc_level (gc_root stp).0 in
          (fields : List ℕ)
          → length fields ≡ length stp.saved + length stp.stk
          → Words (gc_root stp).1.mem (gc_root stp).0 fields
          → Words msp'.mem root' (map fwd fields))
      → ((gc collect stp gc_level).saved ≡ map fwd stp.saved)
        × ((gc collect stp gc_level).stk ≡ map forward_item stp.stk)
        × ((gc collect stp gc_level).pc ≡ stp.pc)
        × ((gc collect stp gc_level).max_saved ≡ stp.max_saved)
        × ((gc collect stp gc_level).max_depth ≡ stp.max_depth)
  unfolding gc
  gc-forwards collect stp gc_level h copy =
      let (msp', (_, root')) = collect (gc_root stp).1 stp.strings gc_level (gc_root stp).0 in
      let (s, after) = restore_saved-Words msp'.mem root' stp.saved (bottom_up stp.stk []) (
        copy (roots stp)
          (omega
            (arith, length-append stp.saved (bottom_up stp.stk []), length-bottom_up stp.stk []))
          (gc_root-Words stp h)) in
      (
        s,
        restore_stack-Words msp'.mem (root' + 8 * stp.max_saved) stp.stk [] (
            subst (λ (n : ℕ). Words msp'.mem (root' + 8 * n) (map fwd (bottom_up stp.stk []))) h
              after),
        refl,
        refl,
        refl,
      )
