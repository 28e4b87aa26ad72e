-- ===== src/Literals/Progress.antt =====
-- Where the program counter stands after each push function of build-literals-v3.c.
use smlnj.Prelude.{
  ℕ, ◌+◌, ◌*◌, ◌/◌, ◌^◌, ◌≤◌, ◌≡◌, inl, inr, Bool, true, false, ◌||◌, [], arith, ◌==◌, ltb, leb,
  if◌then◌else◌, length, Bool-cases, Option-cases,
}
use smlnj.Literals.{
  State, Kind, Outcome, ok, die, undefined, out_of_fuel, Collector, gc, check_gc, push,
  push_ml_value,
}
use smlnj.Literals.Push.{
  pop, build, push_record, push_raw_record, push_mixed_record, grow_strings, check_strings,
  alloc_large, push_seq_hdr, push_large_string, push_small_string, push_string, build_vector,
  push_vector, small_obj_szw, avail_space,
}

-- the outcome does not lie before `pc`, and is no lack of fuel
abbrev pub Ahead : ℕ → Outcome State → Type 0
Ahead pc (ok stp) = pc ≤ stp.pc
Ahead pc die = Unit
Ahead pc undefined = Unit
Ahead pc out_of_fuel = ⊥

module _ (pc : ℕ) where
  pub if-Ahead :
      (b : Bool) (x y : Outcome State) → Ahead pc x → Ahead pc y → Ahead pc (if b then x else y)
  if-Ahead true x y hx hy = hx
  if-Ahead false x y hx hy = hy

  pub push-Ahead : (kind : Kind) (stp : State) (v : ℕ) → pc ≤ stp.pc → Ahead pc (push kind stp v)
  unfolding push
  push-Ahead kind stp v h = if-Ahead (ltb (length stp.stk) stp.max_depth) _ _ h tt

  build-Ahead : (desc sz : ℕ) (stp : State) → pc ≤ stp.pc → Ahead pc (build desc sz stp)
  unfolding build push_ml_value
  build-Ahead desc sz stp h = elim (Option-cases (pop sz stp.stk [])) [
    | inl e ↦ rw (e, build) tt
    | inr ((fields, rest), e) ↦ rw (e, build) (push-Ahead _ _ _ h)
  ]

  check_gc-pc :
      (collect : Collector) (stp : State) (req : ℕ) → (check_gc collect stp req).pc ≡ stp.pc
  unfolding check_gc gc
  check_gc-pc collect stp req = ground arith

  push_seq_hdr-Ahead :
      (stp : State) (desc data' len : ℕ) → pc ≤ stp.pc → Ahead pc (push_seq_hdr stp desc data' len)
  unfolding push_seq_hdr push_ml_value
  push_seq_hdr-Ahead stp desc data' len h = push-Ahead _ _ _ h

  push_large_string-Ahead :
      (collect : Collector) (stp : State) (len szw : ℕ)
      → pc ≤ stp.pc
      → Ahead pc (push_large_string collect stp len szw)
  unfolding push_large_string alloc_large check_strings grow_strings gc
  push_large_string-Ahead collect stp len szw h =
      push_seq_hdr-Ahead _ _ _ _
        (elim (Bool-cases
          ((stp.strings.tosp_size_b == 0) || leb (avail_space stp.strings) (8 * (szw + 1)))) [
            | inl e ↦ rw e (omega arith)
            | inr e ↦ rw e (omega arith)
          ])

  push_small_string-Ahead :
      (collect : Collector) (stp : State) (len szw : ℕ)
      → pc ≤ stp.pc
      → Ahead pc (push_small_string collect stp len szw)
  unfolding push_small_string
  push_small_string-Ahead collect stp len szw h =
      push_seq_hdr-Ahead _ _ _ _ (omega (arith, check_gc-pc collect stp (8 * (szw + 1 + 3))))

  pub push_string-Ahead :
      (collect : Collector) (stp : State) (len : ℕ)
      → pc ≤ stp.pc
      → Ahead pc (push_string collect stp len)
  unfolding push_string
  push_string-Ahead collect stp len h = if-Ahead (leb (2 ^ 31) len) _ _ tt (
      if-Ahead (ltb small_obj_szw ((len + 1 + 7) / 8)) _ _
        (push_large_string-Ahead collect stp len ((len + 1 + 7) / 8) h)
        (push_small_string-Ahead collect stp len ((len + 1 + 7) / 8) h))

  build_vector-Ahead : (len : ℕ) (stp : State) → pc ≤ stp.pc → Ahead pc (build_vector len stp)
  unfolding build_vector
  build_vector-Ahead len stp h = elim (Option-cases (pop len stp.stk [])) [
    | inl e ↦ rw (e, build_vector) tt
    | inr ((fields, rest), e) ↦ rw (e, build_vector) (push_seq_hdr-Ahead _ _ _ _ h)
  ]

  pub push_vector-Ahead :
      (collect : Collector) (stp : State) (len : ℕ)
      → pc ≤ stp.pc
      → Ahead pc (push_vector collect stp len)
  unfolding push_vector
  push_vector-Ahead collect stp len h =
      if-Ahead (ltb small_obj_szw len) _ _ tt
        (build_vector-Ahead len _ (omega (arith, check_gc-pc collect stp (8 * (len + 1 + 3)))))

  pub push_record-Ahead :
      (collect : Collector) (stp : State) (sz : ℕ)
      → pc ≤ stp.pc
      → Ahead pc (push_record collect stp sz)
  unfolding push_record
  push_record-Ahead collect stp sz h =
      build-Ahead _ sz _ (omega (arith, check_gc-pc collect stp (8 * (sz + 1))))

  pub push_raw_record-Ahead :
      (collect : Collector) (stp : State) (sz : ℕ)
      → pc ≤ stp.pc
      → Ahead pc (push_raw_record collect stp sz)
  unfolding push_raw_record
  push_raw_record-Ahead collect stp sz h =
      build-Ahead _ sz _ (omega (arith, check_gc-pc collect stp (8 * (sz + 1))))

  pub push_mixed_record-Ahead :
      (collect : Collector) (stp : State) (p r : ℕ)
      → pc ≤ stp.pc
      → Ahead pc (push_mixed_record collect stp p r)
  unfolding push_mixed_record
  push_mixed_record-Ahead collect stp p r h =
      build-Ahead _ (p + r) _ (omega (arith, check_gc-pc collect stp (8 * (p + r + 1))))
