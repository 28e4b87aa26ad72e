-- ===== src/Weak.antt =====
-- `ScanWeakPtrs` of runtime/gc/gc-util.c: the weak pointers that a collection has forwarded. They
-- are a list in memory; a weak pointer has two words, the marked link and the marked referent.
pub mod Scan
use smlnj.Prelude.{ℕ, zero, suc, ◌+◌, ◌-◌, ◌%◌, ◌^◌, bit_and, ◌==◌, ◌||◌, if◌then◌else◌}
use smlnj.Tags.{word_mod, make_desc, is_desc, unmark_ptr, ml_unit}
use smlnj.Tags.Dtag.{special, forward}
use smlnj.ArenaId.{
  objc_new, objc_bigobj, make_objc, record_indx, pair_indx, string_indx, array_indx, extract_objc,
}
use smlnj.Bibop.{Bibop, addr_to_pageid}
use smlnj.MlState.{Mem, write}

-- `DESC_weak`, `DESC_null_weak` and `DESC_forwarded`
abbrev pub desc_weak : ℕ
desc_weak = make_desc 2 special

abbrev pub desc_null_weak : ℕ
desc_null_weak = make_desc 3 special

abbrev pub desc_forwarded : ℕ
desc_forwarded = make_desc 0 forward

-- what has become of a referent: it has a new address, it is dead, the switch has no case for its
-- class, or it is a big object
pub data Referent : Type 0 where
  moved : ℕ → Referent
  dead : Referent
  no_case : Referent
  big : Referent

-- the switch; the last lines are `FOLLOW_FWDOBJ` and `FOLLOW_FWDPAIR`
unfoldable pub look : Bibop → Mem → ℕ → Referent
unfolding extract_objc addr_to_pageid is_desc make_desc
look b mem obj =
    let objc = extract_objc (addr_to_pageid b obj) in
    if (objc == objc_new)
      || (objc == make_objc record_indx)
      || (objc == make_objc string_indx)
      || (objc == make_objc array_indx)
    then (if mem (obj - 8) == desc_forwarded then moved (mem obj) else dead)
    else (if objc == make_objc pair_indx
        then (if is_desc (mem obj) then moved (bit_and (mem obj) (word_mod - 4)) else dead)
        else (if objc == objc_bigobj then big else no_case))

-- the two words that the switch writes
unfoldable pub settle : Mem → ℕ → Referent → Mem
settle mem p (moved q) = write (write mem p desc_weak) (p + 8) q
settle mem p dead = write (write mem p desc_null_weak) (p + 8) ml_unit
settle mem p no_case = mem
settle mem p big = mem

pub data Scanned : Type 0 where
  scanned : Mem → Scanned
  weak_big_object : Scanned
  out_of_fuel : Scanned

-- the switch and the rest of the loop
unfoldable pub settle_then : (Mem → Scanned) → Mem → ℕ → Referent → Scanned
unfolding settle
settle_then rest mem p (moved q) = rest (settle mem p (moved q))
settle_then rest mem p dead = rest (settle mem p dead)
settle_then rest mem p no_case = rest (settle mem p no_case)
settle_then rest mem p big = weak_big_object

-- the loop from the weak pointer `p` on
unfoldable pub scan_weak : Bibop → ℕ → ℕ → Mem → Scanned
unfolding look settle_then
scan_weak b zero p mem = if p == 0 then scanned mem else out_of_fuel
scan_weak b (suc n) p mem =
    if p == 0
    then scanned mem
    else settle_then (λ mem'. scan_weak b n (unmark_ptr (mem p)) mem') mem p
        (look b mem (unmark_ptr (mem (p + 8))))
