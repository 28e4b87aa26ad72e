-- ===== src/RecordOps.antt =====
-- runtime/gc/record-ops.c: the length of a record and the concatenation of two, over the page map
-- and the allocation area.
pub mod Concat
use smlnj.Prelude.{
  ℕ, zero, suc, ◌+◌, ◌-◌, ◌*◌, ◌/◌, ◌%◌, ◌^◌, Option, none, some, ◌==◌, ltb, ◌&&◌, if◌then◌else◌,
}
use smlnj.Tags.{is_boxed, get_tag, get_len, make_desc, ml_unit}
use smlnj.Tags.Dtag.{record'}
use smlnj.ArenaId.{objc_new, make_objc, pair_indx, record_indx, extract_objc}
use smlnj.Bibop.{Bibop, addr_to_pageid}
use smlnj.MlState.{Mem, MlState, alloc_write, alloc}

-- the length in a descriptor, which is an `int`; a negative result is `none`
unfoldable pub desc_len : ℕ → Option ℕ
unfolding get_tag get_len
desc_len d =
    let n = get_len d % 2 ^ 32 in
    if get_tag d == record' then (if ltb n (2 ^ 31) then some n else none) else none

-- `GetLen`, where -1 and any other negative length is `none`
unfoldable pub get_rec_len : Bibop → Mem → ℕ → Option ℕ
unfolding is_boxed extract_objc addr_to_pageid desc_len
get_rec_len b mem r =
    let objc = extract_objc (addr_to_pageid b r) in
    if is_boxed r
    then (if objc == objc_new
        then desc_len (mem (r - 8))
        else (if objc == make_objc pair_indx
            then some 2
            else (if objc == make_objc record_indx then desc_len (mem (r - 8)) else none)))
    else none

-- the loops of `RecordConcat`: `n` words from `p` on become the words from offset `j` on
unfoldable pub copy_from : ℕ → MlState → ℕ → ℕ → MlState
unfolding alloc_write
copy_from zero msp j p = msp
copy_from (suc n) msp j p = copy_from n (alloc_write msp j (msp.mem p)) (j + 1) (p + 8)

-- the branch for two records
unfoldable pub concat_words : MlState → ℕ → ℕ → ℕ → ℕ → ℕ × MlState
unfolding alloc_write copy_from alloc make_desc
concat_words msp r1 l1 r2 l2 =
    let n = l1 + l2 in
    let msp' = alloc_write msp 0 (make_desc n record') in
    alloc (copy_from l2 (copy_from l1 msp' 1 r1) (1 + l1) r2) n

-- the test of the lengths
unfoldable pub concat_lens : MlState → ℕ → Option ℕ → ℕ → Option ℕ → ℕ × MlState
unfolding concat_words
concat_lens msp r1 none r2 l2 = (ml_unit, msp)
concat_lens msp r1 (some l1) r2 none = (ml_unit, msp)
concat_lens msp r1 (some l1) r2 (some l2) =
    if ltb 0 l1 && ltb 0 l2 then concat_words msp r1 l1 r2 l2 else (ml_unit, msp)

-- `RecordConcat`
unfoldable pub record_concat : Bibop → MlState → ℕ → ℕ → ℕ × MlState
unfolding concat_lens get_rec_len
record_concat b msp r1 r2 =
    concat_lens msp r1 (get_rec_len b msp.mem r1) r2 (get_rec_len b msp.mem r2)
