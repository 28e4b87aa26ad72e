-- ===== src/Examples/Records.antt =====
-- Two records, of two fields and of one, on pages of the allocation area.
use smlnj.Prelude.{◌≡◌, refl, inl, true, none, some, [], ◌∷◌, arith, ◌==◌, if◌then◌else◌}
use smlnj.Tags.{is_boxed, make_desc}
use smlnj.Tags.Dtag.{record'}
use smlnj.ArenaId.{extract_objc}
use smlnj.Bibop.{Bibop, addr_to_pageid}
use smlnj.MlState.{Mem, MlState}
use smlnj.MlState.Objects.{Allocated}
use smlnj.RecordOps.{get_rec_len, record_concat}
use smlnj.RecordOps.Concat.{IsRecord, record_concat-Allocated}

abbrev pages : Bibop
pages = record { l1 = λ i. none; unmapped_l2 = record { tbl = λ i. 0; num_mapped = 0 } }

unfoldable two_records : Mem
unfolding make_desc
two_records a =
    if a == 4088
    then make_desc 2 record'
    else (if a == 4096
        then 7
        else (if a == 4104
            then 9
            else (if a == 8184 then make_desc 1 record' else (if a == 8192 then 11 else 0))))

abbrev ml : MlState
ml = record {
  mem = two_records;
  alloc_ptr = 65536;
  limit_ptr = 66560;
  store_ptr = 1;
  exn_cont = 0;
  var_reg = 0;
  link_reg = 0;
  closure = 0;
  cont = 0;
  callee_save0 = 0;
  callee_save1 = 0;
  callee_save2 = 0;
  arg = 0;
  pc = 0;
}

first-IsRecord : IsRecord pages ml 4096 (7 ∷ (9 ∷ [])) 4
unfolding get_rec_len two_records
first-IsRecord = record { len = refl; words = (refl, (refl, tt)); apart = inl (omega arith) }

second-IsRecord : IsRecord pages ml 8192 (11 ∷ []) 4
unfolding get_rec_len two_records
second-IsRecord = record { len = refl; words = (refl, tt); apart = inl (omega arith) }

result_boxed : is_boxed 65544 ≡ true
unfolding is_boxed
result_boxed = refl

result_new : extract_objc (addr_to_pageid pages 65544) ≡ 0
unfolding extract_objc addr_to_pageid
result_new = refl

record_concat-Allocated_example :
    Allocated ml (make_desc 3 record') (7 ∷ (9 ∷ (11 ∷ []))) (record_concat pages ml 4096 8192)
    × (get_rec_len pages
          (record_concat pages ml 4096 8192).1.mem
          (record_concat pages ml 4096 8192).0
        ≡ some 3)
record_concat-Allocated_example =
    record_concat-Allocated pages ml 4096 8192 (7 ∷ (9 ∷ [])) (11 ∷ []) (omega arith) (omega arith)
      first-IsRecord second-IsRecord result_boxed result_new (omega arith)
