-- ===== src/Examples/WeakList.antt =====
-- Two weak pointers, to an object that was forwarded and to one that is dead.
use smlnj.Prelude.{ℕ, Bool, true, false, none, List, [], ◌∷◌, ◌==◌, if◌then◌else◌}
use smlnj.Tags.{make_desc, mark_ptr}
use smlnj.Bibop.{Bibop}
use smlnj.MlState.{Mem}
use smlnj.Weak.{Referent, big, desc_forwarded}

abbrev nursery : Bibop
nursery = record { l1 = λ i. none; unmapped_l2 = record { tbl = λ i. 0; num_mapped = 0 } }

unfoldable weak_mem : Mem
unfolding make_desc mark_ptr
weak_mem a =
    if a == 4096
    then mark_ptr 8192
    else (if a == 4104
        then mark_ptr 65536
        else (if a == 8192
            then mark_ptr 0
            else (if a == 8200
                then mark_ptr 131072
                else (if a == 65528 then desc_forwarded else (if a == 65536 then 262144 else 7)))))

abbrev weak_list : List ℕ
weak_list = 4096 ∷ (8192 ∷ [])

abbrev is_big : Referent → Bool
is_big big = true
is_big _ = false
