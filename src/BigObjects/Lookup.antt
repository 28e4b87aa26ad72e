-- ===== src/BigObjects/Lookup.antt =====
-- `BO_GetDesc`, `BO_AddrToCodeObjTag` and `BO_GetCodeObjTag` of runtime/gc/big-objects.c.
use smlnj.Prelude.{ℕ, zero, suc, ◌*◌, Option, none, some, if◌then◌else◌}
use smlnj.ArenaId.{bo_is_hdr, is_bigobj_aid}
use smlnj.Bibop.{Bibop, addr_to_index, index_to_addr, addr_to_pageid, index_to_pageid}
use smlnj.Heap.{add64, sub64}
use smlnj.BigObjects.{Desc, BoHeap, addr_to_bodesc}

-- the loop back to the first page of the region, which must not pass the first page of all
unfoldable pub find_hdr : Bibop → ℕ → Option ℕ
unfolding index_to_pageid bo_is_hdr
find_hdr b zero = if bo_is_hdr (index_to_pageid b zero) then some zero else none
find_hdr b (suc indx) =
    let rest = find_hdr b indx in
    if bo_is_hdr (index_to_pageid b (suc indx)) then some (suc indx) else rest

unfoldable pub desc_from : BoHeap → ℕ → Option ℕ → Option ℕ
unfolding index_to_addr addr_to_bodesc
desc_from h addr none = none
desc_from h addr (some indx) =
    some (addr_to_bodesc (h.regions (h.hdr_ptr (index_to_addr indx))) addr)

-- `BO_GetDesc`
unfoldable pub bo_get_desc : BoHeap → ℕ → Option ℕ
unfolding find_hdr desc_from addr_to_index
bo_get_desc h addr = desc_from h addr (find_hdr h.bibop (addr_to_index addr))

-- `BO_GetCodeObjTag`, where `bytes` is the memory
unfoldable pub bo_get_code_obj_tag : (ℕ → ℕ) → Desc → ℕ
bo_get_code_obj_tag bytes d =
    let last_byte = sub64 (add64 d.obj d.size_b) 1 in
    let kx = bytes last_byte * 8 in add64 (sub64 last_byte kx) 1

-- what `BO_AddrToCodeObjTag` returns: null, a tag's address, or nothing because the loop left the map
pub data TagOf : Type 0 where
  no_tag : TagOf
  tag_at : ℕ → TagOf
  past_map : TagOf

unfoldable pub tag_of : (ℕ → ℕ) → BoHeap → Option ℕ → TagOf
unfolding bo_get_code_obj_tag
tag_of bytes h none = past_map
tag_of bytes h (some d) = tag_at (bo_get_code_obj_tag bytes (h.descs d))

-- `BO_AddrToCodeObjTag`
unfoldable pub bo_addr_to_code_obj_tag : (ℕ → ℕ) → BoHeap → ℕ → TagOf
unfolding tag_of find_hdr desc_from addr_to_pageid addr_to_index is_bigobj_aid
bo_addr_to_code_obj_tag bytes h pc =
    if is_bigobj_aid (addr_to_pageid h.bibop pc)
    then tag_of bytes h (desc_from h pc (find_hdr h.bibop (addr_to_index pc)))
    else no_tag
