-- ===== src/BigObjects/Alloc.antt =====
-- `BO_Alloc` of runtime/gc/big-objects.c, and the free list that `InitHeap` of runtime/gc/init-gc.c
-- makes.
use smlnj.Prelude.{
  ℕ, zero, suc, ◌/◌, ◌%◌, ◌^◌, Bool, true, false, Option, none, some, ◌==◌, ltb, if◌then◌else◌,
}
use smlnj.Sizes.{roundup}
use smlnj.ArenaId.{aid_bigobj, aid_bigobj_hdr}
use smlnj.Bibop.{L2, Bibop, addr_to_l1_index, addr_to_l2_index, fill, mark_region, sub32}
use smlnj.Heap.{add64, sub64}
use smlnj.Generation.{System}
use smlnj.BigObjects.{
  update, BoHeap, Malloc, in_use, desc_sz_b, rounds, addr_to_bopage, bo_young, bo_free_state,
  remove_bo_desc, add_bo_desc, BoOutcome, gives, died, null_write, stuck, bo_alloc_region,
}

-- the header of the free list, which is its only descriptor
unfoldable pub init_free_list : BoHeap → ℕ → BoHeap
init_free_list h hdr = record h {
  used_descs = update h.used_descs hdr true;
  num_bo_regions = 0;
  big_regions = 0;
  free_big_objs = hdr;
  descs = update h.descs hdr (record (h.descs hdr) { obj = 0; size_b = 0; state = bo_free_state });
  links = record { prev = update h.links.prev hdr hdr; next = update h.links.next hdr hdr };
}

-- `ADDR_TO_PAGEID (bibop, a) = aid`, which writes through the pointer to the table
unfoldable pub set_pageid : Bibop → ℕ → ℕ → Bibop
unfolding addr_to_l1_index addr_to_l2_index
set_pageid b a aid =
    let set = λ (t : L2). record t { tbl = update t.tbl (addr_to_l2_index a) aid } in
    elim (b.l1 (addr_to_l1_index a)) [
      | none ↦ record b { unmapped_l2 = set b.unmapped_l2 }
      | some t ↦ record b { l1 = update b.l1 (addr_to_l1_index a) (some (set t)) }
    ]

-- the first-fit search, from the descriptor `dp` on
unfoldable pub find_fit : ℕ → BoHeap → ℕ → ℕ → Option ℕ
find_fit zero h tot dp = none
find_fit (suc fuel) h tot dp =
    let rest = find_fit fuel h tot (h.links.next dp) in
    if dp == h.free_big_objs
    then some dp
    else (if ltb (h.descs dp).size_b tot then rest else some dp)

-- the new descriptor `e` takes the first `tot` bytes of `dp`
unfoldable pub carve : BoHeap → ℕ → ℕ → ℕ → BoHeap
carve h dp e tot =
    let d = h.descs dp in
    record h {
      used_descs = update h.used_descs e true;
      descs =
          update (update h.descs e (record (h.descs e) { obj = d.obj; region = d.region })) dp
            (record d { obj = add64 d.obj tot; size_b = sub64 d.size_b tot });
    }

-- the loop over the object map
unfoldable pub map_pages : BoHeap → ℕ → ℕ → ℕ → ℕ → BoHeap
map_pages h region lo n d =
    let r = h.regions region in
    record h { regions = update h.regions region (record r { obj_map = fill r.obj_map lo n d }) }

-- the split of a free object, which joins the free list if it is not in it
unfoldable pub split_free : Bool → BoHeap → ℕ → ℕ → ℕ → ℕ → BoHeap
unfolding carve map_pages add_bo_desc addr_to_bopage
split_free is_new h dp e tot npages =
    let region = (h.descs dp).region in
    let h1 = carve h dp e tot in
    let h2 =
      if is_new then record h1 { links = add_bo_desc h1.links h1.free_big_objs dp } else h1 in
    map_pages h2 region (addr_to_bopage (h2.regions region) (h2.descs e).obj) (rounds npages) e

-- the region's least generation and the identifiers of its pages
unfoldable pub mark_gen : (ℕ → ℕ) → BoHeap → ℕ → ℕ → BoHeap
unfolding set_pageid mark_region
mark_gen garbage h region gen =
    let r = h.regions region in
    let obj = r.mem_obj in
    if ltb gen r.min_gen
    then record h {
      regions = update h.regions region (record r { min_gen = gen });
      bibop =
          set_pageid (mark_region garbage h.bibop obj.base obj.size_b (aid_bigobj gen)) obj.base
            (aid_bigobj_hdr gen);
    }
    else h

-- the descriptor and its region after the pages were found
unfoldable pub settle_object : BoHeap → ℕ → ℕ → ℕ → ℕ → ℕ → BoHeap
settle_object h region e gen obj_szb npages =
    let r = h.regions region in
    record h {
      descs =
          update h.descs e
            (record (h.descs e) { size_b = obj_szb; state = bo_young; gen = gen % 2 ^ 8 });
      regions = update h.regions region (record r { n_free = sub32 r.n_free npages });
    }

unfoldable pub finish_alloc : (ℕ → ℕ) → BoHeap → ℕ → ℕ → ℕ → ℕ → BoOutcome
unfolding settle_object mark_gen
finish_alloc garbage h e gen obj_szb npages =
    let region = (h.descs e).region in
    gives e (mark_gen garbage (settle_object h region e gen obj_szb npages) region gen)

-- the split with a new descriptor, which is not tested for null
unfoldable pub split_with : System → Bool → BoHeap → ℕ → ℕ → ℕ → ℕ → ℕ → Option ℕ → BoOutcome
unfolding split_free finish_alloc
split_with sys is_new h dp gen obj_szb tot npages none = null_write
split_with sys is_new h dp gen obj_szb tot npages (some e) =
    finish_alloc sys.garbage (split_free is_new h dp e tot npages) e gen obj_szb npages

-- the object `dp` is big enough; `is_new` says that it is a new region's and not in the free list
unfoldable pub use_free : System → Malloc → Bool → BoHeap → ℕ → ℕ → ℕ → BoOutcome
unfolding split_with finish_alloc remove_bo_desc
use_free sys malloc is_new h dp gen obj_szb =
    let tot = roundup obj_szb 10 in
    let npages = tot / 2 ^ 10 % 2 ^ 32 in
    if (h.descs dp).size_b == tot
    then (let h' = if is_new then h else record h { links = remove_bo_desc h.links dp } in
        finish_alloc sys.garbage h' dp gen obj_szb npages)
    else split_with sys is_new h dp gen obj_szb tot npages (malloc (in_use h) desc_sz_b)

-- what follows the allocation of a region
unfoldable pub use_region : System → Malloc → ℕ → ℕ → BoOutcome → BoOutcome
unfolding use_free
use_region sys malloc gen obj_szb (gives dp h) = use_free sys malloc true h dp gen obj_szb
use_region sys malloc gen obj_szb died = died
use_region sys malloc gen obj_szb null_write = null_write
use_region sys malloc gen obj_szb stuck = stuck

-- what follows the search
unfoldable pub place : System → Malloc → BoHeap → ℕ → ℕ → Option ℕ → BoOutcome
unfolding use_free use_region bo_alloc_region
place sys malloc h gen obj_szb none = stuck
place sys malloc h gen obj_szb (some dp) =
    if dp == h.free_big_objs
    then use_region sys malloc gen obj_szb (bo_alloc_region sys malloc h (roundup obj_szb 10))
    else use_free sys malloc false h dp gen obj_szb

-- `BO_Alloc`
unfoldable pub bo_alloc : System → Malloc → ℕ → BoHeap → ℕ → ℕ → BoOutcome
unfolding find_fit place
bo_alloc sys malloc fuel h gen obj_szb =
    place sys malloc h gen obj_szb
      (find_fit fuel h (roundup obj_szb 10) (h.links.next h.free_big_objs))
