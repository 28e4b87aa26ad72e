-- ===== src/BigObjects/Free.antt =====
-- `BO_Free` of runtime/gc/big-objects.c.
use smlnj.Prelude.{ℕ, ◌-◌, ◌/◌, ◌%◌, ◌^◌, false, ltb, ◌&&◌, if◌then◌else◌}
use smlnj.Sizes.{roundup}
use smlnj.Bibop.{add32, sub32}
use smlnj.Heap.{add64}
use smlnj.BigObjects.{
  update, BoHeap, addr_to_bopage, bo_is_free, bo_free_state, remove_bo_desc, add_bo_desc,
}
use smlnj.BigObjects.Alloc.{map_pages}

-- the neighbour `dp`, which has the pages from `lo` on, leaves the free list and its pages go to
-- `desc`
unfoldable pub take_over : BoHeap → ℕ → ℕ → ℕ → ℕ → BoHeap
unfolding map_pages remove_bo_desc
take_over h desc dp lo n =
    let h1 = record h { links = remove_bo_desc h.links dp } in
    map_pages h1 (h.descs desc).region lo n desc

abbrev pub free_block : BoHeap → ℕ → BoHeap
free_block h p = record h { used_descs = update h.used_descs p false }

-- the bodies of the two tests for a free neighbour `dp`
unfoldable pub absorb_before : BoHeap → ℕ → ℕ → ℕ → ℕ → ℕ → BoHeap × ℕ
unfolding take_over
absorb_before h desc dp lo n tot =
    let h1 = take_over h desc dp lo n in
    let d = h1.descs desc in
    let h2 = record h1 { descs = update h1.descs desc (record d { obj = (h1.descs dp).obj }) } in
    (free_block h2 dp, add64 tot (h1.descs dp).size_b)

unfoldable pub absorb_after : BoHeap → ℕ → ℕ → ℕ → ℕ → ℕ → BoHeap × ℕ
unfolding take_over
absorb_after h desc dp lo n tot =
    (free_block (take_over h desc dp lo n) dp, add64 tot (h.descs dp).size_b)

-- the coalescing with the free object before page `first`
unfoldable pub join_before : BoHeap → ℕ → ℕ → ℕ → BoHeap × ℕ
unfolding absorb_before addr_to_bopage
join_before h desc first tot =
    let r = h.regions (h.descs desc).region in
    let dp = r.obj_map (first - 1) in
    let lo = addr_to_bopage r (h.descs dp).obj in
    if ltb 0 first && bo_is_free (h.descs dp)
    then absorb_before h desc dp lo (first - lo) tot
    else (h, tot)

-- the coalescing with the free object at page `last`
unfoldable pub join_after : BoHeap → ℕ → ℕ → ℕ → BoHeap × ℕ
unfolding absorb_after
join_after h desc last tot =
    let r = h.regions (h.descs desc).region in
    let dp = r.obj_map last in
    let end = add32 last ((h.descs dp).size_b / 2 ^ 10 % 2 ^ 32) in
    if ltb last r.n_pages && bo_is_free (h.descs dp)
    then absorb_after h desc dp last (end - last) tot
    else (h, tot)

-- the descriptor becomes a free one of `tot` bytes in the free list, and `n` pages more are free
unfoldable pub release : BoHeap → ℕ → ℕ → ℕ → BoHeap
unfolding add_bo_desc
release h desc tot n =
    let d = h.descs desc in
    let r = h.regions d.region in
    record h {
      descs = update h.descs desc (record d { size_b = tot; state = bo_free_state });
      regions = update h.regions d.region (record r { n_free = add32 r.n_free n });
      links = add_bo_desc h.links h.free_big_objs desc;
    }

-- `BO_Free`
unfoldable pub bo_free : BoHeap → ℕ → BoHeap
unfolding join_before join_after release addr_to_bopage
bo_free h desc =
    let d = h.descs desc in
    let tot = roundup d.size_b 10 in
    let first = addr_to_bopage (h.regions d.region) d.obj in
    let last = add32 first (tot / 2 ^ 10 % 2 ^ 32) in
    let (h1, tot1) = join_before h desc first tot in
    let (h2, tot2) = join_after h1 desc last tot1 in release h2 desc tot2 (sub32 last first)
