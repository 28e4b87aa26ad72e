-- ===== src/Examples/BigSpace.antt =====
-- A heap with one region of big objects, of which the first three pages hold an object.
use smlnj.Prelude.{
  ℕ, ◌+◌, ◌*◌, ◌^◌, ◌<◌, ◌≡◌, refl, sym, ap, ◌∙◌, ◌⊎◌, inl, inr, false, none, some, [], ◌∷◌, arith,
  if◌then◌else◌, Bool-cases,
}
use mathlib.Core.Path.{subst}
use smlnj.Sizes.{roundup}
use smlnj.Bibop.Rows.{IsValid, init_bibop-unmapped}
use smlnj.BigObjects.Marking.{mark_gen-keeps}
use smlnj.BigObjects.Marks.{Marked, mark_gen-Marked}
use smlnj.BigObjects.Find.{Housed, bo_get_desc-LiveObj}
use smlnj.BigObjects.Lookup.{bo_get_desc, bo_addr_to_code_obj_tag, bo_get_code_obj_tag, tag_at}
use smlnj.Memory.{MemObj}
use smlnj.Bibop.{init_bibop}
use smlnj.BigObjects.{BoHeap, Malloc, set_up_region, int_to_addr, bo_num_bopages, bo_rounded_sz_b}
use smlnj.BigObjects.Alloc.{
  init_free_list, find_fit, bo_alloc, mark_gen, settle_object, map_pages, carve,
}
use smlnj.BigObjects.Free.{bo_free}
use smlnj.BigObjects.Search.{NoFit, FirstFit, find_fit-first}
use smlnj.BigObjects.Whole.{pages_of, Shaped}
use smlnj.BigObjects.Served.{Served, split-Served}
use smlnj.BigObjects.FreeLaws.{FreedObject, bo_free-FreedObject}
use smlnj.BigObjects.Empty.{init_free_list-Shaped}
use smlnj.BigObjects.AllocLaws.{GivesNew, Done}
use smlnj.BigObjects.Total.{Refused, NoSplit, bo_alloc-Shaped}
use smlnj.BigObjects.NewRegion.{new_heap, new-Shaped}
use smlnj.BigObjects.Splitting.{split_heap, split-Shaped}
use smlnj.Examples.Space.{sys, os, upwards-GivesFresh}

abbrev blank : BoHeap
blank = record {
  used_descs = λ p. false;
  used_regions = λ p. false;
  descs = λ p. record { obj = 0; size_b = 0; objc = 0; state = 0; gen = 0; region = 0 };
  links = record { next = λ p. 0; prev = λ p. 0 };
  regions = λ p. record {
    first_page = 0;
    n_pages = 0;
    n_free = 0;
    min_gen = 0;
    mem_obj = record { base = 0; size_b = 0 };
    next = 0;
    obj_map = λ i. 0;
  };
  hdr_ptr = λ a. 0;
  big_regions = 0;
  free_big_objs = 0;
  num_bo_regions = 0;
  os = os;
  bibop = init_bibop (λ i. 7);
}

abbrev empty : BoHeap
empty = init_free_list blank 1

empty-Shaped : Shaped empty [] []
empty-Shaped = init_free_list-Shaped blank 1

-- three blocks
abbrev blocks : Malloc
blocks used szb =
    if used 2 then (if used 3 then (if used 4 then none else some 4) else some 3) else some 2

blocks-GivesNew : GivesNew blocks
blocks-GivesNew used szb p run = elim (Bool-cases (used 2)) [
  | inr e ↦ ground (arith, e, run)
  | inl e ↦ ground (arith, e, run)
]

bo_alloc-Shaped_example :
    NoSplit blocks empty [] 3000 (bo_alloc sys blocks 1 empty 2 3000)
    ⊎ Done empty [] [] 2 3000 (bo_alloc sys blocks 1 empty 2 3000)
    ⊎ (NoFit empty (roundup 3000 10) []
        × (Refused sys blocks empty 3000 (bo_alloc sys blocks 1 empty 2 3000)
            ⊎ ((r : ℕ) × Done empty [] (r ∷ []) 2 3000 (bo_alloc sys blocks 1 empty 2 3000))))
bo_alloc-Shaped_example =
    bo_alloc-Shaped sys blocks upwards-GivesFresh blocks-GivesNew empty [] [] empty-Shaped 2 3000
      (omega arith) (omega arith) 1 (omega arith)

-- the region 2 of 256 pages, whose object is the descriptor 3
abbrev memory : MemObj
memory = record { base = 2 ^ 20; size_b = 2 ^ 19 }

region_unused : empty.used_regions 2 ≡ false
unfolding init_free_list
region_unused = refl

desc_unused : empty.used_descs 3 ≡ false
unfolding init_free_list
desc_unused = refl

abbrev with_region : BoHeap
with_region =
    new_heap sys.garbage empty [] [] empty-Shaped memory 2 3 256 region_unused desc_unused
      (omega arith) (omega arith) (omega arith)

with_region-Shaped : Shaped with_region (2 ∷ []) (3 ∷ [])
with_region-Shaped =
    new-Shaped sys.garbage empty [] [] empty-Shaped memory 2 3 256 region_unused desc_unused
      (omega arith) (omega arith) (omega arith)

find_fit-first_example :
    ((find_fit 2 with_region 5000 (with_region.links.next with_region.free_big_objs)
        ≡ some with_region.free_big_objs)
      × NoFit with_region 5000 (3 ∷ []))
    ⊎ ((p : ℕ) × (find_fit 2 with_region 5000 (with_region.links.next with_region.free_big_objs)
          ≡ some p)
        × FirstFit with_region 5000 (3 ∷ []) p)
find_fit-first_example = find_fit-first with_region-Shaped.ring 2 5000 (omega arith)

new_unused : with_region.used_descs 4 ≡ false
unfolding set_up_region init_free_list
new_unused = refl

pages_3000 : roundup 3000 10 ≡ 3 * 2 ^ 10
unfolding roundup
pages_3000 = refl

bigger : 3 * 2 ^ 10 < (with_region.descs 3).size_b
unfolding set_up_region init_free_list int_to_addr
bigger = omega arith

-- the descriptor 4 has the first three pages
abbrev with_object : BoHeap
with_object =
    split_heap with_region (2 ∷ []) (3 ∷ []) with_region-Shaped with_region.links 3 4 1 3000 3 refl
      with_region-Shaped.ring new_unused pages_3000 bigger

with_object-Shaped : Shaped with_object (2 ∷ []) (3 ∷ [])
with_object-Shaped =
    split-Shaped with_region (2 ∷ []) (3 ∷ []) with_region-Shaped with_region.links 3 4 1 3000 3
      refl with_region-Shaped.ring new_unused pages_3000 bigger

with_object-Served : Served with_region with_object (2 ∷ []) (2 ∷ []) 4 1 3000
with_object-Served =
    split-Served with_region (2 ∷ []) (3 ∷ []) with_region-Shaped with_region.links 3 4 1 3000 3
      refl with_region-Shaped.ring new_unused pages_3000 bigger (omega arith)

bo_free-FreedObject_example : FreedObject with_object (bo_free with_object 4) (2 ∷ []) 4
bo_free-FreedObject_example =
    bo_free-FreedObject with_object (2 ∷ []) (3 ∷ []) 4 with_object-Shaped with_object-Served.live

-- the region's pages get the identifiers of generation 1
abbrev marked : BoHeap
marked = mark_gen sys.garbage with_object 2 1

marked-keeps :
    Shaped marked (2 ∷ []) (3 ∷ []) × Served with_region marked (2 ∷ []) (2 ∷ []) 4 1 3000
marked-keeps =
    mark_gen-keeps sys.garbage with_object with_region 2 1 1 4 3000 (2 ∷ []) (2 ∷ []) (3 ∷ [])
      with_object-Shaped with_object-Served

home : (marked.descs 4).region ≡ 2
unfolding mark_gen settle_object map_pages carve set_up_region init_free_list
home = refl

same_memory : (with_object.regions 2).mem_obj ≡ memory
unfolding settle_object map_pages carve set_up_region init_free_list
same_memory = refl

young : (with_object.regions 2).min_gen ≡ 14
unfolding settle_object map_pages carve set_up_region init_free_list
young = refl

IsValid-map : IsValid with_object.bibop
unfolding settle_object map_pages carve set_up_region init_free_list
IsValid-map = (init_bibop-unmapped (λ i. 7)).0

mark_gen-Marked_example :
    Marked marked.bibop (with_object.regions 2).mem_obj 1 × ((marked.regions 2).min_gen ≡ 1)
mark_gen-Marked_example =
    mark_gen-Marked sys.garbage with_object 2 1 IsValid-map
      (4, ap (λ (o : MemObj). o.base) same_memory) (2, ap (λ (o : MemObj). o.size_b) same_memory)
      (omega (arith, ap (λ (o : MemObj). o.size_b) same_memory))
      (omega
        (arith, ap (λ (o : MemObj). o.base) same_memory, ap (λ (o : MemObj). o.size_b) same_memory))
      (omega arith) (omega (arith, young))

region_marks :
    Marked marked.bibop (with_object.regions 2).mem_obj 1 × ((marked.regions 2).min_gen ≡ 1)
region_marks =
    mark_gen-Marked sys.garbage with_object 2 1 IsValid-map
      (4, ap (λ (o : MemObj). o.base) same_memory) (2, ap (λ (o : MemObj). o.size_b) same_memory)
      (omega (arith, ap (λ (o : MemObj). o.size_b) same_memory))
      (omega
        (arith, ap (λ (o : MemObj). o.base) same_memory, ap (λ (o : MemObj). o.size_b) same_memory))
      (omega arith) (omega (arith, young))

marked_memory : (marked.regions 2).mem_obj ≡ memory
unfolding mark_gen settle_object map_pages carve set_up_region init_free_list
marked_memory = refl

marked-Housed : Housed marked 2 1
unfolding mark_gen settle_object map_pages carve set_up_region init_free_list
marked-Housed = record {
  aligned = (4, refl);
  header = refl;
  above = omega arith;
  below = omega arith;
  marks =
      subst (λ (o : MemObj). Marked marked.bibop o 1) (same_memory ∙ sym marked_memory)
        region_marks.0;
  small_gen = omega arith;
}

object_at : (marked.descs 4).obj ≡ 2 ^ 20 + 2 ^ 10
unfolding mark_gen settle_object map_pages carve set_up_region init_free_list
object_at = refl

object_pages : pages_of marked.descs 4 ≡ 3
unfolding mark_gen settle_object map_pages carve set_up_region init_free_list bo_num_bopages
    bo_rounded_sz_b roundup
object_pages = refl

bo_get_desc-LiveObj_example :
    (bo_get_desc marked (2 ^ 20 + 2 ^ 10 + 2500) ≡ some 4)
    × (bo_addr_to_code_obj_tag (λ a. 2) marked (2 ^ 20 + 2 ^ 10 + 2500)
        ≡ tag_at (bo_get_code_obj_tag (λ a. 2) (marked.descs 4)))
bo_get_desc-LiveObj_example =
    bo_get_desc-LiveObj marked-keeps.0 4 1 (2 ^ 20 + 2 ^ 10 + 2500) marked-keeps.1.live
      (subst (λ (r : ℕ). Housed marked r 1) (sym home) marked-Housed) (omega (arith, object_at))
      (omega (arith, object_at, object_pages)) (λ a. 2)
