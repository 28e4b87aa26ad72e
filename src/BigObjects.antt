-- ===== src/BigObjects.antt =====
-- runtime/gc/heap.h and `BO_AllocRegion` of runtime/gc/big-objects.c: the regions of big objects and
-- their descriptors. The null pointer is 0, a descriptor or a region is a number, and the links of
-- the descriptors, the regions' headers and the rest of the descriptors are maps of their own. The
-- object map of a region is a function of the page.
pub mod Alloc
pub mod Free
pub mod Lookup
pub mod Tiles
pub mod Counts
pub mod Ring
pub mod Search
pub mod Pages
pub mod Whole
pub mod Carving
pub mod Joining
pub mod Restating
pub mod Frame
pub mod Taking
pub mod Splitting
pub mod NewRegion
pub mod Pending
pub mod Freeing
pub mod Coalescing
pub mod Freed
pub mod Released
pub mod FreeLaws
pub mod Served
pub mod Marking
pub mod AllocLaws
pub mod Allocate
pub mod Total
pub mod Marks
pub mod Find
pub mod Empty
use smlnj.Prelude.{
  ℕ, ◌+◌, ◌-◌, ◌*◌, ◌/◌, ◌%◌, ◌^◌, bit_and, Bool, true, Option, none, some, ◌==◌, ltb, ◌||◌, not,
  if◌then◌else◌,
}
use smlnj.Tags.{word_mod}
use smlnj.Sizes.{roundup}
use smlnj.ArenaId.{max_num_gens}
use smlnj.Memory.{MemObj, Os, alloc_mem_obj, bibop_page_sz_b}
use smlnj.Bibop.{Bibop, fill}
use smlnj.Heap.{add64, sub64}
use smlnj.Generation.{System}

abbrev pub bigobj_page_shift : ℕ
bigobj_page_shift = 10

abbrev pub bigobj_page_sz_b : ℕ
bigobj_page_sz_b = 2 ^ 10

abbrev pub min_boregion_sz_b : ℕ
min_boregion_sz_b = bibop_page_sz_b

-- the states
abbrev pub bo_free_state : ℕ
bo_free_state = 0

abbrev pub bo_young : ℕ
bo_young = 1

abbrev pub bo_forward : ℕ
bo_forward = 2

abbrev pub bo_old : ℕ
bo_old = 3

abbrev pub bo_promote : ℕ
bo_promote = 4

-- `struct bigobj_region`
pub record Region : Type 0 where
  pub first_page : ℕ
  pub n_pages : ℕ
  pub n_free : ℕ
  pub min_gen : ℕ
  pub mem_obj : MemObj
  pub next : ℕ
  pub obj_map : ℕ → ℕ

-- `struct bigobj_desc` without its links
pub record Desc : Type 0 where
  pub obj : ℕ
  pub size_b : ℕ
  pub objc : ℕ
  pub state : ℕ
  pub gen : ℕ
  pub region : ℕ

-- the links of the descriptors
pub record Links : Type 0 where
  pub next : ℕ → ℕ
  pub prev : ℕ → ℕ

abbrev pub update {ℓ} : {A : Type ℓ} → (ℕ → A) → ℕ → A → ℕ → A
update f p v q = if p == q then v else f q

-- What the code reads and writes: the blocks that malloc gave for descriptors and for regions, their
-- contents, the first word of each region's memory, and the fields of `struct heap`.
pub record BoHeap : Type 0 where
  pub used_descs : ℕ → Bool
  pub used_regions : ℕ → Bool
  pub descs : ℕ → Desc
  pub links : Links
  pub regions : ℕ → Region
  pub hdr_ptr : ℕ → ℕ
  pub big_regions : ℕ
  pub free_big_objs : ℕ
  pub num_bo_regions : ℕ
  pub os : Os
  pub bibop : Bibop

-- `malloc`, given the blocks in use and the size
abbrev pub Malloc : Type 0
Malloc = (ℕ → Bool) → ℕ → Option ℕ

abbrev pub in_use : BoHeap → ℕ → Bool
in_use h p = h.used_descs p || h.used_regions p

-- `sizeof (bigobj_desc_t)`, and `BOREGION_HDR_SZB`
abbrev pub desc_sz_b : ℕ
desc_sz_b = 48

unfoldable pub boregion_hdr_sz_b : ℕ → ℕ
boregion_hdr_sz_b npages = add64 48 (sub64 npages 1 * 8)

-- a 32-bit `int` as an `Addr_t`, and the rounds of a loop up to it
unfoldable pub int_to_addr : ℕ → ℕ
int_to_addr n = if ltb n (2 ^ 31) then n else n + word_mod - 2 ^ 32

abbrev pub rounds : ℕ → ℕ
rounds n = if ltb n (2 ^ 31) then n else 0

-- `ADDR_TO_BOPAGE` as an `int`, `ADDR_TO_BODESC`
unfoldable pub addr_to_bopage : Region → ℕ → ℕ
addr_to_bopage r addr = sub64 addr r.first_page / 2 ^ 10 % 2 ^ 32

unfoldable pub addr_to_bodesc : Region → ℕ → ℕ
unfolding addr_to_bopage
addr_to_bodesc r addr = r.obj_map (addr_to_bopage r addr)

-- `BO_ROUNDED_SZB`, `BO_NUM_BOPAGES`
unfoldable pub bo_rounded_sz_b : Desc → ℕ
bo_rounded_sz_b d = roundup d.size_b 10

unfoldable pub bo_num_bopages : Desc → ℕ
unfolding bo_rounded_sz_b
bo_num_bopages d = bo_rounded_sz_b d / 2 ^ 10

-- `BO_IS_FROM_SPACE`, `BO_IS_FREE`
unfoldable pub bo_is_from_space : Desc → Bool
bo_is_from_space d = not (bit_and d.state 1 == 0)

abbrev pub bo_is_free : Desc → Bool
bo_is_free d = d.state == bo_free_state

-- `RemoveBODesc`
unfoldable pub remove_bo_desc : Links → ℕ → Links
remove_bo_desc links dp =
    let p = links.prev dp in
    let n = links.next dp in record { next = update links.next p n; prev = update links.prev n p }

-- `AddBODesc`
unfoldable pub add_bo_desc : Links → ℕ → ℕ → Links
add_bo_desc links hdr dp =
    let n = links.next hdr in
    record {
      next = update (update links.next dp n) hdr dp;
      prev = update (update links.prev dp hdr) n dp;
    }

-- how an allocation ends: with a descriptor, with `Die`, with a write through the null pointer, or
-- out of fuel
pub data BoOutcome : Type 0 where
  gives : ℕ → BoHeap → BoOutcome
  died : BoOutcome
  null_write : BoOutcome
  stuck : BoOutcome

-- the pages for the request, and the size of the memory object
unfoldable pub region_pages : ℕ → ℕ
region_pages req_szb =
    let szb = if ltb req_szb min_boregion_sz_b then min_boregion_sz_b else req_szb in
    roundup szb 10 / 2 ^ 10 % 2 ^ 32

unfoldable pub region_mem_sz_b : ℕ → ℕ
unfolding int_to_addr
region_mem_sz_b npages = int_to_addr ((npages + 1) * 2 ^ 10 % 2 ^ 32)

-- the initialisation of a new region and its descriptor
unfoldable pub set_up_region : (ℕ → ℕ) → BoHeap → MemObj → ℕ → ℕ → ℕ → BoHeap
unfolding int_to_addr
set_up_region garbage h obj region desc npages =
    let first = add64 obj.base bigobj_page_sz_b in
    record h {
      used_descs = update h.used_descs desc true;
      used_regions = update h.used_regions region true;
      hdr_ptr = update h.hdr_ptr obj.base region;
      regions = update h.regions region (record {
        first_page = first;
        n_pages = npages;
        n_free = npages;
        min_gen = max_num_gens;
        mem_obj = obj;
        next = h.big_regions;
        obj_map = fill garbage 0 (rounds npages) desc;
      });
      descs = update h.descs desc (record (h.descs desc) {
        obj = first;
        size_b = int_to_addr (npages * 2 ^ 10 % 2 ^ 32);
        state = bo_free_state;
        region = region;
      });
      big_regions = region;
      num_bo_regions = (h.num_bo_regions + 1) % 2 ^ 32;
    }

-- the blocks for the header and for the descriptor
unfoldable pub with_desc : System → Malloc → BoHeap → MemObj → ℕ → Option ℕ → BoOutcome
unfolding set_up_region
with_desc sys malloc h obj npages none = died
with_desc sys malloc h obj npages (some region) =
    let used = λ (p : ℕ). (region == p) || in_use h p in
    elim (malloc used desc_sz_b) [
      | none ↦ died
      | some desc ↦ gives desc (set_up_region sys.garbage h obj region desc npages)
    ]

unfoldable pub with_mem_obj : System → Malloc → BoHeap → ℕ → Os × Option MemObj → BoOutcome
unfolding with_desc boregion_hdr_sz_b int_to_addr
with_mem_obj sys malloc h npages (os, none) = died
with_mem_obj sys malloc h npages (os, some obj) =
    let hdr_szb = boregion_hdr_sz_b (int_to_addr npages) in
    with_desc sys malloc (record h { os = os }) obj npages (malloc (in_use h) hdr_szb)

-- `BO_AllocRegion`
unfoldable pub bo_alloc_region : System → Malloc → BoHeap → ℕ → BoOutcome
unfolding region_pages region_mem_sz_b with_mem_obj
bo_alloc_region sys malloc h req_szb =
    let npages = region_pages req_szb in
    with_mem_obj sys malloc h npages
      (alloc_mem_obj sys.mmap sys.new_obj h.os (region_mem_sz_b npages))
