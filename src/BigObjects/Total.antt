-- ===== src/BigObjects/Total.antt =====
-- `BO_Alloc` on every branch.
use smlnj.Prelude.{
  Bool, ℕ, ◌+◌, ◌*◌, ◌^◌, ◌<◌, ◌≤◌, ◌≡◌, ◌≢◌, refl, sym, ap, ◌⊎◌, inl, inr, false, Option, none,
  some, List, ◌∷◌, length, arith, ◌==◌, ◌||◌, Option-cases, ==_refl, ==_ne,
}
use mathlib.Core.Path.{subst}
use smlnj.Sizes.{roundup}
use smlnj.Generation.{System}
use smlnj.Memory.{MemObj, Os, alloc_mem_obj}
use smlnj.Memory.Mapped.{GivesFresh}
use smlnj.Memory.Objects.{alloc_mem_obj-cases}
use smlnj.BigObjects.{
  BoHeap, Malloc, in_use, desc_sz_b, boregion_hdr_sz_b, int_to_addr, BoOutcome, died, null_write,
  region_pages, region_mem_sz_b, set_up_region, with_desc, with_mem_obj, bo_alloc_region,
}
use smlnj.BigObjects.Alloc.{use_region, place, bo_alloc}
use smlnj.BigObjects.Pages.{pages-RoundedUp}
use smlnj.BigObjects.Ring.{remove_bo_desc-Ring}
use smlnj.BigObjects.Search.{NoFit, FirstFit, find_fit-first}
use smlnj.BigObjects.Whole.{Shaped}
use smlnj.BigObjects.Taking.{free-obj}
use smlnj.BigObjects.AllocLaws.{GivesNew, Done, use_free-Done}
use smlnj.BigObjects.Allocate.{region_pages-eq, os-Shaped, region-Done}

os-Done :
    {h : BoHeap} {rs rs' : List ℕ} {gen sz : ℕ} {o : BoOutcome} (os : Os)
    → Done (record h { os = os }) rs rs' gen sz o
    → Done h rs rs' gen sz o
os-Done os done = record {
  desc = done.desc;
  heap = done.heap;
  runs = done.runs;
  fs' = done.fs';
  shaped = done.shaped;
  served = record {
    live = done.served.live;
    size = done.served.size;
    young = done.served.young;
    of_gen = done.served.of_gen;
    busy_kept = done.served.busy_kept;
    from_free = done.served.from_free;
    free_kept = done.served.free_kept;
  };
}

-- the size of a region's header
abbrev pub hdr_sz : ℕ → ℕ
hdr_sz sz = boregion_hdr_sz_b (int_to_addr (region_pages (roundup sz 10)))

-- the blocks in use with the header `r` of a new region
abbrev pub with_hdr : BoHeap → ℕ → ℕ → Bool
with_hdr h r = λ (p : ℕ). (r == p) || in_use h p

-- Without a memory object for a region, a block for its header or one for its descriptor, the
-- allocation dies. Without a block for the descriptor of a new region's rest, it writes through the
-- null pointer.
abbrev pub Refused : System → Malloc → BoHeap → ℕ → BoOutcome → Type 0
Refused sys malloc h sz o =
    ((o ≡ died)
      × (((alloc_mem_obj sys.mmap sys.new_obj h.os
              (region_mem_sz_b (region_pages (roundup sz 10)))).1
            ≡ none)
          ⊎ (malloc (in_use h) (hdr_sz sz) ≡ none)
          ⊎ ((r : ℕ) × (malloc (in_use h) (hdr_sz sz) ≡ some r)
              × (malloc (with_hdr h r) desc_sz_b ≡ none))))
    ⊎ ((o ≡ null_write)
        × (region_pages (roundup sz 10) * 2 ^ 10 ≢ roundup sz 10)
        × ((obj : MemObj) × (r : ℕ) × (d : ℕ) × (malloc (in_use h) (hdr_sz sz) ≡ some r)
            × (malloc (with_hdr h r) desc_sz_b ≡ some d)
            × (malloc (in_use (set_up_region sys.garbage h obj r d (region_pages (roundup sz 10))))
                  desc_sz_b
                ≡ none)))

-- A free object is big enough and has to be split, but there is no block for the descriptor.
abbrev pub NoSplit : Malloc → BoHeap → List ℕ → ℕ → BoOutcome → Type 0
NoSplit malloc h fs sz o =
    (o ≡ null_write)
    × ((dp : ℕ) × FirstFit h (roundup sz 10) fs dp × ((h.descs dp).size_b ≢ roundup sz 10))
    × (malloc (in_use h) desc_sz_b ≡ none)

module _ (sys : System) (malloc : Malloc) (maps : GivesFresh sys.mmap) (news : GivesNew malloc)
    (h : BoHeap) (rs fs : List ℕ) (v : Shaped h rs fs) (gen sz : ℕ) (some_bytes : 0 < sz)
    (small : sz + 2 ^ 12 ≤ 2 ^ 31) where
  abbrev from_region : BoOutcome → BoOutcome
  from_region o = use_region sys malloc gen sz o

  size : (k : ℕ) × (roundup sz 10 ≡ k * 2 ^ 10) × (k + 2 < 2 ^ 21)
  size =
      let (k, whole, low, high) = pages-RoundedUp sz (omega (arith, small)) in
      (k, whole, omega (arith, whole, high, small))

  abbrev np : ℕ
  np = region_pages (roundup sz 10)

  -- the region's header and descriptor
  blocks :
      (os : Os) (obj : MemObj) (hdr : Option ℕ)
      → hdr ≡ malloc (in_use h) (boregion_hdr_sz_b (int_to_addr np))
      → obj.base + (np + 1) * 2 ^ 10 ≤ 2 ^ 47
      → Refused sys malloc h sz
          (from_region (with_desc sys malloc (record h { os = os }) obj np hdr))
        ⊎ ((r : ℕ) × Done h rs
              (r ∷ rs)
              gen
              sz
              (from_region (with_desc sys malloc (record h { os = os }) obj np hdr)))
  unfolding with_desc use_region set_up_region
  blocks os obj none asked fits = inl (inl (refl, inr (inl (sym asked))))
  blocks os obj (some r) asked fits =
      let used = λ (p : ℕ). (r == p) || in_use h p in
      let (k, takes, few) = size in
      let new_r : h.used_regions r ≡ false = ground (arith, news (in_use h) _ r (sym asked)) in
      elim (Option-cases (malloc used desc_sz_b)) [
        | inl stop ↦ inl (inl (rw (stop, use_region) refl, inr (inr (r, sym asked, stop))))
        | inr (d, got) ↦
            let new_d : h.used_descs d ≡ false = ground (arith, news used desc_sz_b d got) in
            elim (region-Done sys malloc news (record h { os = os }) rs fs (os-Shaped os v) gen sz k
              takes some_bytes small few obj r d new_r new_d fits) [
                | inl (stop, split, why) ↦
                    inl (inr (rw (got, use_region) stop, split, (obj, r, d, sym asked, got, why)))
                | inr done ↦ inr (r, rw (got, use_region) (os-Done os done))
              ]
      ]

  -- a new region
  from_new :
      Refused sys malloc h sz (from_region (bo_alloc_region sys malloc h (roundup sz 10)))
      ⊎ ((r : ℕ) × Done h rs
            (r ∷ rs)
            gen
            sz
            (from_region (bo_alloc_region sys malloc h (roundup sz 10))))
  unfolding bo_alloc_region with_mem_obj use_region
  from_new =
      let (k, takes, few) = size in
      let (more, pos, bound, mem) = region_pages-eq (roundup sz 10) k takes few in
      elim (alloc_mem_obj-cases maps sys.new_obj h.os (region_mem_sz_b np)
        (omega (arith, mem, bound))) [
          | inl stop ↦ inl (
              inl (
                rw (stop, with_mem_obj, use_region) refl,
                inl (ap (λ (x : Os × Option MemObj). x.1) stop),
              ))
          | inr (os', obj, run, o) ↦
              subst
                (λ (x : Os × Option MemObj).
                  Refused sys malloc h sz (from_region (with_mem_obj sys malloc h np x))
                  ⊎ ((r : ℕ) × Done h rs (r ∷ rs) gen sz
                        (from_region (with_mem_obj sys malloc h np x))))
                (sym run)
                (blocks os' obj (malloc (in_use h) (boregion_hdr_sz_b (int_to_addr np))) refl
                  (omega (arith, o.enough, o.inside, mem)))
        ]

  -- For a heap whose regions and free list are well formed, and a request of at least one byte and
  -- at most 2 ^ 31 - 2 ^ 12, `BO_Alloc` ends, where `mmap` gives free regions, `malloc` gives
  -- blocks that are not in use, and there is as much fuel as the free list has objects and one
  -- more. It gives a young object of the size and the generation, and the heap is well formed
  -- again: no page of another object was touched, the object's pages were free or those of a new
  -- region, and the other free pages still are free. Or it fails. Only where no free object is big
  -- enough is a region added, or does it die, and then `MEM_AllocMemObj` gave no memory object or
  -- `malloc` no block for the region's header or its descriptor. It writes through a null pointer
  -- only if an object has to be split and `malloc` gives no block for the descriptor.
  pub bo_alloc-Shaped :
      (fuel : ℕ)
      → length fs < fuel
      → NoSplit malloc h fs sz (bo_alloc sys malloc fuel h gen sz)
        ⊎ Done h rs rs gen sz (bo_alloc sys malloc fuel h gen sz)
        ⊎ (NoFit h (roundup sz 10) fs
            × (Refused sys malloc h sz (bo_alloc sys malloc fuel h gen sz)
                ⊎ ((r : ℕ) × Done h rs (r ∷ rs) gen sz (bo_alloc sys malloc fuel h gen sz))))
  unfolding bo_alloc place
  bo_alloc-Shaped fuel enough = elim (find_fit-first {h = h} v.ring fuel (roundup sz 10) enough) [
    | inl (run, too_small) ↦
        rw (run, place, ==_refl h.free_big_objs) (inr (inr (too_small, from_new)))
    | inr (dp, run, first) ↦
        let o = free-obj v dp first.free in
        rw (run, place, ==_ne dp h.free_big_objs o.desc_ok.not_hdr)
          (elim (use_free-Done sys malloc news h rs fs v dp gen sz first.free first.fits some_bytes
            small false h.links v.ring (remove_bo_desc-Ring dp v.ring first.free)) [
              | inl (stop, split, why) ↦ inl (stop, (dp, first, split), why)
              | inr done ↦ inr (inl done)
            ])
  ]
