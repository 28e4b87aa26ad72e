-- ===== src/BigObjects/Allocate.antt =====
-- `BO_Alloc`: the search, a new region, and the object.
use smlnj.Prelude.{
  none, ◌≢◌, ℕ, ◌+◌, ◌-◌, ◌*◌, ◌/◌, ◌%◌, ◌^◌, ◌<◌, ◌≤◌, ◌≡◌, sym, ap, ◌∙◌, ◌⊎◌, inl, inr, true,
  false, List, ◌∷◌, arith, if◌then◌else◌, ltb, ==_refl,
}
use smlnj.Sizes.{roundup}
use smlnj.Generation.{System}
use smlnj.Memory.{MemObj, Os}
use smlnj.BigObjects.{
  in_use, desc_sz_b, Region, Desc, BoHeap, Malloc, int_to_addr, bo_is_free, null_write,
  region_pages, region_mem_sz_b, set_up_region,
}
use smlnj.BigObjects.Alloc.{use_free}
use smlnj.BigObjects.Pages.{pages-RoundedUp}
use smlnj.BigObjects.Ring.{member}
use smlnj.BigObjects.Whole.{is_free, Shaped}
use smlnj.BigObjects.Served.{Served}
use smlnj.BigObjects.FreeLaws.{page_is_free}
use smlnj.BigObjects.NewRegion
use smlnj.BigObjects.AllocLaws.{GivesNew, Done, use_free-Done}

-- The pages of a new region hold the request.
pub region_pages-eq :
    (tot k : ℕ)
    → tot ≡ k * 2 ^ 10
    → k + 2 < 2 ^ 21
    → (k ≤ region_pages tot)
      × (0 < region_pages tot)
      × (region_pages tot + 1 < 2 ^ 21)
      × (region_mem_sz_b (region_pages tot) ≡ (region_pages tot + 1) * 2 ^ 10)
unfolding region_pages region_mem_sz_b int_to_addr
region_pages-eq tot k e small =
    let szb = if ltb tot (2 ^ 18) then 2 ^ 18 else tot in
    let low : tot ≤ szb = ground arith in
    let least : 2 ^ 18 ≤ szb = ground arith in
    let most : szb < 2 ^ 31 - 2 ^ 11 = ground (arith, e, small) in
    let (q, whole, under, over) = pages-RoundedUp szb (omega (arith, most)) in
    let n : roundup szb 10 / 2 ^ 10 % 2 ^ 32 ≡ q = omega (arith, whole, under, over, most) in
    (
      omega (arith, n, whole, under, low, e),
      omega (arith, n, whole, under, least),
      omega (arith, n, whole, over, most),
      ground (arith, n, whole, over, most),
    )

-- The account of the mapped memory is no part of a well-formed heap.
pub os-Shaped :
    {h : BoHeap} {rs fs : List ℕ} (os : Os) → Shaped h rs fs → Shaped (record h { os = os }) rs fs
os-Shaped os v = record {
  regions_ok = v.regions_ok;
  regions_used = v.regions_used;
  hdr_used = v.hdr_used;
  ring = v.ring;
  listed = v.listed;
  only_free = v.only_free;
}

module _ (sys : System) (malloc : Malloc) (news : GivesNew malloc) (h : BoHeap) (rs fs : List ℕ)
    (v : Shaped h rs fs) (gen sz k : ℕ) (takes : roundup sz 10 ≡ k * 2 ^ 10) (some_bytes : 0 < sz)
    (small : sz + 2 ^ 12 ≤ 2 ^ 31) (few : k + 2 < 2 ^ 21) where
  abbrev n : ℕ
  n = region_pages (roundup sz 10)

  -- the region `r` with the descriptor `d` in the memory object
  module _ (obj : MemObj) (r d : ℕ) (new_region : h.used_regions r ≡ false)
      (new_desc : h.used_descs d ≡ false) (fits : obj.base + (n + 1) * 2 ^ 10 ≤ 2 ^ 47) where
    pages : (k ≤ n) × (0 < n) × (n + 1 < 2 ^ 21) × (region_mem_sz_b n ≡ (n + 1) * 2 ^ 10)
    pages = region_pages-eq (roundup sz 10) k takes few

    abbrev ghost_heap : BoHeap
    ghost_heap =
        NewRegion.new_heap sys.garbage h rs fs v obj r d n new_region new_desc pages.1 pages.2 fits

    abbrev real_heap : BoHeap
    real_heap = set_up_region sys.garbage h obj r d n

    shaped : Shaped ghost_heap (r ∷ rs) (d ∷ fs)
    shaped =
        NewRegion.new-Shaped sys.garbage h rs fs v obj r d n new_region new_desc pages.1 pages.2
          fits

    old_region : (r' : ℕ) → member r' rs ≡ true → ghost_heap.regions r' ≡ h.regions r'
    old_region r' k' =
        NewRegion.new_heap-region sys.garbage h rs fs v obj r d n new_region new_desc pages.1
          pages.2 fits r'
          (NewRegion.region_ne sys.garbage h rs fs v obj r d n new_region new_desc pages.1 pages.2
            fits r' k')

    old_desc : (x : ℕ) → h.used_descs x ≡ true → ghost_heap.descs x ≡ h.descs x
    old_desc x u =
        NewRegion.new_heap-other sys.garbage h rs fs v obj r d n new_region new_desc pages.1 pages.2
          fits x
          (NewRegion.old_ne sys.garbage h rs fs v obj r d n new_region new_desc pages.1 pages.2 fits
            x u)

    old_map :
        (r' i : ℕ)
        → member r' rs ≡ true
        → (ghost_heap.regions r').obj_map i ≡ (h.regions r').obj_map i
    old_map r' i k' = ap (λ (x : Region). x.obj_map i) (old_region r' k')

    old_page :
        (r' i : ℕ)
        → member r' rs ≡ true
        → i < (h.regions r').n_pages
        → ghost_heap.descs ((h.regions r').obj_map i) ≡ h.descs ((h.regions r').obj_map i)
    old_page r' i k' small' = old_desc _ ((v.regions_ok r' k').descs_ok i small').live

    old_free :
        (r' i : ℕ)
        → member r' rs ≡ true
        → i < (h.regions r').n_pages
        → page_is_free ghost_heap r' i ≡ page_is_free h r' i
    old_free r' i k' small' =
        ap (is_free ghost_heap.descs) (old_map r' i k')
        ∙ ap (λ (x : Desc). bo_is_free x) (old_page r' i k' small')

    -- what holds against the heap with the region holds against the one before
    unghost :
        {heap : BoHeap} {desc : ℕ}
        → Served ghost_heap heap (r ∷ rs) (r ∷ rs) desc gen sz
        → Served h heap rs (r ∷ rs) desc gen sz
    unghost {heap} s =
        let small'' = λ (r' i : ℕ) (k' : member r' rs ≡ true) (b : i < (h.regions r').n_pages).
          in_ghost r' i k' b in
        let known = λ (r' : ℕ) (k' : member r' rs ≡ true). widen r' k' in
        record {
          live = s.live;
          size = s.size;
          young = s.young;
          of_gen = s.of_gen;
          busy_kept = λ r' i k' b e.
              let (m, x) =
                s.busy_kept r' i (known r' k') (small'' r' i k' b) (old_free r' i k' b ∙ e) in
              (
                m ∙ old_map r' i k',
                sym (ap heap.descs (old_map r' i k'))
                    ∙ x
                    ∙ ap ghost_heap.descs (old_map r' i k')
                    ∙ old_page r' i k' b,
              );
          from_free = λ r' i k' b mine.
              sym (old_free r' i k' b) ∙ s.from_free r' i (known r' k') (small'' r' i k' b) mine;
          free_kept = λ r' i k' b f.
              s.free_kept r' i (known r' k') (small'' r' i k' b) (old_free r' i k' b ∙ f);
        }
      where
        in_ghost :
            (r' i : ℕ)
            → member r' rs ≡ true
            → i < (h.regions r').n_pages
            → i < (ghost_heap.regions r').n_pages
        in_ghost r' i k' b = omega (arith, b, ap (λ (x : Region). x.n_pages) (old_region r' k'))

        widen : (r' : ℕ) → member r' rs ≡ true → member r' (r ∷ rs) ≡ true
        widen r' k' = ground (arith, k')

    -- The new region serves the request.
    pub region-Done :
        ((use_free sys malloc true real_heap d gen sz ≡ null_write)
          × (n * 2 ^ 10 ≢ roundup sz 10)
          × (malloc (in_use real_heap) desc_sz_b ≡ none))
        ⊎ Done h rs (r ∷ rs) gen sz (use_free sys malloc true real_heap d gen sz)
    unfolding set_up_region
    region-Done =
        let size =
          NewRegion.new_size sys.garbage h rs fs v obj r d n new_region new_desc pages.1 pages.2
            fits in
        elim (use_free-Done sys malloc news ghost_heap (r ∷ rs) (d ∷ fs) shaped d gen sz
          (ground arith) (omega (arith, size, takes, pages.0)) some_bytes small true h.links
          shaped.ring (rw (==_refl d) v.ring)) [
            | inl (stop, split, why) ↦ inl (stop, λ e. split (omega (arith, size, e)), why)
            | inr done ↦ inr (record {
              desc = done.desc;
              heap = done.heap;
              runs = done.runs;
              fs' = done.fs';
              shaped = done.shaped;
              served = unghost done.served;
            })
          ]
