-- ===== src/BigObjects/NewRegion.antt =====
-- `BO_AllocRegion`: the heap with the new region, once its object is in the free list.
use smlnj.Prelude.{
  ℕ, zero, suc, ◌+◌, ◌*◌, ◌%◌, ◌^◌, ◌<◌, ◌≤◌, ◌≡◌, ◌≢◌, refl, sym, ap, ◌∙◌, inl, inr, Bool, true,
  false, List, ◌∷◌, arith, ◌==◌, Bool-cases, ==_iff,
}
use mathlib.Core.Path.{subst}
use smlnj.Memory.{MemObj}
use smlnj.Bibop.Rows.{fill-eq}
use smlnj.Heap.{add64}
use smlnj.BigObjects.{
  Region, Desc, BoHeap, rounds, int_to_addr, bo_is_free, add_bo_desc, set_up_region,
}
use smlnj.BigObjects.Pages.{num_bopages-exact, bopage-exact}
use smlnj.BigObjects.Tiles.{tile-of}
use smlnj.BigObjects.Counts.{count}
use smlnj.BigObjects.Ring.{member, update-same, update-other, add_bo_desc-Ring}
use smlnj.BigObjects.Whole.{start_of, pages_of, is_free, DescOk, RegionOk, MappedAt, Shaped}
use smlnj.BigObjects.Frame.{Step, Step-Shaped}
use smlnj.BigObjects.Taking.{free-obj, update-SameShape}

-- a new region `r` of `n` pages, all of the free object `d`
module _ (garbage : ℕ → ℕ) (h : BoHeap) (rs fs : List ℕ) (v : Shaped h rs fs) (obj : MemObj)
    (r d n : ℕ) (new_region : h.used_regions r ≡ false) (new_desc : h.used_descs d ≡ false)
    (some_pages : 0 < n) (few : n + 1 < 2 ^ 21) (fits : obj.base + (n + 1) * 2 ^ 10 ≤ 2 ^ 47) where
  abbrev pub region_set_up : BoHeap
  region_set_up = set_up_region garbage h obj r d n

  abbrev pub new_heap : BoHeap
  new_heap = record region_set_up { links = add_bo_desc h.links h.free_big_objs d }

  first : add64 obj.base (2 ^ 10) ≡ obj.base + 2 ^ 10
  first = omega (arith, fits)

  new_heap-desc : new_heap.descs d ≡ record (h.descs d) {
    obj = add64 obj.base (2 ^ 10);
    size_b = int_to_addr (n * 2 ^ 10 % 2 ^ 32);
    state = 0;
    region = r;
  }
  unfolding set_up_region
  new_heap-desc = update-same h.descs d _

  pub new_heap-other : (p : ℕ) → p ≢ d → new_heap.descs p ≡ h.descs p
  unfolding set_up_region
  new_heap-other p ne = update-other h.descs d p _ λ q. ne (sym q)

  pub new_size : (new_heap.descs d).size_b ≡ n * 2 ^ 10
  unfolding int_to_addr
  new_size = ap (λ (x : Desc). x.size_b) new_heap-desc ∙ ground (arith, few)

  reg_first : (new_heap.regions r).first_page ≡ obj.base + 2 ^ 10
  unfolding set_up_region
  reg_first = ap (λ (x : Region). x.first_page) (update-same h.regions r _) ∙ first

  reg_pages : (new_heap.regions r).n_pages ≡ n
  unfolding set_up_region
  reg_pages = ap (λ (x : Region). x.n_pages) (update-same h.regions r _)

  reg_free : (new_heap.regions r).n_free ≡ n
  unfolding set_up_region
  reg_free = ap (λ (x : Region). x.n_free) (update-same h.regions r _)

  reg_map : (i : ℕ) → i < n → (new_heap.regions r).obj_map i ≡ d
  unfolding set_up_region
  reg_map i small =
      let all : rounds n ≡ n = ground (arith, few) in
      ap (λ (x : Region). x.obj_map i) (update-same h.regions r _)
      ∙ fill-eq garbage 0 (rounds n) d i
      ∙ ground (arith, all, small)

  start_page : start_of (new_heap.regions r) new_heap.descs d ≡ 0
  start_page =
      bopage-exact (new_heap.regions r) (new_heap.descs d).obj 0
        (omega (arith, ap (λ (x : Desc). x.obj) new_heap-desc, first, reg_first)) (omega arith)
        (omega (arith, reg_first, fits))

  pages : pages_of new_heap.descs d ≡ n
  pages = num_bopages-exact (new_heap.descs d) n new_size (omega (arith, few))

  free : is_free new_heap.descs d ≡ true
  free = ap (λ (x : Desc). bo_is_free x) new_heap-desc

  count-all : (f : ℕ → Bool) (k : ℕ) → ((i : ℕ) → i < k → f i ≡ true) → count f k ≡ k
  count-all f zero t = refl
  count-all f (suc k) t = ground (arith, t k (omega arith), count-all f k λ i p. t i (omega arith))

  new_desc_ok : DescOk new_heap.descs new_heap.used_descs h.free_big_objs r (new_heap.regions r) d
  unfolding set_up_region
  new_desc_ok = record {
    placed = omega (arith, ap (λ (x : Desc). x.obj) new_heap-desc, first, reg_first, start_page);
    sized = λ f. omega (arith, new_size, pages);
    owned = ap (λ (x : Desc). x.region) new_heap-desc;
    live = update-same h.used_descs d true;
    not_hdr = λ q. ground (arith, ap h.used_descs q, v.hdr_used, new_desc);
  }

  new_ok : RegionOk new_heap.descs new_heap.used_descs h.free_big_objs r (new_heap.regions r)
  new_ok = record {
    some_pages = omega (arith, reg_pages, some_pages);
    few = omega (arith, reg_pages, few);
    fits = omega (arith, reg_pages, reg_first, fits);
    tiled = λ i small.
        tile-of d (reg_map i (omega (arith, small, reg_pages))) (omega (arith, start_page))
          (omega (arith, start_page, pages, small, reg_pages))
          (omega (arith, start_page, pages, reg_pages))
          λ j lo hi. reg_map j (omega (arith, start_page, pages, hi));
    descs_ok = λ i small.
        subst (DescOk new_heap.descs new_heap.used_descs h.free_big_objs r (new_heap.regions r))
          (sym (reg_map i (omega (arith, small, reg_pages)))) new_desc_ok;
    coalesced = λ i small f g.
        reg_map i (omega (arith, small, reg_pages))
        ∙ sym (reg_map (i + 1) (omega (arith, small, reg_pages)));
    counted =
        reg_free
        ∙ sym (
            count-all (λ i. is_free new_heap.descs ((new_heap.regions r).obj_map i)) n
              λ i small. ap (is_free new_heap.descs) (reg_map i small) ∙ free)
        ∙ sym (ap (count (λ i. is_free new_heap.descs ((new_heap.regions r).obj_map i))) reg_pages);
  }

  pub old_ne : (p : ℕ) → h.used_descs p ≡ true → p ≢ d
  old_ne p u q = ground (arith, ap h.used_descs q, u, new_desc)

  pub region_ne : (r' : ℕ) → member r' rs ≡ true → r' ≢ r
  region_ne r' k q = ground (arith, ap h.used_regions q, v.regions_used r' k, new_region)

  pub new_heap-region : (r' : ℕ) → r' ≢ r → new_heap.regions r' ≡ h.regions r'
  unfolding set_up_region
  new_heap-region r' ne = update-other h.regions r r' _ λ q. ne (sym q)

  not_listed : member d (h.free_big_objs ∷ fs) ≡ false
  not_listed = elim (Bool-cases (member d (h.free_big_objs ∷ fs))) [
    | inr e ↦ e
    | inl e ↦ elim (Bool-cases (h.free_big_objs == d)) [
      | inl same ↦ absurd (
          ground (arith, ap h.used_descs ((==_iff h.free_big_objs d).0 same), v.hdr_used, new_desc))
      | inr other ↦ absurd (old_ne d (free-obj v d (ground (arith, e, other))).desc_ok.live refl)
    ]
  ]

  new-Step : Step h new_heap r fs (d ∷ fs)
  unfolding set_up_region
  new-Step = record {
    ok = new_ok;
    same_hdr = refl;
    hdr_used = ground (arith, v.hdr_used);
    region_used = update-same h.used_regions r true;
    regions_used = λ r' u. ground (arith, u);
    others = λ r' ne. update-SameShape h.regions r r' _ ne;
    frame = λ p u away. (new_heap-other p (old_ne p u), ground (arith, u));
    ring = add_bo_desc-Ring d v.ring not_listed;
    kept = λ p u away k. ground (arith, k);
    back = λ p k away.
        let ne : p ≢ d = λ q. away (
          ap (λ (x : ℕ). (new_heap.descs x).region) q
          ∙ ap (λ (x : Desc). x.region) new_heap-desc) in
        let k' : member p fs ≡ true = ground (arith, k, λ (q : d ≡ p). ne (sym q)) in
        let o = free-obj v p k' in
        (k', o.desc_ok.live, λ q. away (ap (λ (x : Desc). x.region) (new_heap-other p ne) ∙ q));
    listed = λ i small f.
        ap (λ (x : ℕ). member x (d ∷ fs)) (reg_map i (omega (arith, small, reg_pages)))
        ∙ ground arith;
    only_free = λ p k e. elim (Bool-cases (d == p)) [
      | inl same ↦
          let q = (==_iff d p).0 same in
          subst
            (λ (x : ℕ).
              (is_free new_heap.descs x ≡ true) × MappedAt new_heap.descs (new_heap.regions r) x)
            q
            (
              free,
              (
                omega (arith, start_page, reg_pages, some_pages),
                ap (new_heap.regions r).obj_map start_page ∙ reg_map 0 some_pages,
              ),
            )
      | inr other ↦
          let k' : member p fs ≡ true = ground (arith, k, other) in
          let o = free-obj v p k' in
          let e' =
            sym (ap (λ (x : Desc). x.region) (new_heap-other p (old_ne p o.desc_ok.live))) ∙ e in
          absurd (region_ne (h.descs p).region (v.only_free p k').0 e')
    ];
  }

  -- The heap is well formed once the new object is in the free list.
  pub new-Shaped : Shaped new_heap (r ∷ rs) (d ∷ fs)
  new-Shaped =
      Step-Shaped v new-Step (λ r' ne k. ground (arith, k, λ (q : r ≡ r'). ne (sym q)))
        (λ r' k. ground (arith, k)) (ground arith)
