-- ===== src/BigObjects/Find.antt =====
-- `BO_GetDesc` and `BO_AddrToCodeObjTag`: from an address to its object.
use smlnj.Prelude.{
  ℕ, zero, suc, ◌+◌, ◌-◌, ◌*◌, ◌/◌, ◌^◌, ◌<◌, ◌≤◌, ◌≡◌, refl, sym, ap, ◌∙◌, inl, inr, true, false,
  some, List, arith, ◌==◌, Bool-cases, ==_iff,
}
use smlnj.ArenaId.{bo_is_hdr, is_bigobj_aid}
use smlnj.ArenaId.Laws.{bigobj_aids}
use smlnj.Memory.{MemObj}
use smlnj.Bibop.{Bibop, addr_to_index, index_to_addr, addr_to_pageid, index_to_pageid}
use smlnj.Bibop.Region.{addr_to_pageid-index}
use smlnj.Generation.Layout.{Pages}
use smlnj.BigObjects.{BoHeap, Region, addr_to_bopage, addr_to_bodesc}
use smlnj.BigObjects.Lookup.{
  find_hdr, desc_from, bo_get_desc, bo_get_code_obj_tag, tag_at, tag_of, bo_addr_to_code_obj_tag,
}
use smlnj.BigObjects.Tiles.{tile-within}
use smlnj.BigObjects.Whole.{start_of, pages_of, Shaped}
use smlnj.BigObjects.Released.{LiveObj}
use smlnj.BigObjects.Marks.{page, Marked}

-- the region's memory: its pages are marked, its first word leads to the header `r`, and the
-- big-object pages lie in it
pub record Housed (h : BoHeap) (r gen : ℕ) : Type 0 where
  pub aligned : Pages (h.regions r).mem_obj.base
  pub header : h.hdr_ptr (h.regions r).mem_obj.base ≡ r
  pub above : (h.regions r).mem_obj.base ≤ (h.regions r).first_page
  pub below :
      (h.regions r).first_page + (h.regions r).n_pages * 2 ^ 10
      ≤ (h.regions r).mem_obj.base + (h.regions r).mem_obj.size_b
  pub marks : Marked h.bibop (h.regions r).mem_obj gen
  pub small_gen : gen < 16

module _ (b : Bibop) (obj : MemObj) (gen q : ℕ) (at : obj.base ≡ q * 2 ^ 18)
    (marks : Marked b obj gen) (small : gen < 16) where
  -- the identifier of a page of the memory object, by its index
  page_aid :
      (i : ℕ)
      → q ≤ i
      → i * 2 ^ 18 < obj.base + obj.size_b
      → bo_is_hdr (index_to_pageid b i) ≡ (q == i)
  unfolding addr_to_index
  page_aid i low high =
      let same : addr_to_index (i * 2 ^ 18) ≡ i = omega arith in
      let id =
        sym (addr_to_pageid-index b (i * 2 ^ 18) ∙ ap (index_to_pageid b) same)
        ∙ marks (i * 2 ^ 18) (ground (arith, at, low, high)) in
      let (big, (plain, header), gens) = bigobj_aids gen small in
      ap bo_is_hdr id ∙ elim (Bool-cases (q == i)) [
        | inl e ↦
            let first : (page obj.base == page (i * 2 ^ 18)) ≡ true = ground (arith, e, at) in
            rw (first, e) header
        | inr e ↦
            let other : (page obj.base == page (i * 2 ^ 18)) ≡ false = ground (arith, e, at) in
            rw (other, e) plain
      ]

  -- the loop stops at the first page of the memory object
  find_hdr-first : (i : ℕ) → q ≤ i → i * 2 ^ 18 < obj.base + obj.size_b → find_hdr b i ≡ some q
  unfolding find_hdr
  find_hdr-first zero low high =
      let e : (q == zero) ≡ true = ground (arith, low) in
      rw (page_aid zero low high ∙ e) (ap some (omega (arith, low)))
  find_hdr-first (suc i) low high = elim (Bool-cases (q == suc i)) [
    | inl e ↦ rw (page_aid (suc i) low high ∙ e) (ap some (sym ((==_iff q (suc i)).0 e)))
    | inr e ↦
        rw (page_aid (suc i) low high ∙ e)
          (find_hdr-first i (ground (arith, low, e)) (omega (arith, high)))
  ]

module _ {h : BoHeap} {rs fs : List ℕ} (v : Shaped h rs fs) (d gen addr : ℕ) (o : LiveObj h rs d)
    (house : Housed h (h.descs d).region gen) (from : (h.descs d).obj ≤ addr)
    (to : addr < (h.descs d).obj + pages_of h.descs d * 2 ^ 10) where
  abbrev r : ℕ
  r = (h.descs d).region

  abbrev reg : Region
  reg = h.regions r

  in_region :
      (addr ≡ reg.first_page + (addr - reg.first_page))
      × (addr < reg.first_page + reg.n_pages * 2 ^ 10)
      × (reg.obj_map (addr_to_bopage reg addr) ≡ d)
  unfolding addr_to_bopage
  in_region =
      let ok = v.regions_ok r o.in_rs in
      let s = start_of reg h.descs d in
      let tile = ok.tiled s o.at.0 in
      let inside : s + pages_of h.descs d ≤ reg.n_pages =
        omega
          (arith, tile.inside, ap (start_of reg h.descs) o.at.1, ap (pages_of h.descs) o.at.1) in
      let placed = (ok.descs_ok s o.at.0).placed in
      let at : (h.descs d).obj ≡ reg.first_page + s * 2 ^ 10 =
        omega (
          arith,
          placed,
          ap (λ (x : ℕ). (h.descs x).obj) o.at.1,
          ap (start_of reg h.descs) o.at.1,
        ) in
      let i = addr_to_bopage reg addr in
      let where_it_is : i ≡ (addr - reg.first_page) / 2 ^ 10 =
        omega (arith, at, from, to, inside, ok.few, ok.fits) in
      let small : i < reg.n_pages = omega (arith, where_it_is, at, from, to, inside) in
      let mine = tile-within ok.tiled d i small o.at.0 o.at.1 in
      (
        omega (arith, at, from),
        omega (arith, at, to, inside),
        (==_iff (reg.obj_map i) d).0 (mine ∙ ground (arith, where_it_is, at, from, to)),
      )

  -- For an address in the pages of a live object, in a region whose memory is marked, `BO_GetDesc`
  -- ends and returns the object's descriptor, and `BO_AddrToCodeObjTag` returns the tag of that
  -- object.
  pub bo_get_desc-LiveObj :
      (bytes : ℕ → ℕ)
      → (bo_get_desc h addr ≡ some d)
        × (bo_addr_to_code_obj_tag bytes h addr ≡ tag_at (bo_get_code_obj_tag bytes (h.descs d)))
  unfolding bo_get_desc bo_addr_to_code_obj_tag desc_from tag_of index_to_addr addr_to_bodesc
      addr_to_index
  bo_get_desc-LiveObj bytes =
      let (q, base) = house.aligned in
      let (low, high, found) = in_region in
      let below = house.below in
      let above = house.above in
      let hdr =
        find_hdr-first h.bibop reg.mem_obj gen q base house.marks house.small_gen (addr / 2 ^ 18)
          (omega (arith, base, low, above)) (omega (arith, high, below)) in
      let home : h.hdr_ptr (q * 2 ^ 18) ≡ r = ap h.hdr_ptr (sym base) ∙ house.header in
      let desc : desc_from h addr (find_hdr h.bibop (addr / 2 ^ 18)) ≡ some d =
        ap (desc_from h addr) hdr
        ∙ ap (λ (x : ℕ). some ((h.regions x).obj_map (addr_to_bopage (h.regions x) addr))) home
        ∙ ap some found in
      let id = house.marks addr (ground (arith, low, high, above, below)) in
      let (plain, header) = (bigobj_aids gen house.small_gen).0 in
      let big : is_bigobj_aid (addr_to_pageid h.bibop addr) ≡ true =
        ap is_bigobj_aid id ∙ elim (Bool-cases (page reg.mem_obj.base == page addr)) [
          | inl e ↦ rw e header
          | inr e ↦ rw e plain
        ] in
      (desc, rw (big, desc) refl)
