-- ===== src/BigObjects/Frame.antt =====
-- A change to one region leaves the others as they are.
use smlnj.Prelude.{
  ℕ, ◌+◌, ◌<◌, ◌≡◌, ◌≢◌, sym, ap, ◌∙◌, inl, inr, Bool, true, List, arith, ◌==◌, Bool-cases, ==_iff,
}
use mathlib.Core.Path.{subst}
use smlnj.BigObjects.{Region, Desc, BoHeap, bo_num_bopages, bo_is_free}
use smlnj.BigObjects.Tiles.{tile-of}
use smlnj.BigObjects.Counts.{count, count-ap}
use smlnj.BigObjects.Ring.{member, Ring}
use smlnj.BigObjects.Whole.{
  start_of-same, DescOk-same, start_of, is_free, DescOk, RegionOk, MappedAt, Shaped,
}

-- the two regions have the same pages
pub record SameShape (reg reg' : Region) : Type 0 where
  pub first : reg'.first_page ≡ reg.first_page
  pub pages : reg'.n_pages ≡ reg.n_pages
  pub map : (i : ℕ) → i < reg.n_pages → reg'.obj_map i ≡ reg.obj_map i

module _ {descs descs' : ℕ → Desc} {used used' : ℕ → Bool} {hdr r : ℕ} {reg reg' : Region}
    (ok : RegionOk descs used hdr r reg) (s : SameShape reg reg') (free : reg'.n_free ≡ reg.n_free)
    (same : (p : ℕ)
      → used p ≡ true
      → (descs p).region ≡ r
      → (descs' p ≡ descs p) × (used' p ≡ true)) where
  page-same :
      (i : ℕ)
      → i < reg.n_pages
      → (descs' (reg.obj_map i) ≡ descs (reg.obj_map i)) × (used' (reg.obj_map i) ≡ true)
  page-same i h = same (reg.obj_map i) (ok.descs_ok i h).live (ok.descs_ok i h).owned

  free-same :
      (i : ℕ) → i < reg.n_pages → is_free descs' (reg'.obj_map i) ≡ is_free descs (reg.obj_map i)
  free-same i h =
      ap (is_free descs') (s.map i h) ∙ ap (λ (x : Desc). bo_is_free x) (page-same i h).0

  -- A region is as well formed as before when its descriptors stay.
  pub RegionOk-same : RegionOk descs' used' hdr r reg'
  RegionOk-same = record {
    some_pages = omega (arith, s.pages, ok.some_pages);
    few = omega (arith, s.pages, ok.few);
    fits = omega (arith, s.pages, s.first, ok.fits);
    tiled = λ i h.
        let small : i < reg.n_pages = omega (arith, s.pages, h) in
        let tile = ok.tiled i small in
        let p = reg.obj_map i in
        let es =
          start_of-same reg reg' descs descs' p p (ap (λ (x : Desc). x.obj) (page-same i small).0)
            s.first in
        let el = ap (λ (x : Desc). bo_num_bopages x) (page-same i small).0 in
        tile-of p (s.map i small) (omega (arith, es, tile.low)) (omega (arith, es, el, tile.high))
          (omega (arith, es, el, tile.inside, s.pages))
          λ j lo hi.
            s.map j (omega (arith, es, el, tile.inside, hi))
            ∙ tile.same j (omega (arith, es, lo)) (omega (arith, es, el, hi));
    descs_ok = λ i h.
        let small : i < reg.n_pages = omega (arith, s.pages, h) in
        subst (DescOk descs' used' hdr r reg') (sym (s.map i small))
          (DescOk-same (ok.descs_ok i small) (page-same i small).0 (page-same i small).1 s.first);
    coalesced = λ i h free_here free_next.
        let small : i + 1 < reg.n_pages = omega (arith, s.pages, h) in
        let small' : i < reg.n_pages = omega (arith, small) in
        s.map i small'
        ∙ ok.coalesced i small (sym (free-same i small') ∙ free_here)
            (sym (free-same (i + 1) small) ∙ free_next)
        ∙ sym (s.map (i + 1) small);
    counted =
        free
        ∙ ok.counted
        ∙ count-ap (λ i. is_free descs (reg.obj_map i)) (λ i. is_free descs' (reg'.obj_map i))
            reg.n_pages (λ i h. sym (free-same i h))
        ∙ sym (ap (count (λ i. is_free descs' (reg'.obj_map i))) s.pages);
  }

pub MappedAt-same :
    (descs descs' : ℕ → Desc) {reg reg' : Region} {p : ℕ}
    → MappedAt descs reg p
    → descs' p ≡ descs p
    → SameShape reg reg'
    → MappedAt descs' reg' p
MappedAt-same descs descs' {reg} {reg'} {p} (in_region, mapped) same s =
    let es = start_of-same reg reg' descs descs' p p (ap (λ (x : Desc). x.obj) same) s.first in
    (
      omega (arith, es, in_region, s.pages),
      ap reg'.obj_map es ∙ s.map (start_of reg descs p) in_region ∙ mapped,
    )

-- the change from `h` to `h'` and to the free list is about the region `r`
pub record Step (h h' : BoHeap) (r : ℕ) (fs fs' : List ℕ) : Type 0 where
  pub ok : RegionOk h'.descs h'.used_descs h.free_big_objs r (h'.regions r)
  pub same_hdr : h'.free_big_objs ≡ h.free_big_objs
  pub hdr_used : h'.used_descs h.free_big_objs ≡ true
  pub region_used : h'.used_regions r ≡ true
  pub regions_used : (r' : ℕ) → h.used_regions r' ≡ true → h'.used_regions r' ≡ true
  pub others :
      (r' : ℕ)
      → r' ≢ r
      → SameShape (h.regions r') (h'.regions r') × ((h'.regions r').n_free ≡ (h.regions r').n_free)
  pub frame :
      (p : ℕ)
      → h.used_descs p ≡ true
      → (h.descs p).region ≢ r
      → (h'.descs p ≡ h.descs p) × (h'.used_descs p ≡ true)
  pub ring : Ring h'.links h.free_big_objs fs'
  pub kept :
      (p : ℕ)
      → h.used_descs p ≡ true
      → (h.descs p).region ≢ r
      → member p fs ≡ true
      → member p fs' ≡ true
  pub back :
      (p : ℕ)
      → member p fs' ≡ true
      → (h'.descs p).region ≢ r
      → (member p fs ≡ true) × (h.used_descs p ≡ true) × ((h.descs p).region ≢ r)
  pub listed :
      (i : ℕ)
      → i < (h'.regions r).n_pages
      → is_free h'.descs ((h'.regions r).obj_map i) ≡ true
      → member ((h'.regions r).obj_map i) fs' ≡ true
  pub only_free :
      (p : ℕ)
      → member p fs' ≡ true
      → (h'.descs p).region ≡ r
      → (is_free h'.descs p ≡ true) × MappedAt h'.descs (h'.regions r) p

-- The rest of the heap stays well formed, where the list of the regions gets at most the one.
pub Step-Shaped :
    {h h' : BoHeap} {r : ℕ} {rs rs' fs fs' : List ℕ}
    → Shaped h rs fs
    → Step h h' r fs fs'
    → ((r' : ℕ) → r' ≢ r → member r' rs' ≡ true → member r' rs ≡ true)
    → ((r' : ℕ) → member r' rs ≡ true → member r' rs' ≡ true)
    → member r rs' ≡ true
    → Shaped h' rs' fs'
Step-Shaped {h} {h'} {r} {rs} {rs'} {fs} {fs'} v s narrow widen in_rs = record {
  regions_ok = λ r' m. elim (Bool-cases (r' == r)) [
    | inl same ↦
        subst (λ (x : ℕ). RegionOk h'.descs h'.used_descs h'.free_big_objs x (h'.regions x))
          (sym ((==_iff r' r).0 same))
          (subst (λ (x : ℕ). RegionOk h'.descs h'.used_descs x r (h'.regions r)) (sym s.same_hdr)
            s.ok)
    | inr other ↦
        let ne : r' ≢ r = λ q. absurd (ground (arith, q, other)) in
        subst (λ (x : ℕ). RegionOk h'.descs h'.used_descs x r' (h'.regions r')) (sym s.same_hdr)
          (RegionOk-same (v.regions_ok r' (narrow r' ne m)) (s.others r' ne).0 (s.others r' ne).1
            λ p u o. s.frame p u λ q. ne (sym o ∙ q))
  ];
  regions_used = λ r' m. elim (Bool-cases (r' == r)) [
    | inl same ↦ ap h'.used_regions ((==_iff r' r).0 same) ∙ s.region_used
    | inr other ↦
        let ne : r' ≢ r = λ q. absurd (ground (arith, q, other)) in
        s.regions_used r' (v.regions_used r' (narrow r' ne m))
  ];
  hdr_used = ap h'.used_descs s.same_hdr ∙ s.hdr_used;
  ring = subst (λ (x : ℕ). Ring h'.links x fs') (sym s.same_hdr) s.ring;
  listed = λ r' i m small f. elim (Bool-cases (r' == r)) [
    | inl same ↦
        let e = (==_iff r' r).0 same in
        ap (λ (x : ℕ). member ((h'.regions x).obj_map i) fs') e
        ∙ s.listed i (omega (arith, small, ap (λ (x : ℕ). (h'.regions x).n_pages) e))
            (sym (ap (λ (x : ℕ). is_free h'.descs ((h'.regions x).obj_map i)) e) ∙ f)
    | inr other ↦
        let ne : r' ≢ r = λ q. absurd (ground (arith, q, other)) in
        let shape = (s.others r' ne).0 in
        let m' = narrow r' ne m in
        let small' : i < (h.regions r').n_pages = omega (arith, small, shape.pages) in
        let d = (v.regions_ok r' m').descs_ok i small' in
        let away = λ (q : (h.descs ((h.regions r').obj_map i)).region ≡ r). ne (sym d.owned ∙ q) in
        let same = (s.frame ((h.regions r').obj_map i) d.live away).0 in
        let was = v.listed r' i m' small' (
          sym (ap (λ (x : Desc). bo_is_free x) same)
          ∙ sym (ap (is_free h'.descs) (shape.map i small'))
          ∙ f) in
        ap (λ (x : ℕ). member x fs') (shape.map i small')
        ∙ s.kept ((h.regions r').obj_map i) d.live away was
  ];
  only_free = λ p m. elim (Bool-cases ((h'.descs p).region == r)) [
    | inl same ↦
        let e = (==_iff (h'.descs p).region r).0 same in
        let (f, at) = s.only_free p m e in
        (
          ap (λ (x : ℕ). member x rs') e ∙ in_rs,
          f,
          subst (λ (x : ℕ). MappedAt h'.descs (h'.regions x) p) (sym e) at,
        )
    | inr other ↦
        let (m', u, away) = s.back p m λ q. absurd (ground (arith, q, other)) in
        let (known, f, at) = v.only_free p m' in
        let same = (s.frame p u away).0 in
        let e = ap (λ (x : Desc). x.region) same in
        (
          ap (λ (x : ℕ). member x rs') e ∙ widen (h.descs p).region known,
          ap (λ (x : Desc). bo_is_free x) same ∙ f,
          subst (λ (x : ℕ). MappedAt h'.descs (h'.regions x) p) (sym e)
              (MappedAt-same h.descs h'.descs at same (s.others (h.descs p).region away).0),
        )
  ];
}
