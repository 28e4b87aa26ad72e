-- ===== src/BigObjects/Freeing.antt =====
-- `BO_Free` of runtime/gc/big-objects.c, step by step.
use smlnj.Prelude.{
  ℕ, ◌-◌, ◌<◌, ◌≡◌, ◌≢◌, refl, sym, ap, ◌∙◌, inl, inr, true, false, List, arith, ◌==◌, Bool-cases,
  ==_iff,
}
use mathlib.Core.Path.{subst}
use smlnj.BigObjects.{Region, Desc, BoHeap, update, addr_to_bopage, bo_is_free}
use smlnj.BigObjects.Alloc.{map_pages}
use smlnj.BigObjects.Free.{take_over, free_block}
use smlnj.BigObjects.Tiles.{within, tile-within}
use smlnj.BigObjects.Ring.{member, update-same, update-other}
use smlnj.BigObjects.Whole.{start_of-same, start_of, pages_of, is_free, MappedAt}
use smlnj.BigObjects.Taking.{free-obj}
use smlnj.BigObjects.Pending.{ghost, Pending, TakenOver}

-- what `take_over` and the rest of a branch write
pub takes-TakenOver :
    (h : BoHeap) (d q lo n obj : ℕ)
    → TakenOver h
        (free_block
          (record (take_over h d q lo n) {
            descs = update h.descs d (record (h.descs d) { obj = obj });
          })
          q)
        d
        q
        lo
        n
        obj
unfolding take_over map_pages
takes-TakenOver h d q lo n obj = record {
  desc = update-same h.descs d _;
  others = λ p ne. update-other h.descs d p _ λ e. ne (sym e);
  used = λ p ne. update-other h.used_descs q p false λ e. ne (sym e);
  region = update-same h.regions (h.descs d).region _;
  regions = λ r' ne. update-other h.regions (h.descs d).region r' _ λ e. ne (sym e);
  links = refl;
  hdr = refl;
  used_regions = λ r'. refl;
}

pub takes_plain-TakenOver :
    (h : BoHeap) (d q lo n : ℕ)
    → TakenOver h (free_block (take_over h d q lo n) q) d q lo n (h.descs d).obj
unfolding take_over map_pages
takes_plain-TakenOver h d q lo n = record {
  desc = refl;
  others = λ p ne. refl;
  used = λ p ne. update-other h.used_descs q p false λ e. ne (sym e);
  region = update-same h.regions (h.descs d).region _;
  regions = λ r' ne. update-other h.regions (h.descs d).region r' _ λ e. ne (sym e);
  links = refl;
  hdr = refl;
  used_regions = λ r'. refl;
}

-- a page of the object's region, with the object pending
module _ (h : BoHeap) (rs fs : List ℕ) (d tot p : ℕ) (v : Pending h rs fs d tot p) where
  abbrev r : ℕ
  r = (h.descs d).region

  abbrev g : BoHeap
  g = ghost h d tot p

  pub ghost-desc : g.descs d ≡ record (h.descs d) { size_b = tot }
  ghost-desc = update-same h.descs d _

  pub ghost-other : (x : ℕ) → x ≢ d → g.descs x ≡ h.descs x
  ghost-other x ne = update-other h.descs d x _ λ e. ne (sym e)

  pub ghost-region : g.regions r ≡ record (h.regions r) { n_free = (h.regions r).n_free - p }
  ghost-region = update-same h.regions r _

  pub ghost-start :
      (x : ℕ) → start_of (g.regions r) g.descs x ≡ addr_to_bopage (h.regions r) (h.descs x).obj
  ghost-start x = elim (Bool-cases (x == d)) [
    | inl same ↦
        let e = (==_iff x d).0 same in
        start_of-same (h.regions r) (g.regions r) h.descs g.descs x x
          (ap (λ (y : ℕ). (g.descs y).obj) e
            ∙ ap (λ (y : Desc). y.obj) ghost-desc
            ∙ sym (ap (λ (y : ℕ). (h.descs y).obj) e))
          (ap (λ (y : Region). y.first_page) ghost-region)
    | inr other ↦
        start_of-same (h.regions r) (g.regions r) h.descs g.descs x x
          (ap (λ (y : Desc). y.obj) (ghost-other x λ e. absurd (ground (arith, e, other))))
          (ap (λ (y : Region). y.first_page) ghost-region)
  ]

  -- the object of a page of the region
  abbrev pub at_page : ℕ → ℕ
  at_page i = (h.regions r).obj_map i

  ghost-map : (i : ℕ) → (g.regions r).obj_map i ≡ at_page i
  ghost-map i = ap (λ (x : Region). x.obj_map i) ghost-region

  -- a free page's object is in the free list
  pub page-free :
      (i : ℕ)
      → i < (g.regions r).n_pages
      → bo_is_free (h.descs (at_page i)) ≡ true
      → (at_page i ≢ d) × (member (at_page i) fs ≡ true) × ((h.descs (at_page i)).region ≡ r)
  page-free i small f =
      let x = at_page i in
      let ne : x ≢ d = λ e. ground (arith, ap (λ (y : ℕ). bo_is_free (h.descs y)) e, f, v.busy) in
      let now =
        ap (is_free g.descs) (ghost-map i) ∙ ap (λ (y : Desc). bo_is_free y) (ghost-other x ne) in
      let owned = ((v.shaped.regions_ok r v.in_rs).descs_ok i small).owned in
      (
        ne,
        sym (ap (λ (y : ℕ). member y fs) (ghost-map i))
            ∙ v.shaped.listed r i v.in_rs small (now ∙ f),
        sym (ap (λ (y : Desc). y.region) (ghost-other x ne))
            ∙ sym (ap (λ (y : ℕ). (g.descs y).region) (ghost-map i))
            ∙ owned,
      )

  pub page-busy :
      (i : ℕ)
      → i < (g.regions r).n_pages
      → bo_is_free (h.descs (at_page i)) ≡ false
      → is_free g.descs ((g.regions r).obj_map i) ≡ false
  page-busy i small f = elim (Bool-cases (at_page i == d)) [
    | inl same ↦
        ap (is_free g.descs) (ghost-map i ∙ (==_iff (at_page i) d).0 same)
        ∙ ap (λ (y : Desc). bo_is_free y) ghost-desc
        ∙ v.busy
    | inr other ↦
        ap (is_free g.descs) (ghost-map i)
        ∙ ap (λ (y : Desc). bo_is_free y)
            (ghost-other (at_page i) λ e. absurd (ground (arith, e, other)))
        ∙ f
  ]

  -- the free object of a page, as a neighbour
  pub page-within :
      (i j : ℕ)
      → i < (g.regions r).n_pages
      → j < (g.regions r).n_pages
      → bo_is_free (h.descs (at_page i)) ≡ true
      → (at_page j == at_page i)
        ≡ within (start_of (g.regions r) g.descs (at_page i)) (pages_of g.descs (at_page i)) j
  page-within i j small small' f =
      let (ne, k, owned) = page-free i small f in
      let o = free-obj v.shaped (at_page i) k in
      let same = ap (λ (y : Desc). y.region) (ghost-other (at_page i) ne) ∙ owned in
      let (inside, mapped) =
        subst (λ (y : ℕ). MappedAt g.descs (g.regions y) (at_page i)) same o.at in
      sym (ap (λ (y : ℕ). y == at_page i) (ghost-map j))
      ∙ tile-within (v.shaped.regions_ok r v.in_rs).tiled (at_page i) j small' inside mapped
