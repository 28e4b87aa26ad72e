-- ===== src/BigObjects/Released.antt =====
-- The first and the last step of `BO_Free`: one object with a new size or a new state.
pub mod Rounded
pub mod Listed
use smlnj.Prelude.{
  ℕ, ◌+◌, ◌-◌, ◌*◌, ◌^◌, ◌<◌, ◌≡◌, ◌≢◌, refl, sym, ap, ◌∙◌, inl, inr, true, false, List, ◌∷◌, arith,
  ◌==◌, Bool-cases, ==_iff,
}
use mathlib.Core.Path.{subst}
use smlnj.Sizes.{roundup}
use smlnj.Bibop.{add32}
use smlnj.BigObjects.{Region, Desc, BoHeap, bo_num_bopages, bo_is_free}
use smlnj.BigObjects.Free.{release}
use smlnj.BigObjects.Pages.{roundup-pages, num_bopages-eq, num_bopages-exact}
use smlnj.BigObjects.Counts.{count-le}
use smlnj.BigObjects.Ring.{member, Ring, update-same, update-other, add_bo_desc-Ring}
use smlnj.BigObjects.Whole.{
  start_of-same, start_of, pages_of, is_free, DescOk, RegionOk, MappedAt, Shaped,
}
use smlnj.BigObjects.Restating.{Restated, rounded-RegionOk, freed-RegionOk}
use smlnj.BigObjects.Frame.{SameShape, MappedAt-same, Step, Step-Shaped}
use smlnj.BigObjects.Taking.{free-obj, SameShape-eq}
use smlnj.BigObjects.Pending.{ghost, Pending, BeforeBusy, AfterBusy}

-- a busy object of the heap
pub record LiveObj (h : BoHeap) (rs : List ℕ) (d : ℕ) : Type 0 where
  pub in_rs : member (h.descs d).region rs ≡ true
  pub at : MappedAt h.descs (h.regions (h.descs d).region) d
  pub busy : is_free h.descs d ≡ false

-- one descriptor changes
pub record OneDesc (h h' : BoHeap) (d : ℕ) : Type 0 where
  pub others : (x : ℕ) → x ≢ d → h'.descs x ≡ h.descs x
  pub elsewhere : (r' : ℕ) → r' ≢ (h.descs d).region → h'.regions r' ≡ h.regions r'
  pub same_used : (x : ℕ) → h'.used_descs x ≡ h.used_descs x
  pub same_regions : (r' : ℕ) → h'.used_regions r' ≡ h.used_regions r'
  pub same_hdr : h'.free_big_objs ≡ h.free_big_objs

-- the busy object `d` gets a new state, and joins the free list if it is free now
module _ (h h' : BoHeap) (rs fs fs' : List ℕ) (d : ℕ) (v : Shaped h rs fs) (o : LiveObj h rs d)
    (c : Restated h.descs h'.descs h.used_descs h'.used_descs h.free_big_objs
      (h.descs d).region
      (h.regions (h.descs d).region)
      (h'.regions (h.descs d).region)
      d)
    (one : OneDesc h h' d)
    (ok : RegionOk h'.descs h'.used_descs h.free_big_objs
      (h.descs d).region
      (h'.regions (h.descs d).region))
    (ring : Ring h'.links h.free_big_objs fs')
    (same_members : (x : ℕ) → x ≢ d → member x fs' ≡ member x fs)
    (member_d : member d fs' ≡ is_free h'.descs d) where
  shape : SameShape (h.regions (h.descs d).region) (h'.regions (h.descs d).region)
  shape = record { first = c.same_first; pages = c.same_pages; map = c.map }

  pub d-mapped : MappedAt h'.descs (h'.regions (h.descs d).region) d
  d-mapped =
      let start =
        start_of-same (h.regions (h.descs d).region) (h'.regions (h.descs d).region) h.descs
          h'.descs d d c.obj c.same_first in
      (
        omega (arith, start, o.at.0, c.same_pages),
        ap (h'.regions (h.descs d).region).obj_map start
            ∙ c.map (start_of (h.regions (h.descs d).region) h.descs d) o.at.0
            ∙ o.at.1,
      )

  restated-listed :
      (i : ℕ)
      → i < (h'.regions (h.descs d).region).n_pages
      → is_free h'.descs ((h'.regions (h.descs d).region).obj_map i) ≡ true
      → member ((h'.regions (h.descs d).region).obj_map i) fs' ≡ true
  restated-listed i small f =
      let x = (h.regions (h.descs d).region).obj_map i in
      let small' : i < (h.regions (h.descs d).region).n_pages =
        omega (arith, small, c.same_pages) in
      let now = c.map i small' in
      let f' = sym (ap (is_free h'.descs) now) ∙ f in
      ap (λ (y : ℕ). member y fs') now ∙ elim (Bool-cases (x == d)) [
        | inl same ↦
            let e = (==_iff x d).0 same in
            ap (λ (y : ℕ). member y fs') e ∙ member_d ∙ sym (ap (is_free h'.descs) e) ∙ f'
        | inr other ↦
            let ne : x ≢ d = λ e. absurd (ground (arith, e, other)) in
            same_members x ne
            ∙ v.listed (h.descs d).region i o.in_rs small'
                (sym (ap (λ (y : Desc). bo_is_free y) (one.others x ne)) ∙ f')
      ]

  restated-Step : Step h h' (h.descs d).region fs fs'
  restated-Step = record {
    ok = ok;
    same_hdr = one.same_hdr;
    hdr_used = one.same_used h.free_big_objs ∙ v.hdr_used;
    region_used = one.same_regions (h.descs d).region ∙ v.regions_used (h.descs d).region o.in_rs;
    regions_used = λ r' u. one.same_regions r' ∙ u;
    others = λ r' ne. SameShape-eq (h.regions r') (h'.regions r') (one.elsewhere r' ne);
    frame = λ x u away.
        (one.others x (λ e. away (ap (λ (y : ℕ). (h.descs y).region) e)), one.same_used x ∙ u);
    ring = ring;
    kept = λ x u away k. same_members x (λ e. away (ap (λ (y : ℕ). (h.descs y).region) e)) ∙ k;
    back = λ x k away.
        let ne : x ≢ d = λ e. away (ap (λ (y : ℕ). (h'.descs y).region) e ∙ c.region) in
        let k' = sym (same_members x ne) ∙ k in
        (
          k',
          (free-obj v x k').desc_ok.live,
          λ e. away (ap (λ (y : Desc). y.region) (one.others x ne) ∙ e),
        );
    listed = restated-listed;
    only_free = λ x k at_r. elim (Bool-cases (x == d)) [
      | inl same ↦
          let e = (==_iff x d).0 same in
          subst
            (λ (y : ℕ).
              (is_free h'.descs y ≡ true) × MappedAt h'.descs (h'.regions (h.descs d).region) y)
            (sym e) (sym member_d ∙ sym (ap (λ (y : ℕ). member y fs') e) ∙ k, d-mapped)
      | inr other ↦
          let ne : x ≢ d = λ e. absurd (ground (arith, e, other)) in
          let f = free-obj v x (sym (same_members x ne) ∙ k) in
          let same = one.others x ne in
          let home = sym (ap (λ (y : Desc). y.region) same) ∙ at_r in
          (
            ap (λ (y : Desc). bo_is_free y) same ∙ f.free,
            MappedAt-same h.descs h'.descs
                (subst (λ (y : ℕ). MappedAt h.descs (h.regions y) x) home f.at) same shape,
          )
    ];
  }

  -- The heap stays well formed.
  pub restated-Shaped : Shaped h' rs fs'
  restated-Shaped = Step-Shaped v restated-Step (λ r' ne k. k) (λ r' k. k) o.in_rs
