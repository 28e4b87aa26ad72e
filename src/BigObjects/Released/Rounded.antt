-- ===== src/BigObjects/Released/Rounded.antt =====
-- The first step of `BO_Free`: the size rounded up to whole pages.
use smlnj.Prelude.{
  ℕ, ◌-◌, ◌*◌, ◌^◌, ◌<◌, ◌≡◌, refl, sym, ap, ◌∙◌, inl, inr, false, List, arith, Bool-cases,
}
use smlnj.Sizes.{roundup}
use smlnj.BigObjects.{Region, Desc, BoHeap, bo_is_free}
use smlnj.BigObjects.Pages.{roundup-pages, num_bopages-eq, num_bopages-exact}
use smlnj.BigObjects.Ring.{member, update-same, update-other}
use smlnj.BigObjects.Whole.{start_of, pages_of, is_free, RegionOk, Shaped}
use smlnj.BigObjects.Restating.{Restated, rounded-RegionOk}
use smlnj.BigObjects.Taking.{free-obj}
use smlnj.BigObjects.Pending.{ghost, Pending}
use smlnj.BigObjects.Released.{LiveObj, OneDesc, d-mapped, restated-Shaped}

-- the object before it is freed, with its size rounded
module _ (h : BoHeap) (rs fs : List ℕ) (d : ℕ) (v : Shaped h rs fs) (o : LiveObj h rs d) where
  abbrev r : ℕ
  r = (h.descs d).region

  abbrev tot : ℕ
  tot = roundup (h.descs d).size_b 10

  abbrev g : BoHeap
  g = ghost h d tot 0

  region_ok : RegionOk h.descs h.used_descs h.free_big_objs r (h.regions r)
  region_ok = v.regions_ok r o.in_rs

  d-pages : pages_of h.descs d < 2 ^ 21
  d-pages =
      let tile = region_ok.tiled (start_of (h.regions r) h.descs d) o.at.0 in
      omega (arith, tile.inside, ap (pages_of h.descs) o.at.1, region_ok.few)

  pub rounded-whole : tot ≡ pages_of h.descs d * 2 ^ 10
  rounded-whole = omega (arith, roundup-pages (h.descs d).size_b, num_bopages-eq (h.descs d))

  g-desc : g.descs d ≡ record (h.descs d) { size_b = tot }
  g-desc = update-same h.descs d _

  g-region : g.regions r ≡ record (h.regions r) { n_free = (h.regions r).n_free - 0 }
  g-region = update-same h.regions r _

  pub rounded-pages : pages_of g.descs d ≡ pages_of h.descs d
  rounded-pages =
      num_bopages-exact (g.descs d) (pages_of h.descs d)
        (ap (λ (x : Desc). x.size_b) g-desc ∙ rounded-whole) (omega (arith, d-pages))

  g-one : OneDesc h g d
  g-one = record {
    others = λ x ne. update-other h.descs d x _ λ e. ne (sym e);
    elsewhere = λ r' ne. update-other h.regions r r' _ λ e. ne (sym e);
    same_used = λ x. refl;
    same_regions = λ r'. refl;
    same_hdr = refl;
  }

  g-busy : is_free g.descs d ≡ false
  g-busy = ap (λ (x : Desc). bo_is_free x) g-desc ∙ o.busy

  rounded :
      Restated h.descs g.descs h.used_descs g.used_descs h.free_big_objs r
        (h.regions r)
        (g.regions r)
        d
  rounded = record {
    obj = ap (λ (x : Desc). x.obj) g-desc;
    pages = rounded-pages;
    region = ap (λ (x : Desc). x.region) g-desc;
    sized = λ f. absurd (ground (arith, f, g-busy));
    others = g-one.others;
    same_used = λ p u. u;
    same_first = ap (λ (x : Region). x.first_page) g-region;
    same_pages = ap (λ (x : Region). x.n_pages) g-region;
    map = λ i small. ap (λ (x : Region). x.obj_map i) g-region;
  }

  -- the rounded object is no more free than before
  not_listed : member d fs ≡ false
  not_listed = elim (Bool-cases (member d fs)) [
    | inr e ↦ e
    | inl e ↦ absurd (ground (arith, (free-obj v d e).free, o.busy))
  ]

  g_ok : RegionOk g.descs g.used_descs h.free_big_objs r (g.regions r)
  g_ok =
      rounded-RegionOk h.descs g.descs h.used_descs g.used_descs h.free_big_objs r (h.regions r)
        (g.regions r) d region_ok rounded o.at.0 o.at.1 o.busy g-busy
        (omega (arith, ap (λ (x : Region). x.n_free) g-region))

  -- The coalescing starts with nothing pending.
  pub rounded-Pending : Pending h rs fs d tot 0
  rounded-Pending = record {
    shaped =
        restated-Shaped h g rs fs fs d v o rounded g-one g_ok v.ring (λ x ne. refl)
          (not_listed ∙ sym g-busy);
    in_rs = o.in_rs;
    at =
        d-mapped h g rs fs fs d v o rounded g-one g_ok v.ring (λ x ne. refl)
          (not_listed ∙ sym g-busy);
    busy = o.busy;
    whole = rounded-whole ∙ ap (λ (x : ℕ). x * 2 ^ 10) (sym rounded-pages);
    counted = omega arith;
  }
