-- ===== src/BigObjects/Released/Listed.antt =====
-- The last step of `BO_Free`: the object free, counted and in the free list.
use smlnj.Prelude.{
  ℕ, ◌+◌, ◌-◌, ◌≡◌, ◌≢◌, refl, sym, ap, ◌∙◌, inl, inr, true, false, List, ◌∷◌, arith, Bool-cases,
}
use mathlib.Core.Path.{subst}
use smlnj.Bibop.{add32}
use smlnj.BigObjects.{Region, Desc, BoHeap, bo_num_bopages, bo_is_free}
use smlnj.BigObjects.Free.{release}
use smlnj.BigObjects.Pages.{num_bopages-eq}
use smlnj.BigObjects.Counts.{count-le}
use smlnj.BigObjects.Ring.{member, update-same, update-other, add_bo_desc-Ring}
use smlnj.BigObjects.Whole.{start_of, pages_of, is_free, DescOk, RegionOk, MappedAt, Shaped}
use smlnj.BigObjects.Restating.{Restated, freed-RegionOk}
use smlnj.BigObjects.Taking.{free-obj}
use smlnj.BigObjects.Pending.{ghost, Pending, BeforeBusy, AfterBusy}
use smlnj.BigObjects.Released.{LiveObj, OneDesc, restated-Shaped}

-- the last step, once the neighbours are busy
module _ (h : BoHeap) (rs fs : List ℕ) (d tot p n : ℕ) (v : Pending h rs fs d tot p)
    (before : BeforeBusy (ghost h d tot p) (h.descs d).region d)
    (after : AfterBusy (ghost h d tot p) (h.descs d).region d)
    (pages : pages_of (ghost h d tot p).descs d ≡ n + p) where
  abbrev r2 : ℕ
  r2 = (h.descs d).region

  abbrev g2 : BoHeap
  g2 = ghost h d tot p

  abbrev h' : BoHeap
  h' = release h d tot n

  g2-desc : g2.descs d ≡ record (h.descs d) { size_b = tot }
  g2-desc = update-same h.descs d _

  g2-home : (g2.descs d).region ≡ r2
  g2-home = ap (λ (x : Desc). x.region) g2-desc

  g2-region : g2.regions r2 ≡ record (h.regions r2) { n_free = (h.regions r2).n_free - p }
  g2-region = update-same h.regions r2 _

  h'-desc : h'.descs d ≡ record (h.descs d) { size_b = tot; state = 0 }
  unfolding release
  h'-desc = update-same h.descs d _

  h'-region : h'.regions r2 ≡ record (h.regions r2) { n_free = add32 (h.regions r2).n_free n }
  unfolding release
  h'-region = update-same h.regions r2 _

  live : LiveObj g2 rs d
  live = record {
    in_rs = ap (λ (x : ℕ). member x rs) g2-home ∙ v.in_rs;
    at = subst (λ (x : ℕ). MappedAt g2.descs (g2.regions x) d) (sym g2-home) v.at;
    busy = ap (λ (x : Desc). bo_is_free x) g2-desc ∙ v.busy;
  }

  h'-free : is_free h'.descs d ≡ true
  h'-free = ap (λ (x : Desc). bo_is_free x) h'-desc

  h'-one : OneDesc g2 h' d
  unfolding release
  h'-one = record {
    others = λ x ne.
        update-other h.descs d x _ (λ e. ne (sym e))
        ∙ sym (update-other h.descs d x _ λ e. ne (sym e));
    elsewhere = λ r' ne.
        let ne' : r' ≢ r2 = λ e. ne (e ∙ sym g2-home) in
        update-other h.regions r2 r' _ (λ e. ne' (sym e))
        ∙ sym (update-other h.regions r2 r' _ λ e. ne' (sym e));
    same_used = λ x. refl;
    same_regions = λ r'. refl;
    same_hdr = refl;
  }

  released :
      Restated g2.descs h'.descs g2.used_descs h'.used_descs g2.free_big_objs r2
        (g2.regions r2)
        (h'.regions r2)
        d
  unfolding release
  released =
      let same : pages_of h'.descs d ≡ pages_of g2.descs d =
        ap (λ (x : Desc). bo_num_bopages x) h'-desc
        ∙ num_bopages-eq _
        ∙ sym (ap (λ (x : Desc). bo_num_bopages x) g2-desc ∙ num_bopages-eq _) in
      record {
        obj = ap (λ (x : Desc). x.obj) h'-desc ∙ sym (ap (λ (x : Desc). x.obj) g2-desc);
        pages = same;
        region = ap (λ (x : Desc). x.region) h'-desc;
        sized = λ f. omega (arith, ap (λ (x : Desc). x.size_b) h'-desc, v.whole, same);
        others = h'-one.others;
        same_used = λ x u. u;
        same_first =
            ap (λ (x : Region). x.first_page) h'-region
            ∙ sym (ap (λ (x : Region). x.first_page) g2-region);
        same_pages =
            ap (λ (x : Region). x.n_pages) h'-region
            ∙ sym (ap (λ (x : Region). x.n_pages) g2-region);
        map = λ i small.
            ap (λ (x : Region). x.obj_map i) h'-region
            ∙ sym (ap (λ (x : Region). x.obj_map i) g2-region);
      }

  g2_ok : RegionOk g2.descs g2.used_descs g2.free_big_objs r2 (g2.regions r2)
  g2_ok = v.shaped.regions_ok r2 v.in_rs

  -- the number of free pages
  new_count : (h'.regions r2).n_free ≡ (g2.regions r2).n_free + pages_of g2.descs d
  new_count =
      let tile = g2_ok.tiled (start_of (g2.regions r2) g2.descs d) v.at.0 in
      let free = λ (i : ℕ). is_free g2.descs ((g2.regions r2).obj_map i) in
      omega (
        arith,
        ap (λ (x : Region). x.n_free) h'-region,
        ap (λ (x : Region). x.n_free) g2-region,
        pages,
        v.counted,
        g2_ok.few,
        g2_ok.counted,
        count-le free (g2.regions r2).n_pages,
        tile.inside,
        ap (pages_of g2.descs) v.at.1,
      )

  pub release-ok : RegionOk h'.descs h'.used_descs g2.free_big_objs r2 (h'.regions r2)
  release-ok =
      freed-RegionOk g2.descs h'.descs g2.used_descs h'.used_descs g2.free_big_objs r2
        (g2.regions r2) (h'.regions r2) d g2_ok released v.at.0 v.at.1 live.busy h'-free new_count
        before after

  out : member d (g2.free_big_objs ∷ fs) ≡ false
  out =
      let ok =
        subst (DescOk g2.descs g2.used_descs g2.free_big_objs r2 (g2.regions r2)) v.at.1
          (g2_ok.descs_ok (start_of (g2.regions r2) g2.descs d) v.at.0) in
      elim (Bool-cases (member d fs)) [
        | inl e ↦ absurd (ground (arith, (free-obj v.shaped d e).free, live.busy))
        | inr e ↦ ground (arith, e, λ (c : g2.free_big_objs ≡ d). ok.not_hdr (sym c))
      ]

  -- The heap is well formed again.
  pub release-Shaped : Shaped h' rs (d ∷ fs)
  unfolding release
  release-Shaped =
      restated-Shaped g2 h' rs fs (d ∷ fs) d v.shaped live
        (subst
          (λ (x : ℕ).
            Restated g2.descs h'.descs g2.used_descs h'.used_descs g2.free_big_objs x (g2.regions x)
              (h'.regions x) d)
          (sym g2-home) released)
        h'-one
        (subst (λ (x : ℕ). RegionOk h'.descs h'.used_descs g2.free_big_objs x (h'.regions x))
          (sym g2-home) release-ok)
        (add_bo_desc-Ring d v.shaped.ring out) (λ x ne. ground (arith, λ (c : d ≡ x). ne (sym c)))
        (ground arith ∙ sym h'-free)
