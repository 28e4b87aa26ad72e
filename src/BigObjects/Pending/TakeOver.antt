-- ===== src/BigObjects/Pending/TakeOver.antt =====
-- `BO_Free`: a busy object takes over a free neighbour.
use smlnj.Prelude.{
  ℕ, ◌+◌, ◌-◌, ◌<◌, ◌≤◌, ◌≡◌, ◌≢◌, refl, sym, ap, ◌∙◌, ◌⊎◌, inl, inr, Bool, true, false, List,
  arith, ◌==◌, if◌then◌else◌, leb, Bool-cases,
}
use mathlib.Core.Path.{subst}
use smlnj.Bibop.{fill}
use smlnj.Bibop.Rows.{fill-eq}
use smlnj.BigObjects.{Region, Desc, Links, BoHeap, update, bo_is_free}
use smlnj.BigObjects.Pages.{num_bopages-exact}
use smlnj.BigObjects.Tiles.{within, tile-within}
use smlnj.BigObjects.Ring.{
  member, Ring, without, member-without, update-same, update-other, remove_bo_desc-Ring,
}
use smlnj.BigObjects.Whole.{start_of-same, start_of, pages_of, is_free, RegionOk, MappedAt}
use smlnj.BigObjects.Joining.{Joined, joined-RegionOk, joined-mapped, joined_start, joined_free}
use smlnj.BigObjects.Frame.{SameShape, Step, Step-Shaped}
use smlnj.BigObjects.Taking.{FreeObj, free-obj, pages-le, SameShape-eq}
use smlnj.BigObjects.Pending.{ghost, Pending, TakenOver}
use smlnj.BigObjects.Pending.Merging.{Merged}

module _ (h hn : BoHeap) (rs fs : List ℕ) (d q tot p obj : ℕ) (v : Pending h rs fs d tot p)
    (m : member q fs ≡ true) where
  abbrev r : ℕ
  r = (h.descs d).region

  abbrev g : BoHeap
  g = ghost h d tot p

  abbrev size : ℕ
  size = (h.descs q).size_b

  abbrev lo : ℕ
  lo = start_of (g.regions r) g.descs q

  abbrev n : ℕ
  n = pages_of g.descs q

  abbrev gn : BoHeap
  gn = ghost hn d (tot + size) (p + n)

  module _ (same_region : (h.descs q).region ≡ r) (t : TakenOver h hn d q lo n obj)
      (moved : obj
        ≡ (if leb (start_of (g.regions r) g.descs d) lo then (h.descs d).obj else (h.descs q).obj))
      (next : (lo ≡ start_of (g.regions r) g.descs d + pages_of g.descs d)
        ⊎ (start_of (g.regions r) g.descs d ≡ lo + n)) where
    d-desc : g.descs d ≡ record (h.descs d) { size_b = tot }
    d-desc = update-same h.descs d _

    d-free : is_free g.descs d ≡ false
    d-free = ap (λ (x : Desc). bo_is_free x) d-desc ∙ v.busy

    q-ne : q ≢ d
    q-ne e = ground (arith, ap (is_free g.descs) e, d-free, (v.shaped.only_free q m).1)

    q-desc : g.descs q ≡ h.descs q
    q-desc = update-other h.descs d q _ λ e. q-ne (sym e)

    neighbour : FreeObj g r q
    neighbour =
        subst (λ (x : ℕ). FreeObj g x q) (ap (λ (x : Desc). x.region) q-desc ∙ same_region)
          (free-obj v.shaped q m)

    gn-region_name : (hn.descs d).region ≡ r
    gn-region_name = ap (λ (x : Desc). x.region) t.desc

    gn-desc : gn.descs d ≡ record (h.descs d) { obj = obj; size_b = tot + size }
    gn-desc = update-same hn.descs d _ ∙ ap (λ (x : Desc). record x { size_b = tot + size }) t.desc

    gn-other : (x : ℕ) → x ≢ d → gn.descs x ≡ g.descs x
    gn-other x ne =
        update-other hn.descs d x _ (λ e. ne (sym e))
        ∙ t.others x ne
        ∙ sym (update-other h.descs d x _ λ e. ne (sym e))

    g-region : g.regions r ≡ record (h.regions r) { n_free = (h.regions r).n_free - p }
    g-region = update-same h.regions r _

    gn-region : gn.regions r ≡ record (h.regions r) {
      n_free = (h.regions r).n_free - (p + n);
      obj_map = fill (h.regions r).obj_map lo n d;
    }
    gn-region =
        ap
          (λ (x : ℕ).
            update hn.regions x (record (hn.regions x) { n_free = (hn.regions x).n_free - (p + n) })
              r)
          gn-region_name
        ∙ update-same hn.regions r _
        ∙ ap (λ (x : Region). record x { n_free = x.n_free - (p + n) }) t.region

    region_ok : RegionOk g.descs g.used_descs g.free_big_objs r (g.regions r)
    region_ok = v.shaped.regions_ok r v.in_rs

    d_inside : pages_of g.descs d ≤ (g.regions r).n_pages
    d_inside =
        let tile = region_ok.tiled (start_of (g.regions r) g.descs d) v.at.0 in
        omega (arith, tile.inside, ap (pages_of g.descs) v.at.1)

    d_pages : pages_of gn.descs d ≡ pages_of g.descs d + n
    d_pages =
        let (low, high) = pages-le neighbour in
        num_bopages-exact (gn.descs d) (pages_of g.descs d + n)
          (omega (
            arith,
            ap (λ (x : Desc). x.size_b) gn-desc,
            v.whole,
            neighbour.desc_ok.sized neighbour.free,
            ap (λ (x : Desc). x.size_b) q-desc,
          ))
          (omega (arith, d_inside, low, high, region_ok.few))

    joined :
        Joined g.descs gn.descs g.used_descs gn.used_descs g.free_big_objs r
          (g.regions r)
          (gn.regions r)
          d
          q
    joined = record {
      obj =
          ap (λ (x : Desc). x.obj) gn-desc
          ∙ moved
          ∙ ground (arith, ap (λ (x : Desc). x.obj) d-desc, ap (λ (x : Desc). x.obj) q-desc);
      pages = d_pages;
      busy = ap (λ (x : Desc). bo_is_free x) gn-desc ∙ v.busy;
      region = ap (λ (x : Desc). x.region) gn-desc;
      others = λ x nd nq. gn-other x nd;
      same_used = λ x nq. t.used x nq;
      same_first =
          ap (λ (x : Region). x.first_page) gn-region
          ∙ sym (ap (λ (x : Region). x.first_page) g-region);
      same_pages =
          ap (λ (x : Region). x.n_pages) gn-region ∙ sym (ap (λ (x : Region). x.n_pages) g-region);
      map = λ i small.
          ap (λ (x : Region). x.obj_map i) gn-region
          ∙ fill-eq (h.regions r).obj_map lo n d i
          ∙ ap (λ (x : ℕ). if within lo n i then d else x)
              (sym (ap (λ (x : Region). x.obj_map i) g-region));
      free_left = omega (
        arith,
        ap (λ (x : Region). x.n_free) gn-region,
        ap (λ (x : Region). x.n_free) g-region,
        (pages-le neighbour).0,
      );
    }

    joined_ok : RegionOk gn.descs gn.used_descs g.free_big_objs r (gn.regions r)
    joined_ok =
        joined-RegionOk g.descs gn.descs g.used_descs gn.used_descs g.free_big_objs r (g.regions r)
          (gn.regions r) d q neighbour.ok joined v.at.0 v.at.1 d-free neighbour.at.0 neighbour.at.1
          neighbour.free next

    d-mapped : MappedAt gn.descs (gn.regions r) d
    d-mapped =
        joined-mapped g.descs gn.descs g.used_descs gn.used_descs g.free_big_objs r (g.regions r)
          (gn.regions r) d q neighbour.ok joined v.at.0 v.at.1 d-free neighbour.at.0 neighbour.at.1
          neighbour.free next

    -- a free object of the list that is left is another one
    left-ne : (x : ℕ) → member x (without q fs) ≡ true → (x ≢ q) × (x ≢ d) × (member x fs ≡ true)
    left-ne x k =
        let e = member-without q x fs v.shaped.ring.distinct.1 in
        let k' : member x fs ≡ true = ground (arith, e, k) in
        (
          λ c. absurd (ground (arith, c, e, k)),
          λ c. ground (arith, ap (is_free g.descs) c, (free-obj v.shaped x k').free, d-free),
          k',
        )

    joined-page :
        (i : ℕ)
        → i < (g.regions r).n_pages
        → (gn.regions r).obj_map i
          ≡ (if (g.regions r).obj_map i == q then d else (g.regions r).obj_map i)
    joined-page i small =
        joined.map i small
        ∙ ap (λ (b : Bool). if b then d else (g.regions r).obj_map i)
            (sym (tile-within region_ok.tiled q i small neighbour.at.0 neighbour.at.1))

    joined-listed :
        (i : ℕ)
        → i < (gn.regions r).n_pages
        → is_free gn.descs ((gn.regions r).obj_map i) ≡ true
        → member ((gn.regions r).obj_map i) (without q fs) ≡ true
    joined-listed i small f =
        let small' : i < (g.regions r).n_pages = omega (arith, small, joined.same_pages) in
        let x = (g.regions r).obj_map i in
        elim (Bool-cases (x == q)) [
          | inl mine ↦
              let now : (gn.regions r).obj_map i ≡ d = joined-page i small' ∙ rw mine refl in
              absurd (ground (arith, sym (ap (is_free gn.descs) now) ∙ f, joined.busy))
          | inr other ↦
              let now : (gn.regions r).obj_map i ≡ x = joined-page i small' ∙ rw other refl in
              let f' : is_free gn.descs x ≡ true = sym (ap (is_free gn.descs) now) ∙ f in
              let nd : x ≢ d = λ c. ground (arith, ap (is_free gn.descs) c, f', joined.busy) in
              let was =
                v.shaped.listed r i v.in_rs small'
                  (sym (ap (λ (y : Desc). bo_is_free y) (gn-other x nd)) ∙ f') in
              ap (λ (y : ℕ). member y (without q fs)) now
              ∙ member-without q x fs v.shaped.ring.distinct.1
              ∙ ground (arith, other, was)
        ]

    joined-only :
        (x : ℕ)
        → member x (without q fs) ≡ true
        → (gn.descs x).region ≡ r
        → (is_free gn.descs x ≡ true) × MappedAt gn.descs (gn.regions r) x
    joined-only x k at_r =
        let (nq, nd, k') = left-ne x k in
        let o = free-obj v.shaped x k' in
        let same = gn-other x nd in
        let (inside, mapped) =
          subst (λ (y : ℕ). MappedAt g.descs (g.regions y) x)
            (sym (ap (λ (y : Desc). y.region) same) ∙ at_r) o.at in
        let start =
          start_of-same (g.regions r) (gn.regions r) g.descs gn.descs x x
            (ap (λ (y : Desc). y.obj) same) joined.same_first in
        (
          ap (λ (y : Desc). bo_is_free y) same ∙ o.free,
          (
            omega (arith, start, inside, joined.same_pages),
            ap (gn.regions r).obj_map start
                ∙ joined-page (start_of (g.regions r) g.descs x) inside
                ∙ ground (arith, mapped, ap (λ (y : ℕ). y == q) mapped, λ (c : x ≡ q). nq c),
          ),
        )

    gn-others :
        (r' : ℕ)
        → r' ≢ r
        → SameShape (g.regions r') (gn.regions r')
          × ((gn.regions r').n_free ≡ (g.regions r').n_free)
    gn-others r' ne = SameShape-eq (g.regions r') (gn.regions r') (
        update-other hn.regions (hn.descs d).region r' _ (λ c. ne (sym c ∙ gn-region_name))
        ∙ t.regions r' ne
        ∙ sym (update-other h.regions r r' _ λ c. ne (sym c)))

    joined-Step : Step g gn r fs (without q fs)
    joined-Step = record {
      ok = joined_ok;
      same_hdr = t.hdr;
      hdr_used =
          t.used h.free_big_objs (λ c. neighbour.desc_ok.not_hdr (sym c)) ∙ v.shaped.hdr_used;
      region_used = t.used_regions r ∙ v.shaped.regions_used r v.in_rs;
      regions_used = λ r' u. t.used_regions r' ∙ u;
      others = gn-others;
      frame = λ x u away. (
        gn-other x
            (λ c. away (ap (λ (y : ℕ). (g.descs y).region) c ∙ ap (λ (y : Desc). y.region) d-desc)),
        t.used x (λ c. away (ap (λ (y : ℕ). (g.descs y).region) c ∙ neighbour.owned)) ∙ u,
      );
      ring =
          subst (λ (l : Links). Ring l h.free_big_objs (without q fs)) (sym t.links)
            (remove_bo_desc-Ring q v.shaped.ring m);
      kept = λ x u away k.
          member-without q x fs v.shaped.ring.distinct.1
          ∙ ground (
            arith,
            k,
            λ (c : q ≡ x). away (ap (λ (y : ℕ). (g.descs y).region) (sym c) ∙ neighbour.owned),
          );
      back = λ x k away.
          let (nq, nd, k') = left-ne x k in
          let o = free-obj v.shaped x k' in
          (k', o.desc_ok.live, λ c. away (ap (λ (y : Desc). y.region) (gn-other x nd) ∙ c));
      listed = joined-listed;
      only_free = joined-only;
    }

    -- Coalescing with a free neighbour keeps what is pending.
    pub taken_over-Pending : Pending hn rs (without q fs) d (tot + size) (p + n)
    taken_over-Pending = record {
      shaped = Step-Shaped v.shaped joined-Step (λ r' ne k. k) (λ r' k. k) v.in_rs;
      in_rs = ap (λ (x : ℕ). member x rs) gn-region_name ∙ v.in_rs;
      at = subst (λ (x : ℕ). MappedAt gn.descs (gn.regions x) d) (sym gn-region_name) d-mapped;
      busy = ap (λ (x : Desc). bo_is_free x) t.desc ∙ v.busy;
      whole = omega (
        arith,
        d_pages,
        v.whole,
        neighbour.desc_ok.sized neighbour.free,
        ap (λ (x : Desc). x.size_b) q-desc,
      );
      counted =
          let low = (pages-le neighbour).0 in
          omega (
            arith,
            v.counted,
            low,
            ap (λ (x : Region). x.n_free) g-region,
            ap (λ (x : Region). x.n_free) t.region,
            ap (λ (x : ℕ). (hn.regions x).n_free) gn-region_name,
          );
    }

    gn-start : start_of (gn.regions r) gn.descs d ≡ (
        if leb (start_of (g.regions r) g.descs d) lo then start_of (g.regions r) g.descs d else lo)
    gn-start =
        joined_start g.descs gn.descs g.used_descs gn.used_descs g.free_big_objs r (g.regions r)
          (gn.regions r) d q neighbour.ok joined v.at.0 v.at.1 d-free neighbour.at.0 neighbour.at.1
          neighbour.free next

    -- a page that was busy still is
    still_busy :
        (i : ℕ)
        → i < (g.regions r).n_pages
        → is_free g.descs ((g.regions r).obj_map i) ≡ false
        → is_free gn.descs ((gn.regions r).obj_map i) ≡ false
    still_busy i small e =
        joined_free g.descs gn.descs g.used_descs gn.used_descs g.free_big_objs r (g.regions r)
          (gn.regions r) d q neighbour.ok joined v.at.0 v.at.1 d-free neighbour.at.0 neighbour.at.1
          neighbour.free next i small
        ∙ ground (arith, e)

    -- The object and its neighbour are one object now.
    pub taken_over-Merged : Merged h hn g gn r d q
    taken_over-Merged = record {
      ok = region_ok;
      at = v.at;
      neighbour = neighbour;
      same_pages = joined.same_pages;
      d_pages = d_pages;
      new_start = gn-start;
      still_busy = still_busy;
      page = joined-page;
      others = gn-other;
      same_map = λ i. ap (λ (y : Region). y.obj_map i) g-region;
      new_map = λ i.
          ap (λ (y : Region). y.obj_map i) t.region
          ∙ sym (ap (λ (y : Region). y.obj_map i) gn-region);
    }
