-- ===== src/BigObjects/Taking.antt =====
-- `BO_Alloc` when a free object has just the size: the heap stays well formed.
use smlnj.Prelude.{
  ℕ, ◌+◌, ◌%◌, ◌^◌, ◌<◌, ◌≤◌, ◌≡◌, ◌≢◌, refl, sym, ap, ◌∙◌, inl, inr, true, false, List, arith,
  ◌==◌, Bool-cases, ==_iff,
}
use mathlib.Core.Path.{subst}
use smlnj.Sizes.{roundup}
use smlnj.Bibop.{sub32}
use smlnj.BigObjects.{Region, Desc, Links, BoHeap, update, bo_num_bopages, bo_is_free}
use smlnj.BigObjects.Alloc.{settle_object}
use smlnj.BigObjects.Counts.{count-le, le-count}
use smlnj.BigObjects.Pages.{num_bopages-eq}
use smlnj.BigObjects.Tiles.{tile-within}
use smlnj.BigObjects.Ring.{member, Ring, without, member-without, update-same, update-other}
use smlnj.BigObjects.Whole.{start_of, pages_of, is_free, DescOk, RegionOk, MappedAt, Shaped}
use smlnj.BigObjects.Restating.{Restated, taken-RegionOk}
use smlnj.BigObjects.Frame.{SameShape, MappedAt-same, Step, Step-Shaped}

pub SameShape-eq :
    (reg reg' : Region) → reg' ≡ reg → SameShape reg reg' × (reg'.n_free ≡ reg.n_free)
SameShape-eq reg reg' e = (
  record {
    first = ap (λ (x : Region). x.first_page) e;
    pages = ap (λ (x : Region). x.n_pages) e;
    map = λ i h. ap (λ (x : Region). x.obj_map i) e;
  },
  ap (λ (x : Region). x.n_free) e,
)

pub update-SameShape :
    (regions : ℕ → Region) (r r' : ℕ) (reg : Region)
    → r' ≢ r
    → SameShape (regions r') (update regions r reg r')
      × ((update regions r reg r').n_free ≡ (regions r').n_free)
update-SameShape regions r r' reg ne =
    SameShape-eq (regions r') (update regions r reg r')
      (update-other regions r r' reg λ q. ne (sym q))

-- an object of a well-formed heap's free list
pub record FreeObj (h : BoHeap) (r p : ℕ) : Type 0 where
  pub ok : RegionOk h.descs h.used_descs h.free_big_objs r (h.regions r)
  pub owned : (h.descs p).region ≡ r
  pub free : is_free h.descs p ≡ true
  pub at : MappedAt h.descs (h.regions r) p
  pub desc_ok : DescOk h.descs h.used_descs h.free_big_objs r (h.regions r) p

pub free-obj :
    {h : BoHeap} {rs fs : List ℕ}
    → Shaped h rs fs
    → (p : ℕ) → member p fs ≡ true
    → FreeObj h (h.descs p).region p
free-obj {h} v p m =
    let (in_rs, f, (inside, mapped)) = v.only_free p m in
    let r = (h.descs p).region in
    let ok = v.regions_ok r in_rs in
    record {
      ok = ok;
      owned = refl;
      free = f;
      at = (inside, mapped);
      desc_ok =
          subst (DescOk h.descs h.used_descs h.free_big_objs r (h.regions r)) mapped
            (ok.descs_ok (start_of (h.regions r) h.descs p) inside);
    }

pub pages-le :
    {h : BoHeap} {r p : ℕ}
    → FreeObj h r p
    → (pages_of h.descs p ≤ (h.regions r).n_free) × ((h.regions r).n_free ≤ (h.regions r).n_pages)
pages-le {h} {r} {p} o =
    let reg = h.regions r in
    let tile = o.ok.tiled (start_of reg h.descs p) o.at.0 in
    let fits : start_of reg h.descs p + pages_of h.descs p ≤ reg.n_pages =
      omega (arith, tile.inside, ap (start_of reg h.descs) o.at.1, ap (pages_of h.descs) o.at.1) in
    let free = λ (i : ℕ). is_free h.descs (reg.obj_map i) in
    let low =
      le-count free (start_of reg h.descs p) (pages_of h.descs p) reg.n_pages fits λ i small w.
        let same = tile-within o.ok.tiled p i small o.at.0 o.at.1 in
        ap (is_free h.descs) ((==_iff (reg.obj_map i) p).0 (same ∙ w)) ∙ o.free in
    let high = count-le free reg.n_pages in
    (omega (arith, low, o.ok.counted), omega (arith, high, o.ok.counted))

-- the taken object, out of the free list
module _ (h : BoHeap) (rs fs : List ℕ) (v : Shaped h rs fs) (links : Links) (dp gen sz : ℕ)
    (m : member dp fs ≡ true) (ring : Ring links h.free_big_objs (without dp fs))
    (fits : roundup sz 10 ≡ (h.descs dp).size_b) where
  abbrev pub r : ℕ
  r = (h.descs dp).region

  abbrev pub taken_heap : BoHeap
  taken_heap = settle_object (record h { links = links }) r dp gen sz (pages_of h.descs dp)

  pub taken : FreeObj h r dp
  taken = free-obj v dp m

  pub taken_heap-desc :
      taken_heap.descs dp ≡ record (h.descs dp) { size_b = sz; state = 1; gen = gen % 2 ^ 8 }
  unfolding settle_object
  taken_heap-desc = update-same h.descs dp _

  pub taken_heap-other : (p : ℕ) → p ≢ dp → taken_heap.descs p ≡ h.descs p
  unfolding settle_object
  taken_heap-other p ne = update-other h.descs dp p _ λ q. ne (sym q)

  pub taken_heap-region :
      taken_heap.regions r
      ≡ record (h.regions r) { n_free = sub32 (h.regions r).n_free (pages_of h.descs dp) }
  unfolding settle_object
  taken_heap-region = update-same h.regions r _

  taken_heap-used : (p : ℕ) → taken_heap.used_descs p ≡ h.used_descs p
  unfolding settle_object
  taken_heap-used p = refl

  pub taken_pages :
      Restated h.descs taken_heap.descs h.used_descs taken_heap.used_descs h.free_big_objs r
        (h.regions r)
        (taken_heap.regions r)
        dp
  taken_pages = record {
    obj = ap (λ (x : Desc). x.obj) taken_heap-desc;
    pages =
        ap (λ (x : Desc). bo_num_bopages x) taken_heap-desc
        ∙ num_bopages-eq _
        ∙ omega (arith, fits, taken.desc_ok.sized taken.free);
    region = ap (λ (x : Desc). x.region) taken_heap-desc;
    sized = λ f. absurd (ground (arith, f, ap (λ (x : Desc). bo_is_free x) taken_heap-desc));
    others = taken_heap-other;
    same_used = λ p u. taken_heap-used p ∙ u;
    same_first = ap (λ (x : Region). x.first_page) taken_heap-region;
    same_pages = ap (λ (x : Region). x.n_pages) taken_heap-region;
    map = λ i s. ap (λ (x : Region). x.obj_map i) taken_heap-region;
  }

  left : (taken_heap.regions r).n_free + pages_of h.descs dp ≡ (h.regions r).n_free
  left =
      let (low, high) = pages-le taken in
      omega (arith, low, high, taken.ok.few, ap (λ (x : Region). x.n_free) taken_heap-region)

  taken-listed :
      (i : ℕ)
      → i < (taken_heap.regions r).n_pages
      → is_free taken_heap.descs ((taken_heap.regions r).obj_map i) ≡ true
      → member ((taken_heap.regions r).obj_map i) (without dp fs) ≡ true
  taken-listed i small f =
      let p = (h.regions r).obj_map i in
      let small' : i < (h.regions r).n_pages = omega (arith, small, taken_pages.same_pages) in
      let f' = sym (ap (is_free taken_heap.descs) (taken_pages.map i small')) ∙ f in
      let other : (dp == p) ≡ false = elim (Bool-cases (dp == p)) [
        | inl same ↦
            let e = (==_iff dp p).0 same in
            absurd (
              ground (
                arith,
                f',
                ap (is_free taken_heap.descs) e,
                ap (λ (x : Desc). bo_is_free x) taken_heap-desc,
              ))
        | inr ne ↦ ne
      ] in
      let ne : p ≢ dp = λ q. absurd (ground (arith, q, other)) in
      ap (λ (x : ℕ). member x (without dp fs)) (taken_pages.map i small')
      ∙ member-without dp p fs v.ring.distinct.1
      ∙ rw other (
          v.listed r i (v.only_free dp m).0 small'
            (sym (ap (λ (x : Desc). bo_is_free x) (taken_heap-other p ne)) ∙ f'))

  still-member : (p : ℕ) → member p (without dp fs) ≡ true → (p ≢ dp) × (member p fs ≡ true)
  still-member p k =
      let e = member-without dp p fs v.ring.distinct.1 in
      (λ q. absurd (ground (arith, q, e, k)), ground (arith, e, k))

  taken-Step : Step h taken_heap r fs (without dp fs)
  unfolding settle_object
  taken-Step = record {
    ok =
        taken-RegionOk h.descs taken_heap.descs h.used_descs taken_heap.used_descs h.free_big_objs r
          (h.regions r) (taken_heap.regions r) dp taken.ok taken_pages taken.at.0 taken.at.1
          taken.free (ap (λ (x : Desc). bo_is_free x) taken_heap-desc) left;
    same_hdr = refl;
    hdr_used = v.hdr_used;
    region_used = v.regions_used r (v.only_free dp m).0;
    regions_used = λ r' u. u;
    others = λ r' ne. update-SameShape h.regions r r' _ ne;
    frame = λ p u away. (taken_heap-other p λ q. away (ap (λ (x : ℕ). (h.descs x).region) q), u);
    ring = ring;
    kept = λ p u away k.
        member-without dp p fs v.ring.distinct.1
        ∙ ground (arith, k, λ (q : dp ≡ p). away (ap (λ (x : ℕ). (h.descs x).region) (sym q)));
    back = λ p k away.
        let (ne, k') = still-member p k in
        let o = free-obj v p k' in
        (k', o.desc_ok.live, λ q. away (ap (λ (x : Desc). x.region) (taken_heap-other p ne) ∙ q));
    listed = taken-listed;
    only_free = λ p k e.
        let (ne, k') = still-member p k in
        let o = free-obj v p k' in
        let same = taken_heap-other p ne in
        let e' : (h.descs p).region ≡ r = sym (ap (λ (x : Desc). x.region) same) ∙ e in
        (
          ap (λ (x : Desc). bo_is_free x) same ∙ o.free,
          MappedAt-same h.descs taken_heap.descs
              (subst (λ (x : ℕ). MappedAt h.descs (h.regions x) p) e' o.at) same
              (record {
                first = taken_pages.same_first;
                pages = taken_pages.same_pages;
                map = taken_pages.map;
              }),
        );
  }

  -- The heap stays well formed.
  pub taken-Shaped : Shaped taken_heap rs (without dp fs)
  taken-Shaped = Step-Shaped v taken-Step (λ r' ne k. k) (λ r' k. k) (v.only_free dp m).0
