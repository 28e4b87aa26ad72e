-- ===== src/BigObjects/Coalescing.antt =====
-- The two tests of `BO_Free` for a free neighbour.
use smlnj.Prelude.{
  ℕ, ◌+◌, ◌-◌, ◌*◌, ◌^◌, ◌<◌, ◌≤◌, ◌≡◌, ◌≢◌, refl, sym, ap, ◌∙◌, ◌⊎◌, inl, inr, true, false, List,
  arith, ◌==◌, if◌then◌else◌, leb, ==_iff,
}
use mathlib.Core.Path.{subst}
use smlnj.Heap.{add64}
use smlnj.BigObjects.{Region, Desc, BoHeap, update, bo_is_free}
use smlnj.BigObjects.Free.{take_over, free_block}
use smlnj.BigObjects.Tiles.{within, tile-within}
use smlnj.BigObjects.Ring.{without}
use smlnj.BigObjects.Whole.{start_of, pages_of}
use smlnj.BigObjects.Taking.{free-obj, pages-le}
use smlnj.BigObjects.Pending.{ghost, Pending, BeforeBusy, AfterBusy, TakenOver, open_page}
use smlnj.BigObjects.Pending.Merging.{joined_before, joined_after, joined-open, joined-kept}
use smlnj.BigObjects.Pending.TakeOver.{taken_over-Pending, taken_over-Merged}
use smlnj.BigObjects.Freeing.{
  takes-TakenOver, takes_plain-TakenOver, ghost-other, ghost-region, page-free, page-within,
}

-- a step of the coalescing, with the pages that the object has got
pub record Coalesces (h : BoHeap) (rs fs : List ℕ) (d tot p : ℕ) (h' : BoHeap) (tot' : ℕ)
    (fs' : List ℕ) (p' : ℕ) : Type 0 where
  pub pending : Pending h' rs fs' d tot' p'
  pub same_region : (h'.descs d).region ≡ (h.descs d).region
  pub same_free : (h'.regions (h.descs d).region).n_free ≡ (h.regions (h.descs d).region).n_free
  pub others : (x : ℕ) → x ≢ d → h'.descs x ≡ h.descs x
  pub elsewhere : (r' : ℕ) → r' ≢ (h.descs d).region → h'.regions r' ≡ h.regions r'
  pub same_pages : (h'.regions (h.descs d).region).n_pages ≡ (h.regions (h.descs d).region).n_pages
  pub same_open :
      (i : ℕ)
      → i < (h.regions (h.descs d).region).n_pages
      → open_page (ghost h' d tot' p') (h.descs d).region d i
        ≡ open_page (ghost h d tot p) (h.descs d).region d i
  pub kept :
      (i : ℕ)
      → i < (h.regions (h.descs d).region).n_pages
      → open_page (ghost h d tot p) (h.descs d).region d i ≡ false
      → (h'.regions (h.descs d).region).obj_map i ≡ (h.regions (h.descs d).region).obj_map i
  pub grows : pages_of (ghost h' d tot' p').descs d + p ≡ pages_of (ghost h d tot p).descs d + p'

module _ (h : BoHeap) (rs fs : List ℕ) (d tot p : ℕ) (v : Pending h rs fs d tot p) where
  abbrev r : ℕ
  r = (h.descs d).region

  abbrev g : BoHeap
  g = ghost h d tot p

  abbrev s : ℕ
  s = start_of (g.regions r) g.descs d

  abbrev l : ℕ
  l = pages_of g.descs d

  pub d-pages : (0 < l) × (s + l ≤ (g.regions r).n_pages) × ((g.regions r).n_pages + 1 < 2 ^ 21)
  d-pages =
      let ok = v.shaped.regions_ok r v.in_rs in
      let tile = ok.tiled s v.at.0 in
      let es = ap (start_of (g.regions r) g.descs) v.at.1 in
      let el = ap (pages_of g.descs) v.at.1 in
      (omega (arith, tile.high, es, el), omega (arith, tile.inside, es, el), ok.few)

  to_ghost : (j : ℕ) → j < (h.regions r).n_pages → j < (g.regions r).n_pages
  to_ghost j small =
      omega (arith, small, ap (λ (x : Region). x.n_pages) (ghost-region h rs fs d tot p v))

  page-d : (i : ℕ) → i < (g.regions r).n_pages → ((g.regions r).obj_map i == d) ≡ within s l i
  page-d i small = tile-within (v.shaped.regions_ok r v.in_rs).tiled d i small v.at.0 v.at.1

  pub stays : Coalesces h rs fs d tot p h tot fs p
  stays = record {
    pending = v;
    same_region = refl;
    same_free = refl;
    others = λ x ne. refl;
    elsewhere = λ r' ne. refl;
    same_pages = refl;
    same_open = λ i small. refl;
    kept = λ i small e. refl;
    grows = refl;
  }

  -- what holds once the pages before the object were looked at
  pub record Before (h' : BoHeap) (tot' : ℕ) : Type 0 where
    pub fs' : List ℕ
    pub p' : ℕ
    pub step : Coalesces h rs fs d tot p h' tot' fs' p'
    pub before : BeforeBusy (ghost h' d tot' p') r d
    pub same_end :
        start_of ((ghost h' d tot' p').regions r) (ghost h' d tot' p').descs d
          + pages_of (ghost h' d tot' p').descs d
        ≡ s + l

  pub record After (h' : BoHeap) (tot' : ℕ) : Type 0 where
    pub fs' : List ℕ
    pub p' : ℕ
    pub step : Coalesces h rs fs d tot p h' tot' fs' p'
    pub before : BeforeBusy (ghost h' d tot' p') r d
    pub after : AfterBusy (ghost h' d tot' p') r d

  -- the free object `q` of page `i`, as the code reads it
  module _ (i : ℕ) (small : i < (g.regions r).n_pages)
      (f : bo_is_free (h.descs ((h.regions r).obj_map i)) ≡ true) where
    abbrev q : ℕ
    q = (h.regions r).obj_map i

    abbrev lo : ℕ
    lo = start_of (g.regions r) g.descs q

    abbrev n : ℕ
    n = pages_of g.descs q

    pub neighbour-sized : ((h.descs q).size_b ≡ n * 2 ^ 10) × (n < 2 ^ 21)
    neighbour-sized =
        let (ne, k, owned) = page-free h rs fs d tot p v i small f in
        let o = free-obj v.shaped q k in
        let few = (pages-le o).0 in
        let few' = (pages-le o).1 in
        (
          sym (ap (λ (x : Desc). x.size_b) (ghost-other h rs fs d tot p v q ne))
              ∙ o.desc_ok.sized o.free,
          omega (arith, few, few', o.ok.few),
        )

    pub new_total : add64 tot (h.descs q).size_b ≡ tot + (h.descs q).size_b
    new_total =
        let (pos, inside, few) = d-pages in
        omega (arith, v.whole, inside, few, neighbour-sized.0, neighbour-sized.1)

    -- where the neighbour lies
    pub q-here : within lo n i ≡ true
    q-here = sym (page-within h rs fs d tot p v i i small small f) ∙ ground arith

    pub q-not_d : (j : ℕ) → j < (g.regions r).n_pages → within s l j ≡ true → within lo n j ≡ false
    q-not_d j small' w =
        let (ne, k, owned) = page-free h rs fs d tot p v i small f in
        let mine : (h.regions r).obj_map j ≡ d =
          sym (ap (λ (x : Region). x.obj_map j) (ghost-region h rs fs d tot p v))
          ∙ (==_iff ((g.regions r).obj_map j) d).0 (page-d j small' ∙ w) in
        sym (page-within h rs fs d tot p v i j small small' f)
        ∙ ground (arith, ap (λ (x : ℕ). x == q) mine, λ (c : q ≡ d). ne c)

    pub joins-Before :
        s ≡ i + 1
        → Before
            (free_block
              (record (take_over h d q lo n) {
                descs = update h.descs d (record (h.descs d) { obj = (h.descs q).obj });
              })
              q)
            (tot + (h.descs q).size_b)
    joins-Before at =
        let (ne, k, owned) = page-free h rs fs d tot p v i small f in
        let (pos, inside, few) = d-pages in
        let obj = (h.descs q).obj in
        let out = q-not_d s (omega (arith, pos, inside)) (ground (arith, pos)) in
        let left : s ≡ lo + n = ground (arith, q-here, out, at) in
        let t = takes-TakenOver h d q lo n obj in
        let hn : BoHeap =
          free_block
            (record (take_over h d q lo n) {
              descs = update h.descs d (record (h.descs d) { obj = obj });
            })
            q in
        let moved : obj ≡ (if leb s lo then (h.descs d).obj else obj) =
          ground (arith, q-here, left) in
        let next : (lo ≡ s + l) ⊎ (s ≡ lo + n) = inr left in
        let one = taken_over-Merged h hn rs fs d q tot p obj v k owned t moved next in
        let (busy, end, grown) = joined_before one left in
        record {
          fs' = without q fs;
          p' = p + n;
          step = record {
            pending = taken_over-Pending h hn rs fs d q tot p obj v k owned t moved next;
            same_region = ap (λ (x : Desc). x.region) t.desc;
            same_free = ap (λ (x : Region). x.n_free) t.region;
            others = t.others;
            elsewhere = t.regions;
            same_pages = ap (λ (x : Region). x.n_pages) t.region;
            same_open = λ j small'. joined-open one j (to_ghost j small');
            kept = λ j small' e. joined-kept one j (to_ghost j small') e;
            grows = omega (arith, grown);
          };
          before = busy;
          same_end = end;
        }

    -- what holds once the pages after the object were looked at
    pub joins-After :
        i ≡ s + l
        → BeforeBusy g r d
        → After (free_block (take_over h d q i n) q) (tot + (h.descs q).size_b)
    joins-After at before =
        let (ne, k, owned) = page-free h rs fs d tot p v i small f in
        let (pos, inside, few) = d-pages in
        let obj = (h.descs d).obj in
        let out = q-not_d (i - 1) (omega (arith, small)) (ground (arith, pos, at)) in
        let start : lo ≡ i = ground (arith, q-here, out, at, pos) in
        let right : lo ≡ s + l = start ∙ at in
        let hn : BoHeap = free_block (take_over h d q i n) q in
        let t : TakenOver h hn d q lo n obj =
          subst (λ (x : ℕ). TakenOver h hn d q x n obj) (sym start)
            (takes_plain-TakenOver h d q i n) in
        let moved : obj ≡ (if leb s lo then obj else (h.descs q).obj) = ground (arith, right) in
        let next : (lo ≡ s + l) ⊎ (s ≡ lo + n) = inl right in
        let one = taken_over-Merged h hn rs fs d q tot p obj v k owned t moved next in
        let (before', after, grown) = joined_after one right before in
        record {
          fs' = without q fs;
          p' = p + n;
          step = record {
            pending = taken_over-Pending h hn rs fs d q tot p obj v k owned t moved next;
            same_region = ap (λ (x : Desc). x.region) t.desc;
            same_free = ap (λ (x : Region). x.n_free) t.region;
            others = t.others;
            elsewhere = t.regions;
            same_pages = ap (λ (x : Region). x.n_pages) t.region;
            same_open = λ j small'. joined-open one j (to_ghost j small');
            kept = λ j small' e. joined-kept one j (to_ghost j small') e;
            grows = omega (arith, grown);
          };
          before = before';
          after = after;
        }
