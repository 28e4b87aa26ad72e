-- ===== src/BigObjects/FreeLaws.antt =====
-- The whole of `BO_Free`.
use smlnj.Prelude.{
  ℕ, ◌+◌, ◌/◌, ◌%◌, ◌^◌, ◌<◌, ◌≡◌, ◌≢◌, refl, sym, ap, ◌∙◌, inl, inr, Bool, true, false, List, ◌∷◌,
  arith, ◌==◌, ◌||◌, Bool-cases, ==_iff,
}
use mathlib.Core.Path.{subst}
use smlnj.Sizes.{roundup}
use smlnj.Bibop.{add32, sub32}
use smlnj.BigObjects.{Region, Desc, BoHeap, bo_is_free}
use smlnj.BigObjects.Free.{join_before, join_after, release, bo_free}
use smlnj.BigObjects.Tiles.{within, tile-within}
use smlnj.BigObjects.Ring.{update-same, update-other}
use smlnj.BigObjects.Whole.{start_of, pages_of, is_free, Shaped}
use smlnj.BigObjects.Pending.{ghost, Pending, BeforeBusy, AfterBusy, open_page}
use smlnj.BigObjects.Coalescing.{Before, After}
use smlnj.BigObjects.Freeing.{ghost-start}
use smlnj.BigObjects.Freed.{join_before-Before, join_after-After}
use smlnj.BigObjects.Released.{LiveObj}
use smlnj.BigObjects.Released.Rounded.{rounded-whole, rounded-pages, rounded-Pending}
use smlnj.BigObjects.Released.Listed.{release-Shaped}

-- the page of the region `r` is free
abbrev pub page_is_free : BoHeap → ℕ → ℕ → Bool
page_is_free h r i = is_free h.descs ((h.regions r).obj_map i)

-- The heap `h'` is `h` without the object `d`: its descriptor is in the free list, just its pages
-- became free, and the other objects keep their pages and their descriptors.
pub record FreedObject (h h' : BoHeap) (rs : List ℕ) (d : ℕ) : Type 0 where
  pub left : List ℕ
  pub shaped : Shaped h' rs (d ∷ left)
  pub pages :
      (i : ℕ)
      → i < (h.regions (h.descs d).region).n_pages
      → page_is_free h' (h.descs d).region i ≡ (
          within (start_of (h.regions (h.descs d).region) h.descs d) (pages_of h.descs d) i
          || page_is_free h (h.descs d).region i)
  pub kept :
      (i : ℕ)
      → i < (h.regions (h.descs d).region).n_pages
      → page_is_free h (h.descs d).region i ≡ false
      → within (start_of (h.regions (h.descs d).region) h.descs d) (pages_of h.descs d) i ≡ false
      → ((h'.regions (h.descs d).region).obj_map i ≡ (h.regions (h.descs d).region).obj_map i)
        × (h'.descs ((h.regions (h.descs d).region).obj_map i)
            ≡ h.descs ((h.regions (h.descs d).region).obj_map i))
  pub elsewhere : (r' : ℕ) → r' ≢ (h.descs d).region → h'.regions r' ≡ h.regions r'
  pub others : (x : ℕ) → x ≢ d → h'.descs x ≡ h.descs x

module _ (h : BoHeap) (rs fs : List ℕ) (d : ℕ) (v : Shaped h rs fs) (o : LiveObj h rs d) where
  abbrev r : ℕ
  r = (h.descs d).region

  abbrev tot : ℕ
  tot = roundup (h.descs d).size_b 10

  abbrev first : ℕ
  first = start_of (h.regions r) h.descs d

  abbrev n : ℕ
  n = pages_of h.descs d

  pending : Pending h rs fs d tot 0
  pending = rounded-Pending h rs fs d v o

  abbrev g : BoHeap
  g = ghost h d tot 0

  abbrev r1 : BoHeap × ℕ
  r1 = join_before h d first tot

  abbrev r2 : BoHeap × ℕ
  r2 = join_after r1.0 d (first + n) r1.1

  first-eq : start_of (g.regions r) g.descs d ≡ first
  first-eq = ghost-start h rs fs d tot 0 pending d

  step1 : Before h rs fs d tot 0 pending r1.0 r1.1
  step1 =
      subst
        (λ (x : ℕ).
          Before h rs fs d tot 0 pending (join_before h d x tot).0 (join_before h d x tot).1)
        first-eq (join_before-Before h rs fs d tot 0 pending)

  abbrev p1 : ℕ
  p1 = step1.p'

  abbrev g1 : BoHeap
  g1 = ghost r1.0 d r1.1 p1

  home1 : (r1.0.descs d).region ≡ r
  home1 = step1.step.same_region

  end1 : start_of (g1.regions (r1.0.descs d).region) g1.descs d + pages_of g1.descs d ≡ first + n
  end1 =
      ap (λ (x : ℕ). start_of (g1.regions x) g1.descs d + pages_of g1.descs d) home1
      ∙ step1.same_end
      ∙ omega (arith, first-eq, rounded-pages h rs fs d v o)

  step2 : After r1.0 rs step1.fs' d r1.1 p1 step1.step.pending r2.0 r2.1
  step2 =
      subst
        (λ (x : ℕ).
          After r1.0 rs step1.fs' d r1.1 p1 step1.step.pending (join_after r1.0 d x r1.1).0
            (join_after r1.0 d x r1.1).1)
        end1
        (join_after-After r1.0 rs step1.fs' d r1.1 p1 step1.step.pending
          (subst (λ (x : ℕ). BeforeBusy g1 x d) (sym home1) step1.before))

  abbrev p2 : ℕ
  p2 = step2.p'

  abbrev g2 : BoHeap
  g2 = ghost r2.0 d r2.1 p2

  home2 : (r2.0.descs d).region ≡ r
  home2 = step2.step.same_region ∙ home1

  pages2 : pages_of g2.descs d ≡ n + p2
  pages2 = omega (arith, step1.step.grows, step2.step.grows, rounded-pages h rs fs d v o)

  free_run : bo_free h d ≡ release r2.0 d r2.1 n
  unfolding bo_free
  free_run =
      let whole' = rounded-whole h rs fs d v o in
      let ok = v.regions_ok r o.in_rs in
      let tile = ok.tiled first o.at.0 in
      let small : n < 2 ^ 21 = omega (arith, tile.inside, ap (pages_of h.descs) o.at.1, ok.few) in
      let last : add32 first (tot / 2 ^ 10 % 2 ^ 32) ≡ first + n =
        omega (arith, whole', small, o.at.0, ok.few) in
      let count : sub32 (first + n) first ≡ n = omega (arith, small, o.at.0, ok.few) in
      ap
        (λ (x : ℕ).
          release (join_after r1.0 d x r1.1).0 d (join_after r1.0 d x r1.1).1 (sub32 x first))
        last
      ∙ ap (λ (x : ℕ). release r2.0 d r2.1 x) count

  -- the heap is well formed with the object in the free list.
  after-Shaped : (left : List ℕ) × Shaped (bo_free h d) rs (d ∷ left)
  after-Shaped = (
    step2.fs',
    subst (λ (x : BoHeap). Shaped x rs (d ∷ step2.fs')) (sym free_run)
        (release-Shaped r2.0 rs step2.fs' d r2.1 p2 n step2.step.pending
          (subst (λ (x : ℕ). BeforeBusy g2 x d) (sym step2.step.same_region) step2.before)
          (subst (λ (x : ℕ). AfterBusy g2 x d) (sym step2.step.same_region) step2.after) pages2),
  )

  free_d : is_free (bo_free h d).descs d ≡ true
  unfolding release
  free_d =
      ap (λ (x : BoHeap). is_free x.descs d) free_run
      ∙ ap (λ (x : Desc). bo_is_free x) (update-same r2.0.descs d _)

  -- of the descriptors that there were, only the object's is written
  after-others : (x : ℕ) → x ≢ d → (bo_free h d).descs x ≡ h.descs x
  unfolding release
  after-others x ne =
      ap (λ (y : BoHeap). y.descs x) free_run
      ∙ update-other r2.0.descs d x _ (λ e. ne (sym e))
      ∙ step2.step.others x ne
      ∙ step1.step.others x ne

  final-map : (i : ℕ) → ((bo_free h d).regions r).obj_map i ≡ (r2.0.regions r).obj_map i
  unfolding release
  final-map i =
      ap (λ (y : BoHeap). (y.regions r).obj_map i) free_run
      ∙ ap (λ (y : ℕ). ((release r2.0 d r2.1 n).regions y).obj_map i) (sym home2)
      ∙ ap (λ (x : Region). x.obj_map i) (update-same r2.0.regions (r2.0.descs d).region _)
      ∙ ap (λ (y : ℕ). (r2.0.regions y).obj_map i) home2

  small1 : (i : ℕ) → i < (h.regions r).n_pages → i < (r1.0.regions (r1.0.descs d).region).n_pages
  small1 i small =
      omega (arith, small, step1.step.same_pages, ap (λ (x : ℕ). (r1.0.regions x).n_pages) home1)

  open-same : (i : ℕ) → i < (h.regions r).n_pages → open_page g2 r d i ≡ open_page g r d i
  open-same i small =
      ap (λ (x : ℕ). open_page g2 x d i) (sym home1)
      ∙ step2.step.same_open i (small1 i small)
      ∙ ap (λ (x : ℕ). open_page g1 x d i) home1
      ∙ step1.step.same_open i small

  -- the pages of a heap with the object pending
  ghost-open :
      (k : BoHeap) (t q : ℕ)
      → (k.descs d).region ≡ r
      → is_free k.descs d ≡ false
      → (i : ℕ)
      → open_page (ghost k d t q) r d i
        ≡ (((k.regions r).obj_map i == d) || is_free k.descs ((k.regions r).obj_map i))
  ghost-open k t q home busy i =
      let x = (k.regions r).obj_map i in
      let map : ((ghost k d t q).regions r).obj_map i ≡ x =
        ap (λ (y : ℕ). ((ghost k d t q).regions y).obj_map i) (sym home)
        ∙ ap (λ (y : Region). y.obj_map i) (update-same k.regions (k.descs d).region _)
        ∙ ap (λ (y : ℕ). (k.regions y).obj_map i) home in
      ap (λ (y : ℕ). (y == d) || is_free (ghost k d t q).descs y) map ∙ elim (Bool-cases (x == d)) [
        | inl e ↦ rw e refl
        | inr e ↦ rw e (
            ap (λ (y : Desc). bo_is_free y)
              (update-other k.descs d x _ λ c. absurd (ground (arith, c, e))))
      ]

  final-free : (x : ℕ) → is_free (bo_free h d).descs x ≡ ((x == d) || is_free r2.0.descs x)
  unfolding release
  final-free x = elim (Bool-cases (x == d)) [
    | inl e ↦ rw e (ap (is_free (bo_free h d).descs) ((==_iff x d).0 e) ∙ free_d)
    | inr e ↦ rw e (
        ap (λ (y : BoHeap). is_free y.descs x) free_run
        ∙ ap (λ (y : Desc). bo_is_free y)
            (update-other r2.0.descs d x _ λ c. absurd (ground (arith, c, e))))
  ]

  -- just the object's pages become free.
  after-pages :
      (i : ℕ)
      → i < (h.regions r).n_pages
      → page_is_free (bo_free h d) r i ≡ (within first n i || page_is_free h r i)
  after-pages i small =
      let x = (r2.0.regions r).obj_map i in
      let tile = tile-within (v.regions_ok r o.in_rs).tiled d i small o.at.0 o.at.1 in
      ap (is_free (bo_free h d).descs) (final-map i)
      ∙ final-free x
      ∙ sym (ghost-open r2.0 r2.1 p2 home2 step2.step.pending.busy i)
      ∙ open-same i small
      ∙ ghost-open h tot 0 refl o.busy i
      ∙ ap (λ (b : Bool). b || page_is_free h r i) tile

  -- the other objects of the region keep their pages and their descriptors.
  after-kept :
      (i : ℕ)
      → i < (h.regions r).n_pages
      → page_is_free h r i ≡ false
      → within first n i ≡ false
      → (((bo_free h d).regions r).obj_map i ≡ (h.regions r).obj_map i)
        × ((bo_free h d).descs ((h.regions r).obj_map i) ≡ h.descs ((h.regions r).obj_map i))
  after-kept i small busy out =
      let tile = tile-within (v.regions_ok r o.in_rs).tiled d i small o.at.0 o.at.1 in
      let closed : open_page g r d i ≡ false =
        ghost-open h tot 0 refl o.busy i ∙ ground (arith, tile, busy, out) in
      let closed1 : open_page g1 r d i ≡ false = step1.step.same_open i small ∙ closed in
      (
        final-map i
            ∙ ap (λ (x : ℕ). (r2.0.regions x).obj_map i) (sym home1)
            ∙ step2.step.kept i (small1 i small)
                (ap (λ (x : ℕ). open_page g1 x d i) home1 ∙ closed1)
            ∙ ap (λ (x : ℕ). (r1.0.regions x).obj_map i) home1
            ∙ step1.step.kept i small closed,
        after-others ((h.regions r).obj_map i)
            λ c. ground (arith, tile, out, ap (λ (x : ℕ). x == d) c),
      )

  -- the other regions stay
  after-elsewhere : (r' : ℕ) → r' ≢ r → (bo_free h d).regions r' ≡ h.regions r'
  unfolding release
  after-elsewhere r' ne =
      ap (λ (y : BoHeap). y.regions r') free_run
      ∙ update-other r2.0.regions (r2.0.descs d).region r' _ (λ e. ne (sym e ∙ home2))
      ∙ step2.step.elsewhere r' (λ e. ne (e ∙ home1))
      ∙ step1.step.elsewhere r' ne

  -- `BO_Free` on a live object of a well-formed heap leaves a well-formed heap, where no two free
  -- objects are neighbours: the object's descriptor is in the free list, just the object's pages
  -- have become free, and the other objects keep their pages and their descriptors.
  pub bo_free-FreedObject : FreedObject h (bo_free h d) rs d
  bo_free-FreedObject = record {
    left = after-Shaped.0;
    shaped = after-Shaped.1;
    pages = after-pages;
    kept = after-kept;
    elsewhere = after-elsewhere;
    others = after-others;
  }
