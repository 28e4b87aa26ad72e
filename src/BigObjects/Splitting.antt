-- ===== src/BigObjects/Splitting.antt =====
-- `BO_Alloc` when it splits a free object: the heap stays well formed.
use smlnj.Prelude.{
  ℕ, ◌*◌, ◌%◌, ◌^◌, ◌<◌, ◌≡◌, ◌≢◌, refl, sym, ap, ◌∙◌, inl, inr, true, false, List, arith, ◌==◌,
  if◌then◌else◌, Bool-cases, ==_iff,
}
use mathlib.Core.Path.{subst}
use smlnj.Sizes.{roundup}
use smlnj.Bibop.{sub32, fill}
use smlnj.Bibop.Rows.{fill-eq}
use smlnj.Heap.{add64, sub64}
use smlnj.BigObjects.{
  Region, Desc, Links, BoHeap, update, rounds, addr_to_bopage, bo_num_bopages, bo_is_free,
}
use smlnj.BigObjects.Alloc.{settle_object, carve, map_pages}
use smlnj.BigObjects.Pages.{num_bopages-eq}
use smlnj.BigObjects.Tiles.{within}
use smlnj.BigObjects.Ring.{member, Ring, update-same, update-other}
use smlnj.BigObjects.Whole.{start_of, pages_of, is_free, RegionOk, MappedAt, Shaped}
use smlnj.BigObjects.Carving.{
  page-used, Split, split-RegionOk, split_keeps_free, split-MappedAt_old, split-MappedAt_other,
}
use smlnj.BigObjects.Frame.{SameShape, Step, Step-Shaped}
use smlnj.BigObjects.Taking.{FreeObj, free-obj, pages-le, SameShape-eq}

-- the new descriptor `e` takes `k` pages of the free object `dp`
module _ (h : BoHeap) (rs fs : List ℕ) (v : Shaped h rs fs) (links : Links) (dp e gen sz k : ℕ)
    (m : member dp fs ≡ true) (ring : Ring links h.free_big_objs fs)
    (fresh : h.used_descs e ≡ false) (takes : roundup sz 10 ≡ k * 2 ^ 10)
    (fewer : k * 2 ^ 10 < (h.descs dp).size_b) where
  abbrev pub r : ℕ
  r = (h.descs dp).region

  abbrev pub carved_heap : BoHeap
  carved_heap = carve (record h { links = links }) dp e (k * 2 ^ 10)

  abbrev pub lo : ℕ
  lo = addr_to_bopage (carved_heap.regions r) (carved_heap.descs e).obj

  abbrev pub split_heap : BoHeap
  split_heap = settle_object (map_pages carved_heap r lo (rounds k) e) r e gen sz k

  pub parent : FreeObj h r dp
  parent = free-obj v dp m

  pub dp-ne : dp ≢ e
  dp-ne same = ground (arith, ap h.used_descs same, parent.desc_ok.live, fresh)

  pub hdr-ne : e ≢ h.free_big_objs
  hdr-ne same = ground (arith, ap h.used_descs same, v.hdr_used, fresh)

  pub k-small : (k < pages_of h.descs dp) × (k < 2 ^ 21)
  k-small =
      let (low, high) = pages-le parent in
      let size = parent.desc_ok.sized parent.free in
      (omega (arith, size, fewer), omega (arith, size, fewer, low, high, parent.ok.few))

  carved-desc : carved_heap.descs e ≡ record (h.descs e) { obj = (h.descs dp).obj; region = r }
  unfolding carve
  carved-desc = update-other (update h.descs e _) dp e _ dp-ne ∙ update-same h.descs e _

  pub split_heap-desc : split_heap.descs e ≡ record (h.descs e) {
    obj = (h.descs dp).obj;
    size_b = sz;
    state = 1;
    gen = gen % 2 ^ 8;
    region = r;
  }
  unfolding settle_object map_pages
  split_heap-desc =
      update-same carved_heap.descs e _
      ∙ ap (λ (d : Desc). record d { size_b = sz; state = 1; gen = gen % 2 ^ 8 }) carved-desc

  pub split_heap-parent : split_heap.descs dp ≡ record (h.descs dp) {
    obj = add64 (h.descs dp).obj (k * 2 ^ 10);
    size_b = sub64 (h.descs dp).size_b (k * 2 ^ 10);
  }
  unfolding settle_object map_pages carve
  split_heap-parent =
      update-other carved_heap.descs e dp _ (λ q. dp-ne (sym q))
      ∙ update-same (update h.descs e _) dp _

  pub split_heap-other : (p : ℕ) → p ≢ dp → p ≢ e → split_heap.descs p ≡ h.descs p
  unfolding settle_object map_pages carve
  split_heap-other p nd ne =
      update-other carved_heap.descs e p _ (λ q. ne (sym q))
      ∙ update-other (update h.descs e _) dp p _ (λ q. nd (sym q))
      ∙ update-other h.descs e p _ (λ q. ne (sym q))

  pub split_heap-region : split_heap.regions r ≡ record (h.regions r) {
    n_free = sub32 (h.regions r).n_free k;
    obj_map = fill (h.regions r).obj_map lo (rounds k) e;
  }
  unfolding settle_object map_pages carve
  split_heap-region =
      update-same (update h.regions r _) r _
      ∙ ap (λ (x : Region). record x { n_free = sub32 x.n_free k }) (update-same h.regions r _)

  split_heap-used : (p : ℕ) → split_heap.used_descs p ≡ update h.used_descs e true p
  unfolding settle_object map_pages carve
  split_heap-used p = refl

  lo-eq : lo ≡ start_of (h.regions r) h.descs dp
  unfolding carve
  lo-eq = ap (λ (d : Desc). addr_to_bopage (h.regions r) d.obj) carved-desc

  pub new_map :
      (i : ℕ)
      → (split_heap.regions r).obj_map i
        ≡ (if within (start_of (h.regions r) h.descs dp) k i then e else (h.regions r).obj_map i)
  new_map i =
      let all : rounds k ≡ k = ground (arith, k-small.1) in
      ap (λ (x : Region). x.obj_map i) split_heap-region
      ∙ fill-eq (h.regions r).obj_map lo (rounds k) e i
      ∙ ap (λ (x : ℕ). if within x (rounds k) i then e else (h.regions r).obj_map i) lo-eq
      ∙ ap
          (λ (x : ℕ).
            if within (start_of (h.regions r) h.descs dp) x i then e else (h.regions r).obj_map i)
          all

  pub parent-Split :
      Split h.descs split_heap.descs h.used_descs split_heap.used_descs h.free_big_objs r
        (h.regions r)
        (split_heap.regions r)
        dp
        e
        k
  parent-Split =
      let (low, high) = pages-le parent in
      let size = parent.desc_ok.sized parent.free in
      let old_obj : (split_heap.descs dp).obj ≡ add64 (h.descs dp).obj (k * 2 ^ 10) =
        ap (λ (x : Desc). x.obj) split_heap-parent in
      let old_size : (split_heap.descs dp).size_b ≡ sub64 (h.descs dp).size_b (k * 2 ^ 10) =
        ap (λ (x : Desc). x.size_b) split_heap-parent in
      record {
        new_obj = ap (λ (x : Desc). x.obj) split_heap-desc;
        new_pages =
            ap (λ (x : Desc). bo_num_bopages x) split_heap-desc
            ∙ num_bopages-eq _
            ∙ omega (arith, takes);
        new_busy = ap (λ (x : Desc). bo_is_free x) split_heap-desc;
        new_region = ap (λ (x : Desc). x.region) split_heap-desc;
        old_obj = omega (
          arith, old_obj, k-small.1, parent.desc_ok.placed, parent.ok.fits, parent.ok.few,
          parent.at.0,
        );
        old_size = omega (arith, old_size, size, k-small.0, low, high, parent.ok.few);
        old_free = ap (λ (x : Desc). bo_is_free x) split_heap-parent ∙ parent.free;
        old_region = ap (λ (x : Desc). x.region) split_heap-parent;
        others = split_heap-other;
        new_used = split_heap-used e ∙ update-same h.used_descs e true;
        same_used = λ p ne. split_heap-used p ∙ update-other h.used_descs e p true λ q. ne (sym q);
        same_first = ap (λ (x : Region). x.first_page) split_heap-region;
        same_pages = ap (λ (x : Region). x.n_pages) split_heap-region;
        map = λ i small. new_map i;
        free_left = omega (
          arith,
          ap (λ (x : Region). x.n_free) split_heap-region,
          low,
          high,
          k-small.0,
          parent.ok.few,
        );
      }

  split_ok :
      RegionOk split_heap.descs split_heap.used_descs h.free_big_objs r (split_heap.regions r)
  split_ok =
      split-RegionOk h.descs split_heap.descs h.used_descs split_heap.used_descs h.free_big_objs r
        (h.regions r) (split_heap.regions r) dp e k parent.ok parent-Split parent.at.0 parent.at.1
        parent.free fresh k-small.0 hdr-ne

  pub keeps_free : (p : ℕ) → p ≢ e → is_free split_heap.descs p ≡ is_free h.descs p
  keeps_free p ne =
      split_keeps_free h.descs split_heap.descs h.used_descs split_heap.used_descs h.free_big_objs r
        (h.regions r) (split_heap.regions r) dp e k parent.ok parent-Split parent.at.0 parent.at.1
        parent.free fresh k-small.0 p ne

  member-ne_new : (p : ℕ) → member p fs ≡ true → p ≢ e
  member-ne_new p k same =
      ground (arith, ap h.used_descs same, (free-obj v p k).desc_ok.live, fresh)

  same-region : (p : ℕ) → p ≢ e → (split_heap.descs p).region ≡ (h.descs p).region
  same-region p ne = elim (Bool-cases (p == dp)) [
    | inl same ↦
        let q = (==_iff p dp).0 same in
        ap (λ (x : ℕ). (split_heap.descs x).region) q
        ∙ ap (λ (x : Desc). x.region) split_heap-parent
        ∙ sym (ap (λ (x : ℕ). (h.descs x).region) q)
    | inr other ↦
        ap (λ (x : Desc). x.region) (split_heap-other p (λ q. absurd (ground (arith, q, other))) ne)
  ]

  split-listed :
      (i : ℕ)
      → i < (split_heap.regions r).n_pages
      → is_free split_heap.descs ((split_heap.regions r).obj_map i) ≡ true
      → member ((split_heap.regions r).obj_map i) fs ≡ true
  split-listed i small f =
      let small' : i < (h.regions r).n_pages = omega (arith, small, parent-Split.same_pages) in
      let w = within (start_of (h.regions r) h.descs dp) k i in
      elim (Bool-cases w) [
        | inl here ↦
            let now : (split_heap.regions r).obj_map i ≡ e = new_map i ∙ rw here refl in
            absurd
              (ground (arith, sym (ap (is_free split_heap.descs) now) ∙ f, parent-Split.new_busy))
        | inr there ↦
            let p = (h.regions r).obj_map i in
            let now : (split_heap.regions r).obj_map i ≡ p = new_map i ∙ rw there refl in
            let ne : p ≢ e = page-used parent.ok e i small' fresh in
            ap (λ (x : ℕ). member x fs) now
            ∙ v.listed r i (v.only_free dp m).0 small'
                (sym (keeps_free p ne) ∙ sym (ap (is_free split_heap.descs) now) ∙ f)
      ]

  split-only :
      (p : ℕ)
      → member p fs ≡ true
      → (split_heap.descs p).region ≡ r
      → (is_free split_heap.descs p ≡ true) × MappedAt split_heap.descs (split_heap.regions r) p
  split-only p k' at_r =
      let ne = member-ne_new p k' in
      let o = free-obj v p k' in
      let at =
        subst (λ (x : ℕ). MappedAt h.descs (h.regions x) p) (sym (same-region p ne) ∙ at_r) o.at in
      (
        keeps_free p ne ∙ o.free,
        elim (Bool-cases (p == dp)) [
          | inl same ↦
              subst (λ (x : ℕ). MappedAt split_heap.descs (split_heap.regions r) x)
                (sym ((==_iff p dp).0 same))
                (split-MappedAt_old h.descs split_heap.descs h.used_descs split_heap.used_descs
                  h.free_big_objs r (h.regions r) (split_heap.regions r) dp e k parent.ok
                  parent-Split parent.at.0 parent.at.1 parent.free fresh k-small.0)
          | inr other ↦
              split-MappedAt_other h.descs split_heap.descs h.used_descs split_heap.used_descs
                h.free_big_objs r (h.regions r) (split_heap.regions r) dp e k parent.ok parent-Split
                parent.at.0 parent.at.1 parent.free fresh k-small.0 p
                (λ q. absurd (ground (arith, q, other))) ne at
        ],
      )

  pub split-others :
      (r' : ℕ)
      → r' ≢ r
      → SameShape (h.regions r') (split_heap.regions r')
        × ((split_heap.regions r').n_free ≡ (h.regions r').n_free)
  unfolding settle_object map_pages carve
  split-others r' ne =
      let same : split_heap.regions r' ≡ h.regions r' =
        update-other (update h.regions r _) r r' _ (λ q. ne (sym q))
        ∙ update-other h.regions r r' _ (λ q. ne (sym q)) in
      SameShape-eq (h.regions r') (split_heap.regions r') same

  split-Step : Step h split_heap r fs fs
  unfolding settle_object map_pages carve
  split-Step = record {
    ok = split_ok;
    same_hdr = refl;
    hdr_used = split_heap-used h.free_big_objs ∙ ground (arith, v.hdr_used);
    region_used = v.regions_used r (v.only_free dp m).0;
    regions_used = λ r' u. u;
    others = split-others;
    frame = λ p u away.
        let ne : p ≢ e = λ q. ground (arith, ap h.used_descs q, u, fresh) in
        (
          split_heap-other p (λ q. away (ap (λ (x : ℕ). (h.descs x).region) q)) ne,
          split_heap-used p ∙ ground (arith, u),
        );
    ring = ring;
    kept = λ p u away k'. k';
    back = λ p k' away.
        let o = free-obj v p k' in
        (k', o.desc_ok.live, λ q. away (same-region p (member-ne_new p k') ∙ q));
    listed = split-listed;
    only_free = split-only;
  }

  -- The heap stays well formed.
  pub split-Shaped : Shaped split_heap rs fs
  split-Shaped = Step-Shaped v split-Step (λ r' ne k'. k') (λ r' k'. k') (v.only_free dp m).0
