-- ===== src/BigObjects/Served.antt =====
-- What `BO_Alloc` promises of its object, for each way to find it.
use smlnj.Prelude.{
  ℕ, ◌*◌, ◌%◌, ◌^◌, ◌<◌, ◌≡◌, ◌≢◌, refl, sym, ap, ◌∙◌, ◌⊎◌, inl, inr, true, false, List, arith,
  ◌==◌, Bool-cases, ==_iff,
}
use mathlib.Core.Path.{subst}
use smlnj.Sizes.{roundup}
use smlnj.BigObjects.{Region, Desc, Links, BoHeap, bo_is_free}
use smlnj.BigObjects.Alloc.{settle_object}
use smlnj.BigObjects.Tiles.{within, tile-within}
use smlnj.BigObjects.Ring.{member, Ring, without, update-other}
use smlnj.BigObjects.Whole.{start_of-same, start_of, is_free, MappedAt, Shaped}
use smlnj.BigObjects.Carving.{page-used, split-MappedAt_new}
use smlnj.BigObjects.Released.{LiveObj}
use smlnj.BigObjects.Taking
use smlnj.BigObjects.Splitting
use smlnj.BigObjects.FreeLaws.{page_is_free}

-- The heap `h'` is `h` with the new object `d`: it has the size and the generation, and is young;
-- in the regions `rs` of `h` the busy pages keep their objects, the new object has pages that were
-- free, and the other free pages are still free.
pub record Served (h h' : BoHeap) (rs rs' : List ℕ) (d gen sz : ℕ) : Type 0 where
  pub live : LiveObj h' rs' d
  pub size : (h'.descs d).size_b ≡ sz
  pub young : (h'.descs d).state ≡ 1
  pub of_gen : (h'.descs d).gen ≡ gen % 2 ^ 8
  pub busy_kept :
      (r i : ℕ)
      → member r rs ≡ true
      → i < (h.regions r).n_pages
      → page_is_free h r i ≡ false
      → ((h'.regions r).obj_map i ≡ (h.regions r).obj_map i)
        × (h'.descs ((h.regions r).obj_map i) ≡ h.descs ((h.regions r).obj_map i))
  pub from_free :
      (r i : ℕ)
      → member r rs ≡ true
      → i < (h.regions r).n_pages
      → (h'.regions r).obj_map i ≡ d
      → page_is_free h r i ≡ true
  pub free_kept :
      (r i : ℕ)
      → member r rs ≡ true
      → i < (h.regions r).n_pages
      → page_is_free h r i ≡ true
      → (h'.regions r).obj_map i ≢ d
      → page_is_free h' r i ≡ true

module _ (h : BoHeap) (rs fs : List ℕ) (v : Shaped h rs fs) (links : Links) (dp gen sz : ℕ)
    (m : member dp fs ≡ true) (ring : Ring links h.free_big_objs (without dp fs))
    (fits : roundup sz 10 ≡ (h.descs dp).size_b) where
  abbrev ht : BoHeap
  ht = Taking.taken_heap h rs fs v links dp gen sz m ring fits

  abbrev rt : ℕ
  rt = (h.descs dp).region

  taken-desc : ht.descs dp ≡ record (h.descs dp) { size_b = sz; state = 1; gen = gen % 2 ^ 8 }
  taken-desc = Taking.taken_heap-desc h rs fs v links dp gen sz m ring fits

  taken-other : (x : ℕ) → x ≢ dp → ht.descs x ≡ h.descs x
  taken-other = Taking.taken_heap-other h rs fs v links dp gen sz m ring fits

  taken-map : (r' i : ℕ) → (ht.regions r').obj_map i ≡ (h.regions r').obj_map i
  unfolding settle_object
  taken-map r' i = elim (Bool-cases (r' == rt)) [
    | inl e ↦
        ap (λ (x : ℕ). (ht.regions x).obj_map i) ((==_iff r' rt).0 e)
        ∙ ap (λ (x : Region). x.obj_map i)
            (Taking.taken_heap-region h rs fs v links dp gen sz m ring fits)
        ∙ sym (ap (λ (x : ℕ). (h.regions x).obj_map i) ((==_iff r' rt).0 e))
    | inr e ↦
        ap (λ (x : Region). x.obj_map i)
          (update-other h.regions rt r' _ λ c. absurd (ground (arith, c, e)))
  ]

  -- A free object of the size is taken.
  pub taken-Served : Served h ht rs rs dp gen sz
  taken-Served =
      let o = Taking.taken h rs fs v links dp gen sz m ring fits in
      let t = Taking.taken_pages h rs fs v links dp gen sz m ring fits in
      let home = ap (λ (x : Desc). x.region) taken-desc in
      record {
        live = record {
          in_rs = ap (λ (x : ℕ). member x rs) home ∙ (v.only_free dp m).0;
          at =
              subst (λ (x : ℕ). MappedAt ht.descs (ht.regions x) dp) (sym home)
                (taken-mapped t.same_first t.same_pages o.at);
          busy = ap (λ (x : Desc). bo_is_free x) taken-desc;
        };
        size = ap (λ (x : Desc). x.size_b) taken-desc;
        young = ap (λ (x : Desc). x.state) taken-desc;
        of_gen = ap (λ (x : Desc). x.gen) taken-desc;
        busy_kept = λ r i k small b. (
          taken-map r i,
          taken-other ((h.regions r).obj_map i)
              λ c. ground (arith, ap (is_free h.descs) c, b, o.free),
        );
        from_free = λ r i k small mine. ap (is_free h.descs) (sym (taken-map r i) ∙ mine) ∙ o.free;
        free_kept = λ r i k small f ne.
            ap (is_free ht.descs) (taken-map r i)
            ∙ ap (λ (x : Desc). bo_is_free x)
                (taken-other ((h.regions r).obj_map i) λ c. ne (taken-map r i ∙ c))
            ∙ f;
      }
    where
      taken-mapped :
          (ht.regions rt).first_page ≡ (h.regions rt).first_page
          → (ht.regions rt).n_pages ≡ (h.regions rt).n_pages
          → MappedAt h.descs (h.regions rt) dp
          → MappedAt ht.descs (ht.regions rt) dp
      taken-mapped first pages (inside, mapped) =
          let start =
            start_of-same (h.regions rt) (ht.regions rt) h.descs ht.descs dp dp
              (ap (λ (x : Desc). x.obj) taken-desc) first in
          (
            omega (arith, start, pages, inside),
            ap (ht.regions rt).obj_map start
                ∙ taken-map rt (start_of (h.regions rt) h.descs dp)
                ∙ mapped,
          )

module _ (h : BoHeap) (rs fs : List ℕ) (v : Shaped h rs fs) (links : Links) (dp e gen sz k : ℕ)
    (m : member dp fs ≡ true) (ring : Ring links h.free_big_objs fs)
    (fresh : h.used_descs e ≡ false) (takes : roundup sz 10 ≡ k * 2 ^ 10)
    (fewer : k * 2 ^ 10 < (h.descs dp).size_b) (some_pages : 0 < k) where
  abbrev hs : BoHeap
  hs = Splitting.split_heap h rs fs v links dp e gen sz k m ring fresh takes fewer

  abbrev ro : ℕ
  ro = (h.descs dp).region

  -- a page keeps its object, or it was the free object's
  split-map :
      (r' i : ℕ)
      → member r' rs ≡ true
      → i < (h.regions r').n_pages
      → ((hs.regions r').obj_map i ≡ (h.regions r').obj_map i)
        ⊎ (((hs.regions r').obj_map i ≡ e) × (page_is_free h r' i ≡ true))
  split-map r' i k' small = elim (Bool-cases (r' == ro)) [
    | inr other ↦ inl (
        (Splitting.split-others h rs fs v links dp e gen sz k m ring fresh takes fewer r'
            λ c. absurd (ground (arith, c, other))).0.map
          i small)
    | inl same ↦
        let c = (==_iff r' ro).0 same in
        let o = Splitting.parent h rs fs v links dp e gen sz k m ring fresh takes fewer in
        let small' : i < (h.regions ro).n_pages =
          omega (arith, small, ap (λ (x : ℕ). (h.regions x).n_pages) c) in
        let w = within (start_of (h.regions ro) h.descs dp) k i in
        let read = Splitting.new_map h rs fs v links dp e gen sz k m ring fresh takes fewer i in
        let tile = tile-within o.ok.tiled dp i small' o.at.0 o.at.1 in
        let few = (Splitting.k-small h rs fs v links dp e gen sz k m ring fresh takes fewer).0 in
        elim (Bool-cases w) [
          | inl here ↦ inr (
            ap (λ (x : ℕ). (hs.regions x).obj_map i) c ∙ read ∙ rw here refl,
            ap (λ (x : ℕ). page_is_free h x i) c
                ∙ ap (is_free h.descs)
                    ((==_iff ((h.regions ro).obj_map i) dp).0 (tile ∙ ground (arith, here, few)))
                ∙ o.free,
          )
          | inr there ↦ inl (
              ap (λ (x : ℕ). (hs.regions x).obj_map i) c
              ∙ read
              ∙ rw there (sym (ap (λ (x : ℕ). (h.regions x).obj_map i) c)))
        ]
  ]

  split-desc : hs.descs e ≡ record (h.descs e) {
    obj = (h.descs dp).obj;
    size_b = sz;
    state = 1;
    gen = gen % 2 ^ 8;
    region = ro;
  }
  split-desc = Splitting.split_heap-desc h rs fs v links dp e gen sz k m ring fresh takes fewer

  -- A bigger free object is split.
  pub split-Served : Served h hs rs rs e gen sz
  split-Served =
      let o = Splitting.parent h rs fs v links dp e gen sz k m ring fresh takes fewer in
      let c = Splitting.parent-Split h rs fs v links dp e gen sz k m ring fresh takes fewer in
      let few = (Splitting.k-small h rs fs v links dp e gen sz k m ring fresh takes fewer).0 in
      let home = ap (λ (x : Desc). x.region) split-desc in
      let not_e = λ (r i : ℕ) (k' : member r rs ≡ true) (small : i < (h.regions r).n_pages).
        page-used (v.regions_ok r k') e i small fresh in
      let free = Splitting.keeps_free h rs fs v links dp e gen sz k m ring fresh takes fewer in
      let other =
        Splitting.split_heap-other h rs fs v links dp e gen sz k m ring fresh takes fewer in
      record {
        live = record {
          in_rs = ap (λ (x : ℕ). member x rs) home ∙ (v.only_free dp m).0;
          at =
              subst (λ (x : ℕ). MappedAt hs.descs (hs.regions x) e) (sym home)
                (split-MappedAt_new h.descs hs.descs h.used_descs hs.used_descs h.free_big_objs ro
                  (h.regions ro) (hs.regions ro) dp e k o.ok c o.at.0 o.at.1 o.free fresh few
                  some_pages);
          busy = ap (λ (x : Desc). bo_is_free x) split-desc;
        };
        size = ap (λ (x : Desc). x.size_b) split-desc;
        young = ap (λ (x : Desc). x.state) split-desc;
        of_gen = ap (λ (x : Desc). x.gen) split-desc;
        busy_kept = λ r i k' small b. elim (split-map r i k' small) [
          | inr (mine, f) ↦ absurd (ground (arith, b, f))
          | inl same ↦ (
            same,
            other ((h.regions r).obj_map i) (λ q. ground (arith, ap (is_free h.descs) q, b, o.free))
                (not_e r i k' small),
          )
        ];
        from_free = λ r i k' small mine. elim (split-map r i k' small) [
          | inr (now, f) ↦ f
          | inl same ↦ absurd (not_e r i k' small (sym same ∙ mine))
        ];
        free_kept = λ r i k' small f ne. elim (split-map r i k' small) [
          | inr (now, g) ↦ absurd (ne now)
          | inl same ↦
              ap (is_free hs.descs) same ∙ free ((h.regions r).obj_map i) (not_e r i k' small) ∙ f
        ];
      }
