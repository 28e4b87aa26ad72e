-- ===== src/BigObjects/AllocLaws.antt =====
-- The whole of `BO_Alloc`.
use smlnj.Prelude.{
  ℕ, ◌+◌, ◌*◌, ◌/◌, ◌%◌, ◌^◌, ◌<◌, ◌≤◌, ◌≡◌, ◌≢◌, refl, sym, ap, ◌∙◌, ◌⊎◌, inl, inr, Bool, true,
  false, none, some, List, arith, ◌==◌, if◌then◌else◌, Bool-cases, Option-cases, ==_iff,
}
use mathlib.Core.Path.{subst}
use smlnj.Sizes.{roundup}
use smlnj.Generation.{System}
use smlnj.BigObjects.{
  Desc, Links, BoHeap, update, addr_to_bopage, Malloc, in_use, desc_sz_b, rounds, BoOutcome, gives,
  null_write, add_bo_desc, remove_bo_desc,
}
use smlnj.BigObjects.Alloc.{
  settle_object, finish_alloc, mark_gen, carve, map_pages, split_free, split_with, use_free,
}
use smlnj.BigObjects.Pages.{pages-RoundedUp}
use smlnj.BigObjects.Ring.{member, Ring, without, update-same, update-other}
use smlnj.BigObjects.Whole.{pages_of, Shaped}
use smlnj.BigObjects.Taking.{free-obj, taken-Shaped}
use smlnj.BigObjects.Splitting.{split-Shaped}
use smlnj.BigObjects.Served.{Served, taken-Served, split-Served}
use smlnj.BigObjects.Marking.{mark_gen-keeps}

-- `malloc` gives a block that is not in use
abbrev pub GivesNew : Malloc → Type 0
GivesNew malloc = (used : ℕ → Bool) (szb p : ℕ) → malloc used szb ≡ some p → used p ≡ false

-- how an allocation that was given a free object ends
pub record Done (h : BoHeap) (rs rs' : List ℕ) (gen sz : ℕ) (o : BoOutcome) : Type 0 where
  pub desc : ℕ
  pub heap : BoHeap
  pub runs : o ≡ gives desc heap
  pub fs' : List ℕ
  pub shaped : Shaped heap rs' fs'
  pub served : Served h heap rs rs' desc gen sz

module _ (sys : System) (malloc : Malloc) (news : GivesNew malloc) (h : BoHeap) (rs fs : List ℕ)
    (v : Shaped h rs fs) (dp gen sz : ℕ) (m : member dp fs ≡ true)
    (fits : roundup sz 10 ≤ (h.descs dp).size_b) (some_bytes : 0 < sz)
    (small : sz + 2 ^ 12 ≤ 2 ^ 31) where
  npages :
      (k : ℕ) × (roundup sz 10 ≡ k * 2 ^ 10)
      × (0 < k)
      × (roundup sz 10 / 2 ^ 10 % 2 ^ 32 ≡ k)
      × (pages_of h.descs dp ≡ (h.descs dp).size_b / 2 ^ 10)
  npages =
      let (k, whole, low, high) = pages-RoundedUp sz (omega (arith, small)) in
      let o = free-obj v dp m in
      (
        k,
        whole,
        omega (arith, whole, low, some_bytes),
        omega (arith, whole, high, small),
        omega (arith, o.desc_ok.sized o.free),
      )

  -- the object is of the size
  exact :
      (links : BoHeap)
      → Ring links.links h.free_big_objs (without dp fs)
      → roundup sz 10 ≡ (h.descs dp).size_b
      → Done h rs rs gen sz (
          finish_alloc sys.garbage
            (record h { links = links.links })
            dp
            gen
            sz
            (roundup sz 10 / 2 ^ 10 % 2 ^ 32))
  unfolding finish_alloc
  exact links ring e =
      let (k, whole, pos, count, pages) = npages in
      let n : roundup sz 10 / 2 ^ 10 % 2 ^ 32 ≡ pages_of h.descs dp =
        omega (arith, count, pages, e, whole) in
      let r = (h.descs dp).region in
      let base = taken-Shaped h rs fs v links.links dp gen sz m ring e in
      let served = taken-Served h rs fs v links.links dp gen sz m ring e in
      let (v', s') =
        mark_gen-keeps sys.garbage
          (settle_object (record h { links = links.links }) r dp gen sz (pages_of h.descs dp)) h r
          gen gen dp sz rs rs (without dp fs) base served in
      record {
        desc = dp;
        heap =
            mark_gen sys.garbage
              (settle_object (record h { links = links.links }) r dp gen sz (pages_of h.descs dp)) r
              gen;
        runs =
            ap
              (λ (x : ℕ). gives dp (
                mark_gen sys.garbage
                  (settle_object (record h { links = links.links }) r dp gen sz x) r gen))
              n;
        fs' = without dp fs;
        shaped = v';
        served = s';
      }

  -- what the split writes, with the links and the sizes as they are
  abbrev split_of : Links → ℕ → ℕ → ℕ → BoHeap
  split_of links e tot n =
      let c = carve (record h { links = links }) dp e tot in
      let r = (h.descs dp).region in
      map_pages c r (addr_to_bopage (c.regions r) (c.descs e).obj) (rounds n) e

  split_region :
      (links : Links) (e : ℕ)
      → h.used_descs e ≡ false
      → (k : ℕ) → ((split_of links e (k * 2 ^ 10) k).descs e).region ≡ (h.descs dp).region
  unfolding map_pages carve
  split_region links e fresh k =
      let o = free-obj v dp m in
      let ne : dp ≢ e = λ c. ground (arith, ap h.used_descs c, o.desc_ok.live, fresh) in
      ap (λ (d : Desc). d.region)
        (update-other (update h.descs e _) dp e _ ne ∙ update-same h.descs e _)

  -- the object is bigger
  splits :
      (links : Links) (e : ℕ)
      → Ring links h.free_big_objs fs
      → h.used_descs e ≡ false
      → roundup sz 10 < (h.descs dp).size_b
      → Done h rs rs gen sz (
          finish_alloc sys.garbage
            (split_of links e (roundup sz 10) (roundup sz 10 / 2 ^ 10 % 2 ^ 32))
            e
            gen
            sz
            (roundup sz 10 / 2 ^ 10 % 2 ^ 32))
  unfolding finish_alloc
  splits links e ring fresh more =
      let (k, whole, pos, count, pages) = npages in
      let fewer : k * 2 ^ 10 < (h.descs dp).size_b = omega (arith, whole, more) in
      let r = (h.descs dp).region in
      let after = split_of links e (k * 2 ^ 10) k in
      let base = split-Shaped h rs fs v links dp e gen sz k m ring fresh whole fewer in
      let served = split-Served h rs fs v links dp e gen sz k m ring fresh whole fewer pos in
      let (v', s') =
        mark_gen-keeps sys.garbage (settle_object after r e gen sz k) h r gen gen e sz rs rs fs base
          served in
      let home : (after.descs e).region ≡ r = split_region links e fresh k in
      record {
        desc = e;
        heap = mark_gen sys.garbage (settle_object after r e gen sz k) r gen;
        runs =
            ap
              (λ (x : ℕ).
                finish_alloc sys.garbage (split_of links e x (roundup sz 10 / 2 ^ 10 % 2 ^ 32)) e
                  gen sz (roundup sz 10 / 2 ^ 10 % 2 ^ 32))
              whole
            ∙ ap (λ (x : ℕ). finish_alloc sys.garbage (split_of links e (k * 2 ^ 10) x) e gen sz x)
                count
            ∙ ap
                (λ (x : ℕ). gives e (mark_gen sys.garbage (settle_object after x e gen sz k) x gen))
                home;
        fs' = fs;
        shaped = v';
        served = s';
      }

  -- the links before the free object is used, and what the two ways to use it leave
  abbrev split_links : Bool → Links → Links
  split_links is_new l = if is_new then add_bo_desc l h.free_big_objs dp else l

  abbrev exact_links : Bool → Links → Links
  exact_links is_new l = if is_new then l else remove_bo_desc l dp

  split-of :
      (is_new : Bool) (l : Links) (e tot n : ℕ)
      → split_free is_new (record h { links = l }) dp e tot n
        ≡ split_of (split_links is_new l) e tot n
  unfolding split_free carve map_pages
  split-of true l e tot n = refl
  split-of false l e tot n = refl

  exact_heap :
      (is_new : Bool) (l : Links)
      → (if is_new then record h { links = l } else record h { links = remove_bo_desc l dp })
        ≡ record h { links = exact_links is_new l }
  exact_heap true l = refl
  exact_heap false l = refl

  -- The free object serves the request, or it is split and malloc has no block for the
  -- new descriptor.
  pub use_free-Done :
      (is_new : Bool) (l : Links)
      → Ring (split_links is_new l) h.free_big_objs fs
      → Ring (exact_links is_new l) h.free_big_objs (without dp fs)
      → ((use_free sys malloc is_new (record h { links = l }) dp gen sz ≡ null_write)
          × ((h.descs dp).size_b ≢ roundup sz 10)
          × (malloc (in_use h) desc_sz_b ≡ none))
        ⊎ Done h rs rs gen sz (use_free sys malloc is_new (record h { links = l }) dp gen sz)
  unfolding use_free split_with
  use_free-Done is_new l ring ring' = elim (Bool-cases ((h.descs dp).size_b == roundup sz 10)) [
    | inl e ↦ inr (
        rw (e, exact_heap is_new l)
          (exact (record h { links = exact_links is_new l }) ring'
            (sym ((==_iff (h.descs dp).size_b (roundup sz 10)).0 e))))
    | inr ne ↦ elim (Option-cases (malloc (in_use h) desc_sz_b)) [
      | inl none_left ↦
          inl (rw (ne, none_left, split_with) refl, λ e. absurd (ground (arith, e, ne)), none_left)
      | inr (e, got) ↦
          let fresh : h.used_descs e ≡ false = ground (arith, news (in_use h) desc_sz_b e got) in
          let tot = roundup sz 10 in
          let n = tot / 2 ^ 10 % 2 ^ 32 in
          inr (
            rw (ne, got, split_with)
              (subst (λ (x : BoHeap). Done h rs rs gen sz (finish_alloc sys.garbage x e gen sz n))
                (sym (split-of is_new l e tot n))
                (splits (split_links is_new l) e ring fresh (ground (arith, ne, fits)))))
    ]
  ]
