-- ===== src/BigObjects/Marking.antt =====
-- The marks of a region in `BO_Alloc` change nothing of its pages.
use smlnj.Prelude.{ℕ, ◌≡◌, refl, sym, ap, ◌∙◌, inl, inr, List, arith, ◌==◌, ltb, Bool-cases, ==_iff}
use smlnj.Bibop.{Bibop}
use smlnj.BigObjects.{Region, BoHeap, update}
use smlnj.BigObjects.Alloc.{mark_gen}
use smlnj.BigObjects.Ring.{member}
use smlnj.BigObjects.Whole.{is_free, MappedAt, Shaped}
use smlnj.BigObjects.Frame.{SameShape, RegionOk-same, MappedAt-same}
use smlnj.BigObjects.Served.{Served}

module _ (h : BoHeap) (regions : ℕ → Region) (b : Bibop)
    (same : (r : ℕ) → regions r ≡ record (h.regions r) { min_gen = (regions r).min_gen }) where
  abbrev h' : BoHeap
  h' = record h { regions = regions; bibop = b }

  shape : (r : ℕ) → SameShape (h.regions r) (regions r)
  shape r = record {
    first = ap (λ (x : Region). x.first_page) (same r);
    pages = ap (λ (x : Region). x.n_pages) (same r);
    map = λ i small. ap (λ (x : Region). x.obj_map i) (same r);
  }

  map : (r i : ℕ) → (regions r).obj_map i ≡ (h.regions r).obj_map i
  map r i = ap (λ (x : Region). x.obj_map i) (same r)

  at : (r p : ℕ) → MappedAt h.descs (h.regions r) p → MappedAt h.descs (regions r) p
  at r p a = MappedAt-same h.descs h.descs a refl (shape r)

  -- The heap with the marks is as well formed.
  pub marked-Shaped : {rs fs : List ℕ} → Shaped h rs fs → Shaped h' rs fs
  marked-Shaped {rs} {fs} v = record {
    regions_ok = λ r k.
        RegionOk-same (v.regions_ok r k) (shape r) (ap (λ (x : Region). x.n_free) (same r))
          λ p u owned. (refl, u);
    regions_used = v.regions_used;
    hdr_used = v.hdr_used;
    ring = v.ring;
    listed = λ r i k small f.
        ap (λ (x : ℕ). member x fs) (map r i)
        ∙ v.listed r i k (omega (arith, small, (shape r).pages))
            (sym (ap (is_free h.descs) (map r i)) ∙ f);
    only_free = λ p k. let (known, f, a) = v.only_free p k in (known, f, at (h.descs p).region p a);
  }

  -- So is what was promised of an object.
  pub marked-Served :
      {h0 : BoHeap} {rs rs' : List ℕ} {d gen sz : ℕ}
      → Served h0 h rs rs' d gen sz
      → Served h0 h' rs rs' d gen sz
  marked-Served {d = d} s = record {
    live = record {
      in_rs = s.live.in_rs;
      at = at (h.descs d).region d s.live.at;
      busy = s.live.busy;
    };
    size = s.size;
    young = s.young;
    of_gen = s.of_gen;
    busy_kept = λ r i k small e. let (m, x) = s.busy_kept r i k small e in (map r i ∙ m, x);
    from_free = λ r i k small mine. s.from_free r i k small (sym (map r i) ∙ mine);
    free_kept = λ r i k small f ne.
        ap (is_free h.descs) (map r i) ∙ s.free_kept r i k small f (λ c. ne (map r i ∙ c));
  }

-- the two at `mark_gen`
pub mark_gen-keeps :
    (garbage : ℕ → ℕ) (h h0 : BoHeap) (r gen0 gen d sz : ℕ) (rs rs' fs : List ℕ)
    → Shaped h rs' fs
    → Served h0 h rs rs' d gen sz
    → Shaped (mark_gen garbage h r gen0) rs' fs
      × Served h0 (mark_gen garbage h r gen0) rs rs' d gen sz
unfolding mark_gen
mark_gen-keeps garbage h h0 r gen0 gen d sz rs rs' fs v s =
    elim (Bool-cases (ltb gen0 (h.regions r).min_gen)) [
      | inr e ↦ rw e (v, s)
      | inl e ↦
          let regions = update h.regions r (record (h.regions r) { min_gen = gen0 }) in
          let same : (r' : ℕ)
              → regions r' ≡ record (h.regions r') { min_gen = (regions r').min_gen } =
            λ r'. elim (Bool-cases (r == r')) [
              | inr ne ↦ rw ne refl
              | inl eq ↦ rw (eq, (==_iff r r').0 eq) refl
            ] in
          rw e (marked-Shaped h regions _ same v, marked-Served h regions _ same s)
    ]
