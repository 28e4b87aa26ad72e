-- ===== src/BigObjects/Joining.antt =====
-- What the coalescing of an object with a free neighbour leaves of their region.
use smlnj.Prelude.{
  ℕ, ◌+◌, ◌<◌, ◌≤◌, ◌≡◌, ◌≢◌, refl, sym, ap, ◌∙◌, ◌⊎◌, inl, inr, Bool, true, false, arith, ◌==◌,
  leb, if◌then◌else◌, Bool-cases, ==_iff,
}
use mathlib.Core.Path.{subst}
use smlnj.BigObjects.{Region, Desc, bo_num_bopages, bo_is_free}
use smlnj.BigObjects.Tiles.{within, Tiled, tile-within, Absorbed, Absorbed-Tiled}
use smlnj.BigObjects.Counts.{count, count-range}
use smlnj.BigObjects.Whole.{
  start_of-same, DescOk-same, start_of, pages_of, is_free, DescOk, Coalesced, RegionOk,
}

module _ (descs descs' : ℕ → Desc) (used used' : ℕ → Bool) (hdr r : ℕ) (reg reg' : Region) where
  -- the busy object `d` takes the pages of the free object `q`
  pub record Joined (d q : ℕ) : Type 0 where
    pub obj : (descs' d).obj ≡ (
        if leb (start_of reg descs d) (start_of reg descs q) then (descs d).obj else (descs q).obj)
    pub pages : pages_of descs' d ≡ pages_of descs d + pages_of descs q
    pub busy : is_free descs' d ≡ false
    pub region : (descs' d).region ≡ r
    pub others : (p : ℕ) → p ≢ d → p ≢ q → descs' p ≡ descs p
    pub same_used : (p : ℕ) → p ≢ q → used' p ≡ used p
    pub same_first : reg'.first_page ≡ reg.first_page
    pub same_pages : reg'.n_pages ≡ reg.n_pages
    pub map :
        (i : ℕ)
        → i < reg.n_pages
        → reg'.obj_map i
          ≡ (if within (start_of reg descs q) (pages_of descs q) i then d else reg.obj_map i)
    pub free_left : reg'.n_free + pages_of descs q ≡ reg.n_free

  module _ (d q : ℕ) (ok : RegionOk descs used hdr r reg) (c : Joined d q)
      (hd : start_of reg descs d < reg.n_pages) (at_d : reg.obj_map (start_of reg descs d) ≡ d)
      (busy : is_free descs d ≡ false) (hq : start_of reg descs q < reg.n_pages)
      (at_q : reg.obj_map (start_of reg descs q) ≡ q) (free : is_free descs q ≡ true)
      (next : (start_of reg descs q ≡ start_of reg descs d + pages_of descs d)
        ⊎ (start_of reg descs d ≡ start_of reg descs q + pages_of descs q)) where
    abbrev d_ok : DescOk descs used hdr r reg d
    d_ok = subst (DescOk descs used hdr r reg) at_d (ok.descs_ok (start_of reg descs d) hd)

    abbrev q_ok : DescOk descs used hdr r reg q
    q_ok = subst (DescOk descs used hdr r reg) at_q (ok.descs_ok (start_of reg descs q) hq)

    d-ne : d ≢ q
    d-ne same = ground (arith, ap (is_free descs) same, busy, free)

    -- The object starts with the first of the two.
    pub joined_start : start_of reg' descs' d ≡ (
        if leb (start_of reg descs d) (start_of reg descs q)
        then start_of reg descs d
        else start_of reg descs q)
    joined_start = elim (Bool-cases (leb (start_of reg descs d) (start_of reg descs q))) [
      | inl e ↦ rw e (start_of-same reg reg' descs descs' d d (c.obj ∙ rw e refl) c.same_first)
      | inr e ↦ rw e (start_of-same reg reg' descs descs' q d (c.obj ∙ rw e refl) c.same_first)
    ]

    absorbed :
        Absorbed
          (start_of reg descs)
          (pages_of descs)
          reg.obj_map
          (start_of reg' descs')
          (pages_of descs')
          reg'.obj_map
          reg.n_pages
          d
          q
    absorbed = record {
      next = next;
      new_start_page = joined_start;
      len = c.pages;
      others = λ p nd nq. (
        start_of-same reg reg' descs descs' p p (ap (λ (x : Desc). x.obj) (c.others p nd nq))
            c.same_first,
        ap (λ (x : Desc). bo_num_bopages x) (c.others p nd nq),
      );
      map = c.map;
    }

    page_q :
        (i : ℕ)
        → i < reg.n_pages
        → (reg.obj_map i == q) ≡ within (start_of reg descs q) (pages_of descs q) i
    page_q i h = tile-within ok.tiled q i h hq at_q

    -- the new map, by the old one's objects
    joined_map :
        (i : ℕ)
        → i < reg.n_pages
        → reg'.obj_map i ≡ (if reg.obj_map i == q then d else reg.obj_map i)
    joined_map i h =
        c.map i h ∙ ap (λ (b : Bool). if b then d else reg.obj_map i) (sym (page_q i h))

    q_fits : start_of reg descs q + pages_of descs q ≤ reg.n_pages
    q_fits = omega (
      arith,
      (ok.tiled (start_of reg descs q) hq).inside,
      ap (start_of reg descs) at_q,
      ap (pages_of descs) at_q,
    )

    -- Whether a page is free, by the object that it had.
    pub joined_free :
        (i : ℕ)
        → i < reg.n_pages
        → is_free descs' (reg'.obj_map i)
          ≡ (if reg.obj_map i == q then false else is_free descs (reg.obj_map i))
    joined_free i h = elim (Bool-cases (reg.obj_map i == q)) [
      | inl mine ↦ rw mine (ap (is_free descs') (joined_map i h ∙ rw mine refl) ∙ c.busy)
      | inr other ↦ elim (Bool-cases (reg.obj_map i == d)) [
        | inl same ↦
            let e = (==_iff (reg.obj_map i) d).0 same in
            rw other (
              ap (is_free descs') (joined_map i h ∙ rw other e)
              ∙ c.busy
              ∙ sym (ap (is_free descs) e ∙ busy))
        | inr away ↦ rw other (
            ap (is_free descs') (joined_map i h ∙ rw other refl)
            ∙ ap (λ (x : Desc). bo_is_free x)
                (c.others (reg.obj_map i) (λ x. absurd (ground (arith, x, away)))
                  (λ x. absurd (ground (arith, x, other)))))
      ]
    ]

    joined-counted : reg'.n_free ≡ count (λ i. is_free descs' (reg'.obj_map i)) reg'.n_pages
    joined-counted =
        let pages =
          count-range (λ i. is_free descs (reg.obj_map i)) (λ i. is_free descs' (reg'.obj_map i))
            (start_of reg descs q) (pages_of descs q) reg.n_pages q_fits
            (λ i h. elim (Bool-cases (reg.obj_map i == q)) [
              | inl mine ↦
                  rw (sym (page_q i h) ∙ mine)
                    (ap (is_free descs) ((==_iff (reg.obj_map i) q).0 mine) ∙ free)
              | inr other ↦ rw (sym (page_q i h) ∙ other) (sym (joined_free i h ∙ rw other refl))
            ])
            (λ i h w. joined_free i h ∙ rw (page_q i h ∙ w) refl) in
        let same = ap (count (λ i. is_free descs' (reg'.obj_map i))) c.same_pages in
        omega (arith, pages, c.free_left, ok.counted, same)

    joined-Coalesced : Coalesced descs' reg'.obj_map reg'.n_pages
    joined-Coalesced i h free_here free_next =
        let small : i + 1 < reg.n_pages = omega (arith, c.same_pages, h) in
        let here = joined_free i (omega (arith, small)) in
        let after = joined_free (i + 1) small in
        let out : (reg.obj_map i == q) ≡ false = ground (arith, here, free_here) in
        let out' : (reg.obj_map (i + 1) == q) ≡ false = ground (arith, after, free_next) in
        joined_map i (omega (arith, small))
        ∙ ap (λ (b : Bool). if b then d else reg.obj_map i) out
        ∙ (ok.coalesced i small (ground (arith, here, out, free_here))
            (ground (arith, after, out', free_next)))
        ∙ sym (joined_map (i + 1) small ∙ rw out' refl)

    joined_desc_ok : DescOk descs' used' hdr r reg' d
    joined_desc_ok = record {
      placed = ground (arith, joined_start, c.obj, c.same_first, d_ok.placed, q_ok.placed);
      sized = λ f. absurd (ground (arith, f, c.busy));
      owned = c.region;
      live = c.same_used d d-ne ∙ d_ok.live;
      not_hdr = d_ok.not_hdr;
    }

    joined-descs : (i : ℕ) → i < reg'.n_pages → DescOk descs' used' hdr r reg' (reg'.obj_map i)
    joined-descs i h =
        let small : i < reg.n_pages = omega (arith, c.same_pages, h) in
        elim (Bool-cases ((reg.obj_map i == q))) [
          | inl mine ↦
              subst (DescOk descs' used' hdr r reg') (sym (joined_map i small ∙ rw mine refl))
                joined_desc_ok
          | inr other ↦ elim (Bool-cases (reg.obj_map i == d)) [
            | inl same ↦
                subst (DescOk descs' used' hdr r reg')
                  (sym (joined_map i small ∙ rw other ((==_iff (reg.obj_map i) d).0 same)))
                  joined_desc_ok
            | inr away ↦
                let nd : reg.obj_map i ≢ d = λ x. absurd (ground (arith, x, away)) in
                let nq : reg.obj_map i ≢ q = λ x. absurd (ground (arith, x, other)) in
                let k = ok.descs_ok i small in
                subst (DescOk descs' used' hdr r reg') (sym (joined_map i small ∙ rw other refl)) (
                  DescOk-same k (c.others (reg.obj_map i) nd nq)
                    (c.same_used (reg.obj_map i) nq ∙ k.live) c.same_first)
          ]
        ]

    -- A region stays well formed when a busy object takes over a free neighbour's pages.
    pub joined-RegionOk : RegionOk descs' used' hdr r reg'
    joined-RegionOk = record {
      some_pages = omega (arith, c.same_pages, ok.some_pages);
      few = omega (arith, c.same_pages, ok.few);
      fits = omega (arith, c.same_pages, c.same_first, ok.fits);
      tiled =
          subst (λ (n : ℕ). Tiled (start_of reg' descs') (pages_of descs') reg'.obj_map n)
            (sym c.same_pages) (Absorbed-Tiled ok.tiled absorbed hd at_d hq at_q);
      descs_ok = joined-descs;
      coalesced = joined-Coalesced;
      counted = joined-counted;
    }

    -- The object is at its new first page.
    pub joined-mapped :
        (start_of reg' descs' d < reg'.n_pages) × (reg'.obj_map (start_of reg' descs' d) ≡ d)
    joined-mapped = elim (Bool-cases (leb (start_of reg descs d) (start_of reg descs q))) [
      | inl e ↦
          let start : start_of reg' descs' d ≡ start_of reg descs d = joined_start ∙ rw e refl in
          (
            omega (arith, start, hd, c.same_pages),
            ap reg'.obj_map start
                ∙ joined_map (start_of reg descs d) hd
                ∙ ground (arith, at_d, ap (λ (x : ℕ). x == q) at_d),
          )
      | inr e ↦
          let start : start_of reg' descs' d ≡ start_of reg descs q = joined_start ∙ rw e refl in
          (
            omega (arith, start, hq, c.same_pages),
            ap reg'.obj_map start
                ∙ joined_map (start_of reg descs q) hq
                ∙ ground (arith, at_q, ap (λ (x : ℕ). x == q) at_q),
          )
    ]
