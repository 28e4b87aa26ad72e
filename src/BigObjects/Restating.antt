-- ===== src/BigObjects/Restating.antt =====
-- What a new state of an object leaves of its region, where its pages stay.
use smlnj.Prelude.{
  ℕ, ◌+◌, ◌-◌, ◌*◌, ◌^◌, ◌<◌, ◌≤◌, ◌≡◌, ◌≢◌, refl, sym, ap, ◌∙◌, inl, inr, Bool, true, false, arith,
  ◌==◌, if◌then◌else◌, Bool-cases, ==_iff,
}
use mathlib.Core.Path.{subst}
use smlnj.BigObjects.{Region, Desc, bo_num_bopages, bo_is_free}
use smlnj.BigObjects.Tiles.{within, Tiled, tile-of, tile-within}
use smlnj.BigObjects.Counts.{count, count-ap, count-range}
use smlnj.BigObjects.Whole.{
  start_of-same, DescOk-same, start_of, pages_of, is_free, DescOk, Coalesced, RegionOk,
}

module _ (descs descs' : ℕ → Desc) (used used' : ℕ → Bool) (hdr r : ℕ) (reg reg' : Region) where
  -- the object `d` has the same pages
  pub record Restated (d : ℕ) : Type 0 where
    pub obj : (descs' d).obj ≡ (descs d).obj
    pub pages : pages_of descs' d ≡ pages_of descs d
    pub region : (descs' d).region ≡ r
    pub sized : is_free descs' d ≡ true → (descs' d).size_b ≡ pages_of descs' d * 2 ^ 10
    pub others : (p : ℕ) → p ≢ d → descs' p ≡ descs p
    pub same_used : (p : ℕ) → used p ≡ true → used' p ≡ true
    pub same_first : reg'.first_page ≡ reg.first_page
    pub same_pages : reg'.n_pages ≡ reg.n_pages
    pub map : (i : ℕ) → i < reg.n_pages → reg'.obj_map i ≡ reg.obj_map i

  module _ (d : ℕ) (ok : RegionOk descs used hdr r reg) (c : Restated d)
      (hd : start_of reg descs d < reg.n_pages) (at : reg.obj_map (start_of reg descs d) ≡ d) where
    abbrev d_ok : DescOk descs used hdr r reg d
    d_ok = subst (DescOk descs used hdr r reg) at (ok.descs_ok (start_of reg descs d) hd)

    all_starts : (p : ℕ) → start_of reg' descs' p ≡ start_of reg descs p
    all_starts p = elim (Bool-cases (p == d)) [
      | inl same ↦
          let e = (==_iff p d).0 same in
          start_of-same reg reg' descs descs' p p
            (ap (λ (x : ℕ). (descs' x).obj) e ∙ c.obj ∙ sym (ap (λ (x : ℕ). (descs x).obj) e))
            c.same_first
      | inr other ↦
          start_of-same reg reg' descs descs' p p
            (ap (λ (x : Desc). x.obj) (c.others p λ q. absurd (ground (arith, q, other))))
            c.same_first
    ]

    all_pages : (p : ℕ) → pages_of descs' p ≡ pages_of descs p
    all_pages p = elim (Bool-cases (p == d)) [
      | inl same ↦
          let e = (==_iff p d).0 same in
          ap (pages_of descs') e ∙ c.pages ∙ sym (ap (pages_of descs) e)
      | inr other ↦
          ap (λ (x : Desc). bo_num_bopages x) (c.others p λ q. absurd (ground (arith, q, other)))
    ]

    restated-Tiled : Tiled (start_of reg' descs') (pages_of descs') reg'.obj_map reg'.n_pages
    restated-Tiled i h =
        let small : i < reg.n_pages = omega (arith, c.same_pages, h) in
        let tile = ok.tiled i small in
        let es = all_starts (reg.obj_map i) in
        let el = all_pages (reg.obj_map i) in
        tile-of (reg.obj_map i) (c.map i small) (omega (arith, es, tile.low))
          (omega (arith, es, el, tile.high)) (omega (arith, es, el, tile.inside, c.same_pages))
          λ j lo hi.
            c.map j (omega (arith, es, el, tile.inside, hi))
            ∙ tile.same j (omega (arith, es, lo)) (omega (arith, es, el, hi))

    restated_desc : DescOk descs' used' hdr r reg' d
    restated_desc = record {
      placed = omega (arith, c.obj, c.same_first, d_ok.placed, all_starts d);
      sized = c.sized;
      owned = c.region;
      live = c.same_used d d_ok.live;
      not_hdr = d_ok.not_hdr;
    }

    restated-descs : (i : ℕ) → i < reg'.n_pages → DescOk descs' used' hdr r reg' (reg'.obj_map i)
    restated-descs i h =
        let small : i < reg.n_pages = omega (arith, c.same_pages, h) in
        elim (Bool-cases (reg.obj_map i == d)) [
          | inl same ↦
              subst (DescOk descs' used' hdr r reg')
                (sym (c.map i small ∙ (==_iff (reg.obj_map i) d).0 same)) restated_desc
          | inr other ↦
              let k = ok.descs_ok i small in
              subst (DescOk descs' used' hdr r reg') (sym (c.map i small)) (
                DescOk-same k (c.others (reg.obj_map i) λ q. absurd (ground (arith, q, other)))
                  (c.same_used (reg.obj_map i) k.live) c.same_first)
        ]

    -- whether a page is free, where the object's new state is known
    restated_free :
        {f : Bool} (i : ℕ)
        → is_free descs' d ≡ f
        → i < reg.n_pages
        → is_free descs' (reg'.obj_map i)
          ≡ (if reg.obj_map i == d then f else is_free descs (reg.obj_map i))
    restated_free {f} i e h = elim (Bool-cases (reg.obj_map i == d)) [
      | inl same ↦ rw same (ap (is_free descs') (c.map i h ∙ (==_iff (reg.obj_map i) d).0 same) ∙ e)
      | inr other ↦ rw other (
          ap (is_free descs') (c.map i h)
          ∙ ap (λ (x : Desc). bo_is_free x)
              (c.others (reg.obj_map i) λ q. absurd (ground (arith, q, other))))
    ]

    page_d :
        (i : ℕ)
        → i < reg.n_pages
        → (reg.obj_map i == d) ≡ within (start_of reg descs d) (pages_of descs d) i
    page_d i h = tile-within ok.tiled d i h hd at

    d_fits : start_of reg descs d + pages_of descs d ≤ reg.n_pages
    d_fits = omega (
      arith,
      (ok.tiled (start_of reg descs d) hd).inside,
      ap (start_of reg descs) at,
      ap (pages_of descs) at,
    )

    was : (i : ℕ) → (reg.obj_map i == d) ≡ true → is_free descs (reg.obj_map i) ≡ is_free descs d
    was i mine = ap (is_free descs) ((==_iff (reg.obj_map i) d).0 mine)

    still_busy :
        (i : ℕ)
        → is_free descs d ≡ false
        → (if reg.obj_map i == d then false else is_free descs (reg.obj_map i))
          ≡ is_free descs (reg.obj_map i)
    still_busy i busy = elim (Bool-cases (reg.obj_map i == d)) [
      | inl mine ↦ rw mine (sym (was i mine ∙ busy))
      | inr other ↦ rw other refl
    ]

    restated-RegionOk :
        Coalesced descs' reg'.obj_map reg'.n_pages
        → reg'.n_free ≡ count (λ i. is_free descs' (reg'.obj_map i)) reg.n_pages
        → RegionOk descs' used' hdr r reg'
    restated-RegionOk coalesced counted = record {
      some_pages = omega (arith, c.same_pages, ok.some_pages);
      few = omega (arith, c.same_pages, ok.few);
      fits = omega (arith, c.same_pages, c.same_first, ok.fits);
      tiled = restated-Tiled;
      descs_ok = restated-descs;
      coalesced = coalesced;
      counted = counted ∙ sym (ap (count (λ i. is_free descs' (reg'.obj_map i))) c.same_pages);
    }

    -- A region stays well formed when a free object of it is taken.
    pub taken-RegionOk :
        is_free descs d ≡ true
        → is_free descs' d ≡ false
        → reg'.n_free + pages_of descs d ≡ reg.n_free
        → RegionOk descs' used' hdr r reg'
    taken-RegionOk free busy left =
        restated-RegionOk
          (λ i h free_here free_next.
            let small : i + 1 < reg.n_pages = omega (arith, c.same_pages, h) in
            let here = restated_free i busy (omega (arith, small)) in
            let after = restated_free (i + 1) busy small in
            c.map i (omega (arith, small))
            ∙ ok.coalesced i small (ground (arith, here, free_here))
                (ground (arith, after, free_next))
            ∙ sym (c.map (i + 1) small))
          (let pages =
              count-range (λ i. is_free descs (reg.obj_map i))
                (λ i. is_free descs' (reg'.obj_map i)) (start_of reg descs d) (pages_of descs d)
                reg.n_pages d_fits
                (λ i h. elim (Bool-cases (reg.obj_map i == d)) [
                  | inl mine ↦ rw (sym (page_d i h) ∙ mine) (was i mine ∙ free)
                  | inr other ↦
                      rw (sym (page_d i h) ∙ other) (sym (restated_free i busy h ∙ rw other refl))
                ])
                (λ i h w. restated_free i busy h ∙ rw (page_d i h ∙ w) refl) in
            omega (arith, pages, left, ok.counted))

    abbrev free_or_d : ℕ → Bool
    free_or_d i = if reg.obj_map i == d then true else is_free descs (reg.obj_map i)

    freed_pair :
        (i : ℕ)
        → i + 1 < reg.n_pages
        → (0 < start_of reg descs d
            → is_free descs (reg.obj_map (start_of reg descs d - 1)) ≡ false)
        → (start_of reg descs d + pages_of descs d < reg.n_pages
            → is_free descs (reg.obj_map (start_of reg descs d + pages_of descs d)) ≡ false)
        → free_or_d i ≡ true
        → free_or_d (i + 1) ≡ true
        → reg.obj_map i ≡ reg.obj_map (i + 1)
    freed_pair i h before after free_here free_next =
        let here = page_d i (omega (arith, h)) in
        let next = page_d (i + 1) h in
        elim (Bool-cases (reg.obj_map i == d)) [
          | inl mine ↦ elim (Bool-cases (reg.obj_map (i + 1) == d)) [
            | inl mine' ↦
                (==_iff (reg.obj_map i) d).0 mine ∙ sym ((==_iff (reg.obj_map (i + 1)) d).0 mine')
            | inr other' ↦
                let at_end : i + 1 ≡ start_of reg descs d + pages_of descs d =
                  ground (arith, here, next, mine, other') in
                let busy = after (omega (arith, at_end, h)) in
                absurd (
                  ground (
                    arith,
                    busy,
                    ap (λ (j : ℕ). is_free descs (reg.obj_map j)) at_end,
                    free_next,
                    other',
                  ))
          ]
          | inr other ↦ elim (Bool-cases (reg.obj_map (i + 1) == d)) [
            | inl mine' ↦
                let at_start : i ≡ start_of reg descs d - 1 =
                  ground (arith, here, next, other, mine') in
                let busy = before (ground (arith, here, next, other, mine')) in
                absurd (
                  ground (
                    arith,
                    busy,
                    ap (λ (j : ℕ). is_free descs (reg.obj_map j)) at_start,
                    free_here,
                    other,
                  ))
            | inr other' ↦
                ok.coalesced i h (ground (arith, free_here, other))
                  (ground (arith, free_next, other'))
          ]
        ]

    -- A region stays well formed when an object between busy ones is freed.
    pub freed-RegionOk :
        is_free descs d ≡ false
        → is_free descs' d ≡ true
        → reg'.n_free ≡ reg.n_free + pages_of descs d
        → (0 < start_of reg descs d
            → is_free descs (reg.obj_map (start_of reg descs d - 1)) ≡ false)
        → (start_of reg descs d + pages_of descs d < reg.n_pages
            → is_free descs (reg.obj_map (start_of reg descs d + pages_of descs d)) ≡ false)
        → RegionOk descs' used' hdr r reg'
    freed-RegionOk busy free left before after =
        restated-RegionOk
          (λ i h free_here free_next.
            let small : i + 1 < reg.n_pages = omega (arith, c.same_pages, h) in
            let small' : i < reg.n_pages = omega (arith, small) in
            c.map i small'
            ∙ freed_pair i small before after (sym (restated_free i free small') ∙ free_here)
                (sym (restated_free (i + 1) free small) ∙ free_next)
            ∙ sym (c.map (i + 1) small))
          (let pages =
              count-range (λ i. is_free descs' (reg'.obj_map i))
                (λ i. is_free descs (reg.obj_map i)) (start_of reg descs d) (pages_of descs d)
                reg.n_pages d_fits
                (λ i h. elim (Bool-cases (reg.obj_map i == d)) [
                  | inl mine ↦ rw (sym (page_d i h) ∙ mine) (restated_free i free h ∙ rw mine refl)
                  | inr other ↦
                      rw (sym (page_d i h) ∙ other) (restated_free i free h ∙ rw other refl)
                ])
                (λ i h w. was i (page_d i h ∙ w) ∙ busy) in
            omega (arith, pages, left, ok.counted))

    -- A region stays well formed when a busy object's size is rounded.
    pub rounded-RegionOk :
        is_free descs d ≡ false
        → is_free descs' d ≡ false
        → reg'.n_free ≡ reg.n_free
        → RegionOk descs' used' hdr r reg'
    rounded-RegionOk busy busy' left =
        let same =
          λ (i : ℕ) (small : i < reg.n_pages). restated_free i busy' small ∙ still_busy i busy in
        restated-RegionOk
          (λ i h free_here free_next.
            let small : i + 1 < reg.n_pages = omega (arith, c.same_pages, h) in
            let small' : i < reg.n_pages = omega (arith, small) in
            c.map i small'
            ∙ ok.coalesced i small (sym (same i small') ∙ free_here)
                (sym (same (i + 1) small) ∙ free_next)
            ∙ sym (c.map (i + 1) small))
          (left
            ∙ ok.counted
            ∙ count-ap (λ i. is_free descs (reg.obj_map i)) (λ i. is_free descs' (reg'.obj_map i))
                reg.n_pages (λ i small. sym (same i small)))
