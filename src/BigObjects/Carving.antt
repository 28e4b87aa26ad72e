-- ===== src/BigObjects/Carving.antt =====
-- What the split of a free object leaves of its region.
use smlnj.Prelude.{
  ℕ, ◌+◌, ◌-◌, ◌*◌, ◌^◌, ◌<◌, ◌≤◌, ◌≡◌, ◌≢◌, refl, sym, ap, ◌∙◌, inl, inr, Bool, true, false, arith,
  ◌==◌, if◌then◌else◌, Bool-cases, ==_iff,
}
use mathlib.Core.Path.{subst}
use smlnj.BigObjects.{Region, Desc, bo_num_bopages}
use smlnj.BigObjects.Tiles.{within, Tiled, tile-within, Carved, Carved-Tiled}
use smlnj.BigObjects.Counts.{count, count-range}
use smlnj.BigObjects.Pages.{num_bopages-exact, bopage-exact}
use smlnj.BigObjects.Whole.{
  start_of-same, DescOk-same, start_of, pages_of, is_free, DescOk, Coalesced, RegionOk, MappedAt,
}

-- a page of the region `r` leads to a descriptor in use
pub page-used :
    {descs : ℕ → Desc} {used : ℕ → Bool} {hdr r : ℕ} {reg : Region}
    → RegionOk descs used hdr r reg
    → (e i : ℕ) → i < reg.n_pages
    → used e ≡ false
    → reg.obj_map i ≢ e
page-used {used} ok e i h fresh same =
    let live = (ok.descs_ok i h).live in ground (arith, ap used same, live, fresh)

module _ (descs descs' : ℕ → Desc) (used used' : ℕ → Bool) (hdr r : ℕ) (reg reg' : Region) where
  -- the new descriptor `e` gets the first `k` pages of the free object `dp`
  pub record Split (dp e k : ℕ) : Type 0 where
    pub new_obj : (descs' e).obj ≡ (descs dp).obj
    pub new_pages : pages_of descs' e ≡ k
    pub new_busy : is_free descs' e ≡ false
    pub new_region : (descs' e).region ≡ r
    pub old_obj : (descs' dp).obj ≡ (descs dp).obj + k * 2 ^ 10
    pub old_size : (descs' dp).size_b + k * 2 ^ 10 ≡ (descs dp).size_b
    pub old_free : is_free descs' dp ≡ true
    pub old_region : (descs' dp).region ≡ r
    pub others : (p : ℕ) → p ≢ dp → p ≢ e → descs' p ≡ descs p
    pub new_used : used' e ≡ true
    pub same_used : (p : ℕ) → p ≢ e → used' p ≡ used p
    pub same_first : reg'.first_page ≡ reg.first_page
    pub same_pages : reg'.n_pages ≡ reg.n_pages
    pub map :
        (i : ℕ)
        → i < reg.n_pages
        → reg'.obj_map i ≡ (if within (start_of reg descs dp) k i then e else reg.obj_map i)
    pub free_left : reg'.n_free + k ≡ reg.n_free

  module _ (dp e k : ℕ) (ok : RegionOk descs used hdr r reg) (c : Split dp e k)
      (hd : start_of reg descs dp < reg.n_pages) (at : reg.obj_map (start_of reg descs dp) ≡ dp)
      (free : is_free descs dp ≡ true) (fresh : used e ≡ false)
      (fewer : k < pages_of descs dp) where
    abbrev dp_ok : DescOk descs used hdr r reg dp
    dp_ok = subst (DescOk descs used hdr r reg) at (ok.descs_ok (start_of reg descs dp) hd)

    dp_fits : start_of reg descs dp + pages_of descs dp ≤ reg.n_pages
    dp_fits = omega (
      arith,
      (ok.tiled (start_of reg descs dp) hd).inside,
      ap (start_of reg descs) at,
      ap (pages_of descs) at,
    )

    new_start : start_of reg' descs' e ≡ start_of reg descs dp
    new_start =
        bopage-exact reg' (descs' e).obj (start_of reg descs dp)
          (omega (arith, c.new_obj, c.same_first, dp_ok.placed)) (omega (arith, hd, ok.few))
          (omega (arith, c.same_first, ok.fits))

    old_start : start_of reg' descs' dp ≡ start_of reg descs dp + k
    old_start =
        bopage-exact reg' (descs' dp).obj (start_of reg descs dp + k)
          (omega (arith, c.old_obj, c.same_first, dp_ok.placed))
          (omega (arith, dp_fits, fewer, ok.few)) (omega (arith, c.same_first, ok.fits))

    old_pages : pages_of descs' dp + k ≡ pages_of descs dp
    old_pages =
        let rest =
          num_bopages-exact (descs' dp) (pages_of descs dp - k)
            (omega (arith, c.old_size, dp_ok.sized free, fewer)) (omega (arith, dp_fits, ok.few)) in
        omega (arith, rest, fewer)

    other_start : (p : ℕ) → p ≢ dp → p ≢ e → start_of reg' descs' p ≡ start_of reg descs p
    other_start p nd ne =
        start_of-same reg reg' descs descs' p p (ap (λ (d : Desc). d.obj) (c.others p nd ne))
          c.same_first

    carved :
        Carved
          (start_of reg descs)
          (pages_of descs)
          reg.obj_map
          (start_of reg' descs')
          (pages_of descs')
          reg'.obj_map
          reg.n_pages
          dp
          e
          k
    carved = record {
      new_start = new_start;
      new_len = c.new_pages;
      old_start = old_start;
      old_len = old_pages;
      others =
          λ p nd ne. (other_start p nd ne, ap (λ (d : Desc). bo_num_bopages d) (c.others p nd ne));
      map = c.map;
    }

    kept_free : (p : ℕ) → p ≢ e → is_free descs' p ≡ is_free descs p
    kept_free p ne = elim (Bool-cases (p == dp)) [
      | inl same ↦
          ap (is_free descs') ((==_iff p dp).0 same)
          ∙ c.old_free
          ∙ sym (ap (is_free descs) ((==_iff p dp).0 same) ∙ free)
      | inr other ↦
          ap (λ (d : Desc). d.state == 0) (c.others p (λ q. absurd (ground (arith, q, other))) ne)
    ]

    new_at : (i : ℕ) → i < reg.n_pages → reg.obj_map i ≢ e
    new_at i h = page-used ok e i h fresh

    free_at :
        (i : ℕ)
        → i < reg.n_pages
        → is_free descs' (reg'.obj_map i)
          ≡ (if within (start_of reg descs dp) k i then false else is_free descs (reg.obj_map i))
    free_at i h = elim (Bool-cases (within (start_of reg descs dp) k i)) [
      | inl w ↦ rw w (ap (is_free descs') (c.map i h ∙ rw w refl) ∙ c.new_busy)
      | inr w ↦
          rw w
            (ap (is_free descs') (c.map i h ∙ rw w refl) ∙ kept_free (reg.obj_map i) (new_at i h))
    ]

    was_free :
        (i : ℕ)
        → i < reg.n_pages
        → within (start_of reg descs dp) k i ≡ true
        → is_free descs (reg.obj_map i) ≡ true
    was_free i h w =
        let same = tile-within ok.tiled dp i h hd at in
        ap (is_free descs) ((==_iff (reg.obj_map i) dp).0 (same ∙ ground (arith, w, fewer))) ∙ free

    split-counted : reg'.n_free ≡ count (λ i. is_free descs' (reg'.obj_map i)) reg'.n_pages
    split-counted =
        let pages =
          count-range (λ i. is_free descs (reg.obj_map i)) (λ i. is_free descs' (reg'.obj_map i))
            (start_of reg descs dp) k reg.n_pages (omega (arith, dp_fits, fewer))
            (λ i h. elim (Bool-cases (within (start_of reg descs dp) k i)) [
              | inl w ↦ rw w (was_free i h w)
              | inr w ↦ rw w (sym (free_at i h ∙ rw w refl))
            ])
            (λ i h w. free_at i h ∙ rw w refl) in
        let same = ap (count (λ i. is_free descs' (reg'.obj_map i))) c.same_pages in
        omega (arith, pages, c.free_left, ok.counted, same)

    split-Coalesced : Coalesced descs' reg'.obj_map reg'.n_pages
    split-Coalesced i h free_here free_next =
        let small : i + 1 < reg.n_pages = omega (arith, c.same_pages, h) in
        let here = free_at i (omega (arith, small)) in
        let next = free_at (i + 1) small in
        let out : within (start_of reg descs dp) k i ≡ false = ground (arith, here, free_here) in
        let out' : within (start_of reg descs dp) k (i + 1) ≡ false =
          ground (arith, next, free_next) in
        c.map i (omega (arith, small))
        ∙ ap (λ (b : Bool). if b then e else reg.obj_map i) out
        ∙ (ok.coalesced i small (ground (arith, here, out, free_here))
            (ground (arith, next, out', free_next)))
        ∙ sym (c.map (i + 1) small ∙ rw out' refl)

    new_desc_ok : e ≢ hdr → DescOk descs' used' hdr r reg' e
    new_desc_ok ne = record {
      placed = omega (arith, c.new_obj, dp_ok.placed, new_start, c.same_first);
      sized = λ f. absurd (ground (arith, f, c.new_busy));
      owned = c.new_region;
      live = c.new_used;
      not_hdr = ne;
    }

    old_desc_ok : dp ≢ e → DescOk descs' used' hdr r reg' dp
    old_desc_ok ne = record {
      placed = omega (arith, c.old_obj, dp_ok.placed, old_start, c.same_first);
      sized = λ f. omega (arith, c.old_size, dp_ok.sized free, old_pages);
      owned = c.old_region;
      live = c.same_used dp ne ∙ dp_ok.live;
      not_hdr = dp_ok.not_hdr;
    }

    dp-ne : dp ≢ e
    dp-ne same = page-used ok e (start_of reg descs dp) hd fresh (at ∙ same)

    split-descs :
        e ≢ hdr → (i : ℕ) → i < reg'.n_pages → DescOk descs' used' hdr r reg' (reg'.obj_map i)
    split-descs ne i h =
        let small : i < reg.n_pages = omega (arith, c.same_pages, h) in
        elim (Bool-cases (within (start_of reg descs dp) k i)) [
          | inl w ↦
              subst (DescOk descs' used' hdr r reg') (sym (c.map i small ∙ rw w refl))
                (new_desc_ok ne)
          | inr w ↦
              let same : reg'.obj_map i ≡ reg.obj_map i = c.map i small ∙ rw w refl in
              subst (DescOk descs' used' hdr r reg') (sym same)
                (elim (Bool-cases (reg.obj_map i == dp)) [
                  | inl mine ↦
                      subst (DescOk descs' used' hdr r reg')
                        (sym ((==_iff (reg.obj_map i) dp).0 mine)) (old_desc_ok dp-ne)
                  | inr other ↦
                      let nd : reg.obj_map i ≢ dp = λ q. absurd (ground (arith, q, other)) in
                      let d = ok.descs_ok i small in
                      DescOk-same d (c.others (reg.obj_map i) nd (new_at i small))
                        (c.same_used (reg.obj_map i) (new_at i small) ∙ d.live) c.same_first
                ])
        ]

    -- A region stays well formed when a free object of it is split.
    pub split-RegionOk : e ≢ hdr → RegionOk descs' used' hdr r reg'
    split-RegionOk ne = record {
      some_pages = omega (arith, c.same_pages, ok.some_pages);
      few = omega (arith, c.same_pages, ok.few);
      fits = omega (arith, c.same_pages, c.same_first, ok.fits);
      tiled =
          subst (λ (n : ℕ). Tiled (start_of reg' descs') (pages_of descs') reg'.obj_map n)
            (sym c.same_pages)
            (Carved-Tiled ok.tiled carved hd at dp-ne new_at (omega (arith, fewer)));
      descs_ok = split-descs ne;
      coalesced = split-Coalesced;
      counted = split-counted;
    }

    -- The rest of the split object is mapped.
    pub split-MappedAt_old : MappedAt descs' reg' dp
    split-MappedAt_old =
        let start = start_of reg descs dp in
        let there : start + k < reg.n_pages = omega (arith, dp_fits, fewer) in
        let mine = tile-within ok.tiled dp (start + k) there hd at in
        (
          omega (arith, old_start, there, c.same_pages),
          ap reg'.obj_map old_start
              ∙ c.map (start + k) there
              ∙ ap (λ (b : Bool). if b then e else reg.obj_map (start + k)) {y = false}
                  (ground arith)
              ∙ (==_iff (reg.obj_map (start + k)) dp).0 (mine ∙ ground (arith, fewer)),
        )

    -- So are the other objects.
    pub split-MappedAt_other :
        (p : ℕ) → p ≢ dp → p ≢ e → MappedAt descs reg p → MappedAt descs' reg' p
    split-MappedAt_other p nd ne (inside, mapped) =
        let same = other_start p nd ne in
        let mine = tile-within ok.tiled dp (start_of reg descs p) inside hd at in
        let out : within (start_of reg descs dp) k (start_of reg descs p) ≡ false =
          ground (arith, mine, ap (λ (x : ℕ). x == dp) mapped, λ (q : p ≡ dp). nd q, fewer) in
        (
          omega (arith, same, inside, c.same_pages),
          ap reg'.obj_map same ∙ c.map (start_of reg descs p) inside ∙ rw out mapped,
        )

    -- So is the new object, where it has pages.
    pub split-MappedAt_new : 0 < k → MappedAt descs' reg' e
    split-MappedAt_new some_pages = (
      omega (arith, new_start, hd, c.same_pages),
      ap reg'.obj_map new_start
          ∙ c.map (start_of reg descs dp) hd
          ∙ ap (λ (b : Bool). if b then e else reg.obj_map (start_of reg descs dp)) {y = true}
              (ground (arith, some_pages)),
    )

    -- Whether a descriptor is free changes only for the new one.
    pub split_keeps_free : (p : ℕ) → p ≢ e → is_free descs' p ≡ is_free descs p
    split_keeps_free p ne = kept_free p ne
