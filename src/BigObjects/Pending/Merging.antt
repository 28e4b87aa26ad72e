-- ===== src/BigObjects/Pending/Merging.antt =====
-- `BO_Free` after the object took over a free neighbour: which pages are free and busy then.
use smlnj.Prelude.{
  ℕ, ◌+◌, ◌-◌, ◌<◌, ◌≤◌, ◌≡◌, ◌≢◌, refl, ap, ◌∙◌, inl, inr, false, arith, ◌==◌, if◌then◌else◌, leb,
  Bool-cases, ==_iff,
}
use smlnj.BigObjects.{Desc, BoHeap, bo_is_free}
use smlnj.BigObjects.Whole.{start_of, pages_of, is_free, RegionOk, MappedAt, free-neighbours}
use smlnj.BigObjects.Taking.{FreeObj}
use smlnj.BigObjects.Pending.{BeforeBusy, AfterBusy, open_page}

-- what the rest of `BO_Free` relies on when the object has taken over a free neighbour
pub record Merged (h hn g gn : BoHeap) (r d q : ℕ) : Type 0 where
  pub ok : RegionOk g.descs g.used_descs g.free_big_objs r (g.regions r)
  pub at : MappedAt g.descs (g.regions r) d
  pub neighbour : FreeObj g r q
  pub same_pages : (gn.regions r).n_pages ≡ (g.regions r).n_pages
  pub d_pages : pages_of gn.descs d ≡ pages_of g.descs d + pages_of g.descs q
  pub new_start : start_of (gn.regions r) gn.descs d ≡ (
      if leb (start_of (g.regions r) g.descs d) (start_of (g.regions r) g.descs q)
      then start_of (g.regions r) g.descs d
      else start_of (g.regions r) g.descs q)
  pub still_busy :
      (i : ℕ)
      → i < (g.regions r).n_pages
      → is_free g.descs ((g.regions r).obj_map i) ≡ false
      → is_free gn.descs ((gn.regions r).obj_map i) ≡ false
  pub page :
      (i : ℕ)
      → i < (g.regions r).n_pages
      → (gn.regions r).obj_map i
        ≡ (if (g.regions r).obj_map i == q then d else (g.regions r).obj_map i)
  pub others : (x : ℕ) → x ≢ d → gn.descs x ≡ g.descs x
  pub same_map : (i : ℕ) → (g.regions r).obj_map i ≡ (h.regions r).obj_map i
  pub new_map : (i : ℕ) → (hn.regions r).obj_map i ≡ (gn.regions r).obj_map i

module _ {h hn g gn : BoHeap} {r d q : ℕ} (c : Merged h hn g gn r d q) where
  abbrev lo : ℕ
  lo = start_of (g.regions r) g.descs q

  abbrev n : ℕ
  n = pages_of g.descs q

  q-pages : lo + n ≤ (g.regions r).n_pages
  q-pages =
      let tile = c.ok.tiled lo c.neighbour.at.0 in
      omega (
        arith,
        tile.inside,
        ap (start_of (g.regions r) g.descs) c.neighbour.at.1,
        ap (pages_of g.descs) c.neighbour.at.1,
      )

  some_q : 0 < n
  some_q =
      let tile = c.ok.tiled lo c.neighbour.at.0 in
      omega (
        arith,
        tile.high,
        ap (start_of (g.regions r) g.descs) c.neighbour.at.1,
        ap (pages_of g.descs) c.neighbour.at.1,
      )

  -- The c.neighbour was before the object.
  pub joined_before :
      start_of (g.regions r) g.descs d ≡ lo + n
      → BeforeBusy gn r d
        × (start_of (gn.regions r) gn.descs d + pages_of gn.descs d
            ≡ start_of (g.regions r) g.descs d + pages_of g.descs d)
        × (pages_of gn.descs d ≡ pages_of g.descs d + n)
  joined_before left =
      let start : start_of (gn.regions r) gn.descs d ≡ lo =
        ground (arith, c.new_start, left, some_q) in
      (
        λ pos.
            ap (λ (i : ℕ). is_free gn.descs ((gn.regions r).obj_map (i - 1))) start
            ∙ c.still_busy (lo - 1) (omega (arith, q-pages)) (
                (free-neighbours c.ok q c.neighbour.at c.neighbour.free).0
                  (omega (arith, pos, start))),
        omega (arith, start, c.d_pages, left),
        c.d_pages,
      )

  -- The c.neighbour was after the object.
  pub joined_after :
      lo ≡ start_of (g.regions r) g.descs d + pages_of g.descs d
      → BeforeBusy g r d
      → BeforeBusy gn r d × AfterBusy gn r d × (pages_of gn.descs d ≡ pages_of g.descs d + n)
  joined_after right busy =
      let start : start_of (gn.regions r) gn.descs d ≡ start_of (g.regions r) g.descs d =
        ground (arith, c.new_start, right) in
      let end : start_of (gn.regions r) gn.descs d + pages_of gn.descs d ≡ lo + n =
        omega (arith, start, c.d_pages, right) in
      (
        λ pos.
            ap (λ (i : ℕ). is_free gn.descs ((gn.regions r).obj_map (i - 1))) start
            ∙ c.still_busy (start_of (g.regions r) g.descs d - 1) (omega (arith, c.at.0))
                (busy (omega (arith, pos, start))),
        λ more.
            ap (λ (i : ℕ). is_free gn.descs ((gn.regions r).obj_map i)) end
            ∙ c.still_busy (lo + n) (omega (arith, more, end, c.same_pages)) (
                (free-neighbours c.ok q c.neighbour.at c.neighbour.free).1
                  (omega (arith, more, end, c.same_pages))),
        c.d_pages,
      )

  -- The free pages and the object's own are together as before.
  pub joined-open : (i : ℕ) → i < (g.regions r).n_pages → open_page gn r d i ≡ open_page g r d i
  joined-open i small = elim (Bool-cases ((g.regions r).obj_map i == q)) [
    | inl mine ↦
        let e = (==_iff ((g.regions r).obj_map i) q).0 mine in
        let now : (gn.regions r).obj_map i ≡ d = c.page i small ∙ rw mine refl in
        ground (arith, ap (λ (x : ℕ). x == d) now, ap (is_free g.descs) e, c.neighbour.free)
    | inr other ↦
        let x = (g.regions r).obj_map i in
        let now : (gn.regions r).obj_map i ≡ x = c.page i small ∙ rw other refl in
        elim (Bool-cases (x == d)) [
          | inl same ↦ ground (arith, ap (λ (y : ℕ). y == d) now, same)
          | inr away ↦
              let ne : x ≢ d = λ c. absurd (ground (arith, c, away)) in
              let f = ap (is_free gn.descs) now ∙ ap (λ (y : Desc). bo_is_free y) (c.others x ne) in
              ground (arith, ap (λ (y : ℕ). y == d) now, away, f)
        ]
  ]

  -- The other busy pages keep their objects.
  pub joined-kept :
      (i : ℕ)
      → i < (g.regions r).n_pages
      → open_page g r d i ≡ false
      → (hn.regions r).obj_map i ≡ (h.regions r).obj_map i
  joined-kept i small busy =
      let x = (g.regions r).obj_map i in
      let other : (x == q) ≡ false = elim (Bool-cases (x == q)) [
        | inr e ↦ e
        | inl e ↦
            absurd (ground (arith, busy, ap (is_free g.descs) ((==_iff x q).0 e), c.neighbour.free))
      ] in
      c.new_map i ∙ c.page i small ∙ rw other (c.same_map i)
