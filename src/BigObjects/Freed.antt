-- ===== src/BigObjects/Freed.antt =====
-- `BO_Free` keeps a heap well formed.
use smlnj.Prelude.{
  ℕ, ◌+◌, ◌-◌, ◌/◌, ◌%◌, ◌^◌, ◌<◌, ◌≡◌, refl, sym, ap, ◌∙◌, inl, inr, true, List, arith, ◌&&◌, ltb,
  Bool-cases,
}
use mathlib.Core.Path.{subst}
use smlnj.Bibop.{add32}
use smlnj.BigObjects.{Region, BoHeap, addr_to_bopage, bo_is_free}
use smlnj.BigObjects.Alloc.{map_pages}
use smlnj.BigObjects.Free.{take_over, absorb_before, absorb_after, join_before, join_after}
use smlnj.BigObjects.Whole.{start_of, pages_of}
use smlnj.BigObjects.Pending.{ghost, Pending, BeforeBusy}
use smlnj.BigObjects.Freeing.{ghost-start, ghost-region, page-busy}
use smlnj.BigObjects.Coalescing.{
  Before, After, stays, d-pages, neighbour-sized, new_total, q-here, q-not_d, joins-Before,
  joins-After,
}

module _ (h : BoHeap) (rs fs : List ℕ) (d tot p : ℕ) (v : Pending h rs fs d tot p) where
  abbrev r : ℕ
  r = (h.descs d).region

  abbrev g : BoHeap
  g = ghost h d tot p

  abbrev s : ℕ
  s = start_of (g.regions r) g.descs d

  abbrev l : ℕ
  l = pages_of g.descs d

  absorbs-Before :
      (i : ℕ) (small : i < (g.regions r).n_pages)
      (f : bo_is_free (h.descs ((h.regions r).obj_map i)) ≡ true)
      → s ≡ i + 1
      → Before h rs fs d tot p v
          (absorb_before h d
            ((h.regions r).obj_map i)
            (start_of (g.regions r) g.descs ((h.regions r).obj_map i))
            (pages_of g.descs ((h.regions r).obj_map i))
            tot).0
          (absorb_before h d
            ((h.regions r).obj_map i)
            (start_of (g.regions r) g.descs ((h.regions r).obj_map i))
            (pages_of g.descs ((h.regions r).obj_map i))
            tot).1
  unfolding absorb_before take_over map_pages
  absorbs-Before i small f at =
      let q = (h.regions r).obj_map i in
      let done = absorb_before h d q (start_of (g.regions r) g.descs q) (pages_of g.descs q) tot in
      subst (λ (x : ℕ). Before h rs fs d tot p v done.0 x)
        (sym (new_total h rs fs d tot p v i small f)) (joins-Before h rs fs d tot p v i small f at)

  absorbs-After :
      (i : ℕ) (small : i < (g.regions r).n_pages)
      (f : bo_is_free (h.descs ((h.regions r).obj_map i)) ≡ true)
      → i ≡ s + l
      → BeforeBusy g r d
      → After h rs fs d tot p v
          (absorb_after h d
            ((h.regions r).obj_map i)
            i
            (pages_of g.descs ((h.regions r).obj_map i))
            tot).0
          (absorb_after h d
            ((h.regions r).obj_map i)
            i
            (pages_of g.descs ((h.regions r).obj_map i))
            tot).1
  unfolding absorb_after take_over map_pages
  absorbs-After i small f at busy =
      let q = (h.regions r).obj_map i in
      let done = absorb_after h d q i (pages_of g.descs q) tot in
      subst (λ (x : ℕ). After h rs fs d tot p v done.0 x)
        (sym (new_total h rs fs d tot p v i small f))
        (joins-After h rs fs d tot p v i small f at busy)

  -- The first test leaves a busy page, or none, before the object.
  pub join_before-Before :
      Before h rs fs d tot p v (join_before h d s tot).0 (join_before h d s tot).1
  unfolding join_before
  join_before-Before =
      let (pos, inside, few) = d-pages h rs fs d tot p v in
      elim (Bool-cases (ltb 0 s && bo_is_free (h.descs ((h.regions r).obj_map (s - 1))))) [
        | inr e ↦ rw e (record {
          fs' = fs;
          p' = p;
          step = stays h rs fs d tot p v;
          before = λ more.
              page-busy h rs fs d tot p v (s - 1) (omega (arith, pos, inside))
                (ground (arith, e, more));
          same_end = refl;
        })
        | inl e ↦
            let small : s - 1 < (g.regions r).n_pages = omega (arith, pos, inside) in
            let more : 0 < s = ground (arith, e) in
            let f : bo_is_free (h.descs ((h.regions r).obj_map (s - 1))) ≡ true =
              ground (arith, e) in
            let q = (h.regions r).obj_map (s - 1) in
            let lo = start_of (g.regions r) g.descs q in
            let here = q-here h rs fs d tot p v (s - 1) small f in
            let out =
              q-not_d h rs fs d tot p v (s - 1) small f s (omega (arith, pos, inside))
                (ground (arith, pos)) in
            let count : s - lo ≡ pages_of g.descs q = ground (arith, here, out, more) in
            let run : absorb_before h d q (addr_to_bopage (h.regions r) (h.descs q).obj)
                  (s - addr_to_bopage (h.regions r) (h.descs q).obj) tot
                ≡ absorb_before h d q lo (pages_of g.descs q) tot =
              ap (λ (x : ℕ). absorb_before h d q x (s - x) tot)
                (sym (ghost-start h rs fs d tot p v q))
              ∙ ap (λ (x : ℕ). absorb_before h d q lo x tot) count in
            rw e (
              subst (λ (x : BoHeap × ℕ). Before h rs fs d tot p v x.0 x.1) (sym run)
                (absorbs-Before (s - 1) small f (omega (arith, more))))
      ]

  -- The second test leaves a busy page, or none, after the object too.
  pub join_after-After :
      BeforeBusy g r d
      → After h rs fs d tot p v (join_after h d (s + l) tot).0 (join_after h d (s + l) tot).1
  unfolding join_after
  join_after-After before =
      let (pos, inside, few) = d-pages h rs fs d tot p v in
      let pages = ap (λ (x : Region). x.n_pages) (ghost-region h rs fs d tot p v) in
      elim (Bool-cases (
        ltb (s + l) (h.regions r).n_pages
        && bo_is_free (h.descs ((h.regions r).obj_map (s + l))))) [
          | inr e ↦ rw e (record {
            fs' = fs;
            p' = p;
            step = stays h rs fs d tot p v;
            before = before;
            after =
                λ more. page-busy h rs fs d tot p v (s + l) more (ground (arith, e, more, pages));
          })
          | inl e ↦
              let small : s + l < (g.regions r).n_pages = ground (arith, e, pages) in
              let f : bo_is_free (h.descs ((h.regions r).obj_map (s + l))) ≡ true =
                ground (arith, e) in
              let q = (h.regions r).obj_map (s + l) in
              let (size, fewer) = neighbour-sized h rs fs d tot p v (s + l) small f in
              let count : add32 (s + l) ((h.descs q).size_b / 2 ^ 10 % 2 ^ 32) - (s + l)
                  ≡ pages_of g.descs q =
                omega (arith, size, fewer, inside, few) in
              rw e (
                subst
                  (λ (x : ℕ).
                    After h rs fs d tot p v (absorb_after h d q (s + l) x tot).0
                      (absorb_after h d q (s + l) x tot).1)
                  (sym count) (absorbs-After (s + l) small f refl before))
        ]
