-- ===== src/BigObjects/Search.antt =====
-- The loop of `BO_Alloc` that looks for a free object.
use smlnj.Prelude.{
  ℕ, zero, suc, ◌<◌, ◌≤◌, ◌≡◌, refl, ap, ◌⊎◌, inl, inr, true, false, some, List, [], ◌∷◌, ◌++◌,
  length, arith, ◌==◌, ltb, Bool-cases, ==_refl, ==_iff,
}
use smlnj.BigObjects.{BoHeap}
use smlnj.BigObjects.Alloc.{find_fit}
use smlnj.BigObjects.Ring.{member, Linked, Ring}

abbrev pub size_of : BoHeap → ℕ → ℕ
size_of h p = (h.descs p).size_b

-- no object of the list is big enough
abbrev pub NoFit : BoHeap → ℕ → List ℕ → Type 0
NoFit h tot xs = (p : ℕ) → member p xs ≡ true → size_of h p < tot

-- the object is the first of the list that is big enough
pub record FirstFit (h : BoHeap) (tot : ℕ) (xs : List ℕ) (p : ℕ) : Type 0 where
  pub before : List ℕ
  pub after : List ℕ
  pub whole : xs ≡ before ++ p ∷ after
  pub small : NoFit h tot before
  pub fits : tot ≤ size_of h p
  pub free : member p xs ≡ true

find_fit-from :
    (fuel : ℕ) (h : BoHeap) (tot a : ℕ) (xs : List ℕ)
    → Linked h.links a xs h.free_big_objs
    → member h.free_big_objs xs ≡ false
    → length xs < fuel
    → ((find_fit fuel h tot (h.links.next a) ≡ some h.free_big_objs) × NoFit h tot xs)
      ⊎ ((p : ℕ) × (find_fit fuel h tot (h.links.next a) ≡ some p) × FirstFit h tot xs p)
unfolding find_fit
find_fit-from zero h tot a xs k out f = absurd (omega arith)
find_fit-from (suc fuel) h tot a [] (fwd, back) out f =
    inl (rw (fwd, ==_refl h.free_big_objs) refl, λ p m. absurd (ground (arith, m)))
find_fit-from (suc fuel) h tot a (x ∷ xs) (fwd, back, rest) out f =
    let not_hdr : (x == h.free_big_objs) ≡ false = ground (arith, out) in
    elim (Bool-cases (ltb (size_of h x) tot)) [
      | inr big ↦ inr (
        x,
        rw (fwd, not_hdr, big) refl,
        record {
          before = [];
          after = xs;
          whole = refl;
          small = λ p m. absurd (ground (arith, m));
          fits = ground (arith, big);
          free = ground arith;
        },
      )
      | inl small ↦
          elim (find_fit-from fuel h tot x xs rest (ground (arith, out)) (omega (arith, f))) [
            | inl (run, none_fits) ↦ inl (
              rw (fwd, not_hdr, small) run,
              λ p m. elim (Bool-cases (x == p)) [
                | inl e ↦ ground (arith, small, ap (size_of h) ((==_iff x p).0 e))
                | inr e ↦ none_fits p (ground (arith, m, e))
              ],
            )
            | inr (p, run, first) ↦ inr (
              p,
              rw (fwd, not_hdr, small) run,
              record {
                before = x ∷ first.before;
                after = first.after;
                whole = ap (λ (t : List ℕ). x ∷ t) first.whole;
                small = λ q m. elim (Bool-cases (x == q)) [
                  | inl e ↦ ground (arith, small, ap (size_of h) ((==_iff x q).0 e))
                  | inr e ↦ first.small q (ground (arith, m, e))
                ];
                fits = first.fits;
                free = ground (arith, first.free);
              },
            )
          ]
    ]

-- With as much fuel as the free list has objects and one more, the search of `BO_Alloc` ends: at
-- the header of the list just if no free object is big enough, and otherwise at the first free
-- object that is.
pub find_fit-first :
    {h : BoHeap} {xs : List ℕ}
    → Ring h.links h.free_big_objs xs
    → (fuel tot : ℕ) → length xs < fuel
    → ((find_fit fuel h tot (h.links.next h.free_big_objs) ≡ some h.free_big_objs) × NoFit h tot xs)
      ⊎ ((p : ℕ) × (find_fit fuel h tot (h.links.next h.free_big_objs) ≡ some p)
          × FirstFit h tot xs p)
find_fit-first {h} {xs} r fuel tot f =
    find_fit-from fuel h tot h.free_big_objs xs r.linked (r.distinct.0) f
