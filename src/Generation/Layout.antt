-- ===== src/Generation/Layout.antt =====
-- The loop of `NewGeneration`: how the arenas divide a memory object, and the pages' identifiers.
use smlnj.Prelude.{
  ℕ, ◌+◌, ◌*◌, ◌%◌, ◌^◌, ◌<◌, ◌≡◌, refl, ap, ◌∙◌, Bool, true, false, List, [], ◌∷◌, arith,
  if◌then◌else◌, Bool-cases, inl, inr,
}
use smlnj.Tags.{word_mod}
use smlnj.Memory.Mapped.{covers}
use smlnj.Bibop.{Bibop, mark_region, addr_to_pageid, addr_to_index}
use smlnj.Bibop.Rows.{IsValid}
use smlnj.Bibop.Region.{mark_region-lookup}
use smlnj.Heap.{Arena, is_active}
use smlnj.Generation.{place_arena, next_place, mark_arena, place_arenas}

-- a whole number of pages
abbrev pub Pages : ℕ → Type 0
Pages n = (q : ℕ) × (n ≡ q * 2 ^ 18)

-- `MarkRegion` on a page boundary, address by address
pub mark_region-covers :
    (garbage : ℕ → ℕ) (b : Bibop) (p sz aid : ℕ)
    → IsValid b
    → Pages p
    → Pages sz
    → p + sz < 2 ^ 48
    → IsValid (mark_region garbage b p sz aid)
      × ((a : ℕ)
          → addr_to_pageid (mark_region garbage b p sz aid) a
            ≡ (if covers p sz a then aid else addr_to_pageid b a))
unfolding addr_to_index
mark_region-covers garbage b p sz aid v (k, ek) (m, em) small =
    let (v', reads) = mark_region-lookup garbage b p sz aid v (omega (arith, ek, em, small)) in
    (
      v',
      λ a.
          reads a
          ∙ ap (λ (c : Bool). if c then aid else addr_to_pageid b a) (ground (arith, ek, em)),
    )

-- the space of the arenas, and whether each has whole pages
abbrev pub space : List Arena → ℕ
space [] = 0
space (arena ∷ aps) = arena.tosp_size_b + space aps

abbrev pub WholePages : List Arena → Type 0
WholePages [] = Unit
WholePages (arena ∷ aps) = Pages arena.tosp_size_b × WholePages aps

-- the arena starts at the address and is empty after `skip` bytes, and its pages have its identifier; an inactive one
-- has no space
pub record PlacedAt (skip : ℕ) (arena : Arena) (p : ℕ) (b : Bibop) (arena' : Arena) : Type 0 where
  pub same_id : arena'.id ≡ arena.id
  pub same_size : arena'.tosp_size_b ≡ arena.tosp_size_b
  pub active :
      is_active arena ≡ true
      → (arena'.tosp_base ≡ p)
        × (arena'.nextw ≡ p + skip)
        × (arena'.sweep_nextw ≡ p + skip)
        × (arena'.tosp_top ≡ p + arena.tosp_size_b)
  pub inactive :
      is_active arena ≡ false → (arena'.tosp_base ≡ 0) × (arena'.nextw ≡ 0) × (arena'.tosp_top ≡ 0)
  pub pages : (a : ℕ) → covers p arena.tosp_size_b a ≡ true → addr_to_pageid b a ≡ arena.id

-- the arenas lie one after the other from the address on, the first is the one with the number `i`
abbrev pub Laid : (ℕ → ℕ) → ℕ → List Arena → ℕ → Bibop → List Arena → Type 0
Laid skip i [] p b [] = Unit
Laid skip i [] p b (arena' ∷ arenas') = ⊥
Laid skip i (arena ∷ arenas) p b [] = ⊥
Laid skip i (arena ∷ arenas) p b (arena' ∷ arenas') =
    PlacedAt (skip i) arena p b arena' × Laid skip (i + 1) arenas (p + arena.tosp_size_b) b arenas'

pub record AllLaid (i : ℕ) (aps : List Arena) (p : ℕ) (b : Bibop) (result : List Arena × Bibop)
    : Type 0 where
  pub valid : IsValid result.1
  pub others :
      (a : ℕ) → covers p (space aps) a ≡ false → addr_to_pageid result.1 a ≡ addr_to_pageid b a
  pub laid : Laid (λ j. 0) i aps p result.1 result.0

covers-false : (p sz n a : ℕ) → covers p (sz + n) a ≡ false → covers p sz a ≡ false
covers-false p sz n a h = ground arith

covers-next : (p sz n a : ℕ) → covers p (sz + n) a ≡ false → covers (p + sz) n a ≡ false
covers-next p sz n a h = ground arith

covers-before : (p sz n a : ℕ) → covers p sz a ≡ true → covers (p + sz) n a ≡ false
covers-before p sz n a h = ground arith

place_arena-PlacedAt :
    (arena : Arena) (p : ℕ) (b : Bibop)
    → p + arena.tosp_size_b < 2 ^ 48
    → ((a : ℕ) → covers p arena.tosp_size_b a ≡ true → addr_to_pageid b a ≡ arena.id)
    → PlacedAt 0 arena p b (place_arena arena p)
unfolding place_arena
place_arena-PlacedAt arena p b small pages =
    let top : (p + arena.tosp_size_b) % word_mod ≡ p + arena.tosp_size_b = omega arith in
    elim (Bool-cases (is_active arena)) [
      | inl e ↦
          rw (e, top)
            (record {
              same_id = refl;
              same_size = refl;
              active = λ h. (refl, omega arith, omega arith, refl);
              inactive = λ h. absurd (ground (arith, e, h));
              pages = pages;
            })
      | inr e ↦ rw e (record {
        same_id = refl;
        same_size = refl;
        active = λ h. absurd (ground (arith, e, h));
        inactive = λ h. (refl, refl, refl);
        pages = pages;
      })
    ]

next_place-eq :
    (arena : Arena) (p : ℕ)
    → p + arena.tosp_size_b < 2 ^ 48
    → next_place arena p ≡ p + arena.tosp_size_b
unfolding next_place
next_place-eq arena p small =
    let top : (p + arena.tosp_size_b) % word_mod ≡ p + arena.tosp_size_b = omega arith in
    elim (Bool-cases (is_active arena)) [
      | inl e ↦ rw (e, top) refl
      | inr e ↦ rw e (ground (arith, e))
    ]

module _ (garbage : ℕ → ℕ) where
  mark_arena-covers :
      (arena : Arena) (p : ℕ) (b : Bibop)
      → IsValid b
      → Pages p
      → Pages arena.tosp_size_b
      → p + arena.tosp_size_b < 2 ^ 48
      → IsValid (mark_arena garbage arena p b)
        × ((a : ℕ)
            → addr_to_pageid (mark_arena garbage arena p b) a
              ≡ (if covers p arena.tosp_size_b a then arena.id else addr_to_pageid b a))
  unfolding mark_arena
  mark_arena-covers arena p b v pp pages small = elim (Bool-cases (is_active arena)) [
    | inl e ↦ rw e (mark_region-covers garbage b p arena.tosp_size_b arena.id v pp pages small)
    | inr e ↦
        rw e (
          v,
          λ a. let out : covers p arena.tosp_size_b a ≡ false = ground (arith, e) in rw out refl,
        )
  ]

  pub place_arenas-AllLaid :
      (i : ℕ) (aps : List Arena) (p : ℕ) (b : Bibop)
      → IsValid b
      → Pages p
      → WholePages aps
      → p + space aps < 2 ^ 48
      → AllLaid i aps p b (place_arenas garbage aps p b)
  unfolding place_arenas
  place_arenas-AllLaid i [] p b v pp pages small = record {
    valid = v;
    others = λ a h. refl;
    laid = tt;
  }
  place_arenas-AllLaid i (arena ∷ aps) p b v pp pages small =
      let sz = arena.tosp_size_b in
      let b' = mark_arena garbage arena p b in
      let (v', reads) = mark_arena-covers arena p b v pp pages.0 (omega (arith, small)) in
      let next : Pages (p + sz) = (pp.0 + (pages.0).0, omega (arith, pp.1, (pages.0).1)) in
      let rest =
        place_arenas-AllLaid (i + 1) aps (p + sz) b' v' next pages.1 (omega (arith, small)) in
      rw (next_place-eq arena p (omega (arith, small))) (record {
        valid = rest.valid;
        others = λ a h.
            rest.others a (covers-next p sz (space aps) a h)
            ∙ reads a
            ∙ rw (covers-false p sz (space aps) a h) refl;
        laid = (
          place_arena-PlacedAt arena p _ (omega (arith, small))
              (λ a h. rest.others a (covers-before p sz (space aps) a h) ∙ reads a ∙ rw h refl),
          rest.laid,
        );
      })
