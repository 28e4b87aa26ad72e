-- ===== src/Generation/Partition.antt =====
-- How `NewGeneration` divides the memory object.
use smlnj.Prelude.{
  ℕ, ◌+◌, ◌^◌, ◌<◌, ◌≤◌, ◌≡◌, refl, inl, inr, true, false, some, List, [], ◌∷◌, ◌||◌, arith, ◌==◌,
  if◌then◌else◌, Bool-cases,
}
use mathlib.Core.Path.{subst}
use smlnj.Tags.{ml_unit}
use smlnj.MlState.{Mem}
use smlnj.Memory.{MemObj}
use smlnj.Memory.Mapped.{covers}
use smlnj.Bibop.{Bibop, addr_to_pageid}
use smlnj.Bibop.Rows.{IsValid}
use smlnj.Heap.{Arena, Gen, is_active}
use smlnj.Generation.{System, Env, place_arenas, reserve_slot, clear_slot, reserve_pair, partition}
use smlnj.Generation.Layout.{Pages, space, WholePages, PlacedAt, Laid, place_arenas-AllLaid}

-- the space that the first slot of pair space takes
abbrev pub pair_skip : ℕ → ℕ
pair_skip i = if i == 1 then 16 else 0

Laid-skip :
    (i : ℕ) (aps : List Arena) (p : ℕ) (b : Bibop) (aps' : List Arena)
    → 2 ≤ i
    → Laid (λ j. 0) i aps p b aps'
    → Laid pair_skip i aps p b aps'
Laid-skip i [] p b [] h l = l
Laid-skip i [] p b (y ∷ aps') h l = l
Laid-skip i (x ∷ aps) p b [] h l = l
Laid-skip i (x ∷ aps) p b (y ∷ aps') h l = (
  subst (λ (s : ℕ). PlacedAt s x p b y) (ground (arith, h)) l.0,
  Laid-skip (i + 1) aps (p + x.tosp_size_b) b aps' (omega (arith, h)) l.1,
)

reserve_slot-PlacedAt :
    (x y : Arena) (p : ℕ) (b : Bibop) → PlacedAt 0 x p b y → PlacedAt 16 x p b (reserve_slot y)
unfolding reserve_slot
reserve_slot-PlacedAt x y p b l = elim (Bool-cases (is_active y)) [
  | inl e ↦ rw e (record {
    same_id = l.same_id;
    same_size = l.same_size;
    active = λ h.
        let (base, next, sweep, top) = l.active h in
        (base, omega (arith, next), omega (arith, sweep), top);
    inactive = λ h. absurd (ground (arith, e, h, l.same_size));
    pages = l.pages;
  })
  | inr e ↦ rw e (record {
    same_id = l.same_id;
    same_size = l.same_size;
    active = λ h. absurd (ground (arith, e, h, l.same_size));
    inactive = l.inactive;
    pages = l.pages;
  })
]

clear_slot-PlacedAt :
    (x y : Arena) (q : ℕ) (b : Bibop) (mem : Mem)
    → PlacedAt 0 x q b y
    → (is_active x ≡ true
        → (a : ℕ) → clear_slot y mem a ≡ (if (q == a) || (q + 8 == a) then ml_unit else mem a))
      × (is_active x ≡ false → (a : ℕ) → clear_slot y mem a ≡ mem a)
unfolding clear_slot
clear_slot-PlacedAt x y q b mem l = (
  λ e a.
      let active : is_active y ≡ true = ground (arith, e, l.same_size) in
      let at : y.nextw ≡ q = omega (arith, (l.active e).1) in rw (active, at) (ground arith),
  λ e a. let active : is_active y ≡ false = ground (arith, e, l.same_size) in rw active refl,
)

-- The memory object is divided among the arenas in order, each arena's pages have its identifier,
-- and every other page keeps its own. The first slot of an active pair arena holds two units, and
-- the rest of the memory is as it was.
pub record Partitioned (bibop : Bibop) (mem : Mem) (r pr : Arena) (aps : List Arena)
    (memobj : MemObj) (env' : Env) (gen' : Gen) : Type 0 where
  pub object : gen'.to_obj ≡ some memobj
  pub valid : IsValid env'.bibop
  pub others :
      (a : ℕ)
      → covers memobj.base (space (r ∷ (pr ∷ aps))) a ≡ false
      → addr_to_pageid env'.bibop a ≡ addr_to_pageid bibop a
  pub laid : Laid pair_skip 0 (r ∷ (pr ∷ aps)) memobj.base env'.bibop gen'.arenas
  pub slot :
      is_active pr ≡ true
      → (a : ℕ)
      → env'.mem a ≡ (
          if (memobj.base + r.tosp_size_b == a) || (memobj.base + r.tosp_size_b + 8 == a)
          then ml_unit
          else mem a)
  pub no_slot : is_active pr ≡ false → (a : ℕ) → env'.mem a ≡ mem a

module _ (sys : System) (env : Env) (gen : Gen) (r pr : Arena) (aps : List Arena) (memobj : MemObj)
    (v : IsValid env.bibop) (page : Pages memobj.base) (whole : WholePages (r ∷ (pr ∷ aps)))
    (fits : memobj.base + space (r ∷ (pr ∷ aps)) < 2 ^ 48) where
  abbrev split : Env × Gen
  split = partition sys env (record gen { arenas = r ∷ (pr ∷ aps) }) memobj

  pub partition-Partitioned : Partitioned env.bibop env.mem r pr aps memobj split.0 split.1
  unfolding partition reserve_pair place_arenas
  partition-Partitioned =
      let all =
        place_arenas-AllLaid sys.garbage 0 (r ∷ (pr ∷ aps)) memobj.base env.bibop v page whole
          fits in
      let (at, (next, rest)) = all.laid in
      record {
        object = refl;
        valid = all.valid;
        others = all.others;
        laid = (
          at,
          (
            reserve_slot-PlacedAt pr _ (memobj.base + r.tosp_size_b) _ next,
            Laid-skip 2 aps _ _ _ (omega arith) rest,
          ),
        );
        slot = (clear_slot-PlacedAt pr _ (memobj.base + r.tosp_size_b) _ env.mem next).0;
        no_slot = (clear_slot-PlacedAt pr _ (memobj.base + r.tosp_size_b) _ env.mem next).1;
      }
