-- ===== src/Flip/Level.antt =====
-- The generations that `Flip` flips, and the counters of their collections.
use smlnj.Prelude.{ℕ, zero, suc, ◌+◌, ◌^◌, ◌<◌, ◌≤◌, ◌≡◌, ◌⊎◌, List, [], ◌∷◌, length}
use smlnj.Heap.{Gen, Heap}
use smlnj.Generation.{Env}
use smlnj.Flip.{no_memory, no_card_map, Flipped, level, failed}

-- each generation's record of the collections of the one before is not ahead of their number
abbrev pub Ordered : ℕ → List Gen → Type 0
Ordered prev_gc [] = Unit
Ordered prev_gc (g ∷ gens) = (g.last_prev_gc ≤ prev_gc) × Ordered g.num_gcs gens

-- the counters have room in an `int`
abbrev pub Small : ℕ → List Gen → Type 0
Small prev_gc [] = Unit
Small prev_gc (g ∷ gens) = (prev_gc + 1 < 2 ^ 31) × Small g.num_gcs gens

-- the first `k` generations count one more collection, the others are as they were
abbrev pub Counted : ℕ → List Gen → List Gen → Type 0
Counted zero gens gens' = gens' ≡ gens
Counted (suc k) [] gens' = ⊥
Counted (suc k) (g ∷ gens) [] = ⊥
Counted (suc k) (g ∷ gens) (g' ∷ gens') = (g'.num_gcs ≡ g.num_gcs + 1) × Counted k gens gens'

-- the generations after the flip of `k` of them
pub record Levelled (min_gc_level i prev_gc : ℕ) (gens : List Gen) (k : ℕ) (gens' : List Gen)
    : Type 0 where
  pub ordered : Ordered prev_gc gens'
  pub counted : Counted k gens gens'
  pub bounded : k ≤ length gens
  pub enough : (min_gc_level ≤ i + k) ⊎ (k ≡ length gens)

abbrev pub LevelCases : ℕ → ℕ → ℕ → List Gen → Flipped → Type 0
LevelCases min_gc_level i prev_gc gens result =
    ((k : ℕ) × (env' : Env) × (gens' : List Gen) × (result ≡ level (i + k) env' gens')
      × Levelled min_gc_level i prev_gc gens k gens')
    ⊎ ((result ≡ failed no_memory) ⊎ (result ≡ failed no_card_map))
