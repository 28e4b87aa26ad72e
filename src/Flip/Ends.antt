-- ===== src/Flip/Ends.antt =====
-- How the flip of one generation ends, and its counters.
use smlnj.Prelude.{
  ℕ, ◌+◌, ◌≡◌, ◌≢◌, refl, ◌∙◌, ◌⊎◌, inl, inr, Bool, true, false, Option, none, some, List, [], ◌∷◌,
  ◌&&◌, arith, ◌==◌, leb, if◌then◌else◌, Bool-cases,
}
use mathlib.Core.Path.{subst}
use smlnj.ArenaId.{array_indx}
use smlnj.Memory.{MemObj}
use smlnj.Heap.{Arena, Gen, sub64, is_active}
use smlnj.Generation.{System, Env, tot_size, obtain, ask, partition, set_up, new_generation}
use smlnj.Generation.Dirty.{arena_at, bound, null_write, too_big, new_dirty_vector}
use smlnj.Flip.Size.{flip_one-active, flip_one-skip, flip_one-idle}
use smlnj.Flip.{
  Sized, flip_one, flip_arenas, arenas_of, prevs_of, min_arenas, Flipping, done, no_memory,
  no_card_map, bind_map, after_space, retry, flip_gen,
}

-- the generation's counters are as they were
abbrev pub SameCounters : Gen → Gen → Type 0
SameCounters g g' = (g'.num_gcs ≡ g.num_gcs) × (g'.last_prev_gc ≡ g.last_prev_gc)

ask-SameCounters :
    (sys : System) (env : Env) (gen : Gen) (tot : ℕ) → SameCounters gen (ask sys env gen tot).1.0
unfolding ask
ask-SameCounters sys env gen tot = (refl, refl)

obtain-SameCounters :
    (sys : System) (env : Env) (gen : Gen) (tot : ℕ) (cache : Option MemObj)
    → SameCounters gen (obtain sys env gen tot cache).1.0
unfolding obtain
obtain-SameCounters sys env gen tot none = ask-SameCounters sys env gen tot
obtain-SameCounters sys env gen tot (some obj) = elim (Bool-cases (leb tot obj.size_b)) [
  | inl large ↦ rw large (refl, refl)
  | inr small ↦ rw small (ask-SameCounters sys env gen tot)
]

set_up-SameCounters :
    (sys : System) (env : Env) (gen : Gen) (obj : Option MemObj)
    → SameCounters gen (set_up sys (env, (gen, obj))).1.0
unfolding set_up partition
set_up-SameCounters sys env gen none = (refl, refl)
set_up-SameCounters sys env gen (some obj) = (refl, refl)

new_generation-SameCounters :
    (sys : System) (env : Env) (gen : Gen) → SameCounters gen (new_generation sys env gen).1.0
unfolding new_generation
new_generation-SameCounters sys env gen =
    let found = obtain sys env gen (tot_size gen.arenas 0) gen.cache_obj in
    let (a, b) = obtain-SameCounters sys env gen (tot_size gen.arenas 0) gen.cache_obj in
    let (c, d) = set_up-SameCounters sys found.0 found.1.0 found.1.1 in (c ∙ a, d ∙ b)

-- how the flip of a generation ends, other than by a division by zero
abbrev pub Ends : Gen → List ℕ → Flipping → Type 0
Ends gen prevs f =
    ((env' : Env) × (gen' : Gen) × (f ≡ done env' gen' prevs) × SameCounters gen gen')
    ⊎ ((f ≡ no_memory) ⊎ (f ≡ no_card_map))

bind_map-Ends :
    (sys : System) (env : Env) (gen : Gen) (prevs : List ℕ) (x : Option Arena)
    → Ends gen prevs (bind_map sys env gen prevs x)
unfolding bind_map
bind_map-Ends sys env gen prevs none = inl (env, gen, refl, (refl, refl))
bind_map-Ends sys env gen prevs (some x) = elim (Bool-cases (is_active x)) [
  | inr idle ↦ rw idle (inl (env, gen, refl, (refl, refl)))
  | inl active ↦
      elim (new_dirty_vector sys x gen.dirty)
        as (λ r. Ends gen prevs (
          if is_active x
          then elim r [
            | bound cm ↦ done env (record gen { dirty = some cm }) prevs
            | null_write ↦ no_card_map
            | too_big ↦ no_card_map
          ]
          else done env gen prevs)) [
            | bound cm ↦ rw active (inl (env, record gen { dirty = some cm }, refl, (refl, refl)))
            | null_write ↦ rw active (inr (inr refl))
            | too_big ↦ rw active (inr (inr refl))
          ]
]

after_space-Ends :
    (sys : System) (prevs : List ℕ) (env : Env) (gen : Gen) (b : Bool)
    → Ends gen prevs (after_space sys prevs (env, (gen, b)))
unfolding after_space
after_space-Ends sys prevs env gen false = inr (inl refl)
after_space-Ends sys prevs env gen true =
    bind_map-Ends sys env gen prevs (arena_at gen.arenas array_indx)

Ends-trans :
    (g g' : Gen) (prevs : List ℕ) (f : Flipping)
    → SameCounters g g'
    → Ends g' prevs f
    → Ends g prevs f
Ends-trans g g' prevs f (a, b) (inl (env', gen', e, (c, d))) = inl (env', gen', e, (c ∙ a, d ∙ b))
Ends-trans g g' prevs f (a, b) (inr stop) = inr stop

retry-Ends :
    (sys : System) (xs : List Sized) (env : Env) (gen : Gen) (b : Bool)
    → Ends gen (prevs_of xs) (retry sys xs (env, (gen, b)))
unfolding retry
retry-Ends sys xs env gen true = after_space-Ends sys (prevs_of xs) env gen true
retry-Ends sys xs env gen false =
    let second : Gen = record gen { arenas = min_arenas xs } in
    let again = new_generation sys env second in
    Ends-trans gen again.1.0 (prevs_of xs) _ (new_generation-SameCounters sys env second)
      (after_space-Ends sys (prevs_of xs) again.0 again.1.0 again.1.1)

flip_one-some :
    (j ratio num_gcs prev : ℕ) (x : Arena)
    → num_gcs ≢ 0
    → (s : Sized) × (flip_one j ratio num_gcs prev x ≡ some s)
flip_one-some j ratio num_gcs prev x h =
    let runs : (num_gcs == 0) ≡ false = ground arith in
    elim (Bool-cases (is_active x)) [
      | inl e ↦ (_, flip_one-active j ratio num_gcs prev x e runs)
      | inr e ↦ elim (Bool-cases ((x.req_size_b == 0) && (prev == 0))) [
        | inl skip ↦ (_, flip_one-skip j ratio num_gcs prev x e skip)
        | inr more ↦ (_, flip_one-idle j ratio num_gcs prev x e more runs)
      ]
    ]

flip_arenas-some :
    (j ratio num_gcs : ℕ) (prevs : List ℕ) (aps : List Arena)
    → num_gcs ≢ 0
    → (xs : List Sized) × (flip_arenas j ratio num_gcs prevs aps ≡ some xs)
unfolding flip_arenas
flip_arenas-some j ratio num_gcs prevs [] h = ([], refl)
flip_arenas-some j ratio num_gcs [] (x ∷ aps) h = ([], refl)
flip_arenas-some j ratio num_gcs (prev ∷ prevs) (x ∷ aps) h =
    let (s, here) = flip_one-some j ratio num_gcs prev x h in
    let (xs, rest) = flip_arenas-some (j + 1) ratio num_gcs prevs aps h in
    (s ∷ xs, rw (here, rest) refl)

-- how the flip of a generation ends, whose predecessor was collected since the last one
pub flip_gen-Ends :
    (sys : System) (env : Env) (g : Gen) (prev_gc : ℕ) (prevs : List ℕ)
    → sub64 prev_gc g.last_prev_gc ≢ 0
    → (next : Gen) × (prevs' : List ℕ) × (next.num_gcs ≡ g.num_gcs + 1)
      × (next.last_prev_gc ≡ prev_gc)
      × Ends next prevs' (flip_gen sys env g prev_gc prevs)
unfolding flip_gen
flip_gen-Ends sys env g prev_gc prevs h =
    let (xs, run) = flip_arenas-some 0 g.ratio (sub64 prev_gc g.last_prev_gc) prevs g.arenas h in
    let next : Gen = record g {
      last_prev_gc = prev_gc;
      num_gcs = g.num_gcs + 1;
      from_obj = g.to_obj;
      arenas = arenas_of xs;
    } in
    let space = new_generation sys env next in
    let (a, b) = new_generation-SameCounters sys env next in
    (
      next,
      prevs_of xs,
      refl,
      refl,
      Ends-trans next space.1.0 (prevs_of xs) _ (a, b)
          (subst (λ (f : Flipping). Ends space.1.0 (prevs_of xs) f) (rw (run, flip_gen) refl)
            (retry-Ends sys xs space.0 space.1.0 space.1.1)),
    )
