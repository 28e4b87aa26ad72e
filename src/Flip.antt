-- ===== src/Flip.antt =====
-- runtime/gc/flip.c: which generations a collection flips, and the sizes of their to-spaces. The
-- arrays of the function are lists with an entry for each arena, `minSize` is in the results.
pub mod Size
pub mod Ends
pub mod Level
use smlnj.Prelude.{
  ℕ, zero, suc, ◌+◌, ◌-◌, ◌*◌, ◌/◌, ◌%◌, Bool, true, false, Option, none, some, List, [], ◌∷◌, ◌&&◌,
  ◌==◌, ltb, leb, if◌then◌else◌, replicate, length,
}
use smlnj.Tags.{word_mod}
use smlnj.ArenaId.{pair_indx, array_indx}
use smlnj.Sizes.{rnd_memobj_sz_b}
use smlnj.Heap.{Arena, Gen, Heap, add64, sub64, flip_arena, arena_avail, is_active}
use smlnj.Generation.{System, Env, new_generation}
use smlnj.Generation.Dirty.{arena_at, Binding, bound, null_write, too_big, new_dirty_vector}

-- `NUM_ARENAS`
abbrev pub num_arenas : ℕ
num_arenas = 5

-- the branches of the loop over the arenas: the arena after it, `prevOldSz` and `minSize`
pub record Sized : Type 0 where
  pub arena : Arena
  pub prev_old_sz : ℕ
  pub min_size : ℕ

-- `minSz`
unfoldable pub min_size_of : ℕ → ℕ → ℕ → Arena → ℕ
min_size_of j prev_old_sz this_min_sz ap =
    let min_sz = add64 (add64 prev_old_sz this_min_sz) ap.req_size_b in
    if j == pair_indx then add64 min_sz 16 else min_sz

-- `newSz` before it is limited
unfoldable pub desired_size : ℕ → ℕ → ℕ → ℕ → ℕ → Arena → ℕ
desired_size ratio num_gcs prev_old_sz this_min_sz min_sz ap =
    let new_sz =
      add64 (add64 prev_old_sz ap.req_size_b) (ratio * (this_min_sz / num_gcs) % word_mod) in
    if ltb new_sz min_sz then min_sz else new_sz

-- `newSz` in the end
unfoldable pub limited_size : ℕ → ℕ → Arena → ℕ
limited_size new_sz min_sz ap =
    if ltb ap.max_size_b new_sz
    then (if ltb ap.max_size_b min_sz then min_sz else ap.max_size_b)
    else new_sz

-- the new to-space's size, and `prevOldSz` for the next generation
unfoldable pub resize : ℕ → Arena → Arena
resize new_sz ap =
    if ltb 0 new_sz
    then record ap { tosp_size_b = rnd_memobj_sz_b new_sz }
    else record ap { nextw = 0; sweep_nextw = 0; tosp_top = 0; tosp_size_b = 0 }

unfoldable pub old_size : Arena → ℕ
old_size ap = if ltb 0 ap.frsp_size_b then sub64 ap.old_top ap.frsp_base else 0

-- the sizes of an arena that may need a to-space, after the flip
unfoldable pub size_arena : ℕ → ℕ → ℕ → ℕ → ℕ → Arena → Sized
unfolding min_size_of desired_size limited_size resize old_size
size_arena j ratio num_gcs prev_old_sz this_min_sz ap =
    let min_sz = min_size_of j prev_old_sz this_min_sz ap in
    let new_sz = desired_size ratio num_gcs prev_old_sz this_min_sz min_sz ap in
    let ap' = resize (limited_size new_sz min_sz ap) ap in
    record { arena = ap'; prev_old_sz = old_size ap'; min_size = min_sz }

-- the loop's body for the arena `j`; `none` is the division by a `numGCs` of zero
unfoldable pub flip_one : ℕ → ℕ → ℕ → ℕ → Arena → Option Sized
unfolding flip_arena size_arena
flip_one j ratio num_gcs prev_old_sz ap =
    let flipped = flip_arena ap in
    let idle = record ap { frsp_size_b = 0 } in
    if is_active ap
    then (if num_gcs == 0
        then none
        else some (
            size_arena j ratio num_gcs prev_old_sz (sub64 flipped.frsp_top flipped.old_top)
              flipped))
    else (if (ap.req_size_b == 0) && (prev_old_sz == 0)
        then some (record { arena = idle; prev_old_sz = prev_old_sz; min_size = 0 })
        else (if num_gcs == 0 then none else some (size_arena j ratio num_gcs prev_old_sz 0 idle)))

abbrev cons_sized : Option Sized → Option (List Sized) → Option (List Sized)
cons_sized (some x) (some xs) = some (x ∷ xs)
cons_sized none xs = none
cons_sized (some x) none = none

-- the loop over the arenas
unfoldable pub flip_arenas : ℕ → ℕ → ℕ → List ℕ → List Arena → Option (List Sized)
unfolding flip_one
flip_arenas j ratio num_gcs prevs [] = some []
flip_arenas j ratio num_gcs [] (ap ∷ aps) = some []
flip_arenas j ratio num_gcs (prev ∷ prevs) (ap ∷ aps) =
    cons_sized (flip_one j ratio num_gcs prev ap) (flip_arenas (j + 1) ratio num_gcs prevs aps)

abbrev pub arenas_of : List Sized → List Arena
arenas_of [] = []
arenas_of (x ∷ xs) = x.arena ∷ arenas_of xs

abbrev pub prevs_of : List Sized → List ℕ
prevs_of [] = []
prevs_of (x ∷ xs) = x.prev_old_sz ∷ prevs_of xs

-- the sizes of the second attempt
abbrev pub min_arenas : List Sized → List Arena
min_arenas [] = []
min_arenas (x ∷ xs) = record (x.arena) { tosp_size_b = rnd_memobj_sz_b x.min_size } ∷ min_arenas xs

-- the ways a generation's flip ends
pub data Flipping : Type 0 where
  done : Env → Gen → List ℕ → Flipping
  no_memory : Flipping
  no_card_map : Flipping
  divide_error : Flipping

-- the new card map of a generation with an active array arena
unfoldable pub bind_map : System → Env → Gen → List ℕ → Option Arena → Flipping
bind_map sys env gen prevs none = done env gen prevs
bind_map sys env gen prevs (some ap) =
    if is_active ap
    then elim (new_dirty_vector sys ap gen.dirty) [
      | bound cm ↦ done env (record gen { dirty = some cm }) prevs
      | null_write ↦ no_card_map
      | too_big ↦ no_card_map
    ]
    else done env gen prevs

unfoldable pub after_space : System → List ℕ → Env × (Gen × Bool) → Flipping
unfolding arena_at bind_map
after_space sys prevs (env, (gen, false)) = no_memory
after_space sys prevs (env, (gen, true)) =
    bind_map sys env gen prevs (arena_at gen.arenas array_indx)

-- the second attempt, after the first one
unfoldable pub retry : System → List Sized → Env × (Gen × Bool) → Flipping
unfolding after_space
retry sys xs (env, (gen, true)) = after_space sys (prevs_of xs) (env, (gen, true))
retry sys xs (env, (gen, false)) =
    after_space sys (prevs_of xs) (new_generation sys env (record gen { arenas = min_arenas xs }))

-- the flip of a generation, where `prev_gc` counts the collections of the one before
unfoldable pub flip_gen : System → Env → Gen → ℕ → List ℕ → Flipping
unfolding flip_arenas retry
flip_gen sys env g prev_gc prevs =
    elim (flip_arenas 0 g.ratio (sub64 prev_gc g.last_prev_gc) prevs g.arenas) [
      | none ↦ divide_error
      | some xs ↦ retry sys xs (
          new_generation sys env (record g {
            last_prev_gc = prev_gc;
            num_gcs = g.num_gcs + 1;
            from_obj = g.to_obj;
            arenas = arenas_of xs;
          }))
    ]

-- every arena has the space for what the generation before may promote into it
unfoldable pub has_room : List Arena → List ℕ → Bool
has_room [] prevs = true
has_room (ap ∷ aps) [] = true
has_room (ap ∷ aps) (prev ∷ prevs) =
    if ltb (if is_active ap then arena_avail ap else 0) prev then false else has_room aps prevs

-- how `Flip` ends: the number of generations flipped and the generations, or an error
pub data Flipped : Type 0 where
  level : ℕ → Env → List Gen → Flipped
  failed : Flipping → Flipped

abbrev pub cons_gen : Gen → Flipped → Flipped
cons_gen g (level n env gens) = level n env (g ∷ gens)
cons_gen g (failed e) = failed e

-- what follows the flip of a generation, where `rest` is the rest of the loop
abbrev pub after_gen : (List ℕ → ℕ → Env → Flipped) → Flipping → Flipped
after_gen rest (done env' g' prevs') = cons_gen g' (rest prevs' g'.num_gcs env')
after_gen rest no_memory = failed no_memory
after_gen rest no_card_map = failed no_card_map
after_gen rest divide_error = failed divide_error

-- the loop over the generations from the number `i` on
unfoldable pub flip_gens : System → ℕ → ℕ → List ℕ → ℕ → Env → List Gen → Flipped
unfolding has_room flip_gen
flip_gens sys min_gc_level i prevs prev_gc env [] = level i env []
flip_gens sys min_gc_level i prevs prev_gc env (g ∷ gens) =
    if leb min_gc_level i && has_room g.arenas prevs
    then level i env (g ∷ gens)
    else after_gen (λ prevs' n env'. flip_gens sys min_gc_level (i + 1) prevs' n env' gens)
        (flip_gen sys env g prev_gc prevs)

-- `Flip`
unfoldable pub flip : System → Env → Heap → ℕ → Flipped
unfolding flip_gens
flip sys env heap min_gc_level =
    flip_gens sys min_gc_level 0 (replicate num_arenas heap.alloc_sz_b) heap.num_minor_gcs env
      heap.gens
