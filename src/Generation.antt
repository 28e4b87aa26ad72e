-- ===== src/Generation.antt =====
-- `NewGeneration`, `FreeGeneration` and `NewDirtyVector` of runtime/gc/gc-util.c: the space of a
-- generation.
pub mod Layout
pub mod Partition
pub mod Create
pub mod Release
pub mod Dirty
use smlnj.Prelude.{
  ℕ, zero, ◌+◌, ◌-◌, ◌/◌, ◌%◌, Bool, true, false, Option, none, some, List, [], ◌∷◌, ◌==◌, ltb, leb,
  if◌then◌else◌,
}
use smlnj.Tags.{ml_unit, word_mod}
use smlnj.ArenaId.{aid_unmapped}
use smlnj.MlState.{Mem, write}
use smlnj.Memory.{MemObj, Call, Os, alloc_mem_obj, Freeing, freed_obj, unmap_error, free_mem_obj}
use smlnj.CardMap.{CardMap, card_clean, card_sz_b, card_map_t_sz, card_map_sz}
use smlnj.Bibop.{Bibop, fill, mark_region}
use smlnj.Heap.{Arena, Gen, add64, is_active}

-- what the operating system and the C library answer, and what new memory holds
pub record System : Type 0 where
  pub mmap : List Call → ℕ → Option ℕ
  pub new_obj : List Call → Bool
  pub munmap_works : List Call → ℕ → ℕ → Bool
  pub malloc_works : ℕ → Bool
  pub garbage : ℕ → ℕ

-- what the collector's code works on besides the heap
pub record Env : Type 0 where
  pub os : Os
  pub bibop : Bibop
  pub mem : Mem

-- the total size of the active arenas
unfoldable pub tot_size : List Arena → ℕ → ℕ
tot_size [] tot_sz = tot_sz
tot_size (ap ∷ aps) tot_sz =
    tot_size aps (if is_active ap then add64 tot_sz ap.tosp_size_b else tot_sz)

-- a new memory object from the system
unfoldable pub ask : System → Env → Gen → ℕ → Env × (Gen × Option MemObj)
ask sys env gen tot_sz =
    let (os', obj) = alloc_mem_obj sys.mmap sys.new_obj env.os tot_sz in
    (record env { os = os' }, (gen, obj))

-- the memory object for the size: the cached one, which is the last argument, or a new one
unfoldable pub obtain : System → Env → Gen → ℕ → Option MemObj → Env × (Gen × Option MemObj)
unfolding ask
obtain sys env gen tot_sz none = ask sys env gen tot_sz
obtain sys env gen tot_sz (some cache) =
    if leb tot_sz cache.size_b
    then (env, (record gen { cache_obj = none }, some cache))
    else ask sys env gen tot_sz

-- one arena at the address `p`, and the loop over the arenas
unfoldable pub place_arena : Arena → ℕ → Arena
place_arena ap p =
    if is_active ap
    then record ap { tosp_base = p; nextw = p; sweep_nextw = p; tosp_top = add64 p ap.tosp_size_b }
    else record ap { tosp_base = 0; frsp_base = 0; nextw = 0; sweep_nextw = 0; tosp_top = 0 }

unfoldable pub next_place : Arena → ℕ → ℕ
next_place ap p = if is_active ap then add64 p ap.tosp_size_b else p

unfoldable pub mark_arena : (ℕ → ℕ) → Arena → ℕ → Bibop → Bibop
mark_arena garbage ap p bibop =
    if is_active ap then mark_region garbage bibop p ap.tosp_size_b ap.id else bibop

unfoldable pub place_arenas : (ℕ → ℕ) → List Arena → ℕ → Bibop → List Arena × Bibop
unfolding place_arena next_place mark_arena
place_arenas garbage [] p bibop = ([], bibop)
place_arenas garbage (ap ∷ aps) p bibop =
    let (aps', bibop') =
      place_arenas garbage aps (next_place ap p) (mark_arena garbage ap p bibop) in
    (place_arena ap p ∷ aps', bibop')

-- the first slot of pair space
unfoldable pub reserve_slot : Arena → Arena
reserve_slot ap =
    if is_active ap then record ap { nextw = ap.nextw + 16; sweep_nextw = ap.nextw + 16 } else ap

unfoldable pub clear_slot : Arena → Mem → Mem
clear_slot ap mem =
    if is_active ap then write (write mem ap.nextw ml_unit) (ap.nextw + 8) ml_unit else mem

-- where the pair arena is the second one
unfoldable pub reserve_pair : List Arena → Mem → List Arena × Mem
unfolding reserve_slot clear_slot
reserve_pair (rec_ap ∷ pair_ap ∷ aps) mem =
    (rec_ap ∷ (reserve_slot pair_ap ∷ aps), clear_slot pair_ap mem)
reserve_pair aps mem = (aps, mem)

-- the partition of a memory object
unfoldable pub partition : System → Env → Gen → MemObj → Env × Gen
unfolding place_arenas reserve_pair
partition sys env gen memobj =
    let (aps, bibop') = place_arenas sys.garbage gen.arenas memobj.base env.bibop in
    let (aps', mem') = reserve_pair aps env.mem in
    (record env { bibop = bibop'; mem = mem' }, record gen { to_obj = some memobj; arenas = aps' })

-- the rest of `NewGeneration`, after the memory object was obtained or not
unfoldable pub set_up : System → Env × (Gen × Option MemObj) → Env × (Gen × Bool)
unfolding partition
set_up sys (env, (gen, none)) = (env, (gen, false))
set_up sys (env, (gen, some memobj)) =
    let (env', gen') = partition sys env gen memobj in (env', (gen', true))

-- `NewGeneration`; the Boolean is `SUCCESS`
unfoldable pub new_generation : System → Env → Gen → Env × (Gen × Bool)
unfolding tot_size obtain set_up
new_generation sys env gen = set_up sys (obtain sys env gen (tot_size gen.arenas 0) gen.cache_obj)
