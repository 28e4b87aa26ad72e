-- ===== src/Generation/Release.antt =====
-- `FreeGeneration`.
pub mod Unmapped
use smlnj.Prelude.{
  ℕ, ◌+◌, ◌-◌, ◌*◌, ◌/◌, ◌%◌, ◌^◌, ◌<◌, ◌≤◌, ◌≡◌, refl, sym, ap, ◌∙◌, ◌⊎◌, inl, inr, Bool, true,
  false, Option, none, some, List, [], ◌∷◌, ◌&&◌, ◌||◌, not, arith, ◌==◌, ltb, leb, if◌then◌else◌,
  Bool-cases, Option-cases,
}
use smlnj.ArenaId.{aid_unmapped}
use smlnj.Memory.{MemObj, Os, Freeing, freed_obj, unmap_error, free_mem_obj}
use smlnj.Memory.Mapped.{covers}
use smlnj.Bibop.{Bibop, mark_region, addr_to_pageid}
use smlnj.Bibop.Rows.{IsValid}
use smlnj.Heap.{Arena, Gen}
use smlnj.Generation.{System, Env}
use smlnj.Generation.Layout.{Pages, mark_region-covers}

-- `FreeGeneration` returns, or dies because memory cannot be unmapped
pub data Released : Type 0 where
  released : Env → Gen → Released
  release_error : Released

-- what becomes of from-space's memory object and of the cached one: the system and the cache after
-- it, `none` if the code dies
unfoldable pub keep_object : System → Os → Bool → MemObj → Option MemObj → Freeing × Option MemObj
keep_object sys os false from cache = (free_mem_obj sys.munmap_works os (some from), cache)
keep_object sys os true from none = (freed_obj os, some from)
keep_object sys os true from (some cache) =
    if ltb from.size_b cache.size_b
    then (free_mem_obj sys.munmap_works os (some from), some cache)
    else (free_mem_obj sys.munmap_works os (some cache), some from)

-- the loop over the arenas
unfoldable pub clear_from : Arena → Arena
clear_from x =
    if x.frsp_base == 0 then x else record x { frsp_base = 0; frsp_size_b = 0; frsp_top = 0 }

unfoldable pub clear_all : List Arena → List Arena
unfolding clear_from
clear_all [] = []
clear_all (x ∷ xs) = clear_from x ∷ clear_all xs

unfoldable pub unmap_arena : (ℕ → ℕ) → Arena → Bibop → Bibop
unmap_arena garbage x b =
    if x.frsp_base == 0 then b else mark_region garbage b x.frsp_base x.frsp_size_b aid_unmapped

unfoldable pub unmap_from : (ℕ → ℕ) → List Arena → Bibop → Bibop
unfolding unmap_arena
unmap_from garbage [] b = b
unmap_from garbage (x ∷ xs) b = unmap_from garbage xs (unmap_arena garbage x b)

-- the end of `FreeGeneration`
unfoldable pub finish_release : System → Env → Gen → Freeing → Option MemObj → Released
unfolding clear_all unmap_from
finish_release sys env gen unmap_error cache = release_error
finish_release sys env gen (freed_obj os') cache =
    released (record env { os = os'; bibop = unmap_from sys.garbage gen.arenas env.bibop })
      (record gen { from_obj = none; cache_obj = cache; arenas = clear_all gen.arenas })

-- `FreeGeneration`, where `cacheable` is the test `g < heap->cacheGen`, for the memory object of
-- from-space
unfoldable pub free_object : System → Env → Bool → Gen → Option MemObj → Released
unfolding keep_object finish_release
free_object sys env cacheable gen none = released env gen
free_object sys env cacheable gen (some from) =
    let (freeing, cache) = keep_object sys env.os cacheable from gen.cache_obj in
    finish_release sys env gen freeing cache

unfoldable pub free_generation : System → Env → ℕ → ℕ → Gen → Released
unfolding free_object
free_generation sys env cache_gen g gen = free_object sys env (ltb g cache_gen) gen gen.from_obj
