-- ===== src/Generation/Release/Unmapped.antt =====
-- What `FreeGeneration` unmaps and what it keeps.
use smlnj.Prelude.{
  ℕ, ◌+◌, ◌^◌, ◌<◌, ◌≤◌, ◌≡◌, refl, sym, ap, ◌∙◌, ◌⊎◌, inl, inr, Bool, true, false, Option, none,
  some, List, [], ◌∷◌, ◌&&◌, ◌||◌, not, arith, ◌==◌, ltb, if◌then◌else◌, Bool-cases,
}
use smlnj.ArenaId.{aid_unmapped}
use smlnj.Memory.{MemObj, Call, Os, Freeing, freed_obj, unmap_error, free_mem_obj}
use smlnj.Memory.Mapped.{covers}
use smlnj.Bibop.{Bibop, addr_to_pageid}
use smlnj.Bibop.Rows.{IsValid}
use smlnj.Heap.{Arena, Gen}
use smlnj.Generation.{System, Env}
use smlnj.Generation.Layout.{Pages, mark_region-covers}
use smlnj.Generation.Release.{
  released, release_error, keep_object, clear_from, clear_all, unmap_arena, unmap_from,
  finish_release, free_object, free_generation,
}

-- the address is in an arena's from-space
abbrev pub in_from : List Arena → ℕ → Bool
in_from [] a = false
in_from (x ∷ xs) a = (not (x.frsp_base == 0) && covers x.frsp_base x.frsp_size_b a) || in_from xs a

-- from-spaces have whole pages below 2 ^ 48
abbrev pub WholeFrom : List Arena → Type 0
WholeFrom [] = Unit
WholeFrom (x ∷ xs) =
    Pages x.frsp_base × Pages x.frsp_size_b × (x.frsp_base + x.frsp_size_b < 2 ^ 48) × WholeFrom xs

-- no arena has a from-space
abbrev pub NoFrom : List Arena → Type 0
NoFrom [] = Unit
NoFrom (x ∷ xs) = (x.frsp_base ≡ 0) × NoFrom xs

clear_all-NoFrom : (xs : List Arena) → NoFrom (clear_all xs)
unfolding clear_all clear_from
clear_all-NoFrom [] = tt
clear_all-NoFrom (x ∷ xs) = elim (Bool-cases (x.frsp_base == 0)) [
  | inl empty ↦ rw empty (ground arith, clear_all-NoFrom xs)
  | inr some_space ↦ rw some_space (refl, clear_all-NoFrom xs)
]

unmapped_twice :
    (u o : ℕ) (later now : Bool)
    → (if later then u else (if now then u else o)) ≡ (if now || later then u else o)
unmapped_twice u o true true = refl
unmapped_twice u o true false = refl
unmapped_twice u o false true = refl
unmapped_twice u o false false = refl

-- an arena's pages in from-space
abbrev from_covers : Arena → ℕ → Bool
from_covers x a = not (x.frsp_base == 0) && covers x.frsp_base x.frsp_size_b a

unmap_arena-lookup :
    (garbage : ℕ → ℕ) (x : Arena) (b : Bibop)
    → IsValid b
    → Pages x.frsp_base
    → Pages x.frsp_size_b
    → x.frsp_base + x.frsp_size_b < 2 ^ 48
    → IsValid (unmap_arena garbage x b)
      × ((a : ℕ)
          → addr_to_pageid (unmap_arena garbage x b) a
            ≡ (if from_covers x a then aid_unmapped else addr_to_pageid b a))
unfolding unmap_arena
unmap_arena-lookup garbage x b v page whole small = elim (Bool-cases (x.frsp_base == 0)) [
  | inl empty ↦ rw empty (v, λ a. refl)
  | inr some_space ↦
      rw some_space
        (mark_region-covers garbage b x.frsp_base x.frsp_size_b aid_unmapped v page whole small)
]

unmap_from-lookup :
    (garbage : ℕ → ℕ) (xs : List Arena) (b : Bibop)
    → IsValid b
    → WholeFrom xs
    → IsValid (unmap_from garbage xs b)
      × ((a : ℕ)
          → addr_to_pageid (unmap_from garbage xs b) a
            ≡ (if in_from xs a then aid_unmapped else addr_to_pageid b a))
unfolding unmap_from
unmap_from-lookup garbage [] b v w = (v, λ a. refl)
unmap_from-lookup garbage (x ∷ xs) b v (page, whole, small, rest) =
    let (v', reads) = unmap_arena-lookup garbage x b v page whole small in
    let (v'', reads') = unmap_from-lookup garbage xs (unmap_arena garbage x b) v' rest in
    (
      v'',
      λ a.
          reads' a
          ∙ ap (λ (o : ℕ). if in_from xs a then aid_unmapped else o) (reads a)
          ∙ unmapped_twice aid_unmapped (addr_to_pageid b a) (in_from xs a) (from_covers x a),
    )

-- the size of a memory object that need not be there
abbrev pub size_of : Option MemObj → ℕ
size_of none = 0
size_of (some obj) = obj.size_b

-- the cache after the memory object is given up
pub record Cached (cacheable : Bool) (from : MemObj) (old new : Option MemObj) : Type 0 where
  pub not_kept : cacheable ≡ false → new ≡ old
  pub kept : cacheable ≡ true → (new ≡ old) ⊎ (new ≡ some from)
  pub largest : cacheable ≡ true → (from.size_b ≤ size_of new) × (size_of old ≤ size_of new)

keep_object-Cached :
    (sys : System) (os : Os) (cacheable : Bool) (from : MemObj) (cache : Option MemObj)
    → Cached cacheable from cache (keep_object sys os cacheable from cache).1
unfolding keep_object
keep_object-Cached sys os false from cache = record {
  not_kept = λ h. refl;
  kept = λ h. inl refl;
  largest = λ h. absurd (ground (arith, h));
}
keep_object-Cached sys os true from none = record {
  not_kept = λ h. absurd (ground (arith, h));
  kept = λ h. inr refl;
  largest = λ h. (omega arith, omega arith);
}
keep_object-Cached sys os true from (some cache) =
    elim (Bool-cases (ltb from.size_b cache.size_b)) [
      | inl less ↦ rw less (record {
        not_kept = λ h. absurd (ground (arith, h));
        kept = λ h. inl refl;
        largest = λ h. (ground (arith, less), omega arith);
      })
      | inr more ↦ rw more (record {
        not_kept = λ h. absurd (ground (arith, h));
        kept = λ h. inr refl;
        largest = λ h. (omega arith, ground (arith, more));
      })
    ]

pub record Freed (env : Env) (cacheable : Bool) (gen : Gen) (from : MemObj) (env' : Env)
    (gen' : Gen) : Type 0 where
  pub gone : gen'.from_obj ≡ none
  pub cache : Cached cacheable from gen.cache_obj gen'.cache_obj
  pub cleared : NoFrom gen'.arenas
  pub valid : IsValid env'.bibop
  pub pages :
      (a : ℕ)
      → addr_to_pageid env'.bibop a
        ≡ (if in_from gen.arenas a then aid_unmapped else addr_to_pageid env.bibop a)

-- the memory object that `FreeGeneration` unmaps: from-space's where nothing is cached for the
-- generation or a larger object is, and otherwise the cached one
pub data GivenUp (from : MemObj) : Bool → Option MemObj → MemObj → Type 0 where
  not_cached : {cache : Option MemObj} → GivenUp from false cache from
  smaller : {cache : MemObj} → from.size_b < cache.size_b → GivenUp from true (some cache) from
  replaced : {cache : MemObj} → cache.size_b ≤ from.size_b → GivenUp from true (some cache) cache

-- the object that is given up, and the refusal of `munmap` for it
abbrev pub Stuck : System → Os → Bool → MemObj → Option MemObj → Type 0
Stuck sys os cacheable from cache =
    (obj : MemObj) × GivenUp from cacheable cache obj
    × (sys.munmap_works os.calls obj.base obj.size_b ≡ false)

free_mem_obj-error :
    (works : List Call → ℕ → ℕ → Bool) (os : Os) (obj : MemObj)
    → free_mem_obj works os (some obj) ≡ unmap_error
    → works os.calls obj.base obj.size_b ≡ false
unfolding free_mem_obj
free_mem_obj-error works os obj e = ground arith

keep_object-Stuck :
    (sys : System) (os : Os) (cacheable : Bool) (from : MemObj) (cache : Option MemObj)
    → (keep_object sys os cacheable from cache).0 ≡ unmap_error
    → Stuck sys os cacheable from cache
unfolding keep_object
keep_object-Stuck sys os false from cache e =
    (from, not_cached, free_mem_obj-error sys.munmap_works os from e)
keep_object-Stuck sys os true from none e = absurd (ground (arith, e))
keep_object-Stuck sys os true from (some cache) e =
    elim (Bool-cases (ltb from.size_b cache.size_b)) [
      | inl less ↦
          let now : (keep_object sys os true from (some cache)).0
              ≡ free_mem_obj sys.munmap_works os (some from) =
            rw less refl in
          (
            from,
            smaller (ground (arith, less)),
            free_mem_obj-error sys.munmap_works os from (sym now ∙ e),
          )
      | inr more ↦
          let now : (keep_object sys os true from (some cache)).0
              ≡ free_mem_obj sys.munmap_works os (some cache) =
            rw more refl in
          (
            cache,
            replaced (ground (arith, more)),
            free_mem_obj-error sys.munmap_works os cache (sym now ∙ e),
          )
    ]

finish_release-Freed :
    (sys : System) (env : Env) (gen : Gen) (freeing : Freeing) (cache : Option MemObj)
    → IsValid env.bibop
    → WholeFrom gen.arenas
    → (cacheable : Bool) (from : MemObj) → Cached cacheable from gen.cache_obj cache
    → ((finish_release sys env gen freeing cache ≡ release_error) × (freeing ≡ unmap_error))
      ⊎ ((env' : Env) × (gen' : Gen) × (finish_release sys env gen freeing cache
            ≡ released env' gen')
          × Freed env cacheable gen from env' gen')
unfolding finish_release
finish_release-Freed sys env gen unmap_error cache v w cacheable from c = inl (refl, refl)
finish_release-Freed sys env gen (freed_obj os') cache v w cacheable from c =
    let (v', reads) = unmap_from-lookup sys.garbage gen.arenas env.bibop v w in
    inr (
      record env { os = os'; bibop = unmap_from sys.garbage gen.arenas env.bibop },
      record gen { from_obj = none; cache_obj = cache; arenas = clear_all gen.arenas },
      refl,
      record {
        gone = refl;
        cache = c;
        cleared = clear_all-NoFrom gen.arenas;
        valid = v';
        pages = reads;
      },
    )

-- `FreeGeneration` of a generation that has a from-space, on a valid page map and for from-spaces of
-- whole pages below 2 ^ 48. It dies only if `munmap` fails on the object
-- that is given up. Otherwise the from-space is
-- gone: the page map gives its pages, and no other page, the unmapped identifier anew. For a
-- generation whose memory is cached, the larger one of the cached object and from-space's stays
-- cached; for the others the cache stays as it was.
pub free_generation-cases :
    (sys : System) (env : Env) (cache_gen g : ℕ) (gen : Gen) (from : MemObj)
    → gen.from_obj ≡ some from
    → IsValid env.bibop
    → WholeFrom gen.arenas
    → ((free_generation sys env cache_gen g gen ≡ release_error)
        × Stuck sys env.os (ltb g cache_gen) from gen.cache_obj)
      ⊎ ((env' : Env) × (gen' : Gen) × (free_generation sys env cache_gen g gen
            ≡ released env' gen')
          × Freed env (ltb g cache_gen) gen from env' gen')
unfolding free_generation free_object
free_generation-cases sys env cache_gen g gen from here v w =
    let split : free_generation sys env cache_gen g gen
        ≡ free_object sys env (ltb g cache_gen) gen (some from) =
      ap (λ (o : Option MemObj). free_object sys env (ltb g cache_gen) gen o) here in
    elim (finish_release-Freed sys env gen
      (keep_object sys env.os (ltb g cache_gen) from gen.cache_obj).0
      (keep_object sys env.os (ltb g cache_gen) from gen.cache_obj).1 v w (ltb g cache_gen) from
      (keep_object-Cached sys env.os (ltb g cache_gen) from gen.cache_obj)) [
        | inl (stop, why) ↦
            inl
              (split ∙ stop, keep_object-Stuck sys env.os (ltb g cache_gen) from gen.cache_obj why)
        | inr (env', gen', run, f) ↦ inr (env', gen', split ∙ run, f)
      ]
