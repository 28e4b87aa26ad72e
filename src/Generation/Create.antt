-- ===== src/Generation/Create.antt =====
-- `NewGeneration`.
use smlnj.Prelude.{
  ℕ, ◌+◌, ◌%◌, ◌^◌, ◌<◌, ◌≤◌, ◌≡◌, refl, ap, ◌∙◌, ◌⊎◌, inl, inr, Bool, true, false, Option, none,
  some, List, [], ◌∷◌, arith, leb, if◌then◌else◌, Bool-cases, Option-cases,
}
use mathlib.Core.Path.{subst}
use smlnj.Tags.{word_mod}
use smlnj.Memory.{MemObj}
use smlnj.Memory.Mapped.{GivesFresh}
use smlnj.Memory.Objects.{MemObjFor, alloc_mem_obj-cases}
use smlnj.Bibop.Rows.{IsValid}
use smlnj.Heap.{Arena, Gen, is_active}
use smlnj.Generation.{System, Env, tot_size, ask, obtain, set_up, partition, new_generation}
use smlnj.Generation.Layout.{Pages, space, WholePages}
use smlnj.Generation.Partition.{Partitioned, partition-Partitioned}

pub tot_size-space :
    (aps : List Arena) (t : ℕ) → t + space aps < word_mod → tot_size aps t ≡ t + space aps
unfolding tot_size
tot_size-space [] t h = omega arith
tot_size-space (x ∷ aps) t h =
    let sum : (t + x.tosp_size_b) % word_mod ≡ t + x.tosp_size_b = omega arith in
    elim (Bool-cases (is_active x)) [
      | inl e ↦
          rw (e, sum) (tot_size-space aps (t + x.tosp_size_b) (omega (arith, h)) ∙ omega arith)
      | inr e ↦
          let empty : x.tosp_size_b ≡ 0 = ground (arith, e) in
          rw e (tot_size-space aps t (omega (arith, h)) ∙ omega (arith, empty))
    ]

-- where the memory object comes from: it was cached, or it is new
pub data Source (env : Env) (gen : Gen) (sz : ℕ) (env' : Env) (gen' : Gen) (memobj : MemObj)
    : Type 0 where
  cached :
      gen.cache_obj ≡ some memobj
      → gen'.cache_obj ≡ none
      → env'.os ≡ env.os
      → Source env gen sz env' gen' memobj
  fresh :
      gen'.cache_obj ≡ gen.cache_obj
      → MemObjFor env.os sz env'.os memobj
      → Source env gen sz env' gen' memobj

-- a cached object is a memory object
abbrev pub CacheIsValid : Option MemObj → Type 0
CacheIsValid none = Unit
CacheIsValid (some obj) = Pages obj.base × Pages obj.size_b × (obj.base + obj.size_b ≤ 2 ^ 47)

pub record Created (sys : System) (env : Env) (gen : Gen) (r pr : Arena) (aps : List Arena)
    : Type 0 where
  pub env' : Env
  pub gen' : Gen
  pub memobj : MemObj
  pub result :
      new_generation sys env (record gen { arenas = r ∷ (pr ∷ aps) }) ≡ (env', (gen', true))
  pub enough : space (r ∷ (pr ∷ aps)) ≤ memobj.size_b
  pub inside : memobj.base + memobj.size_b ≤ 2 ^ 47
  pub source : Source env gen (space (r ∷ (pr ∷ aps))) env' gen' memobj
  pub partitioned : Partitioned env.bibop env.mem r pr aps memobj env' gen'

-- `NewGeneration` by the two things it looks at
new_generation-by :
    (sys : System) (env : Env) (gen : Gen) (tot : ℕ) (cache : Option MemObj)
    → tot_size gen.arenas 0 ≡ tot
    → gen.cache_obj ≡ cache
    → new_generation sys env gen ≡ set_up sys (obtain sys env gen tot cache)
unfolding new_generation
new_generation-by sys env gen tot cache total here =
    ap (λ (t : ℕ). set_up sys (obtain sys env gen t gen.cache_obj)) total
    ∙ ap (λ (c : Option MemObj). set_up sys (obtain sys env gen tot c)) here

module _ (sys : System) (gives : GivesFresh sys.mmap) (env : Env) (gen : Gen) (r pr : Arena)
    (aps : List Arena) (v : IsValid env.bibop) (cache : CacheIsValid gen.cache_obj)
    (whole : WholePages (r ∷ (pr ∷ aps))) (small : space (r ∷ (pr ∷ aps)) < 2 ^ 47) where
  abbrev sized : Gen
  sized = record gen { arenas = r ∷ (pr ∷ aps) }

  abbrev need : ℕ
  need = space (r ∷ (pr ∷ aps))

  fits_below :
      (memobj : MemObj)
      → need ≤ memobj.size_b
      → memobj.base + memobj.size_b ≤ 2 ^ 47
      → memobj.base + need < 2 ^ 48
  fits_below memobj enough inside = omega (arith, enough, inside)

  total-need : tot_size (r ∷ (pr ∷ aps)) 0 ≡ need
  total-need = tot_size-space (r ∷ (pr ∷ aps)) 0 (omega (arith, small)) ∙ omega arith

  -- where the cached object does not do
  from_system :
      new_generation sys env sized ≡ set_up sys (ask sys env sized need)
      → (new_generation sys env sized ≡ (env, (sized, false))) ⊎ Created sys env gen r pr aps
  unfolding partition ask set_up
  from_system found =
      elim (alloc_mem_obj-cases gives sys.new_obj env.os need (omega (arith, small))) [
        | inl stop ↦ inl (found ∙ rw stop refl)
        | inr (os', obj, run, m) ↦
            let env1 : Env = record env { os = os' } in
            inr (record {
              env' = (partition sys env1 sized obj).0;
              gen' = (partition sys env1 sized obj).1;
              memobj = obj;
              result = found ∙ rw run refl;
              enough = m.enough;
              inside = m.inside;
              source = fresh refl m;
              partitioned =
                  partition-Partitioned sys env1 gen r pr aps obj v m.aligned whole
                    (fits_below obj m.enough m.inside);
            })
      ]

  -- the cached object, where it is large enough
  from_cache :
      (obj : MemObj) → gen.cache_obj ≡ some obj → need ≤ obj.size_b → Created sys env gen r pr aps
  unfolding partition set_up obtain
  from_cache obj here enough =
      let (page, _, inside) = subst CacheIsValid here cache in
      let gen1 : Gen = record gen { cache_obj = none } in
      let fits : leb need obj.size_b ≡ true = ground (arith, enough) in
      record {
        env' = (partition sys env (record sized { cache_obj = none }) obj).0;
        gen' = (partition sys env (record sized { cache_obj = none }) obj).1;
        memobj = obj;
        result = new_generation-by sys env sized need (some obj) total-need here ∙ rw fits refl;
        enough = enough;
        inside = inside;
        source = cached here refl refl;
        partitioned =
            partition-Partitioned sys env gen1 r pr aps obj v page whole
              (fits_below obj enough inside);
      }

-- `NewGeneration` on a valid page map, for arenas of whole pages that take less than 2 ^ 47 bytes,
-- where `mmap` gives only free regions. It fails and changes nothing, or it succeeds: the
-- generation's memory object is the cached one, which is then no longer cached, or a new one, and is
-- large enough. The active arenas lie in it one after the other, each empty but for the first
-- slot of pair space, and the page map gives the pages of each its identifier and is otherwise as it
-- was.
pub new_generation-cases :
    (sys : System)
    → GivesFresh sys.mmap
    → (env : Env) (gen : Gen) (r pr : Arena) (aps : List Arena) → IsValid env.bibop
    → CacheIsValid gen.cache_obj
    → WholePages (r ∷ (pr ∷ aps))
    → space (r ∷ (pr ∷ aps)) < 2 ^ 47
    → (new_generation sys env (record gen { arenas = r ∷ (pr ∷ aps) })
        ≡ (env, (record gen { arenas = r ∷ (pr ∷ aps) }, false)))
      ⊎ Created sys env gen r pr aps
unfolding obtain
new_generation-cases sys gives env gen r pr aps v cache whole small =
    let need = space (r ∷ (pr ∷ aps)) in
    let sized : Gen = record gen { arenas = r ∷ (pr ∷ aps) } in
    let total = total-need sys gives env gen r pr aps v cache whole small in
    elim (Option-cases gen.cache_obj) [
      | inl empty ↦
          from_system sys gives env gen r pr aps v cache whole small
            (new_generation-by sys env sized need none total empty)
      | inr (obj, here) ↦ elim (Bool-cases (leb need obj.size_b)) [
        | inl large ↦
            inr (from_cache sys gives env gen r pr aps v cache whole small obj here (ground arith))
        | inr other ↦ from_system sys gives env gen r pr aps v cache whole small (
            new_generation-by sys env sized need (some obj) total here
            ∙ ap
                (λ (b : Bool). set_up sys (
                  if b
                  then (env, (record sized { cache_obj = none }, some obj))
                  else ask sys env sized need))
                other)
      ]
    ]
