-- ===== src/Examples/Space.antt =====
-- A system that maps memory upwards, a generation with two active arenas, and its flip.
use smlnj.Prelude.{
  ℕ, ◌+◌, ◌*◌, ◌^◌, ◌≤◌, ◌≡◌, ◌≢◌, refl, sym, ap, ◌⊎◌, inl, inr, Bool, true, false, Option, none,
  some, List, [], ◌∷◌, arith, ltb, leb, if◌then◌else◌,
}
use mathlib.Core.Path.{subst}
use mathlib.Core.Option.{some-injective, none-ne-some}
use smlnj.Sizes.{rnd_memobj_sz_b}
use smlnj.Memory.{MemObj, Call, mapping, unmapping, Os, alloc_mem_obj}
use smlnj.Memory.Mapped.{is_mapped, GivesFresh}
use smlnj.Memory.Objects.{MemObjFor, alloc_mem_obj-cases}
use smlnj.CardMap.{CardMap}
use smlnj.Bibop.{init_bibop}
use smlnj.Bibop.Rows.{IsValid, init_bibop-unmapped}
use smlnj.Heap.{Arena, Gen, Heap}
use smlnj.Generation.{System, Env, new_generation}
use smlnj.Generation.Create.{Created, new_generation-cases}
use smlnj.Generation.Release.{released, release_error, free_generation}
use smlnj.Generation.Release.Unmapped.{Stuck, Freed, free_generation-cases}
use smlnj.Flip.{Sized, flip_one}
use smlnj.Flip.Size.{Fits, larger, slot, young, flip_one-Fits}

-- the end of the highest mapping so far, at least 2 ^ 20 + 4096
abbrev top : List Call → ℕ
top [] = 2 ^ 20 + 4096
top (mapping base len ∷ cs) = if ltb (top cs) (base + len) then base + len else top cs
top (unmapping base len ∷ cs) = top cs

abbrev pub upwards : List Call → ℕ → Option ℕ
upwards cs len = if leb (top cs + len) (2 ^ 47) then some (top cs) else none

below_top : (cs : List Call) (a : ℕ) → top cs ≤ a → is_mapped cs a ≡ false
below_top [] a h = refl
below_top (mapping base len ∷ cs) a h = ground (arith, below_top cs a)
below_top (unmapping base len ∷ cs) a h = ground (arith, below_top cs a)

some_if :
    (b : Bool) (t addr : ℕ) → (if b then some t else none) ≡ some addr → (b ≡ true) × (t ≡ addr)
some_if true t addr e = (refl, some-injective t addr e)
some_if false t addr e = absurd (none-ne-some addr e)

pub upwards-GivesFresh : GivesFresh upwards
upwards-GivesFresh cs len addr run =
    let (fits, here) = some_if (leb (top cs + len) (2 ^ 47)) (top cs) addr run in
    (ground (arith, fits, here), λ a h. below_top cs a (ground (arith, h, here)))

abbrev pub sys : System
sys = record {
  mmap = upwards;
  new_obj = λ cs. true;
  munmap_works = λ cs base len. true;
  malloc_works = λ size. true;
  garbage = λ i. 7;
}

abbrev pub os : Os
os = record { calls = []; vm_size_b = 0 }

alloc_mem_obj-cases_example :
    (alloc_mem_obj upwards (λ cs. true) os 300000 ≡ (os, none))
    ⊎ ((os' : Os) × (obj : MemObj) × (alloc_mem_obj upwards (λ cs. true) os 300000
          ≡ (os', some obj))
        × MemObjFor os 300000 os' obj)
alloc_mem_obj-cases_example =
    alloc_mem_obj-cases upwards-GivesFresh (λ cs. true) os 300000 (omega arith)

-- the system and the object after that call
abbrev after_alloc : Os
after_alloc = (alloc_mem_obj upwards (λ cs. true) os 300000).0

abbrev object : Option MemObj → MemObj
object (some obj) = obj
object none = record { base = 0; size_b = 0 }

abbrev first_obj : MemObj
first_obj = object (alloc_mem_obj upwards (λ cs. true) os 300000).1

no_failure : ¬ ((alloc_mem_obj upwards (λ cs. true) os 300000).1 ≡ none)
unfolding alloc_mem_obj rnd_memobj_sz_b
no_failure e = none-ne-some _ (sym e)

first_obj-MemObjFor : MemObjFor os 300000 after_alloc first_obj
first_obj-MemObjFor = elim alloc_mem_obj-cases_example [
  | inr (os', obj, run, m) ↦
      subst (λ (r : Os × Option MemObj). MemObjFor os 300000 r.0 (object r.1)) (sym run) m
  | inl stop ↦ absurd (no_failure (ap (λ (r : Os × Option MemObj). r.1) stop))
]

-- an arena that wants the space, with the number of its class
abbrev arena : ℕ → ℕ → Arena
arena j size = record {
  id = 4096 + 256 * (j + 1);
  nextw = 0;
  tosp_base = 0;
  tosp_size_b = size;
  tosp_top = 0;
  sweep_nextw = 0;
  repair_list = 0;
  frsp_base = 2 ^ 30 + j * 2 ^ 18;
  frsp_size_b = 2 ^ 18;
  frsp_top = 0;
  old_top = 0;
  next_gen = 2;
  needs_repair = false;
  req_size_b = 0;
  max_size_b = 2 ^ 20;
}

abbrev gen : Gen
gen = record {
  gen_num = 1;
  num_gcs = 3;
  last_prev_gc = 9;
  ratio = 20;
  arenas = arena 0 (2 ^ 18) ∷ (arena 1 (2 ^ 19) ∷ (arena 2 0 ∷ (arena 3 0 ∷ (arena 4 0 ∷ []))));
  to_obj = none;
  from_obj = some (record { base = 2 ^ 30; size_b = 5 * 2 ^ 18 });
  cache_obj = none;
  dirty = none;
}

abbrev env : Env
env = record { os = os; bibop = init_bibop (λ i. 7); mem = λ a. 0 }

env-IsValid : IsValid env.bibop
env-IsValid = (init_bibop-unmapped (λ i. 7)).0

new_generation-cases_example :
    (new_generation sys env gen ≡ (env, (gen, false)))
    ⊎ Created sys env gen
        (arena 0 (2 ^ 18))
        (arena 1 (2 ^ 19))
        (arena 2 0 ∷ (arena 3 0 ∷ (arena 4 0 ∷ [])))
new_generation-cases_example =
    new_generation-cases sys upwards-GivesFresh env gen (arena 0 (2 ^ 18)) (arena 1 (2 ^ 19))
      (arena 2 0 ∷ (arena 3 0 ∷ (arena 4 0 ∷ []))) env-IsValid tt
      ((1, refl), ((2, refl), ((0, refl), ((0, refl), ((0, refl), tt))))) (omega arith)

free_generation-cases_example :
    ((free_generation sys env 2 0 gen ≡ release_error)
      × Stuck sys env.os (ltb 0 2) (record { base = 2 ^ 30; size_b = 5 * 2 ^ 18 }) gen.cache_obj)
    ⊎ ((env' : Env) × (gen' : Gen) × (free_generation sys env 2 0 gen ≡ released env' gen')
        × Freed env (ltb 0 2) gen (record { base = 2 ^ 30; size_b = 5 * 2 ^ 18 }) env' gen')
free_generation-cases_example =
    free_generation-cases sys env 2 0 gen (record { base = 2 ^ 30; size_b = 5 * 2 ^ 18 }) refl
      env-IsValid
      (
        (4096, refl),
        (1, refl),
        omega arith,
        (
          (4097, refl),
          (1, refl),
          omega arith,
          (
            (4098, refl),
            (1, refl),
            omega arith,
            ((4099, refl), (1, refl), omega arith, ((4100, refl), (1, refl), omega arith, tt)),
          ),
        ),
      )

flip_one-Fits_example :
    (s : Sized) × (flip_one 1 20 4 5000 (arena 1 (2 ^ 18)) ≡ some s)
    × Fits
        (5000 + young (arena 1 (2 ^ 18)) + 0)
        (larger (5000 + young (arena 1 (2 ^ 18)) + 0 + slot 1) (2 ^ 20))
        s.arena
    × ((s.arena).tosp_size_b ≢ 0
        → 5000 + young (arena 1 (2 ^ 18)) + 0 + slot 1 ≤ (s.arena).tosp_size_b)
flip_one-Fits_example =
    flip_one-Fits 1 20 4 5000 (arena 1 (2 ^ 18)) (omega arith) (λ h. omega arith) (omega arith)
      (omega arith) (omega arith)

abbrev heap : Heap
heap = record {
  alloc_base = 2 ^ 40;
  alloc_sz_b = 2 ^ 18;
  cache_gen = 2;
  num_minor_gcs = 12 + 1;
  gens = gen ∷ [];
}

abbrev cards : CardMap
cards = record { base_addr = 4096; num_cards = 4; map_sz_b = 32; map = λ i. 255 }
