-- ===== src/Memory.antt =====
-- runtime/memory/mem-mmap.c and mem-common.ins: memory objects from the operating system, where a
-- mapped region can be unmapped in part. The operating system is a parameter, and its calls are
-- recorded, the latest first.
pub mod Mapped
pub mod Objects
use smlnj.Prelude.{
  ℕ, ◌+◌, ◌-◌, ◌%◌, ◌^◌, bit_and, Bool, Option, none, some, List, ◌∷◌, ◌==◌, leb, if◌then◌else◌,
}
use smlnj.Tags.{word_mod}
use smlnj.Sizes.{rnd_memobj_sz_b}

abbrev pub bibop_page_sz_b : ℕ
bibop_page_sz_b = 2 ^ 18

-- `struct mem_obj`
pub record MemObj : Type 0 where
  pub base : ℕ
  pub size_b : ℕ

-- a region that `mmap` gave, or that was given to `munmap`
pub data Call : Type 0 where
  mapping : ℕ → ℕ → Call
  unmapping : ℕ → ℕ → Call

-- the calls so far and `VMSizeB`
pub record Os : Type 0 where
  pub calls : List Call
  pub vm_size_b : ℕ

abbrev pub munmap : ℕ → ℕ → Os → Os
munmap addr len os = record os { calls = unmapping addr len ∷ os.calls }

-- `free_mem_obj` returns, or dies because `munmap` fails
pub data Freeing : Type 0 where
  freed_obj : Os → Freeing
  unmap_error : Freeing

-- the alignment in `MapMemory`
unfoldable pub align : Os → ℕ → ℕ → Os × MemObj
align os szb addr =
    let offset = bibop_page_sz_b - bit_and addr (2 ^ 18 - 1) in
    if offset == bibop_page_sz_b
    then (munmap (addr + szb) bibop_page_sz_b os, record { base = addr; size_b = szb })
    else (
      munmap (addr + offset + szb) (bibop_page_sz_b - offset) (munmap addr offset os),
      record { base = addr + offset; size_b = szb },
    )

-- `MapMemory`, where `mmap` is the system's answer
unfoldable pub map_memory : (List Call → ℕ → Option ℕ) → Os → ℕ → Os × Option MemObj
unfolding align
map_memory mmap os szb =
    let len = (szb + bibop_page_sz_b) % word_mod in
    elim (mmap os.calls len) [
      | none ↦ (os, none)
      | some addr ↦
          let (os', obj) = align (record os { calls = mapping addr len ∷ os.calls }) szb addr in
          (os', some obj)
    ]

abbrev pub alloc_size : ℕ → ℕ
alloc_size szb = if leb szb bibop_page_sz_b then bibop_page_sz_b else rnd_memobj_sz_b szb

-- the account of the mapped bytes at the end of `MEM_AllocMemObj`
unfoldable pub account : ℕ → Os × Option MemObj → Os × Option MemObj
account alloc_szb (os, none) = (os, none)
account alloc_szb (os, some obj) =
    (record os { vm_size_b = (os.vm_size_b + alloc_szb) % word_mod }, some obj)

-- `MEM_AllocMemObj`, where `new_obj` says whether `NEW_OBJ` succeeds
unfoldable pub alloc_mem_obj :
    (List Call → ℕ → Option ℕ) → (List Call → Bool) → Os → ℕ → Os × Option MemObj
unfolding map_memory account
alloc_mem_obj mmap new_obj os szb =
    if new_obj os.calls
    then account (alloc_size szb) (map_memory mmap os (alloc_size szb))
    else (os, none)

-- `MEM_FreeMemObj`, where `munmap_works` says whether `munmap` succeeds
unfoldable pub free_mem_obj : (List Call → ℕ → ℕ → Bool) → Os → Option MemObj → Freeing
free_mem_obj munmap_works os none = freed_obj os
free_mem_obj munmap_works os (some obj) =
    if munmap_works os.calls obj.base obj.size_b
    then freed_obj (record (munmap obj.base obj.size_b os) {
      vm_size_b = (os.vm_size_b + word_mod - obj.size_b % word_mod) % word_mod;
    })
    else unmap_error
