-- ===== src/Memory/Objects.antt =====
-- `MEM_AllocMemObj` and `MEM_FreeMemObj` and the mapped addresses.
use smlnj.Prelude.{
  ℕ, ◌+◌, ◌-◌, ◌*◌, ◌/◌, ◌%◌, ◌^◌, ◌<◌, ◌≤◌, ◌≡◌, refl, sym, ap, ◌∙◌, ◌⊎◌, inl, inr, Bool, true,
  false, Option, none, some, List, ◌∷◌, bit_and, arith, ◌==◌, leb, if◌then◌else◌, Bool-cases,
  Option-cases,
}
use smlnj.Prelude.Bits.{bit_and-mask}
use smlnj.Tags.{word_mod}
use smlnj.Sizes.Round.{rnd_memobj_sz_b-RoundedUp}
use smlnj.Memory.{
  MemObj, Call, mapping, Os, munmap, align, map_memory, alloc_size, alloc_mem_obj, account,
  free_mem_obj, freed_obj, unmap_error,
}
use smlnj.Memory.Mapped.{covers, is_mapped, GivesFresh}

-- the object is page-aligned, has the size, and just its addresses became mapped
pub record Aligned (os : Os) (szb : ℕ) (os' : Os) (obj : MemObj) : Type 0 where
  pub aligned : (page : ℕ) × (obj.base ≡ page * 2 ^ 18)
  pub size : obj.size_b ≡ szb
  pub inside : obj.base + obj.size_b ≤ 2 ^ 47
  pub mapped :
      (a : ℕ)
      → is_mapped os'.calls a ≡ (if covers obj.base szb a then true else is_mapped os.calls a)
  pub fresh : (a : ℕ) → covers obj.base szb a ≡ true → is_mapped os.calls a ≡ false
  pub same_size : os'.vm_size_b ≡ os.vm_size_b

abbrev with_map : Os → ℕ → ℕ → Os
with_map os szb addr = record os { calls = mapping addr (szb + 2 ^ 18) ∷ os.calls }

-- what is left of the mapping after the last page, or the ends, are given back
trim_one :
    (szb addr a : ℕ) (m : Bool)
    → (covers addr (szb + 2 ^ 18) a ≡ true → m ≡ false)
    → (if covers (addr + szb) (2 ^ 18) a
        then false
        else (if covers addr (szb + 2 ^ 18) a then true else m))
      ≡ (if covers addr szb a then true else m)
trim_one szb addr a true h = ground (arith, h)
trim_one szb addr a false h = ground arith

trim_two :
    (szb addr a off : ℕ) (m : Bool)
    → off < 2 ^ 18
    → (covers addr (szb + 2 ^ 18) a ≡ true → m ≡ false)
    → (if covers (addr + off + szb) (2 ^ 18 - off) a
        then false
        else (if covers addr off a
            then false
            else (if covers addr (szb + 2 ^ 18) a then true else m)))
      ≡ (if covers (addr + off) szb a then true else m)
trim_two szb addr a off true s h = ground (arith, h)
trim_two szb addr a off false s h = ground arith

align-Aligned :
    (os : Os) (szb addr : ℕ)
    → addr + (szb + 2 ^ 18) ≤ 2 ^ 47
    → ((a : ℕ) → covers addr (szb + 2 ^ 18) a ≡ true → is_mapped os.calls a ≡ false)
    → Aligned os szb
        (align (with_map os szb addr) szb addr).0
        (align (with_map os szb addr) szb addr).1
unfolding align
align-Aligned os szb addr inside fresh =
    let low : bit_and addr (2 ^ 18 - 1) ≡ addr % 2 ^ 18 = bit_and-mask 18 addr in
    let off = 2 ^ 18 - addr % 2 ^ 18 in
    elim (Bool-cases (off == 2 ^ 18)) [
      | inl whole ↦
          let zero : addr % 2 ^ 18 ≡ 0 = ground arith in
          rw (low, whole)
            (record {
              aligned = (addr / 2 ^ 18, omega arith);
              size = refl;
              inside = omega arith;
              mapped = λ a. trim_one szb addr a (is_mapped os.calls a) (fresh a);
              fresh = λ a h. fresh a (ground arith);
              same_size = refl;
            })
      | inr part ↦
          let some_part : off < 2 ^ 18 = ground arith in
          rw (low, part)
            (record {
              aligned = (addr / 2 ^ 18 + 1, omega arith);
              size = refl;
              inside = omega (arith, inside, some_part);
              mapped = λ a. trim_two szb addr a off (is_mapped os.calls a) some_part (fresh a);
              fresh = λ a h. fresh a (ground arith);
              same_size = refl;
            })
    ]

-- how `map_memory` ends
map_memory-cases :
    {mmap : List Call → ℕ → Option ℕ}
    → GivesFresh mmap
    → (os : Os) (szb : ℕ) → szb + 2 ^ 18 < word_mod
    → (map_memory mmap os szb ≡ (os, none))
      ⊎ ((os' : Os) × (obj : MemObj) × (map_memory mmap os szb ≡ (os', some obj))
          × Aligned os szb os' obj)
unfolding map_memory
map_memory-cases {mmap} gives os szb small =
    let len : (szb + 2 ^ 18) % word_mod ≡ szb + 2 ^ 18 = omega arith in
    elim (Option-cases (mmap os.calls (szb + 2 ^ 18))) [
      | inl stop ↦ inl (rw (len, stop, map_memory) refl)
      | inr (addr, run) ↦
          let (inside, fresh) = gives os.calls (szb + 2 ^ 18) addr run in
          inr (
            (align (with_map os szb addr) szb addr).0,
            (align (with_map os szb addr) szb addr).1,
            rw (len, run, map_memory, len) refl,
            align-Aligned os szb addr inside fresh,
          )
    ]

alloc_size-RoundedUp :
    (szb : ℕ)
    → szb + 2 ^ 18 ≤ word_mod
    → (pages : ℕ) × (alloc_size szb ≡ pages * 2 ^ 18)
      × (szb ≤ alloc_size szb)
      × (0 < alloc_size szb)
      × (alloc_size szb ≤ szb + 2 ^ 18)
alloc_size-RoundedUp szb h = elim (Bool-cases (leb szb (2 ^ 18))) [
  | inl page ↦ (
    1,
    rw page (omega arith),
    rw page (ground arith),
    rw page (omega arith),
    rw page (omega arith),
  )
  | inr more ↦
      let (pages, whole, over, close) = rnd_memobj_sz_b-RoundedUp szb h in
      (
        pages,
        rw more whole,
        rw more over,
        rw more (ground (arith, more, over)),
        rw more (omega (arith, close)),
      )
]

-- a memory object for the request
pub record MemObjFor (os : Os) (szb : ℕ) (os' : Os) (obj : MemObj) : Type 0 where
  pub aligned : (page : ℕ) × (obj.base ≡ page * 2 ^ 18)
  pub pages : (n : ℕ) × (obj.size_b ≡ n * 2 ^ 18) × (0 < obj.size_b)
  pub enough : szb ≤ obj.size_b
  pub close : obj.size_b ≤ szb + 2 ^ 18
  pub inside : obj.base + obj.size_b ≤ 2 ^ 47
  pub mapped :
      (a : ℕ)
      → is_mapped os'.calls a
        ≡ (if covers obj.base obj.size_b a then true else is_mapped os.calls a)
  pub fresh : (a : ℕ) → covers obj.base obj.size_b a ≡ true → is_mapped os.calls a ≡ false
  pub vm_size : os'.vm_size_b ≡ (os.vm_size_b + obj.size_b) % word_mod

-- Where `mmap` gives only free regions of the address space, `MEM_AllocMemObj` either fails, and
-- then nothing is mapped or unmapped, or it gives an object of whole pages on a page boundary, not
-- smaller than the request and by at most a page larger. The addresses of the object, which were
-- free, become mapped, and no other address is mapped or unmapped in the end. For requests that
-- leave two pages of the address space.
pub alloc_mem_obj-cases :
    {mmap : List Call → ℕ → Option ℕ}
    → GivesFresh mmap
    → (new_obj : List Call → Bool) (os : Os) (szb : ℕ) → szb + 2 ^ 19 < word_mod
    → (alloc_mem_obj mmap new_obj os szb ≡ (os, none))
      ⊎ ((os' : Os) × (obj : MemObj) × (alloc_mem_obj mmap new_obj os szb ≡ (os', some obj))
          × MemObjFor os szb os' obj)
unfolding alloc_mem_obj account
alloc_mem_obj-cases {mmap} gives new_obj os szb small =
    let (n, whole, over, more, close) = alloc_size-RoundedUp szb (omega arith) in
    elim (Bool-cases (new_obj os.calls)) [
      | inr stop ↦ inl (rw (stop, alloc_mem_obj) refl)
      | inl fine ↦ elim (map_memory-cases gives os (alloc_size szb) (omega (arith, close, small))) [
        | inl stop ↦ inl (rw (fine, stop, alloc_mem_obj) refl)
        | inr (os', obj, run, m) ↦ inr (
          record os' { vm_size_b = (os'.vm_size_b + alloc_size szb) % word_mod },
          obj,
          rw (fine, run, alloc_mem_obj) refl,
          record {
            aligned = m.aligned;
            pages = (n, m.size ∙ whole, rw m.size more);
            enough = rw m.size over;
            close = rw m.size close;
            inside = m.inside;
            mapped = λ a. rw m.size (m.mapped a);
            fresh = λ a h. m.fresh a (ap (λ (s : ℕ). covers obj.base s a) (sym m.size) ∙ h);
            vm_size =
                ap (λ (v : ℕ). (v + alloc_size szb) % word_mod) m.same_size
                ∙ ap (λ (s : ℕ). (os.vm_size_b + s) % word_mod) (sym m.size);
          },
        )
      ]
    ]

unmapped_again :
    {m m' : Bool} (c : Bool)
    → m' ≡ (if c then true else m)
    → (c ≡ true → m ≡ false)
    → (if c then false else m') ≡ m
unmapped_again true h fresh = sym (fresh refl)
unmapped_again false h fresh = h

-- Freeing an object right after it was allocated dies only if `munmap` fails, and otherwise leaves
-- mapped just what was mapped before, and the account of the mapped bytes as it was.
pub free-alloc :
    {os os' : Os} {szb : ℕ} {obj : MemObj}
    → MemObjFor os szb os' obj
    → os.vm_size_b < word_mod
    → (munmap_works : List Call → ℕ → ℕ → Bool)
    → ((free_mem_obj munmap_works os' (some obj) ≡ unmap_error)
        × (munmap_works os'.calls obj.base obj.size_b ≡ false))
      ⊎ ((os'' : Os) × (free_mem_obj munmap_works os' (some obj) ≡ freed_obj os'')
          × ((a : ℕ) → is_mapped os''.calls a ≡ is_mapped os.calls a)
          × (os''.vm_size_b ≡ os.vm_size_b))
unfolding free_mem_obj
free-alloc {os} {os'} {szb} {obj} m small munmap_works =
    elim (Bool-cases (munmap_works os'.calls obj.base obj.size_b)) [
      | inr fails ↦ inl (rw fails refl, fails)
      | inl works ↦ inr (
        record (munmap obj.base obj.size_b os') {
          vm_size_b = (os'.vm_size_b + word_mod - obj.size_b % word_mod) % word_mod;
        },
        rw works refl,
        λ a. unmapped_again (covers obj.base obj.size_b a) (m.mapped a) (m.fresh a),
        omega (arith, m.vm_size, small),
      )
    ]
