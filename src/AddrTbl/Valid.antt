-- ===== src/AddrTbl/Valid.antt =====
-- The invariant of the table, and what a valid table means as a map.
use smlnj.Prelude.{
  ltb, true, ℕ, zero, suc, ◌+◌, ◌-◌, ◌/◌, ◌^◌, ◌<◌, ◌≤◌, ◌≡◌, refl, sym, Option, none, some, List,
  [], ◌∷◌, arith, ◌==◌, length, get_or, replicate, length-replicate, get_or-replicate,
}
use smlnj.Prelude.Bits.{bit_and-mask}
use native.Mathlib.Nat.{one-le-pow}
use smlnj.AddrTbl.{Item, AddrTbl, addr_hash, find_item, addr_tbl_lookup, make_addr_tbl}
use smlnj.AddrTbl.Chains.{to_nat, count}
use smlnj.AddrTbl.Size.{Fits, grow_buckets-Fits_start}

unfoldable pub total : List (List Item) → ℕ
total [] = 0
total (b ∷ bs) = length b + total bs

-- the abstract map: the object at an address
unfoldable pub view : AddrTbl → ℕ → Option ℕ
view t a = find_item a (get_or t.buckets (addr_hash t a) [])

pub record IsValid (t : AddrTbl) : Type 0 where
  pub log : ℕ
  pub power : t.size ≡ 2 ^ log
  pub masked : t.mask ≡ t.size - 1
  pub sized : length t.buckets ≡ t.size
  pub placed : (a i : ℕ) → count a (get_or t.buckets i []) ≤ to_nat (addr_hash t a == i)
  pub counted : t.num_items ≡ total t.buckets

-- NIL stands for an address that is not mapped
abbrev pub obj_or_nil : Option ℕ → ℕ
obj_or_nil none = 0
obj_or_nil (some obj) = obj

pub lookup-view : (t : AddrTbl) (a : ℕ) → addr_tbl_lookup t a ≡ obj_or_nil (view t a)
unfolding addr_tbl_lookup view
lookup-view t a = ground arith

-- The hash is a bucket's index, so neither `ASSERT` fires.
pub addr_hash-lt : {t : AddrTbl} → IsValid t → (a : ℕ) → addr_hash t a < t.size
unfolding addr_hash
addr_hash-lt {t} v a =
    let some_bucket = one-le-pow v.log 2 (omega arith) in
    let mask : t.mask ≡ 2 ^ v.log - 1 = omega (arith, v.masked, v.power) in
    let index = bit_and-mask v.log (a / 2 ^ t.ignore_bits) in rw mask (omega (arith, v.power))

total-replicate : (n : ℕ) → total (replicate n []) ≡ 0
unfolding total
total-replicate zero = refl
total-replicate (suc n) = omega (arith, total-replicate n)

-- A new table is valid, maps nothing, and has the least power of two of buckets that is at least
-- 16 and at least the size, for every size up to 2 ^ 30.
pub make_addr_tbl-IsValid :
    (ignore_bits size : ℕ)
    → size ≤ 2 ^ 30
    → (t : AddrTbl) × (make_addr_tbl ignore_bits size ≡ some t)
      × IsValid t
      × Fits size t.size
      × ((a : ℕ) → addr_tbl_lookup t a ≡ 0)
unfolding make_addr_tbl addr_tbl_lookup count find_item
make_addr_tbl-IsValid ignore_bits size h =
    let (n, run, fits) = grow_buckets-Fits_start size (omega (arith, h)) in
    let int : ltb n (2 ^ 31) ≡ true = ground (arith, fits.least, h) in
    let t : AddrTbl = record {
      ignore_bits = ignore_bits;
      size = n;
      num_items = 0;
      mask = n - 1;
      buckets = replicate n [];
    } in
    (
      t,
      rw (run, int, make_addr_tbl) refl,
      record {
        log = fits.log;
        power = fits.power;
        masked = refl;
        sized = length-replicate n [];
        placed = λ a i. rw get_or-replicate (omega arith);
        counted = sym (total-replicate n);
      },
      fits,
      λ a. rw (get_or-replicate {A = List Item} n (addr_hash t a) [], addr_tbl_lookup),
    )
