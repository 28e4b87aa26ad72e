-- ===== src/AddrTbl.antt =====
-- runtime/gc/addr-hash.c: a hash table with chained buckets that maps addresses to objects. Pointers
-- are numbers and NIL is 0; a bucket is the list of its items, first to last.
pub mod Size
pub mod Chains
pub mod Valid
pub mod Insert
pub mod Apply
use smlnj.Prelude.{
  ℕ, zero, suc, ◌+◌, ◌-◌, ◌*◌, ◌/◌, ◌%◌, ◌^◌, bit_and, Bool, true, false, Option, none, some, List,
  [], ◌∷◌, ◌==◌, ltb, leb, if◌then◌else◌, length, get_or, set, replicate,
}

-- `item_t`; the `next` field is the rest of the list
pub record Item : Type 0 where
  pub addr : ℕ
  pub obj : ℕ

-- `addr_tbl_t`
pub record AddrTbl : Type 0 where
  pub ignore_bits : ℕ
  pub size : ℕ
  pub num_items : ℕ
  pub mask : ℕ
  pub buckets : List (List Item)

-- `Die` ends the run; the other two ends are a write through the null pointer of a failed `malloc`,
-- and a count that does not fit an `int`
pub data Run (A : Type 0) : Type 0 where
  ok : A → Run A
  die : Run A
  null_write : Run A
  overflow : Run A

-- `_AddrHash`
unfoldable pub addr_hash : AddrTbl → ℕ → ℕ
addr_hash tbl addr = bit_and (addr / 2 ^ tbl.ignore_bits) tbl.mask

-- `for (nBuckets = 16;  nBuckets < size;  nBuckets <<= 1)` on an unsigned int, with fuel
unfoldable pub grow_buckets : ℕ → ℕ → ℕ → Option ℕ
grow_buckets zero n_buckets size = none
grow_buckets (suc fuel) n_buckets size =
    let rest = grow_buckets fuel (n_buckets * 2 % 2 ^ 32) size in
    if ltb n_buckets size then rest else some n_buckets

-- `MakeAddrTbl`, where `malloc` gives its two blocks; 32 rounds are enough wherever the loop ends.
-- There is no table where the loop does not end or the size does not fit an `int`
pub make_addr_tbl : ℕ → ℕ → Option AddrTbl
unfolding grow_buckets
make_addr_tbl ignore_bits size = elim (grow_buckets 32 16 size) [
  | none ↦ none
  | some n ↦
      if ltb n (2 ^ 31)
      then some (record {
        ignore_bits = ignore_bits;
        size = n;
        num_items = 0;
        mask = n - 1;
        buckets = replicate n [];
      })
      else none
]

-- the loop of the insertion and of the lookup: the first item with the address
unfoldable pub find_item : ℕ → List Item → Option ℕ
find_item a [] = none
find_item a (p ∷ next) = if p.addr == a then some p.obj else find_item a next

-- `AddrTblInsert`; `malloc_works` tells whether `NEW_OBJ` gives a block for the item
unfoldable pub addr_tbl_insert : Bool → AddrTbl → ℕ → ℕ → Run AddrTbl
unfolding addr_hash find_item
addr_tbl_insert malloc_works tbl a obj =
    let h = addr_hash tbl a in
    let bucket = get_or tbl.buckets h [] in
    elim (find_item a bucket) [
      | none ↦
          if malloc_works
          then (if leb (2 ^ 31) (tbl.num_items + 1)
              then overflow
              else ok (record tbl {
                num_items = tbl.num_items + 1;
                buckets = set tbl.buckets h ((record { addr = a; obj = obj }) ∷ bucket);
              }))
          else null_write
      | some old ↦ if old == obj then ok tbl else die
    ]

-- `AddrTblLookup`
pub addr_tbl_lookup : AddrTbl → ℕ → ℕ
unfolding addr_hash find_item
addr_tbl_lookup tbl a = elim (find_item a (get_or tbl.buckets (addr_hash tbl a) [])) [
  | none ↦ 0
  | some obj ↦ obj
]

-- `AddrTblApply`: the function acts on a state, which stands for what `clos` points to
module _ {S : Type 0} (f : Item → S → S) where
  unfoldable pub apply_bucket : List Item → S → S
  apply_bucket [] s = s
  apply_bucket (p ∷ next) s = apply_bucket next (f p s)

  unfoldable pub apply_buckets : List (List Item) → S → S
  unfolding apply_bucket
  apply_buckets [] s = s
  apply_buckets (b ∷ bs) s = apply_buckets bs (apply_bucket b s)

  unfoldable pub addr_tbl_apply : AddrTbl → S → S
  unfolding apply_buckets
  addr_tbl_apply tbl s = apply_buckets tbl.buckets s

-- what `FreeAddrTbl` gives back, in order
pub data Freed : Type 0 where
  object : ℕ → Freed
  item : ℕ → Freed
  bucket_array : Freed
  table : Freed

unfoldable pub free_bucket : Bool → List Item → List Freed → List Freed
free_bucket free_objs [] log = log
free_bucket free_objs (p ∷ next) log =
    let rest = free_bucket free_objs next log in
    if free_objs then object p.obj ∷ (item p.addr ∷ rest) else item p.addr ∷ rest

unfoldable pub free_buckets : Bool → List (List Item) → List Freed
unfolding free_bucket
free_buckets free_objs [] = bucket_array ∷ (table ∷ [])
free_buckets free_objs (b ∷ bs) = free_bucket free_objs b (free_buckets free_objs bs)

-- `FreeAddrTbl`
pub free_addr_tbl : AddrTbl → Bool → List Freed
unfolding free_buckets
free_addr_tbl tbl free_objs = free_buckets free_objs tbl.buckets
