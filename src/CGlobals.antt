-- ===== src/CGlobals.antt =====
-- runtime/gc/c-globals-tbl.c: the registry of C symbols that the ML heap may refer to. A name is the
-- list of its 7-bit characters. One item stands in a bucket of each table; a bucket is the list of
-- its items, first to last.
pub mod Buckets
pub mod Rehash
pub mod Valid
pub mod Record
pub mod Registry
pub mod Export
use smlnj.Prelude.{
  ℕ, zero, suc, ◌+◌, ◌-◌, ◌*◌, ◌/◌, ◌^◌, bit_and, Bool, true, false, ◌&&◌, Option, none, some, List,
  [], ◌∷◌, ◌==◌, ltb, leb, if◌then◌else◌, length, get_or, set, replicate,
}
use smlnj.Tags.{make_desc, get_len, ml_unit}
use smlnj.Tags.Dtag.{extern}

-- `HASH_STRING`
unfoldable pub hash_from : ℕ → List ℕ → ℕ
hash_from h [] = h
hash_from h (c ∷ name) = let n = 128 * h + c in hash_from (n - 8388593 * (n / 8388593)) name

unfoldable pub hash_string : List ℕ → ℕ
unfolding hash_from
hash_string name = hash_from 0 name

-- `strcmp (a, b) == 0`
unfoldable pub same_name : List ℕ → List ℕ → Bool
same_name [] [] = true
same_name [] (y ∷ b) = false
same_name (x ∷ a) [] = false
same_name (x ∷ a) (y ∷ b) = (x == y) && same_name a b

-- `item_t`; the two `next` fields are the rests of the lists
pub record Item : Type 0 where
  pub addr : ℕ
  pub name : List ℕ
  pub string_hash : ℕ

-- the global variables
pub record Tables : Type 0 where
  pub symbol_table : List (List Item)
  pub addr_table : List (List Item)
  pub table_size : ℕ
  pub num_symbols : ℕ

-- before the first symbol
abbrev pub no_tables : Tables
no_tables = record { symbol_table = []; addr_table = []; table_size = 0; num_symbols = 0 }

-- `STRHASH_INDEX` and `ADDRHASH_INDEX`
unfoldable pub strhash_index : ℕ → ℕ → ℕ
strhash_index h sz = bit_and h (sz - 1)

unfoldable pub addrhash_index : ℕ → ℕ → ℕ
addrhash_index a sz = bit_and (a / 8) (sz - 1)

-- the items of a bucket move to the front of their new buckets, one after the other
unfoldable pub rehash_bucket : {A : Type 0} → (A → ℕ) → List A → List (List A) → List (List A)
rehash_bucket index [] new_tbl = new_tbl
rehash_bucket index (item ∷ p) new_tbl =
    let n = index item in rehash_bucket index p (set new_tbl n (item ∷ get_or new_tbl n []))

unfoldable pub rehash : {A : Type 0} → (A → ℕ) → List (List A) → List (List A) → List (List A)
unfolding rehash_bucket
rehash index [] new_tbl = new_tbl
rehash index (b ∷ tbl) new_tbl = rehash index tbl (rehash_bucket index b new_tbl)

-- the doubling of the tables at the start of `RecordCSymbol`, for a new size that fits an `int` and
-- two new arrays: `make_room` tests both
unfoldable pub double : Tables → Tables
unfolding rehash strhash_index addrhash_index
double t =
    let new_tbl_sz = if t.table_size == 0 then 64 else 2 * t.table_size in
    record t {
      symbol_table =
          rehash (λ x. strhash_index x.string_hash new_tbl_sz) t.symbol_table
            (replicate new_tbl_sz []);
      addr_table =
          rehash (λ x. addrhash_index x.addr new_tbl_sz) t.addr_table (replicate new_tbl_sz []);
      table_size = new_tbl_sz;
    }

-- the walks through a bucket of the symbol table and of the address table
unfoldable pub find_symbol : ℕ → List ℕ → List Item → Option Item
unfolding same_name
find_symbol hash name [] = none
find_symbol hash name (p ∷ next) =
    if (p.string_hash == hash) && same_name name p.name then some p else find_symbol hash name next

unfoldable pub find_addr : ℕ → List Item → Option Item
find_addr addr [] = none
find_addr addr (p ∷ next) = if p.addr == addr then some p else find_addr addr next

-- how `RecordCSymbol` ends: it returns, it dies, it returns after freeing an item that it has
-- linked into the symbol table, it writes through the null pointer of a failed `malloc`, or it
-- computes an `int` that does not fit
pub data Recording : Type 0 where
  recorded : Tables → Recording
  die : Recording
  freed_in_use : Recording
  null_write : Recording
  overflow : Recording

-- the insertion of the new item into the tables, after the doubling
unfoldable pub enter_item : Tables → Item → Recording
unfolding find_symbol find_addr strhash_index addrhash_index same_name
enter_item t item =
    let n = strhash_index item.string_hash t.table_size in
    let m = addrhash_index item.addr t.table_size in
    elim (find_symbol item.string_hash item.name (get_or t.symbol_table n [])) [
      | some p ↦ if p.addr == item.addr then recorded t else die
      | none ↦ elim (find_addr item.addr (get_or t.addr_table m [])) [
        | some p ↦
            if (p.string_hash == item.string_hash) && same_name item.name p.name
            then freed_in_use
            else die
        | none ↦
            if leb (2 ^ 31) (t.num_symbols + 1)
            then overflow
            else recorded (record t {
              symbol_table = set t.symbol_table n (item ∷ get_or t.symbol_table n []);
              addr_table = set t.addr_table m (item ∷ get_or t.addr_table m []);
              num_symbols = t.num_symbols + 1;
            })
      ]
    ]

-- the same with the allocation of the item, which is written to without a test for null
unfoldable pub enter : Bool → Tables → Item → Recording
unfolding enter_item
enter works t item = if works then enter_item t item else null_write

-- the item of a name and an address
abbrev pub item_of : List ℕ → ℕ → Item
item_of name addr = record { addr = addr; name = name; string_hash = hash_string name }

-- the tables with room for one more symbol, or why there are none
pub data Room : Type 0 where
  room : Tables → Room
  no_block : Room
  too_big : Room

-- the test for room: twice the size has to fit an `int`, and the two new arrays are written to
-- without a test for null; `works` tells which allocations of the call give a block
unfoldable pub make_room : (ℕ → Bool) → Tables → Room
unfolding double
make_room works t =
    if t.table_size == t.num_symbols
    then (if leb (2 ^ 30) t.table_size
        then too_big
        else (if works 0 && works 1 then room (double t) else no_block))
    else room t

-- `RecordCSymbol`
unfoldable pub record_c_symbol : (ℕ → Bool) → Tables → List ℕ → ℕ → Recording
unfolding make_room enter hash_string
record_c_symbol works t name addr = elim (make_room works t) [
  | room t' ↦ enter (works 2) t' (item_of name addr)
  | no_block ↦ null_write
  | too_big ↦ overflow
]

-- what a lookup gives, or that it reads through the null pointer that stands for a table before the
-- first symbol
pub data Lookup (A : Type 0) : Type 0 where
  found : A → Lookup A
  null_read : Lookup A

-- the walk of `AddrToCSymbol`
unfoldable pub symbol_at : Tables → ℕ → Option (List ℕ)
unfolding find_addr addrhash_index
symbol_at t addr =
    elim (find_addr addr (get_or t.addr_table (addrhash_index addr t.table_size) [])) [
      | none ↦ none
      | some q ↦ some q.name
    ]

-- `AddrToCSymbol`
unfoldable pub addr_to_c_symbol : Tables → ℕ → Lookup (Option (List ℕ))
unfolding symbol_at
addr_to_c_symbol t addr = if t.table_size == 0 then null_read else found (symbol_at t addr)

-- the walk of `ImportCSymbol`
unfoldable pub address_of : Tables → List ℕ → ℕ
unfolding find_symbol strhash_index hash_string
address_of t name =
    let hash = hash_string name in
    elim (find_symbol hash name (get_or t.symbol_table (strhash_index hash t.table_size) [])) [
      | none ↦ ml_unit
      | some p ↦ p.addr
    ]

-- `ImportCSymbol`
unfoldable pub import_c_symbol : Tables → List ℕ → Lookup ℕ
unfolding address_of
import_c_symbol t name = if t.table_size == 0 then null_read else found (address_of t name)
