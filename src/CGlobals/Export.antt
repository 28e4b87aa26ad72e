-- ===== src/CGlobals/Export.antt =====
-- runtime/gc/c-globals-tbl.c: the export tables, which number the C symbols that a heap image
-- refers to. The registry is an argument; a bucket is the list of its references.
pub mod Refs
pub mod Valid
pub mod Grow
pub mod Cases
pub mod Names
use smlnj.Prelude.{
  Bool, ◌||◌, not, ℕ, zero, suc, ◌+◌, ◌-◌, ◌*◌, ◌%◌, ◌^◌, ◌++◌, ◌&&◌, Option, none, some, List, [],
  ◌∷◌, ◌==◌, ltb, leb, if◌then◌else◌, length, get_or, set, replicate,
}
use smlnj.Tags.{make_desc, get_len, ml_unit}
use smlnj.Tags.Dtag.{extern}
use smlnj.Sizes.{roundup}
use smlnj.CGlobals.{Item, Tables, addrhash_index, find_addr, rehash}

-- `item_ref_t`; `next` is the rest of the bucket
pub record ItemRef : Type 0 where
  pub item : Item
  pub index : ℕ

-- `struct export_table`; an entry of `item_map` that nothing was written to is `none`
pub record ExportTable : Type 0 where
  pub table : List (List ItemRef)
  pub table_size : ℕ
  pub num_items : ℕ
  pub item_map : List (Option Item)
  pub item_map_size : ℕ

-- `MAKE_EXTERN`
unfoldable pub make_extern : ℕ → ℕ
make_extern index = make_desc index extern

-- `NewExportTbl`
abbrev pub new_export_tbl : ExportTable
new_export_tbl = record {
  table = [];
  table_size = 0;
  num_items = 0;
  item_map = [];
  item_map_size = 0;
}

-- `GrowTable`, for a new size that fits an `int` and a new array: `make_room_ref` tests both
unfoldable pub grow_table : ExportTable → ExportTable
unfolding rehash addrhash_index
grow_table tbl =
    let new_tbl_sz = if tbl.table_size == 0 then 32 else 2 * tbl.table_size in
    record tbl {
      table =
          rehash (λ (q : ItemRef). addrhash_index q.item.addr new_tbl_sz) tbl.table
            (replicate new_tbl_sz []);
      table_size = new_tbl_sz;
    }

-- the first walk of `ExportCSymbol`
unfoldable pub find_ref : ℕ → List ItemRef → Option ItemRef
find_ref addr [] = none
find_ref addr (p ∷ next) = if p.item.addr == addr then some p else find_ref addr next

-- the size of the map with room for one more item, which `link_ref` tests to fit an `int`
unfoldable pub map_size : ExportTable → ℕ
map_size tbl =
    if leb tbl.item_map_size tbl.num_items
    then (if tbl.item_map_size == 0 then 64 else 2 * tbl.item_map_size)
    else tbl.item_map_size

-- the map in that size: the old entries, and nothing in the rest of a new array, for which
-- `link_ref` tests that there is a block
unfoldable pub grow_map : ExportTable → List (Option Item)
unfolding map_size
grow_map tbl =
    if leb tbl.item_map_size tbl.num_items
    then tbl.item_map ++ replicate (map_size tbl - tbl.item_map_size) none
    else tbl.item_map

-- the new reference for an item that is in no bucket
unfoldable pub add_ref : ExportTable → Item → ExportTable
unfolding map_size grow_map addrhash_index
add_ref tbl q =
    let index = tbl.num_items in
    let h = addrhash_index q.addr tbl.table_size in
    let p : ItemRef = record { item = q; index = index } in
    record tbl {
      table = set tbl.table h (p ∷ get_or tbl.table h []);
      num_items = index + 1;
      item_map = set (grow_map tbl) index (some q);
      item_map_size = map_size tbl;
    }

-- the table with buckets for one more reference, or why there are none
pub data RefRoom : Type 0 where
  room_ref : ExportTable → RefRoom
  no_block : RefRoom
  too_big : RefRoom

-- the test at the start of `ExportCSymbol` and the first lines of `GrowTable`: twice the size has to
-- fit an `int`, and the new array is written to without a test for null
unfoldable pub make_room_ref : Bool → ExportTable → RefRoom
unfolding grow_table
make_room_ref block tbl =
    if leb tbl.table_size tbl.num_items
    then (if leb (2 ^ 30) tbl.table_size
        then too_big
        else (if block then room_ref (grow_table tbl) else no_block))
    else room_ref tbl

-- how `ExportCSymbol` ends: the table after it and the word that it returns, or a read or a write
-- through a null pointer, or an `int` that does not fit
pub data Exporting : Type 0 where
  gives : ExportTable × ℕ → Exporting
  null_read : Exporting
  null_write : Exporting
  overflow : Exporting

-- the last part of `ExportCSymbol`, for an item that is in no bucket; the second allocation of the
-- call is the new map and the third one the reference
unfoldable pub link_ref : (ℕ → Bool) → ExportTable → Item → Exporting
unfolding add_ref make_extern
link_ref works tbl q =
    let full = leb tbl.item_map_size tbl.num_items in
    if leb (2 ^ 31) (tbl.num_items + 1) || (full && leb (2 ^ 30) tbl.item_map_size)
    then overflow
    else (if (full && not (works 1)) || not (works 2)
        then null_write
        else gives (add_ref tbl q, make_extern tbl.num_items))

-- the rest of `ExportCSymbol`; before the first symbol the address table is the null pointer
unfoldable pub export_ref : (ℕ → Bool) → Tables → ExportTable → ℕ → Exporting
unfolding find_ref find_addr link_ref addrhash_index make_extern
export_ref works t tbl addr =
    elim (find_ref addr (get_or tbl.table (addrhash_index addr tbl.table_size) [])) [
      | some p ↦ gives (tbl, make_extern p.index)
      | none ↦
          if t.table_size == 0
          then null_read
          else elim (find_addr addr (get_or t.addr_table (addrhash_index addr t.table_size) [])) [
            | none ↦ gives (tbl, ml_unit)
            | some q ↦ link_ref works tbl q
          ]
    ]

-- `ExportCSymbol`; `works` tells which allocations of the call give a block
unfoldable pub export_c_symbol : (ℕ → Bool) → Tables → ExportTable → ℕ → Exporting
unfolding make_room_ref export_ref
export_c_symbol works t tbl addr = elim (make_room_ref (works 0) tbl) [
  | room_ref tbl' ↦ export_ref works t tbl' addr
  | no_block ↦ null_write
  | too_big ↦ overflow
]

-- how `AddrOfCSymbol` ends: it returns an address, it dies, or it reads outside what was written
pub data Address : Type 0 where
  address : ℕ → Address
  bad_index : Address
  stray : Address

unfoldable pub read_map : ExportTable → ℕ → Address
read_map tbl i = elim (get_or tbl.item_map i none) [ none ↦ stray | some q ↦ address q.addr ]

-- `AddrOfCSymbol`; the index is an `int`, negative from 2 ^ 31 on
unfoldable pub addr_of_c_symbol : ExportTable → ℕ → Address
unfolding get_len read_map
addr_of_c_symbol tbl xref =
    let index = get_len xref % 2 ^ 32 in
    if ltb index (2 ^ 31)
    then (if leb tbl.num_items index then bad_index else read_map tbl index)
    else stray

-- the loop of `ExportedSymbols` over the first `n` entries of the map
unfoldable pub names_of : ℕ → List (Option Item) → Option (List (List ℕ))
names_of zero p = some []
names_of (suc n) [] = none
names_of (suc n) (none ∷ p) = none
names_of (suc n) (some q ∷ p) = elim (names_of n p) [
  | none ↦ none
  | some symbs ↦ some (q.name ∷ symbs)
]

-- `ExportedSymbols`, `none` when it reads an entry that was not written
unfoldable pub exported_symbols : ExportTable → Option (List (List ℕ))
unfolding names_of
exported_symbols tbl = names_of tbl.num_items tbl.item_map

-- the loop of `ExportTableSz`
unfoldable pub sum_sizes : ℕ → List (Option Item) → ℕ → Option ℕ
sum_sizes zero p nbytes = some nbytes
sum_sizes (suc n) [] nbytes = none
sum_sizes (suc n) (none ∷ p) nbytes = none
sum_sizes (suc n) (some q ∷ p) nbytes = sum_sizes n p (nbytes + (length q.name + 1))

-- `ExportTableSz`
unfoldable pub export_table_sz : ExportTable → Option ℕ
unfolding sum_sizes roundup
export_table_sz tbl = elim (sum_sizes tbl.num_items tbl.item_map 0) [
  | none ↦ none
  | some nbytes ↦ some (roundup nbytes 3)
]

-- what `FreeExportTbl` frees, in order
pub data Freed : Type 0 where
  freed_ref : ItemRef → Freed
  freed_map : Freed
  freed_table : Freed
  freed_export : Freed

unfoldable pub free_refs : List ItemRef → List Freed
free_refs [] = []
free_refs (p ∷ next) = freed_ref p ∷ free_refs next

unfoldable pub free_table : List (List ItemRef) → List Freed
unfolding free_refs
free_table [] = []
free_table (b ∷ table) = free_refs b ++ free_table table

-- `FreeExportTbl`
unfoldable pub free_export_tbl : ExportTable → List Freed
unfolding free_table
free_export_tbl tbl =
    free_table tbl.table
    ++ (if tbl.item_map_size == 0 then [] else freed_map ∷ [])
    ++ (freed_table ∷ (freed_export ∷ []))
