-- ===== src/Examples/Table.antt =====
-- An address table with one item.
use smlnj.Prelude.{
  ℕ, ◌/◌, none, ◌≡◌, refl, true, List, [], ◌∷◌, some, arith, ◌==◌, if◌then◌else◌, replicate, set,
  get_or-set, get_or-replicate,
}
use smlnj.Prelude.Bits.{bit_and-mask}
use smlnj.AddrTbl.{
  Item, AddrTbl, ok, addr_hash, find_item, make_addr_tbl, addr_tbl_insert, addr_tbl_lookup,
  addr_tbl_apply, free_addr_tbl,
}
use smlnj.AddrTbl.Chains.{to_nat, count, holds}
use smlnj.AddrTbl.Size.{Fits}
use smlnj.AddrTbl.Valid.{IsValid, view, total, make_addr_tbl-IsValid}
use smlnj.AddrTbl.Insert.{lookup-insert}
use smlnj.AddrTbl.Apply.{
  freed_item, freed_object, freed_array, freed_table, tick_object, tick, apply_once,
  free_addr_tbl-counts, items_in, objects_in,
}

abbrev seven_at_five : Item
seven_at_five = record { addr = 5; obj = 7 }

abbrev one_item : AddrTbl
one_item = record {
  ignore_bits = 0;
  size = 16;
  num_items = 1;
  mask = 15;
  buckets = set (replicate 16 []) 5 (seven_at_five ∷ []);
}

one_item-IsValid : IsValid one_item
unfolding addr_hash count total
one_item-IsValid = record {
  log = 4;
  power = refl;
  masked = refl;
  sized = refl;
  placed = λ a i.
      rw
        (
          get_or-set (replicate 16 []) 5 i (seven_at_five ∷ []) [] (omega arith),
          get_or-replicate {A = List Item} 16 i [],
        )
        (ground (arith, bit_and-mask 4 (a / 1)));
  counted = refl;
}

make_addr_tbl-IsValid_example :
    (t : AddrTbl) × (make_addr_tbl 2 20 ≡ some t)
    × IsValid t
    × Fits 20 t.size
    × ((a : ℕ) → addr_tbl_lookup t a ≡ 0)
make_addr_tbl-IsValid_example = make_addr_tbl-IsValid 2 20 (omega arith)

abbrev two_items : AddrTbl
two_items = record one_item {
  num_items = 2;
  buckets = set (replicate 16 []) 5 ((record { addr = 21; obj = 9 }) ∷ (seven_at_five ∷ []));
}

inserts_21 : addr_tbl_insert true one_item 21 9 ≡ ok two_items
unfolding addr_tbl_insert addr_hash find_item
inserts_21 = refl

lookup-insert_example :
    addr_tbl_lookup two_items 21 ≡ (if 21 == 21 then 9 else addr_tbl_lookup one_item 21)
lookup-insert_example = lookup-insert true one_item-IsValid 21 9 two_items inserts_21 21

apply_once_example : addr_tbl_apply (tick 5 7) one_item 0 ≡ to_nat (holds (view one_item 5) 7)
apply_once_example = apply_once 5 7 one_item one_item-IsValid

free_addr_tbl-counts_example :
    (items_in (free_addr_tbl one_item true) ≡ 1)
    × (objects_in (free_addr_tbl one_item true) ≡ 1)
    × ((a : ℕ)
        → freed_item a (free_addr_tbl one_item true)
          ≡ (elim (view one_item a) [ none ↦ 0 | some _ ↦ 1 ]))
    × ((o : ℕ)
        → freed_object o (free_addr_tbl one_item true) ≡ addr_tbl_apply (tick_object o) one_item 0)
    × (freed_array (free_addr_tbl one_item true) ≡ 1)
    × (freed_table (free_addr_tbl one_item true) ≡ 1)
free_addr_tbl-counts_example = free_addr_tbl-counts one_item true one_item-IsValid
