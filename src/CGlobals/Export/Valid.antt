-- ===== src/CGlobals/Export/Valid.antt =====
-- The invariant of an export table over a registry.
use smlnj.Prelude.{ℕ, ◌<◌, ◌≤◌, ◌≡◌, refl, ◌⊎◌, inl, none, some, arith, length, get_or}
use smlnj.CGlobals.{Item, Tables, addrhash_index}
use smlnj.CGlobals.Rehash.{InSome}
use smlnj.CGlobals.Valid.{PowerOfTwo, Placed, Registered}
use smlnj.CGlobals.Export.{ItemRef, ExportTable, new_export_tbl}

-- the bucket of a reference in a table of the size
abbrev pub ref_index : ℕ → ItemRef → ℕ
ref_index sz q = addrhash_index q.item.addr sz

-- the item that the table exports under the index
abbrev pub Exports : ExportTable → ℕ → Item → Type 0
Exports tbl i q = (i < tbl.num_items) × (get_or tbl.item_map i none ≡ some q)

-- The references in the buckets are the written entries of the map, one for each, of registered
-- symbols, and no symbol has two.
pub record IsExport (t : Tables) (tbl : ExportTable) : Type 0 where
  pub power : (tbl.table_size ≡ 0) ⊎ PowerOfTwo tbl.table_size
  pub refs : Placed (ref_index tbl.table_size) tbl.table_size tbl.table
  pub sized : length tbl.item_map ≡ tbl.item_map_size
  pub room : tbl.num_items ≤ tbl.item_map_size
  pub written : (i : ℕ) → i < tbl.num_items → (q : Item) × Exports tbl i q
  pub to_refs :
      (i : ℕ) (q : Item)
      → Exports tbl i q
      → InSome {A = ItemRef} (record { item = q; index = i }) tbl.table
  pub to_map : (p : ItemRef) → InSome p tbl.table → Exports tbl p.index p.item
  pub known : (p : ItemRef) → InSome p tbl.table → Registered t p.item
  pub once :
      (p p' : ItemRef)
      → InSome p tbl.table
      → InSome p' tbl.table
      → p.item.addr ≡ p'.item.addr
      → p ≡ p'

pub new_export_tbl-IsExport : (t : Tables) → IsExport t new_export_tbl
new_export_tbl-IsExport t = record {
  power = inl refl;
  refs = record { sized = refl; placed = λ x i w. absurd w };
  sized = refl;
  room = omega arith;
  written = λ i h. absurd (omega (arith, h));
  to_refs = λ i q (h, _). absurd (omega (arith, h));
  to_map = λ p w. absurd w;
  known = λ p w. absurd w;
  once = λ p p' w. absurd w;
}
