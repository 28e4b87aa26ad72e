-- ===== src/Examples/Symbols.antt =====
-- A registry with one symbol, and a table that exports it.
use smlnj.Prelude.{
  Bool, true, ◌^◌, ◌≤◌, ℕ, ◌<◌, arith, length, refl, ◌≡◌, ◌≢◌, ◌⊎◌, inl, inr, List, [], ◌∷◌, some,
  none,
}
use smlnj.Tags.{ml_unit}
use smlnj.CGlobals.{
  Item, Tables, no_tables, Recording, recorded, die, null_write, overflow, found, record_c_symbol,
  item_of, addr_to_c_symbol, import_c_symbol,
}
use smlnj.Sizes.Round.{RoundedUp}
use smlnj.CGlobals.Valid.{Registered}
use smlnj.CGlobals.Export.{
  ExportTable, Exporting, gives, null_read, new_export_tbl, make_extern, export_c_symbol, address,
  addr_of_c_symbol, exported_symbols, export_table_sz,
}
use smlnj.CGlobals.Export.Valid.{IsExport, new_export_tbl-IsExport}
use smlnj.CGlobals.Export.Cases.{Result, NoRefBlock, export_c_symbol-cases, addr_of-export}
use smlnj.CGlobals.Export.Names.{strings, export_table_sz-strings}
use smlnj.CGlobals.Record.{Entered, Conflict}
use smlnj.CGlobals.Registry.{
  NoBlock, Registered-started, no_tables-IsValid, record_c_symbol-cases, lookups-Registered,
}

-- `malloc` always gives a block
abbrev blocks : ℕ → Bool
blocks i = true

record_c_symbol-cases_example :
    ((t' : Tables) × (record_c_symbol blocks no_tables (102 ∷ (110 ∷ [])) 4096 ≡ recorded t')
      × Entered no_tables (item_of (102 ∷ (110 ∷ [])) 4096) t')
    ⊎ (Conflict no_tables (item_of (102 ∷ (110 ∷ [])) 4096)
        × (record_c_symbol blocks no_tables (102 ∷ (110 ∷ [])) 4096 ≡ die))
    ⊎ (NoBlock blocks no_tables
        × (record_c_symbol blocks no_tables (102 ∷ (110 ∷ [])) 4096 ≡ null_write))
    ⊎ ((2 ^ 30 ≤ 0) × (record_c_symbol blocks no_tables (102 ∷ (110 ∷ [])) 4096 ≡ overflow))
record_c_symbol-cases_example =
    record_c_symbol-cases blocks no_tables-IsValid.0 (102 ∷ (110 ∷ [])) 4096

-- the registry after that call
abbrev after : Recording → Tables
after (recorded t) = t
after _ = no_tables

abbrev one_symbol : Tables
one_symbol = after (record_c_symbol blocks no_tables (102 ∷ (110 ∷ [])) 4096)

one_symbol-Entered : Entered no_tables (item_of (102 ∷ (110 ∷ [])) 4096) one_symbol
one_symbol-Entered = elim record_c_symbol-cases_example [
  | inl (t', run, e) ↦ rw run e
  | inr (inl (c, _)) ↦ absurd (no_tables-IsValid.1 c.other c.registered)
  | inr (inr (inl (inl (_, stop), _))) ↦ absurd (ground (arith, stop))
  | inr (inr (inl (inr stop, _))) ↦ absurd (ground (arith, stop))
  | inr (inr (inr (many, _))) ↦ absurd (omega (arith, many))
]

-- the symbol, and a table that exports it
abbrev fn : Item
fn = item_of (102 ∷ (110 ∷ [])) 4096

one_symbol-started : one_symbol.table_size ≢ 0
one_symbol-started = Registered-started one_symbol-Entered.valid fn one_symbol-Entered.has

lookups-Registered_example :
    ((x : Item)
      → Registered one_symbol x
      → (import_c_symbol one_symbol x.name ≡ found x.addr)
        × (addr_to_c_symbol one_symbol x.addr ≡ found (some x.name)))
    × ((addr : ℕ)
        → ((x : Item) → Registered one_symbol x → x.addr ≢ addr)
        → addr_to_c_symbol one_symbol addr ≡ found none)
    × ((name : List ℕ)
        → ((x : Item) → Registered one_symbol x → x.name ≢ name)
        → import_c_symbol one_symbol name ≡ found ml_unit)
lookups-Registered_example = lookups-Registered one_symbol-Entered.valid one_symbol-started

abbrev given : Exporting → ExportTable × ℕ
given (gives r) = r
given _ = (new_export_tbl, 0)

abbrev exported : ExportTable × ℕ
exported = given (export_c_symbol blocks one_symbol new_export_tbl 4096)

exported-IsExport : IsExport one_symbol exported.0
exported-IsExport =
    elim (export_c_symbol-cases blocks one_symbol-Entered.valid (new_export_tbl-IsExport one_symbol)
      4096) [
        | inl (r, run, inl e) ↦ rw run e.valid
        | inl (r, run, inr u) ↦ rw run u.valid
        | inr (inl (empty, _)) ↦ absurd (one_symbol-started empty)
        | inr (inr (inl (_, run))) ↦ rw run (new_export_tbl-IsExport one_symbol)
        | inr (inr (inr (_, run))) ↦ rw run (new_export_tbl-IsExport one_symbol)
      ]

export_c_symbol-cases_example :
    Result one_symbol exported.0 4104 (export_c_symbol blocks one_symbol exported.0 4104)
    ⊎ ((one_symbol.table_size ≡ 0)
        × (export_c_symbol blocks one_symbol exported.0 4104 ≡ null_read))
    ⊎ (NoRefBlock blocks exported.0
        × (export_c_symbol blocks one_symbol exported.0 4104 ≡ Exporting.null_write))
    ⊎ ((2 ^ 30 ≤ (exported.0).num_items)
        × (export_c_symbol blocks one_symbol exported.0 4104 ≡ Exporting.overflow))
export_c_symbol-cases_example =
    export_c_symbol-cases blocks one_symbol-Entered.valid exported-IsExport 4104

addr_of-export_example :
    (r : ExportTable × ℕ) × (export_c_symbol blocks one_symbol exported.0 4096 ≡ gives r)
    × (addr_of_c_symbol r.0 r.1 ≡ address 4096)
    × ((i : ℕ)
        → i < (exported.0).num_items
        → addr_of_c_symbol r.0 (make_extern i) ≡ addr_of_c_symbol exported.0 (make_extern i))
    × ((r' : ExportTable × ℕ) × (export_c_symbol blocks one_symbol r.0 4096 ≡ gives r')
        × (r'.1 ≡ r.1))
unfolding export_c_symbol record_c_symbol
addr_of-export_example =
    addr_of-export blocks (λ i. refl) one_symbol-Entered.valid exported-IsExport fn
      one_symbol-Entered.has (omega arith)

export_table_sz-strings_example :
    (sz : ℕ) × (export_table_sz exported.0 ≡ some sz)
    × RoundedUp (length (strings ((102 ∷ (110 ∷ [])) ∷ []))) 8 sz
unfolding exported_symbols export_c_symbol record_c_symbol
export_table_sz-strings_example =
    export_table_sz-strings exported-IsExport ((102 ∷ (110 ∷ [])) ∷ []) refl (omega arith)
