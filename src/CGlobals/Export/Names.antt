-- ===== src/CGlobals/Export/Names.antt =====
-- `ExportedSymbols` and `ExportTableSz`: what goes into a heap image, and what comes out of it.
use smlnj.Prelude.{
  ℕ, zero, suc, ◌+◌, ◌<◌, ◌≤◌, ◌≡◌, refl, sym, ap, ◌∙◌, Option, none, some, List, [], ◌∷◌, ◌++◌,
  arith, length, get_or, length-append, Option-cases, inl, inr,
}
use mathlib.Core.Option.{some-injective, none-ne-some}
use smlnj.Tags.{word_mod}
use smlnj.Sizes.{roundup}
use smlnj.Sizes.Round.{RoundedUp, roundup-8}
use smlnj.CGlobals.{Item, Tables}
use smlnj.CGlobals.Export.{ExportTable, names_of, exported_symbols, sum_sizes, export_table_sz}
use smlnj.CGlobals.Export.Valid.{IsExport}

-- the first `n` entries are written
abbrev Written : ℕ → List (Option Item) → Type 0
Written n p = (i : ℕ) → i < n → (q : Item) × (get_or p i none ≡ some q)

-- the names of the first `n` entries, in order
record Named (n : ℕ) (p : List (Option Item)) : Type 0 where
  names : List (List ℕ)
  reads : names_of n p ≡ some names
  total : length names ≡ n
  each : (i : ℕ) (q : Item) → i < n → get_or p i none ≡ some q → get_or names i [] ≡ q.name

-- the strings as C lays them out, each with its final zero
abbrev pub strings : List (List ℕ) → List ℕ
strings [] = []
strings (name ∷ names) = name ++ (0 ∷ strings names)

sum_sizes-strings :
    (n : ℕ) (p : List (Option Item)) (nbytes : ℕ) (names : List (List ℕ))
    → names_of n p ≡ some names
    → sum_sizes n p nbytes ≡ some (nbytes + length (strings names))
unfolding names_of sum_sizes
sum_sizes-strings zero p nbytes names e =
    let empty : [] ≡ names = some-injective [] names e in
    ap some (omega (arith, ap (λ (x : List (List ℕ)). length (strings x)) empty))
sum_sizes-strings (suc n) [] nbytes names e = absurd (none-ne-some _ e)
sum_sizes-strings (suc n) (none ∷ p) nbytes names e = absurd (none-ne-some _ e)
sum_sizes-strings (suc n) (some q ∷ p) nbytes names e = elim (Option-cases (names_of n p)) [
  | inl stop ↦
      let e' : names_of (suc n) (some q ∷ p) ≡ none = rw stop refl in
      absurd (none-ne-some names (sym e' ∙ e))
  | inr (rest, run) ↦
      let e' : names_of (suc n) (some q ∷ p) ≡ some (q.name ∷ rest) = rw run refl in
      let split : q.name ∷ rest ≡ names = some-injective (q.name ∷ rest) names (sym e' ∙ e) in
      sum_sizes-strings n p (nbytes + (length q.name + 1)) rest run
      ∙ ap some (
          omega (
            arith,
            length-append q.name (0 ∷ strings rest),
            ap (λ (x : List (List ℕ)). length (strings x)) split,
          ))
]

-- `ExportTableSz` counts the bytes of the exported names, each with its final zero, rounded up to a
-- multiple of eight, for a valid table whose names fit in the address space.
pub export_table_sz-strings :
    {t : Tables} {tbl : ExportTable}
    → IsExport t tbl
    → (names : List (List ℕ)) → exported_symbols tbl ≡ some names
    → length (strings names) + 8 ≤ word_mod
    → (sz : ℕ) × (export_table_sz tbl ≡ some sz) × RoundedUp (length (strings names)) 8 sz
unfolding export_table_sz exported_symbols
export_table_sz-strings {t} {tbl} w names e fits =
    let total : sum_sizes tbl.num_items tbl.item_map 0 ≡ some (length (strings names)) =
      sum_sizes-strings tbl.num_items tbl.item_map 0 names e ∙ ap some (omega arith) in
    (
      roundup (length (strings names)) 3,
      rw (total, export_table_sz) refl,
      roundup-8 (length (strings names)) fits,
    )
