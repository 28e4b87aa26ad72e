-- ===== src/CGlobals/Export/Cases.antt =====
-- `ExportCSymbol` and `AddrOfCSymbol` against the registry.
use smlnj.Prelude.{
  Bool, ◌+◌, ◌&&◌, ◌||◌, not, ◌==◌, ℕ, ◌%◌, ◌^◌, ◌<◌, ◌≤◌, ◌≡◌, ◌≢◌, refl, sym, ap, ◌∙◌, ◌⊎◌, inl,
  inr, true, false, Option, none, List, [], arith, ltb, leb, get_or, Bool-cases,
}
use mathlib.Core.Path.{subst}
use smlnj.Tags.{ml_unit}
use smlnj.Tags.Dtag.{extern}
use smlnj.Tags.Laws.{make_desc-fields}
use smlnj.CGlobals.{Item, Tables, addrhash_index}
use smlnj.CGlobals.Buckets.{In, find_addr-cases}
use smlnj.CGlobals.Rehash.{InSome, get_or-InSome}
use smlnj.CGlobals.Valid.{IsValid, Registered, Placed-In}
use smlnj.CGlobals.Export.{
  ItemRef, ExportTable, make_extern, add_ref, link_ref, Exporting, gives, null_read, null_write,
  overflow, export_ref, export_c_symbol, read_map, address, addr_of_c_symbol,
}
use smlnj.CGlobals.Registry.{Registered-started}
use smlnj.CGlobals.Export.Refs.{find_ref-cases}
use smlnj.CGlobals.Export.Valid.{Exports, IsExport}
use smlnj.CGlobals.Export.Grow.{Roomy, make_room_ref-Roomy, add_ref-Added}

-- the table exports what it did
abbrev pub Keeps : ExportTable → ExportTable → Type 0
Keeps tbl tbl' = (i : ℕ) (x : Item) → Exports tbl i x → Exports tbl' i x

-- the registered symbol of the address has a reference in the new table, and no other one is new
pub record Exported (t : Tables) (tbl : ExportTable) (addr : ℕ) (result : ExportTable × ℕ)
    : Type 0 where
  pub valid : IsExport t result.0
  pub item : Item
  pub index : ℕ
  pub registered : Registered t item
  pub same_addr : item.addr ≡ addr
  pub exports : Exports result.0 index item
  pub word : result.1 ≡ make_extern index
  pub kept : Keeps tbl result.0
  pub only : (i : ℕ) → i < (result.0).num_items → (i < tbl.num_items) ⊎ (i ≡ index)

-- no registered symbol has the address, and the exports stay
pub record Unknown (t : Tables) (tbl : ExportTable) (addr : ℕ) (result : ExportTable × ℕ)
    : Type 0 where
  pub valid : IsExport t result.0
  pub unknown : (x : Item) → Registered t x → x.addr ≢ addr
  pub word : result.1 ≡ ml_unit
  pub kept : Keeps tbl result.0
  pub only : (result.0).num_items ≡ tbl.num_items

-- the call lacks a block for the buckets, the map or the reference
abbrev pub NoRefBlock : (ℕ → Bool) → ExportTable → Type 0
NoRefBlock works tbl =
    ((tbl.table_size ≤ tbl.num_items) × (works 0 ≡ false))
    ⊎ ((tbl.item_map_size ≤ tbl.num_items) × (works 1 ≡ false))
    ⊎ (works 2 ≡ false)

-- how an export that found or made its reference ends
abbrev pub Result : Tables → ExportTable → ℕ → Exporting → Type 0
Result t tbl addr out =
    (result : ExportTable × ℕ) × (out ≡ gives result)
    × (Exported t tbl addr result ⊎ Unknown t tbl addr result)

link_ref-cases :
    (works : ℕ → Bool) (tbl : ExportTable) (q : Item)
    → (link_ref works tbl q ≡ gives (add_ref tbl q, make_extern tbl.num_items))
      ⊎ ((((tbl.item_map_size ≤ tbl.num_items) × (works 1 ≡ false)) ⊎ (works 2 ≡ false))
          × (link_ref works tbl q ≡ null_write))
      ⊎ ((2 ^ 30 ≤ tbl.num_items) × (link_ref works tbl q ≡ overflow))
unfolding link_ref
link_ref-cases works tbl q =
    let full = leb tbl.item_map_size tbl.num_items in
    let big = leb (2 ^ 31) (tbl.num_items + 1) || (full && leb (2 ^ 30) tbl.item_map_size) in
    elim (Bool-cases big) [
      | inl yes_big ↦ inr (inr (ground (arith, yes_big), rw yes_big refl))
      | inr fits ↦ elim (Bool-cases ((full && not (works 1)) || not (works 2))) [
        | inr blocks ↦ inl (rw (fits, blocks) refl)
        | inl stop ↦ inr (
            inl (
              elim (Bool-cases (works 2)) [
                | inr none_left ↦ inr none_left
                | inl one ↦ inl (ground (arith, stop, one), ground (arith, stop, one))
              ],
              rw (fits, stop) refl,
            ))
      ]
    ]

export_ref-cases :
    (works : ℕ → Bool) {t : Tables} {tbl tbl' : ExportTable}
    → IsValid t
    → Roomy t tbl tbl'
    → (addr : ℕ)
    → Result t tbl addr (export_ref works t tbl' addr)
      ⊎ ((t.table_size ≡ 0) × (export_ref works t tbl' addr ≡ null_read))
      ⊎ (NoRefBlock works tbl × (export_ref works t tbl' addr ≡ null_write))
      ⊎ ((2 ^ 30 ≤ tbl.num_items) × (export_ref works t tbl' addr ≡ overflow))
unfolding export_ref
export_ref-cases works {t} {tbl} {tbl'} v r addr =
    let b = get_or tbl'.table (addrhash_index addr tbl'.table_size) [] in
    let b' = get_or t.addr_table (addrhash_index addr t.table_size) [] in
    let older : Keeps tbl tbl' = λ i x (h, e). (
      omega (arith, r.same_items, h),
      ap (λ (m : List (Option Item)). get_or m i none) r.same_map ∙ e,
    ) in
    elim (find_ref-cases addr b) [
      | inr (p, run, i, same) ↦
          let w : InSome p tbl'.table = get_or-InSome tbl'.table p _ i in
          inl (
            (tbl', make_extern p.index),
            rw (run, export_ref) refl,
            inl (record {
              valid = r.valid;
              item = p.item;
              index = p.index;
              registered = r.valid.known p w;
              same_addr = same;
              exports = r.valid.to_map p w;
              word = refl;
              kept = older;
              only = λ i h. inl (omega (arith, r.same_items, h));
            }),
          )
      | inl (stop, out) ↦ elim (Bool-cases (t.table_size == 0)) [
        | inl no_table ↦ inr (inl (ground (arith, no_table), rw (stop, no_table, export_ref) refl))
        | inr some_table ↦ elim (find_addr-cases addr b') [
          | inl (stop', out') ↦ inl (
            (tbl', ml_unit),
            rw (stop, some_table, stop', export_ref) refl,
            inr (record {
              valid = r.valid;
              unknown = λ x w e.
                  out' x
                    (subst
                      (λ (a : ℕ). In x (get_or t.addr_table (addrhash_index a t.table_size) [])) e
                      (Placed-In v.addrs x (v.to_addrs x w)))
                    e;
              word = refl;
              kept = older;
              only = r.same_items;
            }),
          )
          | inr (q, run, i, same) ↦ elim (link_ref-cases works tbl' q) [
            | inl made ↦
                let reg : Registered t q = v.to_symbols q (get_or-InSome t.addr_table q _ i) in
                let fresh : (p : ItemRef) → InSome p tbl'.table → p.item.addr ≢ q.addr = λ p w e.
                  out p
                    (subst
                      (λ (a : ℕ). In p (get_or tbl'.table (addrhash_index a tbl'.table_size) []))
                      (e ∙ same) (Placed-In r.valid.refs p w))
                    (e ∙ same) in
                let added = add_ref-Added r.valid r.power q reg fresh in
                inl (
                  (add_ref tbl' q, make_extern tbl'.num_items),
                  rw (stop, some_table, run, export_ref) made,
                  inl (record {
                    valid = added.valid;
                    item = q;
                    index = tbl'.num_items;
                    registered = reg;
                    same_addr = same;
                    exports = added.at;
                    word = refl;
                    kept = λ i x e. added.kept i x (older i x e);
                    only = λ i h. ground (arith, added.next, r.same_items, h);
                  }),
                )
            | inr (inl (why, halt)) ↦ inr (
                inr (
                  inl (
                    elim why [
                      | inl (le, no_map) ↦
                          inr (inl (omega (arith, le, r.same_items, r.same_size), no_map))
                      | inr no_ref ↦ inr (inr no_ref)
                    ],
                    rw (stop, some_table, run, export_ref) halt,
                  )))
            | inr (inr (many, halt)) ↦ inr (
                inr (
                  inr (
                    omega (arith, many, r.same_items),
                    rw (stop, some_table, run, export_ref) halt,
                  )))
          ]
        ]
      ]
    ]

-- Every outcome of `ExportCSymbol` over a valid registry, whether the table or the map grows or
-- not. Where it returns, the table stays valid, and every older reference stands for the symbol that
-- it stood for. If a registered symbol has the address, the result is a reference to that symbol,
-- and there is no other new reference. If none has it, the result is unit and there is no new
-- reference. It reads through a null pointer only before the registry has tables, it writes
-- through one only if `malloc` has no block for the buckets, the map or the reference, and an `int`
-- overflows only if there are at least 2 ^ 30 items.
pub export_c_symbol-cases :
    (works : ℕ → Bool) {t : Tables} {tbl : ExportTable}
    → IsValid t
    → IsExport t tbl
    → (addr : ℕ)
    → Result t tbl addr (export_c_symbol works t tbl addr)
      ⊎ ((t.table_size ≡ 0) × (export_c_symbol works t tbl addr ≡ null_read))
      ⊎ (NoRefBlock works tbl × (export_c_symbol works t tbl addr ≡ null_write))
      ⊎ ((2 ^ 30 ≤ tbl.num_items) × (export_c_symbol works t tbl addr ≡ overflow))
unfolding export_c_symbol
export_c_symbol-cases works {t} {tbl} v w addr = elim (make_room_ref-Roomy (works 0) t tbl w) [
  | inl (tbl', run, r) ↦ rw (run, export_c_symbol) (export_ref-cases works v r addr)
  | inr (inl (stop, le, none_left)) ↦
      inr (inr (inl (inl (le, none_left), rw (stop, export_c_symbol) refl)))
  | inr (inr (stop, many)) ↦ inr (inr (inr (many, rw (stop, export_c_symbol) refl)))
]

pub addr_of-Exports :
    (tbl : ExportTable) (i : ℕ) (q : Item)
    → i < 2 ^ 31
    → Exports tbl i q
    → addr_of_c_symbol tbl (make_extern i) ≡ address q.addr
unfolding addr_of_c_symbol read_map make_extern
addr_of-Exports tbl i q h (lt, e) =
    let (len, _, _, _) = make_desc-fields i extern (omega arith) (omega arith) in
    let small : i % 2 ^ 32 ≡ i = omega arith in
    let int : ltb i (2 ^ 31) ≡ true = ground arith in
    let inside : leb tbl.num_items i ≡ false = ground arith in
    rw (len, small, int, inside, read_map, e) refl

Exports-unique :
    {t : Tables} {tbl : ExportTable}
    → IsExport t tbl
    → (i j : ℕ) (x y : Item) → Exports tbl i x
    → Exports tbl j y
    → x.addr ≡ y.addr
    → i ≡ j
Exports-unique v i j x y e e' same =
    ap (λ (p : ItemRef). p.index)
      (v.once (record { item = x; index = i }) (record { item = y; index = j }) (v.to_refs i x e)
        (v.to_refs j y e') same)

index-le :
    {t : Tables} {tbl : ExportTable} {addr : ℕ} {result : ExportTable × ℕ}
    (e : Exported t tbl addr result)
    → e.index ≤ tbl.num_items
index-le {tbl = tbl} e = elim (Bool-cases (leb e.index tbl.num_items)) [
  | inl le ↦ ground arith
  | inr gt ↦
      let inside = e.exports.0 in
      let past : tbl.num_items < e.index = ground arith in
      elim (e.only tbl.num_items (omega arith)) [
        | inl h ↦ absurd (omega (arith, h))
        | inr same ↦ absurd (omega (arith, past, same))
      ]
]

-- with blocks and room, exporting a registered symbol's address gives a reference to it
export-Registered :
    (works : ℕ → Bool) {t : Tables} {tbl : ExportTable}
    → ((i : ℕ) → works i ≡ true)
    → IsValid t
    → IsExport t tbl
    → (x : Item) → Registered t x
    → tbl.num_items < 2 ^ 30
    → (r : ExportTable × ℕ) × (export_c_symbol works t tbl x.addr ≡ gives r)
      × Exported t tbl x.addr r
export-Registered works {t} {tbl} blocks v w x reg small =
    elim (export_c_symbol-cases works v w x.addr) [
      | inl (r, run, inl e) ↦ (r, run, e)
      | inl (r, run, inr u) ↦ absurd (u.unknown x reg refl)
      | inr (inl (empty, stop)) ↦ absurd (Registered-started v x reg empty)
      | inr (inr (inl (inl (le, none_left), stop))) ↦ absurd (ground (arith, none_left, blocks 0))
      | inr (inr (inl (inr (inl (le, none_left)), stop))) ↦
          absurd (ground (arith, none_left, blocks 1))
      | inr (inr (inl (inr (inr none_left), stop))) ↦ absurd (ground (arith, none_left, blocks 2))
      | inr (inr (inr (many, stop))) ↦ absurd (omega (arith, small, many))
    ]

-- one reference more at most
num_items-le :
    {t : Tables} {tbl : ExportTable} {addr : ℕ} {result : ExportTable × ℕ}
    → Exported t tbl addr result
    → (result.0).num_items ≤ tbl.num_items + 1
num_items-le {tbl = tbl} {result = result} e =
    elim (Bool-cases (leb (result.0).num_items (tbl.num_items + 1))) [
      | inl le ↦ ground (arith, le)
      | inr gt ↦
          let more : tbl.num_items + 1 < (result.0).num_items = ground (arith, gt) in
          elim (e.only tbl.num_items (omega (arith, more))) [
            | inl h ↦ absurd (omega (arith, h))
            | inr one ↦ elim (e.only (tbl.num_items + 1) more) [
              | inl h ↦ absurd (omega (arith, h))
              | inr two ↦ absurd (omega (arith, one, two))
            ]
          ]
    ]

-- Over a valid registry, where `malloc` gives blocks and the table has fewer than 2 ^ 30 - 1 items,
-- `ExportCSymbol` of the address of a registered symbol gives a reference that leads `AddrOfCSymbol`
-- back to that address, every older reference leads where it led before, and exporting the address
-- again gives the same reference.
pub addr_of-export :
    (works : ℕ → Bool) {t : Tables} {tbl : ExportTable}
    → ((i : ℕ) → works i ≡ true)
    → IsValid t
    → IsExport t tbl
    → (x : Item) → Registered t x
    → tbl.num_items + 1 < 2 ^ 30
    → (r : ExportTable × ℕ) × (export_c_symbol works t tbl x.addr ≡ gives r)
      × (addr_of_c_symbol r.0 r.1 ≡ address x.addr)
      × ((i : ℕ)
          → i < tbl.num_items
          → addr_of_c_symbol r.0 (make_extern i) ≡ addr_of_c_symbol tbl (make_extern i))
      × ((r' : ExportTable × ℕ) × (export_c_symbol works t r.0 x.addr ≡ gives r') × (r'.1 ≡ r.1))
addr_of-export works {t} {tbl} blocks v w x reg small =
    let (r, run, e) = export-Registered works blocks v w x reg (omega (arith, small)) in
    let (r', run', e') =
      export-Registered works blocks v e.valid x reg (omega (arith, small, num_items-le e)) in
    (
      r,
      run,
      ap (λ (word : ℕ). addr_of_c_symbol r.0 word) e.word
          ∙ addr_of-Exports r.0 e.index e.item (omega (arith, small, index-le e)) e.exports
          ∙ ap address e.same_addr,
      λ i h.
          let (q, out) = w.written i h in
          addr_of-Exports r.0 i q (omega (arith, h, small)) (e.kept i q out)
          ∙ sym (addr_of-Exports tbl i q (omega (arith, h, small)) out),
      (
        r',
        run',
        e'.word
            ∙ ap make_extern (
                Exports-unique e'.valid e'.index e.index e'.item e.item e'.exports
                  (e'.kept e.index e.item e.exports) (e'.same_addr ∙ sym e.same_addr))
            ∙ sym e.word,
      ),
    )
