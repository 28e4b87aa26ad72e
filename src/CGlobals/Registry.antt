-- ===== src/CGlobals/Registry.antt =====
-- The registry of C symbols as a set of pairs of a name and an address.
use smlnj.Prelude.{
  Bool, false, ◌&&◌, ◌^◌, ◌<◌, ◌≤◌, ◌∷◌, leb, length, ==_iff, ℕ, ◌≡◌, ◌≢◌, refl, ap, ◌⊎◌, inl, inr,
  none, some, List, [], arith, ◌==◌, get_or, Bool-cases,
}
use mathlib.Core.Path.{subst}
use smlnj.Tags.{ml_unit}
use smlnj.CGlobals.{
  double, Item, Tables, no_tables, hash_string, strhash_index, addrhash_index, recorded, die,
  null_write, overflow, room, no_block, too_big, found, symbol_at, address_of, enter, item_of,
  make_room, record_c_symbol, addr_to_c_symbol, import_c_symbol,
}
use smlnj.CGlobals.Buckets.{In, find_symbol-cases, find_addr-cases}
use smlnj.CGlobals.Rehash.{InSome, get_or-InSome}
use smlnj.CGlobals.Valid.{PowerOfTwo, Registered, IsValid, Placed-In, double-IsValid}
use smlnj.CGlobals.Record.{Entered, Conflict, enter_item-cases}

-- Before the first symbol the registry is valid and empty.
pub no_tables-IsValid : IsValid no_tables × ((x : Item) → ¬ Registered no_tables x)
no_tables-IsValid = (
  record {
    power = inl refl;
    started = λ e. refl;
    symbols = record { sized = refl; placed = λ x i w. absurd w };
    addrs = record { sized = refl; placed = λ x i w. absurd w };
    to_addrs = λ x w. w;
    to_symbols = λ x w. w;
    hashed = λ x w. absurd w;
    by_name = λ x y w. absurd w;
    by_addr = λ x y w. absurd w;
  },
  λ x w. w,
)

-- the tables have room for one more symbol, and register what they registered before
record Ready (t t' : Tables) : Type 0 where
  valid : IsValid t'
  power : PowerOfTwo t'.table_size
  to : (x : Item) → Registered t x → Registered t' x
  from : (x : Item) → Registered t' x → Registered t x
  same_count : t'.num_symbols ≡ t.num_symbols

-- the call has no block for an array that it needs, or for the item
abbrev pub NoBlock : (ℕ → Bool) → Tables → Type 0
NoBlock works t =
    ((t.table_size ≡ t.num_symbols) × ((works 0 && works 1) ≡ false)) ⊎ (works 2 ≡ false)

make_room-Ready :
    (works : ℕ → Bool) {t : Tables}
    → IsValid t
    → ((t' : Tables) × (make_room works t ≡ room t') × Ready t t')
      ⊎ ((make_room works t ≡ no_block) × NoBlock works t)
      ⊎ ((make_room works t ≡ too_big) × (2 ^ 30 ≤ t.num_symbols))
unfolding make_room
make_room-Ready works {t} v =
    let (v', power, keeps) = double-IsValid t v in
    elim (Bool-cases (t.table_size == t.num_symbols)) [
      | inl full ↦
          let e = (==_iff t.table_size t.num_symbols).0 full in
          elim (Bool-cases (leb (2 ^ 30) t.table_size)) [
            | inl big ↦ inr (inr (rw (full, big) refl, ground (arith, big, e)))
            | inr small ↦ elim (Bool-cases (works 0 && works 1)) [
              | inl blocks ↦ inl (
                double t,
                rw (full, small, blocks) refl,
                record {
                  valid = v';
                  power = power;
                  to = λ x. (keeps x).1;
                  from = λ x. (keeps x).0;
                  same_count = refl;
                },
              )
              | inr stop ↦ inr (inl (rw (full, small, stop) refl, inl (e, stop)))
            ]
          ]
      | inr has_room ↦ inl (
        t,
        rw has_room refl,
        record {
          valid = v;
          power = elim v.power [
            | inl empty ↦ let none_yet = v.started empty in absurd (ground arith)
            | inr p ↦ p
          ];
          to = λ x w. w;
          from = λ x w. w;
          same_count = refl;
        },
      )
    ]

-- Every outcome of `RecordCSymbol` on a valid registry, whether the tables grow or not; an item that
-- is in use is never freed. It returns, and the registry is valid, has the symbol, and has no other
-- new one. Or it dies, and then another registered symbol has the same name or the same address. Or
-- it writes through a null pointer, and then `malloc` has no block for an array or the item. Or an
-- `int` overflows, and then there are at least 2 ^ 30 symbols.
pub record_c_symbol-cases :
    (works : ℕ → Bool) {t : Tables}
    → IsValid t
    → (name : List ℕ) (addr : ℕ)
    → ((t' : Tables) × (record_c_symbol works t name addr ≡ recorded t')
        × Entered t (item_of name addr) t')
      ⊎ (Conflict t (item_of name addr) × (record_c_symbol works t name addr ≡ die))
      ⊎ (NoBlock works t × (record_c_symbol works t name addr ≡ null_write))
      ⊎ ((2 ^ 30 ≤ t.num_symbols) × (record_c_symbol works t name addr ≡ overflow))
unfolding record_c_symbol enter
record_c_symbol-cases works {t} v name addr = elim (make_room-Ready works v) [
  | inr (inl (stop, why)) ↦ inr (inr (inl (why, rw (stop, record_c_symbol) refl)))
  | inr (inr (stop, many)) ↦ inr (inr (inr (many, rw (stop, record_c_symbol) refl)))
  | inl (t', has_room, r) ↦ elim (Bool-cases (works 2)) [
    | inr none_left ↦
        inr (inr (inl (inr none_left, rw (has_room, none_left, record_c_symbol) refl)))
    | inl block ↦ elim (enter_item-cases r.valid r.power (item_of name addr) refl) [
      | inl (t'', run, e) ↦ inl (
        t'',
        rw (has_room, block, record_c_symbol) run,
        record {
          valid = e.valid;
          power = e.power;
          has = e.has;
          keeps = λ x w. e.keeps x (r.to x w);
          only = λ x w. elim (e.only x w) [ inl old ↦ inl (r.from x old) | inr new ↦ inr new ];
        },
      )
      | inr (inl (c, run)) ↦ inr (
          inl (
            record {
              other = c.other;
              registered = r.from c.other c.registered;
              clash = c.clash;
              different = c.different;
            },
            rw (has_room, block, record_c_symbol) run,
          ))
      | inr (inr (many, run)) ↦
          inr (
            inr
              (inr (omega (arith, many, r.same_count), rw (has_room, block, record_c_symbol) run)))
    ]
  ]
]

-- what the walks of the two lookups find
walks-Registered :
    {t : Tables}
    → IsValid t
    → ((x : Item)
        → Registered t x
        → (address_of t x.name ≡ x.addr) × (symbol_at t x.addr ≡ some x.name))
      × ((addr : ℕ) → ((x : Item) → Registered t x → x.addr ≢ addr) → symbol_at t addr ≡ none)
      × ((name : List ℕ)
          → ((x : Item) → Registered t x → x.name ≢ name)
          → address_of t name ≡ ml_unit)
unfolding address_of symbol_at
walks-Registered {t} v =
    let by_name = λ (name : List ℕ).
      find_symbol-cases (hash_string name) name
        (get_or t.symbol_table (strhash_index (hash_string name) t.table_size) []) in
    let by_addr = λ (addr : ℕ).
      find_addr-cases addr (get_or t.addr_table (addrhash_index addr t.table_size) []) in
    (
      λ x w. (
        elim (by_name x.name) [
          | inr (y, run, i, _, same) ↦
              rw (run, address_of)
                (ap (λ (z : Item). z.addr)
                  (v.by_name y x (get_or-InSome t.symbol_table y _ i) w same))
          | inl (_, out) ↦ absurd (
              out x
                (subst (λ (k : ℕ). In x (get_or t.symbol_table (strhash_index k t.table_size) []))
                  (v.hashed x w) (Placed-In v.symbols x w))
                (v.hashed x w) refl)
        ],
        elim (by_addr x.addr) [
          | inr (y, run, i, same) ↦
              rw (run, symbol_at)
                (ap (λ (z : Item). some z.name)
                  (v.by_addr y x (v.to_symbols y (get_or-InSome t.addr_table y _ i)) w same))
          | inl (_, out) ↦ absurd (out x (Placed-In v.addrs x (v.to_addrs x w)) refl)
        ],
      ),
      λ addr new. elim (by_addr addr) [
        | inr (y, run, i, same) ↦
            absurd (new y (v.to_symbols y (get_or-InSome t.addr_table y _ i)) same)
        | inl (stop, _) ↦ rw (stop, symbol_at) refl
      ],
      λ name new. elim (by_name name) [
        | inr (y, run, i, _, same) ↦ absurd (new y (get_or-InSome t.symbol_table y _ i) same)
        | inl (stop, _) ↦ rw (stop, address_of) refl
      ],
    )

InSome-length : {A : Type 0} (x : A) (b : List (List A)) → InSome x b → 0 < length b
InSome-length x [] w = absurd w
InSome-length x (c ∷ b) w = omega arith

-- A registry with a symbol has its tables.
pub Registered-started : {t : Tables} → IsValid t → (x : Item) → Registered t x → t.table_size ≢ 0
Registered-started {t} v x w e = omega (arith, InSome-length x t.symbol_table w, v.symbols.sized, e)

-- On a valid registry that has its tables the two lookups are inverse to each other: a registered
-- symbol's name gives its address and its address gives its name. An address that no registered
-- symbol has gives no name, and a name that none has gives unit.
pub lookups-Registered :
    {t : Tables}
    → IsValid t
    → t.table_size ≢ 0
    → ((x : Item)
        → Registered t x
        → (import_c_symbol t x.name ≡ found x.addr)
          × (addr_to_c_symbol t x.addr ≡ found (some x.name)))
      × ((addr : ℕ)
          → ((x : Item) → Registered t x → x.addr ≢ addr)
          → addr_to_c_symbol t addr ≡ found none)
      × ((name : List ℕ)
          → ((x : Item) → Registered t x → x.name ≢ name)
          → import_c_symbol t name ≡ found ml_unit)
unfolding import_c_symbol addr_to_c_symbol
lookups-Registered {t} v ne =
    let some_table : (t.table_size == 0) ≡ false = ground (arith, ne) in
    let (reg, no_name, no_addr) = walks-Registered v in
    (
      λ x w. let (a, n) = reg x w in (rw some_table (ap found a), rw some_table (ap found n)),
      λ addr new. rw some_table (ap found (no_name addr new)),
      λ name new. rw some_table (ap found (no_addr name new)),
    )
