-- ===== src/CGlobals/Buckets.antt =====
-- What stands in a bucket, what the walks through it find, and where the items go when the tables
-- grow.
use smlnj.Prelude.{
  ℕ, ◌≡◌, refl, sym, ap, ◌∙◌, ◌≢◌, ◌⊎◌, inl, inr, true, ◌&&◌, none, some, List, [], ◌∷◌, arith,
  ◌==◌, Bool-cases,
}
use mathlib.Core.Path.{subst}
use smlnj.CGlobals.{Item, same_name, find_symbol, find_addr}

-- the item is in the bucket
abbrev pub In : {A : Type 0} → A → List A → Type 0
In x [] = ⊥
In x (y ∷ b) = (x ≡ y) ⊎ In x b

pub same_name-eq : (a b : List ℕ) → same_name a b ≡ true → a ≡ b
unfolding same_name
same_name-eq [] [] h = refl
same_name-eq [] (y ∷ b) h = ground arith
same_name-eq (x ∷ a) [] h = ground arith
same_name-eq (x ∷ a) (y ∷ b) h = ground (arith, same_name-eq a b)

pub same_name_refl : (a : List ℕ) → same_name a a ≡ true
unfolding same_name
same_name_refl [] = refl
same_name_refl (x ∷ a) = ground (arith, same_name_refl a)

-- what the walks find
pub find_symbol-cases :
    (hash : ℕ) (name : List ℕ) (b : List Item)
    → ((find_symbol hash name b ≡ none)
        × ((y : Item) → In y b → y.string_hash ≡ hash → y.name ≢ name))
      ⊎ ((x : Item) × (find_symbol hash name b ≡ some x)
          × In x b
          × (x.string_hash ≡ hash)
          × (x.name ≡ name))
unfolding find_symbol
find_symbol-cases hash name [] = inl (refl, λ y i e n. i)
find_symbol-cases hash name (p ∷ next) =
    elim (Bool-cases ((p.string_hash == hash) && same_name name p.name)) [
      | inl e ↦
          inr (p, rw e refl, inl refl, ground arith, sym (same_name-eq name p.name (ground arith)))
      | inr e ↦ elim (find_symbol-cases hash name next) [
        | inl (stop, out) ↦ inl (
          rw (e, stop) refl,
          λ y i h n. elim i [
            | inl here ↦
                let k : p.string_hash ≡ hash = ap (λ (z : Item). z.string_hash) (sym here) ∙ h in
                let same : name ≡ p.name = sym n ∙ ap (λ (z : Item). z.name) here in
                let q : same_name name p.name ≡ true =
                  subst (λ (m : List ℕ). same_name name m ≡ true) same (same_name_refl name) in
                ground arith
            | inr there ↦ out y there h n
          ],
        )
        | inr (x, run, i, h, n) ↦ inr (x, rw (e, run) refl, inr i, h, n)
      ]
    ]

pub find_addr-cases :
    (addr : ℕ) (b : List Item)
    → ((find_addr addr b ≡ none) × ((y : Item) → In y b → y.addr ≢ addr))
      ⊎ ((x : Item) × (find_addr addr b ≡ some x) × In x b × (x.addr ≡ addr))
unfolding find_addr
find_addr-cases addr [] = inl (refl, λ y i e. i)
find_addr-cases addr (p ∷ next) = elim (Bool-cases (p.addr == addr)) [
  | inl e ↦ inr (p, rw e refl, inl refl, ground arith)
  | inr e ↦ elim (find_addr-cases addr next) [
    | inl (stop, out) ↦ inl (
      rw (e, stop) refl,
      λ y i h. elim i [
        | inl here ↦
            let k : p.addr ≡ addr = ap (λ (z : Item). z.addr) (sym here) ∙ h in ground arith
        | inr there ↦ out y there h
      ],
    )
    | inr (x, run, i, h) ↦ inr (x, rw (e, run) refl, inr i, h)
  ]
]
