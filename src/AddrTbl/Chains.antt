-- ===== src/AddrTbl/Chains.antt =====
-- One bucket of the table: what the walk finds, and how often an address stands in it.
use smlnj.Prelude.{
  ℕ, ◌+◌, ◌≤◌, ◌≡◌, refl, Bool, true, false, Option, none, some, List, [], ◌∷◌, ◌&&◌, arith, ◌==◌,
}
use smlnj.AddrTbl.{Item, find_item}

abbrev pub to_nat : Bool → ℕ
to_nat true = 1
to_nat false = 0

abbrev pub holds : Option ℕ → ℕ → Bool
holds none v = false
holds (some w) v = w == v

-- items with the address, and items with the address and the object
unfoldable pub count : ℕ → List Item → ℕ
count a [] = 0
count a (p ∷ next) = to_nat (p.addr == a) + count a next

unfoldable pub count_both : ℕ → ℕ → List Item → ℕ
count_both a v [] = 0
count_both a v (p ∷ next) = to_nat ((p.addr == a) && (p.obj == v)) + count_both a v next

pub find_item-eq-none : (a : ℕ) (b : List Item) → count a b ≡ 0 → find_item a b ≡ none
unfolding count find_item
find_item-eq-none a [] h = refl
find_item-eq-none a (p ∷ next) h = ground (arith, find_item-eq-none a next)

pub count-eq-zero : (a : ℕ) (b : List Item) → find_item a b ≡ none → count a b ≡ 0
unfolding count find_item
count-eq-zero a [] h = refl
count-eq-zero a (p ∷ next) h = ground (arith, count-eq-zero a next)

pub count_both-le : (a v : ℕ) (b : List Item) → count_both a v b ≤ count a b
unfolding count count_both
count_both-le a v [] = omega arith
count_both-le a v (p ∷ next) = ground (arith, count_both-le a v next)

-- where the address stands once, the object counts if the walk finds it
pub count_both-find_item :
    (a v : ℕ) (b : List Item) → count a b ≤ 1 → count_both a v b ≡ to_nat (holds (find_item a b) v)
unfolding count count_both find_item
count_both-find_item a v [] h = refl
count_both-find_item a v (p ∷ next) h =
    ground (arith, count_both-find_item a v next, count_both-le a v next)
