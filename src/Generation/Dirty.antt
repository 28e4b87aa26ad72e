-- ===== src/Generation/Dirty.antt =====
-- `NewDirtyVector`: the dirty cards of a new array arena.
use smlnj.Prelude.{
  ℕ, zero, suc, ◌+◌, ◌-◌, ◌*◌, ◌/◌, ◌^◌, ◌<◌, ◌≤◌, ◌≡◌, ap, Option, none, some, List, [], ◌∷◌, ltb,
  leb, if◌then◌else◌,
}
use smlnj.CardMap.{
  CardMap, card_clean, card_sz_b, card_map_t_sz, map_offset, card_map_sz, card_index, dirty_cards,
}
use smlnj.Bibop.{fill}
use smlnj.Heap.{Arena}
use smlnj.Generation.{System}

-- the arena with the number
unfoldable pub arena_at : List Arena → ℕ → Option Arena
arena_at [] i = none
arena_at (ap ∷ aps) zero = some ap
arena_at (ap ∷ aps) (suc i) = arena_at aps i

-- the map for the arena is bound, the code writes through the null pointer of `malloc`, or the
-- size of the map does not fit an `int`
pub data Binding : Type 0 where
  bound : CardMap → Binding
  null_write : Binding
  too_big : Binding

-- the last assignments, and `memset` over the map
unfoldable pub reset_map : Arena → CardMap → CardMap
unfolding fill card_map_sz
reset_map ap dirty =
    let vec_sz = ap.tosp_size_b / card_sz_b in
    record dirty {
      base_addr = ap.tosp_base;
      num_cards = vec_sz;
      map = fill dirty.map 0 (card_map_sz vec_sz - (card_map_t_sz - 8)) card_clean;
    }

-- a block from `malloc` with the size in it
abbrev pub new_card_map : (ℕ → ℕ) → ℕ → CardMap
new_card_map garbage alloc_sz_b = record {
  base_addr = 0;
  num_cards = 0;
  map_sz_b = alloc_sz_b;
  map = garbage;
}

-- the body of `NewDirtyVector`, for sizes that fit
unfoldable pub bind_vector : System → Arena → Option CardMap → Binding
unfolding reset_map card_map_sz
bind_vector sys ap none =
    let alloc_sz_b = card_map_sz (ap.tosp_size_b / card_sz_b) in
    if sys.malloc_works alloc_sz_b
    then bound (reset_map ap (new_card_map sys.garbage alloc_sz_b))
    else null_write
bind_vector sys ap (some dirty) =
    let alloc_sz_b = card_map_sz (ap.tosp_size_b / card_sz_b) in
    if ltb dirty.map_sz_b alloc_sz_b
    then (if sys.malloc_works alloc_sz_b
        then bound (reset_map ap (new_card_map sys.garbage alloc_sz_b))
        else null_write)
    else bound (reset_map ap dirty)

-- `NewDirtyVector` for the array arena and the old map; `allocSzB` is an `int`
unfoldable pub new_dirty_vector : System → Arena → Option CardMap → Binding
unfolding bind_vector card_map_sz
new_dirty_vector sys ap old =
    if leb (2 ^ 31) (card_map_sz (ap.tosp_size_b / card_sz_b))
    then too_big
    else bind_vector sys ap old

-- the map covers the arena, lies in its block, and every card is clean
pub record Clean (ap : Arena) (cm : CardMap) : Type 0 where
  pub covers :
      (a : ℕ)
      → ap.tosp_base ≤ a
      → a < ap.tosp_base + cm.num_cards * 2 ^ 8
      → card_index cm a < cm.num_cards
  pub cards : cm.num_cards ≡ ap.tosp_size_b / 2 ^ 8
  pub inside : map_offset + cm.num_cards ≤ cm.map_sz_b
  pub written : (i : ℕ) → i < cm.num_cards → cm.map i ≡ card_clean
  pub no_dirty : (max_gen : ℕ) → max_gen < card_clean → dirty_cards cm max_gen ≡ []
