-- ===== src/CardMap.antt =====
-- runtime/gc/card-map.h, with a byte for each card: the map of the dirty cards of an array arena.
pub mod Marks
use smlnj.Prelude.{
  ℕ, zero, suc, ◌+◌, ◌-◌, ◌*◌, ◌/◌, ◌%◌, ◌^◌, Bool, List, [], ◌∷◌, ◌==◌, ltb, leb, if◌then◌else◌,
}
use smlnj.Tags.{word_mod}

-- `card_map_t`; the map is a function of the index
pub record CardMap : Type 0 where
  pub base_addr : ℕ
  pub num_cards : ℕ
  pub map_sz_b : ℕ
  pub map : ℕ → ℕ

abbrev pub card_clean : ℕ
card_clean = 0xff

abbrev pub card_sz_b : ℕ
card_sz_b = 2 ^ 8

-- `sizeof (card_map_t)`, and where its field `map` starts
abbrev pub card_map_t_sz : ℕ
card_map_t_sz = 32

abbrev pub map_offset : ℕ
map_offset = 20

-- `CARD_MAP_SZ`
unfoldable pub card_map_sz : ℕ → ℕ
card_map_sz n = card_map_t_sz + ((n + 7) / 8 * 8) - 8

-- `CARD_INDEX`, on unsigned words
unfoldable pub card_index : CardMap → ℕ → ℕ
card_index cm addr = (addr + word_mod - cm.base_addr) % word_mod / 2 ^ 8

-- `CARD_TO_ADDR`
unfoldable pub card_to_addr : CardMap → ℕ → ℕ
card_to_addr cm index = cm.base_addr + index * 2 ^ 8

-- `MARK_CARD`; the index is cut to an `int`, negative from 2 ^ 31 on
unfoldable pub mark_card : CardMap → ℕ → ℕ → CardMap
unfolding card_index
mark_card cm addr gen =
    let i = card_index cm addr % 2 ^ 32 in
    if ltb gen (cm.map i) then record cm { map = λ j. if j == i then gen else cm.map j } else cm

-- `isDIRTY`
unfoldable pub is_dirty : CardMap → ℕ → ℕ → Bool
is_dirty cm indx max_gen = leb (cm.map indx) max_gen

-- `FOR_DIRTY_CARD` from the index on for `n` rounds: the cards that the command is run on
unfoldable pub dirty_from : CardMap → ℕ → ℕ → ℕ → List ℕ
unfolding is_dirty
dirty_from cm max_gen i zero = []
dirty_from cm max_gen i (suc n) =
    let rest = dirty_from cm max_gen (i + 1) n in if is_dirty cm i max_gen then i ∷ rest else rest

-- `FOR_DIRTY_CARD`
unfoldable pub dirty_cards : CardMap → ℕ → List ℕ
unfolding dirty_from
dirty_cards cm max_gen = dirty_from cm max_gen 0 cm.num_cards
