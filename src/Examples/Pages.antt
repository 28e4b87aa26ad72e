-- ===== src/Examples/Pages.antt =====
-- A new page map, and a region that crosses a row of it.
use smlnj.Prelude.{ℕ, ◌+◌, ◌-◌, ◌*◌, ◌^◌, ◌<◌, ◌≡◌, arith, if◌then◌else◌}
use smlnj.Bibop.{init_bibop, mark_region, addr_to_index, addr_to_pageid}
use smlnj.Bibop.Rows.{IsValid, touches, init_bibop-unmapped}
use smlnj.Bibop.Region.{mark_region-lookup}

abbrev garbage : ℕ → ℕ
garbage i = 7

-- four pages from 3 * 2 ^ 32 - 2 ^ 19 on
abbrev base : ℕ
base = 3 * 2 ^ 32 - 2 ^ 19

region_fits : addr_to_index base + addr_to_index (2 ^ 20) < 2 ^ 30
unfolding addr_to_index
region_fits = omega arith

mark_region-lookup_example :
    IsValid (mark_region garbage (init_bibop garbage) base (2 ^ 20) 4353)
    × ((a : ℕ)
        → addr_to_pageid (mark_region garbage (init_bibop garbage) base (2 ^ 20) 4353) a ≡ (
            if touches
              (addr_to_index base)
              (addr_to_index base + addr_to_index (2 ^ 20))
              (addr_to_index a)
            then 4353
            else addr_to_pageid (init_bibop garbage) a))
mark_region-lookup_example =
    mark_region-lookup garbage (init_bibop garbage) base (2 ^ 20) 4353
      (init_bibop-unmapped garbage).0 region_fits
