-- ===== src/BigObjects/Pending.antt =====
-- `BO_Free` while it coalesces: the heap as it would be with the sizes and the counts up to date.
pub mod Merging
pub mod TakeOver
use smlnj.Prelude.{
  ℕ, ◌+◌, ◌-◌, ◌*◌, ◌^◌, ◌<◌, ◌≤◌, ◌≡◌, ◌≢◌, refl, sym, ap, ◌∙◌, ◌⊎◌, inl, inr, Bool, true, false,
  List, arith, ◌==◌, ◌||◌, if◌then◌else◌, leb, Bool-cases, ==_iff,
}
use mathlib.Core.Path.{subst}
use smlnj.Bibop.{fill}
use smlnj.Bibop.Rows.{fill-eq}
use smlnj.BigObjects.{Region, Desc, Links, BoHeap, update, bo_is_free, remove_bo_desc}
use smlnj.BigObjects.Pages.{num_bopages-exact}
use smlnj.BigObjects.Tiles.{within, tile-within}
use smlnj.BigObjects.Ring.{
  member, Ring, without, member-without, update-same, update-other, remove_bo_desc-Ring,
}
use smlnj.BigObjects.Whole.{
  start_of-same, start_of, pages_of, is_free, RegionOk, MappedAt, Shaped, free-neighbours,
}
use smlnj.BigObjects.Joining.{Joined, joined-RegionOk, joined-mapped, joined_start, joined_free}
use smlnj.BigObjects.Frame.{SameShape, Step, Step-Shaped}
use smlnj.BigObjects.Taking.{FreeObj, free-obj, pages-le, SameShape-eq}

-- the heap where `d` has the size and its region has `p` free pages fewer
abbrev pub ghost : BoHeap → ℕ → ℕ → ℕ → BoHeap
ghost h d tot p =
    let r = (h.descs d).region in
    record h {
      descs = update h.descs d (record (h.descs d) { size_b = tot });
      regions = update h.regions r (record (h.regions r) { n_free = (h.regions r).n_free - p });
    }

-- the busy object `d` has `tot` bytes, `p` pages more than the counts say
pub record Pending (h : BoHeap) (rs fs : List ℕ) (d tot p : ℕ) : Type 0 where
  pub shaped : Shaped (ghost h d tot p) rs fs
  pub in_rs : member (h.descs d).region rs ≡ true
  pub at : MappedAt (ghost h d tot p).descs ((ghost h d tot p).regions (h.descs d).region) d
  pub busy : is_free h.descs d ≡ false
  pub whole : tot ≡ pages_of (ghost h d tot p).descs d * 2 ^ 10
  pub counted : p ≤ (h.regions (h.descs d).region).n_free

-- the pages next to the object are busy
abbrev pub BeforeBusy : BoHeap → ℕ → ℕ → Type 0
BeforeBusy h r d =
    0 < start_of (h.regions r) h.descs d
    → is_free h.descs ((h.regions r).obj_map (start_of (h.regions r) h.descs d - 1)) ≡ false

abbrev pub AfterBusy : BoHeap → ℕ → ℕ → Type 0
AfterBusy h r d =
    start_of (h.regions r) h.descs d + pages_of h.descs d < (h.regions r).n_pages
    → is_free h.descs
        ((h.regions r).obj_map (start_of (h.regions r) h.descs d + pages_of h.descs d))
      ≡ false

-- the page is free or the object's
abbrev pub open_page : BoHeap → ℕ → ℕ → ℕ → Bool
open_page h r d i = ((h.regions r).obj_map i == d) || is_free h.descs ((h.regions r).obj_map i)

-- the free object `q` with the `n` pages from `lo` on goes to `d`
pub record TakenOver (h hn : BoHeap) (d q lo n obj : ℕ) : Type 0 where
  pub desc : hn.descs d ≡ record (h.descs d) { obj = obj }
  pub others : (p : ℕ) → p ≢ d → hn.descs p ≡ h.descs p
  pub used : (p : ℕ) → p ≢ q → hn.used_descs p ≡ h.used_descs p
  pub region : hn.regions (h.descs d).region ≡ record (h.regions (h.descs d).region) {
    obj_map = fill (h.regions (h.descs d).region).obj_map lo n d;
  }
  pub regions : (r' : ℕ) → r' ≢ (h.descs d).region → hn.regions r' ≡ h.regions r'
  pub links : hn.links ≡ remove_bo_desc h.links q
  pub hdr : hn.free_big_objs ≡ h.free_big_objs
  pub used_regions : (r' : ℕ) → hn.used_regions r' ≡ h.used_regions r'
