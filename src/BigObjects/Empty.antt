-- ===== src/BigObjects/Empty.antt =====
-- The heap before the first big object.
use smlnj.Prelude.{ℕ, refl, true, [], arith}
use smlnj.BigObjects.{BoHeap}
use smlnj.BigObjects.Alloc.{init_free_list}
use smlnj.BigObjects.Ring.{update-same}
use smlnj.BigObjects.Whole.{Shaped}

-- The heap that `InitHeap` makes has no region and no free object, and is well formed.
pub init_free_list-Shaped : (h : BoHeap) (hdr : ℕ) → Shaped (init_free_list h hdr) [] []
unfolding init_free_list
init_free_list-Shaped h hdr = record {
  regions_ok = λ r k. absurd (ground (arith, k));
  regions_used = λ r k. absurd (ground (arith, k));
  hdr_used = update-same h.used_descs hdr true;
  ring = record {
    linked = (update-same h.links.next hdr hdr, update-same h.links.prev hdr hdr);
    distinct = (refl, tt);
  };
  listed = λ r i k small f. absurd (ground (arith, k));
  only_free = λ p k. absurd (ground (arith, k));
}
