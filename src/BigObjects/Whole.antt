-- ===== src/BigObjects/Whole.antt =====
-- What holds of a region and of its descriptors, and of the list of free ones.
use smlnj.Prelude.{
  ℕ, ◌+◌, ◌*◌, ◌/◌, ◌%◌, ◌^◌, ◌<◌, ◌≤◌, ◌≡◌, ◌≢◌, sym, ap, ◌∙◌, inl, inr, Bool, true, false, List,
  ◌-◌, arith, Bool-cases, ==_iff,
}
use smlnj.Heap.{sub64}
use smlnj.BigObjects.{Region, Desc, BoHeap, addr_to_bopage, bo_num_bopages, bo_is_free}
use smlnj.BigObjects.Tiles.{within, Tiled, tile-within}
use smlnj.BigObjects.Counts.{count}
use smlnj.BigObjects.Ring.{member, Ring}

-- the first page of a descriptor's object, and the number of its pages
abbrev pub start_of : Region → (ℕ → Desc) → ℕ → ℕ
start_of reg descs p = addr_to_bopage reg (descs p).obj

abbrev pub pages_of : (ℕ → Desc) → ℕ → ℕ
pages_of descs p = bo_num_bopages (descs p)

abbrev pub is_free : (ℕ → Desc) → ℕ → Bool
is_free descs p = bo_is_free (descs p)

-- the descriptor of a page
pub record DescOk (descs : ℕ → Desc) (used : ℕ → Bool) (hdr r : ℕ) (reg : Region) (p : ℕ)
    : Type 0 where
  pub placed : (descs p).obj ≡ reg.first_page + start_of reg descs p * 2 ^ 10
  pub sized : is_free descs p ≡ true → (descs p).size_b ≡ pages_of descs p * 2 ^ 10
  pub owned : (descs p).region ≡ r
  pub live : used p ≡ true
  pub not_hdr : p ≢ hdr

pub start_of-same :
    (reg reg' : Region) (descs descs' : ℕ → Desc) (p q : ℕ)
    → (descs' q).obj ≡ (descs p).obj
    → reg'.first_page ≡ reg.first_page
    → start_of reg' descs' q ≡ start_of reg descs p
unfolding addr_to_bopage
start_of-same reg reg' descs descs' p q same first =
    ap (λ (a : ℕ). sub64 a reg'.first_page / 2 ^ 10 % 2 ^ 32) same
    ∙ ap (λ (a : ℕ). sub64 (descs p).obj a / 2 ^ 10 % 2 ^ 32) first

pub DescOk-same :
    {descs descs' : ℕ → Desc} {used used' : ℕ → Bool} {hdr r : ℕ} {reg reg' : Region} {p : ℕ}
    → DescOk descs used hdr r reg p
    → descs' p ≡ descs p
    → used' p ≡ true
    → reg'.first_page ≡ reg.first_page
    → DescOk descs' used' hdr r reg' p
DescOk-same {descs} {descs'} {reg = reg} {reg' = reg'} {p} d same used first =
    let start = start_of-same reg reg' descs descs' p p (ap (λ (x : Desc). x.obj) same) first in
    let free = ap (λ (x : Desc). bo_is_free x) same in
    let size = ap (λ (x : Desc). x.size_b) same in
    let pages = ap (λ (x : Desc). bo_num_bopages x) same in
    record {
      placed = omega (arith, ap (λ (x : Desc). x.obj) same, start, first, d.placed);
      sized = λ f. omega (arith, d.sized (sym free ∙ f), size, pages);
      owned = ap (λ (x : Desc). x.region) same ∙ d.owned;
      live = used;
      not_hdr = d.not_hdr;
    }

-- neighbouring free pages belong to one object
abbrev pub Coalesced : (ℕ → Desc) → (ℕ → ℕ) → ℕ → Type 0
Coalesced descs m n =
    (i : ℕ)
    → i + 1 < n
    → is_free descs (m i) ≡ true
    → is_free descs (m (i + 1)) ≡ true
    → m i ≡ m (i + 1)

-- the region: its pages are divided among its objects
pub record RegionOk (descs : ℕ → Desc) (used : ℕ → Bool) (hdr r : ℕ) (reg : Region) : Type 0 where
  pub some_pages : 0 < reg.n_pages
  pub few : reg.n_pages + 1 < 2 ^ 21
  pub fits : reg.first_page + reg.n_pages * 2 ^ 10 ≤ 2 ^ 47
  pub tiled : Tiled (start_of reg descs) (pages_of descs) reg.obj_map reg.n_pages
  pub descs_ok : (i : ℕ) → i < reg.n_pages → DescOk descs used hdr r reg (reg.obj_map i)
  pub coalesced : Coalesced descs reg.obj_map reg.n_pages
  pub counted : reg.n_free ≡ count (λ i. is_free descs (reg.obj_map i)) reg.n_pages

-- the descriptor has pages of the region, and the region's map says so
abbrev pub MappedAt : (ℕ → Desc) → Region → ℕ → Type 0
MappedAt descs reg p =
    (start_of reg descs p < reg.n_pages) × (reg.obj_map (start_of reg descs p) ≡ p)

-- the regions `rs` and the free list `fs` of a heap
pub record Shaped (h : BoHeap) (rs fs : List ℕ) : Type 0 where
  pub regions_ok :
      (r : ℕ) → member r rs ≡ true → RegionOk h.descs h.used_descs h.free_big_objs r (h.regions r)
  pub regions_used : (r : ℕ) → member r rs ≡ true → h.used_regions r ≡ true
  pub hdr_used : h.used_descs h.free_big_objs ≡ true
  pub ring : Ring h.links h.free_big_objs fs
  pub listed :
      (r i : ℕ)
      → member r rs ≡ true
      → i < (h.regions r).n_pages
      → is_free h.descs ((h.regions r).obj_map i) ≡ true
      → member ((h.regions r).obj_map i) fs ≡ true
  pub only_free :
      (p : ℕ)
      → member p fs ≡ true
      → (member (h.descs p).region rs ≡ true)
        × (is_free h.descs p ≡ true)
        × MappedAt h.descs (h.regions (h.descs p).region) p

-- The pages next to a free object are not free.
pub free-neighbours :
    {descs : ℕ → Desc} {used : ℕ → Bool} {hdr r : ℕ} {reg : Region}
    → RegionOk descs used hdr r reg
    → (q : ℕ) → MappedAt descs reg q
    → is_free descs q ≡ true
    → (0 < start_of reg descs q → is_free descs (reg.obj_map (start_of reg descs q - 1)) ≡ false)
      × (start_of reg descs q + pages_of descs q < reg.n_pages
          → is_free descs (reg.obj_map (start_of reg descs q + pages_of descs q)) ≡ false)
free-neighbours {descs} {reg = reg} ok q (inside, mapped) free =
    let s = start_of reg descs q in
    let l = pages_of descs q in
    let page = λ (i : ℕ) (h : i < reg.n_pages). tile-within ok.tiled q i h inside mapped in
    let some_pages : 0 < l = omega (
      arith,
      (ok.tiled s inside).high,
      ap (start_of reg descs) mapped,
      ap (pages_of descs) mapped,
    ) in
    let mine = λ (i : ℕ) (h : i < reg.n_pages) (w : within s l i ≡ true).
      (==_iff (reg.obj_map i) q).0 (page i h ∙ w) in
    (
      λ pos. elim (Bool-cases (is_free descs (reg.obj_map (s - 1)))) [
        | inr e ↦ e
        | inl e ↦
            let next : s - 1 + 1 ≡ s = omega (arith, pos) in
            let at = ap reg.obj_map next ∙ mapped in
            let same =
              ok.coalesced (s - 1) (omega (arith, next, inside)) e (ap (is_free descs) at ∙ free) in
            let x = page (s - 1) (omega (arith, inside)) in
            absurd (ground (arith, x, same ∙ at, pos))
      ],
      λ more. elim (Bool-cases (is_free descs (reg.obj_map (s + l)))) [
        | inr e ↦ e
        | inl e ↦
            let next : s + l - 1 + 1 ≡ s + l = omega (arith, some_pages) in
            let at = mine (s + l - 1) (omega (arith, more)) (ground (arith, some_pages)) in
            let same =
              ok.coalesced (s + l - 1) (omega (arith, next, more)) (ap (is_free descs) at ∙ free)
                (ap (λ (x : ℕ). is_free descs (reg.obj_map x)) next ∙ e) in
            let x = page (s + l) more in
            absurd (ground (arith, x, sym (ap reg.obj_map next) ∙ sym same ∙ at))
      ],
    )
