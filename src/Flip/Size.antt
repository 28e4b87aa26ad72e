-- ===== src/Flip/Size.antt =====
-- The sizing policy of `Flip`.
use smlnj.Prelude.{
  ℕ, ◌+◌, ◌-◌, ◌*◌, ◌/◌, ◌%◌, ◌^◌, ◌<◌, ◌≤◌, ◌≡◌, ◌≢◌, refl, sym, inl, inr, true, false, some, ◌&&◌,
  arith, ◌==◌, ltb, leb, if◌then◌else◌, Bool-cases,
}
use smlnj.Tags.{word_mod}
use smlnj.ArenaId.{pair_indx}
use smlnj.Sizes.Round.{rnd_memobj_sz_b-RoundedUp}
use smlnj.Heap.{Arena, add64, sub64, flip_arena, is_active}
use smlnj.Flip.{Sized, min_size_of, desired_size, limited_size, resize, size_arena, flip_one}

-- the first slot of pair space
abbrev pub slot : ℕ → ℕ
slot j = if j == pair_indx then 16 else 0

abbrev pub larger : ℕ → ℕ → ℕ
larger a b = if leb a b then b else a

limited-bounds :
    (new_sz min_sz : ℕ) (x : Arena)
    → min_sz ≤ new_sz
    → (min_sz ≤ limited_size new_sz min_sz x)
      × (limited_size new_sz min_sz x ≤ larger min_sz x.max_size_b)
unfolding limited_size
limited-bounds new_sz min_sz x h = (ground (arith, h), ground (arith, h))

desired-min :
    (ratio num_gcs prev this min_sz : ℕ) (x : Arena)
    → min_sz ≤ desired_size ratio num_gcs prev this min_sz x
unfolding desired_size
desired-min ratio num_gcs prev this min_sz x =
    let wanted = add64 (add64 prev x.req_size_b) (ratio * (this / num_gcs) % word_mod) in
    elim (Bool-cases (ltb wanted min_sz)) [
      | inl less ↦ rw less (omega arith)
      | inr more ↦ rw more (ground (arith, more))
    ]

-- a to-space of whole pages that holds the bytes, and at most a page more than the limit
pub record Fits (need limit : ℕ) (x : Arena) : Type 0 where
  pub pages : (q : ℕ) × (x.tosp_size_b ≡ q * 2 ^ 18)
  pub enough : need ≤ x.tosp_size_b
  pub close : x.tosp_size_b ≤ limit + 2 ^ 18

resize-Fits :
    (new_sz need limit : ℕ) (x : Arena)
    → need ≤ new_sz
    → new_sz ≤ limit
    → limit + 2 ^ 18 ≤ word_mod
    → Fits need limit (resize new_sz x)
unfolding resize
resize-Fits new_sz need limit x lo hi small = elim (Bool-cases (ltb 0 new_sz)) [
  | inl some_space ↦
      let (q, whole, over, close) = rnd_memobj_sz_b-RoundedUp new_sz (omega arith) in
      rw some_space (record {
        pages = (q, whole);
        enough = omega (arith, lo, over);
        close = omega (arith, hi, close);
      })
  | inr empty ↦
      rw empty (record {
        pages = (0, omega arith);
        enough = ground (arith, empty, lo);
        close = omega arith;
      })
]

min_size-eq :
    (j prev this : ℕ) (x : Arena)
    → prev + this + x.req_size_b + 16 < word_mod
    → min_size_of j prev this x ≡ prev + this + x.req_size_b + slot j
unfolding min_size_of
min_size-eq j prev this x small =
    let one : (prev + this) % word_mod ≡ prev + this = omega arith in
    let two : (prev + this + x.req_size_b) % word_mod ≡ prev + this + x.req_size_b = omega arith in
    rw (one, two) (ground (arith, small))

-- The sizes for an arena that may need a to-space.
pub size_arena-Fits :
    (j ratio num_gcs prev this : ℕ) (x : Arena)
    → prev + this + x.req_size_b + 2 ^ 19 ≤ word_mod
    → x.max_size_b + 2 ^ 19 ≤ word_mod
    → Fits
        (prev + this + x.req_size_b + slot j)
        (larger (prev + this + x.req_size_b + slot j) x.max_size_b)
        (size_arena j ratio num_gcs prev this x).arena
      × ((size_arena j ratio num_gcs prev this x).min_size ≡ prev + this + x.req_size_b + slot j)
unfolding size_arena
size_arena-Fits j ratio num_gcs prev this x small small' =
    let need = prev + this + x.req_size_b + slot j in
    let min_sz : min_size_of j prev this x ≡ need = min_size-eq j prev this x (omega arith) in
    let new_sz = desired_size ratio num_gcs prev this need x in
    let (lo, hi) = limited-bounds new_sz need x (desired-min ratio num_gcs prev this need x) in
    (
      rw min_sz (
          resize-Fits (limited_size new_sz need x) need (larger need x.max_size_b) x lo hi
            (ground (arith, small, small'))),
      min_sz,
    )

-- the young bytes of the arena
abbrev pub young : Arena → ℕ
young x = if is_active x then x.nextw - x.old_top else 0

abbrev pub idle : Arena → Arena
idle x = record x { frsp_size_b = 0 }

-- the three ways through the loop's body
module _ (j ratio num_gcs prev : ℕ) (x : Arena) where
  pub flip_one-active :
      is_active x ≡ true
      → (num_gcs == 0) ≡ false
      → flip_one j ratio num_gcs prev x
        ≡ some (size_arena j ratio num_gcs prev (sub64 x.nextw x.old_top) (flip_arena x))
  unfolding flip_one flip_arena
  flip_one-active e runs = rw (e, runs) refl

  pub flip_one-skip :
      is_active x ≡ false
      → (x.req_size_b == 0) && (prev == 0) ≡ true
      → flip_one j ratio num_gcs prev x
        ≡ some (record { arena = idle x; prev_old_sz = prev; min_size = 0 })
  unfolding flip_one
  flip_one-skip e skip = rw (e, skip) refl

  pub flip_one-idle :
      is_active x ≡ false
      → (x.req_size_b == 0) && (prev == 0) ≡ false
      → (num_gcs == 0) ≡ false
      → flip_one j ratio num_gcs prev x ≡ some (size_arena j ratio num_gcs prev 0 (idle x))
  unfolding flip_one
  flip_one-idle e more runs = rw (e, more, runs) refl

-- what `flip_one` owes an arena
abbrev pub Provided : ℕ → ℕ → ℕ → ℕ → Arena → Type 0
Provided j ratio num_gcs prev x =
    (s : Sized) × (flip_one j ratio num_gcs prev x ≡ some s)
    × Fits (prev + young x + x.req_size_b)
        (larger (prev + young x + x.req_size_b + slot j) x.max_size_b) s.arena
    × ((s.arena).tosp_size_b ≢ 0 → prev + young x + x.req_size_b + slot j ≤ (s.arena).tosp_size_b)

Fits-less : (need more limit : ℕ) (x : Arena) → need ≤ more → Fits more limit x → Fits need limit x
Fits-less need more limit x h f = record {
  pages = f.pages;
  enough = omega (arith, h, f.enough);
  close = f.close;
}

active-Fits :
    (j ratio num_gcs prev : ℕ) (x : Arena)
    → is_active x ≡ true
    → (num_gcs == 0) ≡ false
    → x.old_top ≤ x.nextw
    → x.nextw < word_mod
    → prev + x.nextw + x.req_size_b + 2 ^ 19 ≤ word_mod
    → x.max_size_b + 2 ^ 19 ≤ word_mod
    → Provided j ratio num_gcs prev x
unfolding flip_arena
active-Fits j ratio num_gcs prev x e runs older word small small' =
    let this = sub64 x.nextw x.old_top in
    let this-eq : this ≡ x.nextw - x.old_top = omega (arith, older, word) in
    let young-eq : young x ≡ this = rw e (sym this-eq) in
    let (fits, _) =
      size_arena-Fits j ratio num_gcs prev this (flip_arena x) (omega (arith, small, this-eq))
        small' in
    rw young-eq (
      size_arena j ratio num_gcs prev this (flip_arena x),
      flip_one-active j ratio num_gcs prev x e runs,
      Fits-less (prev + this + x.req_size_b) (prev + this + x.req_size_b + slot j) _ _ (omega arith)
          fits,
      λ h. fits.enough,
    )

idle-Fits :
    (j ratio num_gcs prev : ℕ) (x : Arena)
    → is_active x ≡ false
    → (x.req_size_b == 0) && (prev == 0) ≡ false
    → (num_gcs == 0) ≡ false
    → prev + x.nextw + x.req_size_b + 2 ^ 19 ≤ word_mod
    → x.max_size_b + 2 ^ 19 ≤ word_mod
    → Provided j ratio num_gcs prev x
idle-Fits j ratio num_gcs prev x e more runs small small' =
    let young-eq : young x ≡ 0 = rw e refl in
    let (fits, _) = size_arena-Fits j ratio num_gcs prev 0 (idle x) (omega (arith, small)) small' in
    rw young-eq (
      size_arena j ratio num_gcs prev 0 (idle x),
      flip_one-idle j ratio num_gcs prev x e more runs,
      Fits-less (prev + 0 + x.req_size_b) (prev + 0 + x.req_size_b + slot j) _ _ (omega arith) fits,
      λ h. fits.enough,
    )

-- For an arena of a generation that is flipped, after `num_gcs` collections of the generation
-- before it, not zero: the new to-space has whole pages, and room for what that generation may
-- promote, for the arena's own young objects, for the requested space and, if it is not empty, for
-- the first slot of pair space. It is at most a page larger than the maximum size of the arena or,
-- where that is more, than this need. For sizes that leave two pages of the address space.
pub flip_one-Fits :
    (j ratio num_gcs prev : ℕ) (x : Arena)
    → num_gcs ≢ 0
    → (is_active x ≡ true → x.old_top ≤ x.nextw)
    → x.nextw < word_mod
    → prev + x.nextw + x.req_size_b + 2 ^ 19 ≤ word_mod
    → x.max_size_b + 2 ^ 19 ≤ word_mod
    → (s : Sized) × (flip_one j ratio num_gcs prev x ≡ some s)
      × Fits
          (prev + young x + x.req_size_b)
          (larger (prev + young x + x.req_size_b + slot j) x.max_size_b)
          s.arena
      × ((s.arena).tosp_size_b ≢ 0 → prev + young x + x.req_size_b + slot j ≤ (s.arena).tosp_size_b)
flip_one-Fits j ratio num_gcs prev x runs older word small small' =
    let runs' : (num_gcs == 0) ≡ false = ground arith in
    elim (Bool-cases (is_active x)) [
      | inl e ↦ active-Fits j ratio num_gcs prev x e runs' (older e) word small small'
      | inr e ↦ elim (Bool-cases ((x.req_size_b == 0) && (prev == 0))) [
        | inl skip ↦
            let nothing : prev + young x + x.req_size_b ≡ 0 = ground (arith, e, skip) in
            let no_space : x.tosp_size_b ≡ 0 = ground (arith, e) in
            (
              record { arena = idle x; prev_old_sz = prev; min_size = 0 },
              flip_one-skip j ratio num_gcs prev x e skip,
              record {
                pages = (0, no_space);
                enough = omega (arith, nothing);
                close = omega (arith, no_space);
              },
              λ h. absurd (h no_space),
            )
        | inr more ↦ idle-Fits j ratio num_gcs prev x e more runs' small small'
      ]
    ]
