-- ===== src/BigObjects/Counts.antt =====
-- Pages that satisfy a test, counted, and how a range of them changes the count.
use smlnj.Prelude.{
  ℕ, zero, suc, ◌+◌, ◌<◌, ◌≤◌, ◌≡◌, refl, ap, ◌∙◌, inl, inr, Bool, true, false, arith, leb,
  if◌then◌else◌, Bool-cases,
}
use smlnj.BigObjects.Tiles.{within}

abbrev pub count : (ℕ → Bool) → ℕ → ℕ
count f zero = 0
count f (suc n) = (if f n then 1 else 0) + count f n

pub count-ap : (f g : ℕ → Bool) (n : ℕ) → ((i : ℕ) → i < n → f i ≡ g i) → count f n ≡ count g n
count-ap f g zero h = refl
count-ap f g (suc n) h =
    let rest = count-ap f g n (λ i p. h i (omega arith)) in
    omega (arith, ap {B = ℕ} (λ (b : Bool). if b then 1 else 0) (h n (omega arith)), rest)

pub count-range :
    (f g : ℕ → Bool) (lo k n : ℕ)
    → lo + k ≤ n
    → ((i : ℕ) → i < n → f i ≡ (if within lo k i then true else g i))
    → ((i : ℕ) → i < n → within lo k i ≡ true → g i ≡ false)
    → count f n ≡ count g n + k
count-range f g lo zero n h e w = omega (arith, count-ap f g n λ i p. e i p ∙ ground arith)
count-range f g lo (suc k) zero h e w = absurd (omega arith)
count-range f g lo (suc k) (suc n) h e w = elim (Bool-cases (leb (lo + suc k) n)) [
  | inl more ↦
      let rest =
        count-range f g lo (suc k) n (ground (arith, more)) (λ i p. e i (omega arith))
          (λ i p. w i (omega arith)) in
      let here = e n (omega arith) in ground (arith, rest, here, more)
  | inr done ↦
      let at : lo + k ≡ n = ground (arith, done) in
      let rest =
        count-range f g lo k n (omega (arith, at))
          (λ i p. e i (omega arith) ∙ ground (arith, at, p))
          (λ i p q. w i (omega arith) (ground (arith, q))) in
      let here = e n (omega arith) in
      let busy = w n (omega arith) (ground (arith, at)) in ground (arith, rest, here, busy, at)
]

pub count-le : (f : ℕ → Bool) (n : ℕ) → count f n ≤ n
count-le f zero = omega arith
count-le f (suc n) = ground (arith, count-le f n)

pub le-count :
    (f : ℕ → Bool) (lo k n : ℕ)
    → lo + k ≤ n
    → ((i : ℕ) → i < n → within lo k i ≡ true → f i ≡ true)
    → k ≤ count f n
le-count f lo k n h t =
    let rest = λ (i : ℕ). if within lo k i then false else f i in
    let e =
      count-range f rest lo k n h
        (λ i p. elim (Bool-cases (within lo k i)) [ inl w ↦ rw w (t i p w) | inr w ↦ rw w refl ])
        (λ i p w. rw w refl) in
    omega (arith, e)
