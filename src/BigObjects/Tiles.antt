-- ===== src/BigObjects/Tiles.antt =====
-- The maps from the pages of a region to its objects, as tilings: `m` gives each of the `n` pages an
-- object, `s` the first page of an object and `l` the number of its pages.
use smlnj.Prelude.{
  ℕ, ◌+◌, ◌<◌, ◌≤◌, ◌≡◌, ◌≢◌, refl, sym, ap, ◌∙◌, ◌⊎◌, inl, inr, Bool, true, false, arith, ◌==◌,
  leb, ltb, ◌&&◌, ◌||◌, if◌then◌else◌, Bool-cases, ==_iff,
}

abbrev pub within : ℕ → ℕ → ℕ → Bool
within lo n i = leb lo i && ltb i (lo + n)

-- the page lies in the object that the map gives it, and so do just the object's pages
pub record TileAt (s l m : ℕ → ℕ) (n i : ℕ) : Type 0 where
  pub low : s (m i) ≤ i
  pub high : i < s (m i) + l (m i)
  pub inside : s (m i) + l (m i) ≤ n
  pub same : (j : ℕ) → s (m i) ≤ j → j < s (m i) + l (m i) → m j ≡ m i

abbrev pub Tiled : (s l m : ℕ → ℕ) → ℕ → Type 0
Tiled s l m n = (i : ℕ) → i < n → TileAt s l m n i

pub tile-of :
    {s l m : ℕ → ℕ} {n i : ℕ} (p : ℕ)
    → m i ≡ p
    → s p ≤ i
    → i < s p + l p
    → s p + l p ≤ n
    → ((j : ℕ) → s p ≤ j → j < s p + l p → m j ≡ p)
    → TileAt s l m n i
tile-of {s} {l} p e low high inside same =
    let es = ap s e in
    let el = ap l e in
    record {
      low = omega (arith, es, low);
      high = omega (arith, es, el, high);
      inside = omega (arith, es, el, inside);
      same = λ j hs hl. same j (omega (arith, es, hs)) (omega (arith, es, el, hl)) ∙ sym e;
    }

-- pages of an object that is mapped at its first page
pub tile-within :
    {s l m : ℕ → ℕ} {n : ℕ}
    → Tiled s l m n
    → (d i : ℕ) → i < n
    → s d < n
    → m (s d) ≡ d
    → (m i == d) ≡ within (s d) (l d) i
tile-within {s} {l} {m} {n} t d i h hd e = elim (Bool-cases (m i == d)) [
  | inl here ↦
      let same = (==_iff (m i) d).0 here in
      let at = t i h in ground (arith, here, same, ap s same, ap l same, at.low, at.high)
  | inr other ↦ elim (Bool-cases (within (s d) (l d) i)) [
    | inl w ↦
        let at = t (s d) hd in
        let same = at.same i (ground (arith, w, ap s e)) (ground (arith, w, ap s e, ap l e)) in
        absurd (ground (arith, other, same ∙ e))
    | inr w ↦ other ∙ sym w
  ]
]

-- a new object `e` gets the first `k` pages of `d`
pub record Carved (s l m s' l' m' : ℕ → ℕ) (n d e k : ℕ) : Type 0 where
  pub new_start : s' e ≡ s d
  pub new_len : l' e ≡ k
  pub old_start : s' d ≡ s d + k
  pub old_len : l' d + k ≡ l d
  pub others : (p : ℕ) → p ≢ d → p ≢ e → (s' p ≡ s p) × (l' p ≡ l p)
  pub map : (i : ℕ) → i < n → m' i ≡ (if within (s d) k i then e else m i)

pub Carved-Tiled :
    {s l m s' l' m' : ℕ → ℕ} {n d e k : ℕ}
    → Tiled s l m n
    → Carved s l m s' l' m' n d e k
    → s d < n
    → m (s d) ≡ d
    → d ≢ e
    → ((i : ℕ) → i < n → m i ≢ e)
    → k ≤ l d
    → Tiled s' l' m' n
Carved-Tiled {s} {l} {m} {s'} {l'} {m'} {n} {d} {e} {k} t c hd at ne new hk i h =
    let whole' : s d + l d ≤ n = omega (arith, (t (s d) hd).inside, ap s at, ap l at) in
    let page = λ (j : ℕ) (hj : j < n). tile-within t d j hj hd at in
    elim (Bool-cases (within (s d) k i)) [
      | inl w ↦
          tile-of e (c.map i h ∙ rw w refl) (ground (arith, w, c.new_start))
            (ground (arith, w, c.new_start, c.new_len))
            (omega (arith, c.new_start, c.new_len, whole', hk))
            λ j lo hi.
              c.map j (omega (arith, c.new_start, c.new_len, whole', hk, hi))
              ∙ ap (λ (b : Bool). if b then e else m j) {y = true}
                  (ground (arith, c.new_start, c.new_len, lo, hi))
      | inr w ↦ elim (Bool-cases (m i == d)) [
        | inl mine ↦
            let in_d = sym (page i h) ∙ mine in
            tile-of d (c.map i h ∙ rw w ((==_iff (m i) d).0 mine))
              (ground (arith, w, in_d, c.old_start)) (ground (arith, in_d, c.old_start, c.old_len))
              (omega (arith, c.old_start, c.old_len, whole'))
              λ j lo hi.
                let small : j < n = omega (arith, c.old_start, c.old_len, whole', hi) in
                c.map j small
                ∙ ap (λ (b : Bool). if b then e else m j) {y = false}
                    (ground (arith, c.old_start, lo))
                ∙ (==_iff (m j) d).0 (page j small ∙ ground (arith, c.old_start, c.old_len, lo, hi))
        | inr other ↦
            let (es, el) = c.others (m i) (λ q. absurd (ground (arith, q, other))) (new i h) in
            let tile = t i h in
            tile-of (m i) (c.map i h ∙ rw w refl) (omega (arith, es, tile.low))
              (omega (arith, es, el, tile.high)) (omega (arith, es, el, tile.inside))
              λ j lo hi.
                let small : j < n = omega (arith, es, el, tile.inside, hi) in
                let q = tile.same j (omega (arith, es, lo)) (omega (arith, es, el, hi)) in
                c.map j small
                ∙ ap (λ (b : Bool). if b then e else m j) {y = false}
                    (ground (arith, page j small, ap (λ (x : ℕ). x == d) q, other, hk))
                ∙ q
      ]
    ]

-- the object `d` takes over the pages of its neighbour `q`
pub record Absorbed (s l m s' l' m' : ℕ → ℕ) (n d q : ℕ) : Type 0 where
  pub next : (s q ≡ s d + l d) ⊎ (s d ≡ s q + l q)
  pub new_start_page : s' d ≡ (if leb (s d) (s q) then s d else s q)
  pub len : l' d ≡ l d + l q
  pub others : (p : ℕ) → p ≢ d → p ≢ q → (s' p ≡ s p) × (l' p ≡ l p)
  pub map : (i : ℕ) → i < n → m' i ≡ (if within (s q) (l q) i then d else m i)

pub Absorbed-Tiled :
    {s l m s' l' m' : ℕ → ℕ} {n d q : ℕ}
    → Tiled s l m n
    → Absorbed s l m s' l' m' n d q
    → s d < n
    → m (s d) ≡ d
    → s q < n
    → m (s q) ≡ q
    → Tiled s' l' m' n
Absorbed-Tiled {s} {l} {m} {s'} {l'} {m'} {n} {d} {q} t c hd at_d hq at_q i h =
    let whole_d : s d + l d ≤ n = omega (arith, (t (s d) hd).inside, ap s at_d, ap l at_d) in
    let whole_q : s q + l q ≤ n = omega (arith, (t (s q) hq).inside, ap s at_q, ap l at_q) in
    let page_d = λ (j : ℕ) (hj : j < n). tile-within t d j hj hd at_d in
    let page_q = λ (j : ℕ) (hj : j < n). tile-within t q j hj hq at_q in
    let read = λ (j : ℕ) (hj : j < n).
      c.map j hj ∙ ap (λ (b : Bool). if b then d else m j) (sym (page_q j hj)) in
    elim (Bool-cases ((m i == d) || (m i == q))) [
      | inl mine ↦
          tile-of d (read i h ∙ ground (arith, mine))
            (ground (arith, mine, c.next, c.new_start_page, page_d i h, page_q i h))
            (ground (arith, mine, c.next, c.new_start_page, c.len, page_d i h, page_q i h))
            (ground (arith, c.next, c.new_start_page, c.len, whole_d, whole_q))
            λ j lo hi.
              let small : j < n =
                ground (arith, c.next, c.new_start_page, c.len, whole_d, whole_q, hi) in
              read j small
              ∙ ground
                  (arith, c.next, c.new_start_page, c.len, page_d j small, page_q j small, lo, hi)
      | inr other ↦
          let (es, el) =
            c.others (m i) (λ x. absurd (ground (arith, x, other)))
              (λ x. absurd (ground (arith, x, other))) in
          let tile = t i h in
          tile-of (m i) (read i h ∙ ground (arith, other)) (omega (arith, es, tile.low))
            (omega (arith, es, el, tile.high)) (omega (arith, es, el, tile.inside))
            λ j lo hi.
              let small : j < n = omega (arith, es, el, tile.inside, hi) in
              let x = tile.same j (omega (arith, es, lo)) (omega (arith, es, el, hi)) in
              read j small ∙ ground (arith, x, other)
    ]
