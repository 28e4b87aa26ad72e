-- ===== src/BigObjects/Ring.antt =====
-- The free list as a doubly linked ring, and what `RemoveBODesc` and `AddBODesc` do to it.
use smlnj.Prelude.{
  ℕ, ◌≡◌, ◌≢◌, refl, sym, ap, ◌∙◌, inl, inr, Bool, true, false, List, [], ◌∷◌, arith, ◌==◌, ◌||◌,
  if◌then◌else◌, Bool-cases, ==_iff, ==_refl, ==_ne,
}
use smlnj.BigObjects.{Links, update, remove_bo_desc, add_bo_desc}

abbrev pub member : ℕ → List ℕ → Bool
member p [] = false
member p (x ∷ xs) = (x == p) || member p xs

-- no descriptor twice
abbrev pub Distinct : List ℕ → Type 0
Distinct [] = Unit
Distinct (x ∷ xs) = (member x xs ≡ false) × Distinct xs

-- the links lead from `a` over the list to `b`, and back
abbrev pub Linked : Links → ℕ → List ℕ → ℕ → Type 0
Linked links a [] b = (links.next a ≡ b) × (links.prev b ≡ a)
Linked links a (x ∷ xs) b = (links.next a ≡ x) × (links.prev x ≡ a) × Linked links x xs b

-- the free list with the header `hdr`
pub record Ring (links : Links) (hdr : ℕ) (xs : List ℕ) : Type 0 where
  pub linked : Linked links hdr xs hdr
  pub distinct : Distinct (hdr ∷ xs)

-- the list without a descriptor
abbrev pub without : ℕ → List ℕ → List ℕ
without p [] = []
without p (x ∷ xs) = if x == p then xs else x ∷ without p xs

pub update-same {ℓ} : {A : Type ℓ} (f : ℕ → A) (p : ℕ) (v : A) → update f p v p ≡ v
update-same f p v = rw (==_refl p) refl

pub update-other {ℓ} : {A : Type ℓ} (f : ℕ → A) (p q : ℕ) (v : A) → p ≢ q → update f p v q ≡ f q
update-other f p q v ne = rw (==_ne p q ne) refl

pub member-ne : (p q : ℕ) (xs : List ℕ) → member p xs ≡ false → member q xs ≡ true → p ≢ q
member-ne p q [] h m e = ground (arith, m)
member-ne p q (x ∷ xs) h m e = ground (arith, h, m, ap (λ (t : ℕ). member t xs) e, e)

-- links that agree on the list's part
Linked-ap :
    (l l' : Links) (a b : ℕ) (xs : List ℕ)
    → ((p : ℕ) → member p (a ∷ xs) ≡ true → l'.next p ≡ l.next p)
    → ((p : ℕ) → member p (b ∷ xs) ≡ true → l'.prev p ≡ l.prev p)
    → Linked l a xs b
    → Linked l' a xs b
Linked-ap l l' a b [] n p (x, y) = (n a (ground arith) ∙ x, p b (ground arith) ∙ y)
Linked-ap l l' a b (c ∷ xs) n p (x, y, rest) = (
  n a (ground arith) ∙ x,
  p c (ground arith) ∙ y,
  Linked-ap l l' c b xs (λ q m. n q (ground (arith, m))) (λ q m. p q (ground (arith, m))) rest,
)

-- `AddBODesc` puts the descriptor in front.
pub add_bo_desc-Ring :
    {links : Links} {hdr : ℕ} {xs : List ℕ} (dp : ℕ)
    → Ring links hdr xs
    → member dp (hdr ∷ xs) ≡ false
    → Ring (add_bo_desc links hdr dp) hdr (dp ∷ xs)
unfolding add_bo_desc
add_bo_desc-Ring {links} {hdr} {xs = []} dp r h =
    let ne : dp ≢ hdr = λ e. absurd (ground (arith, e, h)) in
    let (fwd, back) = r.linked in
    record {
      linked = (ground arith, ground (arith, fwd), (ground (arith, fwd), ground (arith, fwd)));
      distinct = ground (arith, h);
    }
add_bo_desc-Ring {links} {hdr} {xs = x ∷ xs} dp r h =
    let (fwd, back, rest) = r.linked in
    let (hdr_out, (x_out, d)) = r.distinct in
    let dp_out : member dp (x ∷ xs) ≡ false = ground (arith, h) in
    record {
      linked = (
        ground arith,
        ground (arith, fwd, h),
        (
          ground (arith, fwd, h),
          ground (arith, fwd, h),
          Linked-ap links _ x hdr xs
              (λ p m.
                ground
                  (arith, member-ne dp p (x ∷ xs) dp_out m, member-ne hdr p (x ∷ xs) hdr_out m))
              (λ p m. ground (
                arith,
                member-ne dp p (hdr ∷ xs) (ground (arith, h)) m,
                member-ne x p (hdr ∷ xs) (ground (arith, x_out, hdr_out)) m,
                fwd,
              ))
              rest,
        ),
      );
      distinct = ground (arith, h, hdr_out, x_out, d);
    }

prev-member :
    (l : Links) (a b dp : ℕ) (xs : List ℕ)
    → Linked l a xs b
    → member dp xs ≡ true
    → member (l.prev dp) (a ∷ xs) ≡ true
prev-member l a b dp [] k m = absurd (ground (arith, m))
prev-member l a b dp (x ∷ xs) (fwd, back, rest) m = elim (Bool-cases (x == dp)) [
  | inl e ↦ rw (← (==_iff x dp).0 e, back) (ground arith)
  | inr e ↦ let ih = prev-member l x b dp xs rest (ground (arith, m, e)) in ground (arith, ih)
]

next-member :
    (l : Links) (a b dp : ℕ) (xs : List ℕ)
    → Linked l a xs b
    → member dp xs ≡ true
    → member (l.next dp) (b ∷ xs) ≡ true
next-member l a b dp [] k m = absurd (ground (arith, m))
next-member l a b dp (x ∷ []) (fwd, back, (fwd', back')) m =
    let e = (==_iff x dp).0 (ground (arith, m)) in rw (← e, fwd') (ground arith)
next-member l a b dp (x ∷ y ∷ xs) (fwd, back, (fwd', back', rest)) m = elim (Bool-cases (x == dp)) [
  | inl e ↦ rw (← (==_iff x dp).0 e, fwd') (ground arith)
  | inr e ↦
      let ih = next-member l x b dp (y ∷ xs) (fwd', back', rest) (ground (arith, m, e)) in
      ground (arith, ih)
]

-- the descriptor is the first one of the list
remove_first :
    (l : Links) (a b dp : ℕ) (xs : List ℕ)
    → Linked l a (dp ∷ xs) b
    → Distinct (dp ∷ xs)
    → member a (dp ∷ xs) ≡ false
    → member b (dp ∷ xs) ≡ false
    → Linked (remove_bo_desc l dp) a xs b
unfolding remove_bo_desc
remove_first l a b dp [] (fwd, back, (fwd', back')) d ha hb =
    (ground (arith, back, fwd'), ground (arith, back, fwd'))
remove_first l a b dp (y ∷ xs) (fwd, back, (fwd', back', rest)) (dp_out, (y_out, d)) ha hb = (
  ground (arith, back, fwd'),
  ground (arith, back, fwd'),
  Linked-ap l _ y b xs (λ p m. ground (arith, back, member-ne a p (y ∷ xs) (ground (arith, ha)) m))
      (λ p m. ground (arith, fwd', member-ne y p (b ∷ xs) (ground (arith, y_out, hb)) m)) rest,
)

remove-Linked :
    (l : Links) (a b dp : ℕ) (xs : List ℕ)
    → Linked l a xs b
    → member dp xs ≡ true
    → Distinct xs
    → member a xs ≡ false
    → member b xs ≡ false
    → Linked (remove_bo_desc l dp) a (without dp xs) b
unfolding remove_bo_desc
remove-Linked l a b dp [] k m d ha hb = absurd (ground (arith, m))
remove-Linked l a b dp (x ∷ xs) (fwd, back, rest) m (x_out, d) ha hb = elim (Bool-cases (x == dp)) [
  | inl e ↦
      let same : x ≡ dp = (==_iff x dp).0 e in
      rw e (
        remove_first l a b dp xs (rw (← same) (fwd, back, rest)) (rw (← same) (x_out, d))
          (rw (← same) ha) (rw (← same) hb))
  | inr e ↦
      let mem : member dp xs ≡ true = ground (arith, m, e) in
      let before = prev-member l x b dp xs rest mem in
      let after = next-member l x b dp xs rest mem in
      rw e (
        update-other l.next (l.prev dp) a (l.next dp)
              (λ q. member-ne a (l.prev dp) (x ∷ xs) ha before (sym q))
            ∙ fwd,
        update-other l.prev (l.next dp) x (l.prev dp)
              (λ q. member-ne x (l.next dp) (b ∷ xs) (ground (arith, x_out, hb)) after (sym q))
            ∙ back,
        remove-Linked l x b dp xs rest mem d x_out (ground (arith, hb)),
      )
]

pub member-without :
    (p q : ℕ) (xs : List ℕ)
    → Distinct xs
    → member q (without p xs) ≡ (if p == q then false else member q xs)
member-without p q [] d = ground arith
member-without p q (x ∷ xs) (x_out, d) = elim (Bool-cases (x == p)) [
  | inl e ↦ rw e (ground (arith, e, x_out))
  | inr e ↦ rw e (ground (arith, e, member-without p q xs d))
]

without-Distinct : (p : ℕ) (xs : List ℕ) → Distinct xs → Distinct (without p xs)
without-Distinct p [] d = d
without-Distinct p (x ∷ xs) (x_out, d) = elim (Bool-cases (x == p)) [
  | inl e ↦ rw e d
  | inr e ↦ rw e (ground (arith, member-without p x xs d, x_out), without-Distinct p xs d)
]

-- `RemoveBODesc` takes the descriptor out.
pub remove_bo_desc-Ring :
    {links : Links} {hdr : ℕ} {xs : List ℕ} (dp : ℕ)
    → Ring links hdr xs
    → member dp xs ≡ true
    → Ring (remove_bo_desc links dp) hdr (without dp xs)
remove_bo_desc-Ring {links} {hdr} {xs} dp r m =
    let (hdr_out, d) = r.distinct in
    record {
      linked = remove-Linked links hdr hdr dp xs r.linked m d hdr_out hdr_out;
      distinct = (ground (arith, member-without dp hdr xs d, hdr_out), without-Distinct dp xs d);
    }
