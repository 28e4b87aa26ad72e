-- ===== src/CGlobals/Rehash.antt =====
-- Where the items of a table go when it is rehashed.
use smlnj.Prelude.{
  ℕ, zero, suc, ◌<◌, ◌≡◌, refl, sym, ap, ◌∙◌, ◌⊎◌, inl, inr, List, [], ◌∷◌, arith, ◌==◌, length,
  get_or, set, length-set, get_or-set, Bool-cases, ==_refl,
}
use smlnj.CGlobals.{rehash_bucket, rehash}
use smlnj.CGlobals.Buckets.{In}

-- the item is in some bucket
abbrev pub InSome : {A : Type 0} → A → List (List A) → Type 0
InSome y [] = ⊥
InSome y (b ∷ t) = In y b ⊎ InSome y t

pub get_or-InSome :
    {A : Type 0} (t : List (List A)) (y : A) (i : ℕ) → In y (get_or t i []) → InSome y t
get_or-InSome [] y i w = w
get_or-InSome (b ∷ t) y zero w = inl w
get_or-InSome (b ∷ t) y (suc i) w = inr (get_or-InSome t y i w)

pub InSome-get_or :
    {A : Type 0} (t : List (List A)) (y : A) → InSome y t → (i : ℕ) × In y (get_or t i [])
InSome-get_or [] y w = absurd w
InSome-get_or (b ∷ t) y (inl w) = (0, w)
InSome-get_or (b ∷ t) y (inr w) = let (i, w') = InSome-get_or t y w in (suc i, w')

module _ {A : Type 0} (index : A → ℕ) where
  rehash_bucket-length :
      (b : List A) (t : List (List A)) → length (rehash_bucket index b t) ≡ length t
  unfolding rehash_bucket
  rehash_bucket-length [] t = refl
  rehash_bucket-length (x ∷ b) t =
      rehash_bucket-length b (set t (index x) (x ∷ get_or t (index x) []))
      ∙ length-set t (index x) (x ∷ get_or t (index x) [])

  pub rehash-length : (old t : List (List A)) → length (rehash index old t) ≡ length t
  unfolding rehash
  rehash-length [] t = refl
  rehash-length (b ∷ old) t = rehash-length old (rehash_bucket index b t) ∙ rehash_bucket-length b t

  -- one item put in front of its bucket
  pub put-In :
      (t : List (List A)) (x y : A) (i : ℕ)
      → index x < length t
      → (In y (get_or (set t (index x) (x ∷ get_or t (index x) [])) i [])
          → In y (get_or t i []) ⊎ ((y ≡ x) × (index x ≡ i)))
        × (In y (get_or t i []) ⊎ ((y ≡ x) × (index x ≡ i))
            → In y (get_or (set t (index x) (x ∷ get_or t (index x) [])) i []))
  put-In t x y i h =
      rw (get_or-set t (index x) i (x ∷ get_or t (index x) []) [] h)
        (elim (Bool-cases (index x == i)) [
          | inl e ↦
              let k : index x ≡ i = ground arith in
              rw (sym k, ==_refl (index x))
                (
                  λ w. elim w [ inl q ↦ inr (q, refl) | inr rest ↦ inl rest ],
                  λ w. elim w [ inl rest ↦ inr rest | inr (q, _) ↦ inl q ],
                )
          | inr e ↦
              rw e
                (λ w. inl w, λ w. elim w [ inl rest ↦ rest | inr (q, k) ↦ absurd (ground arith) ])
        ])

module _ {A : Type 0} (index : A → ℕ) (sz : ℕ) (small : (x : A) → index x < sz) where
  rehash_bucket-In :
      (b : List A) (t : List (List A)) (y : A) (i : ℕ)
      → length t ≡ sz
      → (In y (get_or (rehash_bucket index b t) i [])
          → In y (get_or t i []) ⊎ (In y b × (index y ≡ i)))
        × (In y (get_or t i []) ⊎ (In y b × (index y ≡ i))
            → In y (get_or (rehash_bucket index b t) i []))
  unfolding rehash_bucket
  rehash_bucket-In [] t y i h = (λ w. inl w, λ w. elim w [ inl w' ↦ w' | inr (w', _) ↦ absurd w' ])
  rehash_bucket-In (x ∷ p) t y i h =
      let t' = set t (index x) (x ∷ get_or t (index x) []) in
      let (to, from) =
        rehash_bucket-In p t' y i (length-set t (index x) (x ∷ get_or t (index x) []) ∙ h) in
      let (put_to, put_from) = put-In index t x y i (omega (arith, small x)) in
      (
        λ w. elim (to w) [
          | inr (w', k) ↦ inr (inr w', k)
          | inl w' ↦ elim (put_to w') [
            | inl old ↦ inl old
            | inr (q, k) ↦ inr (inl q, ap index q ∙ k)
          ]
        ],
        λ w. elim w [
          | inl old ↦ from (inl (put_from (inl old)))
          | inr (inl q, k) ↦ from (inl (put_from (inr (q, sym (ap index q) ∙ k))))
          | inr (inr rest, k) ↦ from (inr (rest, k))
        ],
      )

  -- after a rehash an item stands in its bucket, if it stood there or in the old table
  pub rehash-In :
      (old t : List (List A)) (y : A) (i : ℕ)
      → length t ≡ sz
      → (In y (get_or (rehash index old t) i [])
          → In y (get_or t i []) ⊎ (InSome y old × (index y ≡ i)))
        × (In y (get_or t i []) ⊎ (InSome y old × (index y ≡ i))
            → In y (get_or (rehash index old t) i []))
  unfolding rehash
  rehash-In [] t y i h = (λ w. inl w, λ w. elim w [ inl w' ↦ w' | inr (w', _) ↦ absurd w' ])
  rehash-In (b ∷ old) t y i h =
      let (to, from) =
        rehash-In old (rehash_bucket index b t) y i (rehash_bucket-length index b t ∙ h) in
      let (b_to, b_from) = rehash_bucket-In b t y i h in
      (
        λ w. elim (to w) [
          | inr (w', k) ↦ inr (inr w', k)
          | inl w' ↦ elim (b_to w') [ inl before ↦ inl before | inr (w'', k) ↦ inr (inl w'', k) ]
        ],
        λ w. elim w [
          | inl before ↦ from (inl (b_from (inl before)))
          | inr (inl w', k) ↦ from (inl (b_from (inr (w', k))))
          | inr (inr w', k) ↦ from (inr (w', k))
        ],
      )
