-- ===== src/Prelude/Sorting.antt =====
-- ORDER BY a number, as a stable insertion sort, and what its first rows are.
use pixiv_relay.Prelude.Int.{ℤ, leb_ℤ, ◌≤ℤ◌}
use pixiv_relay.Prelude.{
  ℕ, suc, zero, ◌+◌, ◌≡◌, refl, List, [], ◌∷◌, arith, if◌then◌else◌, All, Bool-cases, inl, inr,
  length, take, drop,
}

module _ {ℓ} {A : Type ℓ} (rank : A → ℤ) where
  unfoldable pub insert_by : A → List A → List A
  insert_by x [] = x ∷ []
  insert_by x (y ∷ ys) = if leb_ℤ (rank x) (rank y) then x ∷ (y ∷ ys) else y ∷ insert_by x ys

  unfoldable pub order_by : List A → List A
  unfolding insert_by
  order_by [] = []
  order_by (x ∷ xs) = insert_by x (order_by xs)

  -- Each element ranks no higher than all that follow.
  abbrev pub IsOrdered : List A → Type 0
  IsOrdered [] = Unit
  IsOrdered (x ∷ xs) = All (λ y. rank x ≤ℤ rank y) xs × IsOrdered xs

  All-insert_by {κ} :
      (P : A → Type κ) (x : A) (ys : List A) → P x → All P ys → All P (insert_by x ys)
  unfolding insert_by
  All-insert_by P x [] p h = (p, tt)
  All-insert_by P x (y ∷ ys) p h = elim (Bool-cases (leb_ℤ (rank x) (rank y))) [
    | inl le ↦ rw le (p, h)
    | inr gt ↦ rw gt (h.0, All-insert_by P x ys p h.1)
  ]

  pub All-order_by {κ} : (P : A → Type κ) (xs : List A) → All P xs → All P (order_by xs)
  unfolding order_by
  All-order_by P [] h = tt
  All-order_by P (x ∷ xs) h = All-insert_by P x (order_by xs) h.0 (All-order_by P xs h.1)

  All-le_trans :
      (a b : ℤ) (ys : List A) → a ≤ℤ b → All (λ y. b ≤ℤ rank y) ys → All (λ y. a ≤ℤ rank y) ys
  All-le_trans a b [] h k = tt
  All-le_trans a b (y ∷ ys) h k = (omega (arith, k.0), All-le_trans a b ys h k.1)

  insert_by-IsOrdered : (x : A) (ys : List A) → IsOrdered ys → IsOrdered (insert_by x ys)
  unfolding insert_by
  insert_by-IsOrdered x [] h = (tt, tt)
  insert_by-IsOrdered x (y ∷ ys) h = elim (Bool-cases (leb_ℤ (rank x) (rank y))) [
    | inl le ↦
        let below : rank x ≤ℤ rank y = ground arith in
        rw le ((below, All-le_trans (rank x) (rank y) ys below h.0), h)
    | inr gt ↦
        let below : rank y ≤ℤ rank x = ground arith in
        rw gt (All-insert_by (λ z. rank y ≤ℤ rank z) x ys below h.0, insert_by-IsOrdered x ys h.1)
  ]

  pub order_by-IsOrdered : (xs : List A) → IsOrdered (order_by xs)
  unfolding order_by
  order_by-IsOrdered [] = tt
  order_by-IsOrdered (x ∷ xs) = insert_by-IsOrdered x (order_by xs) (order_by-IsOrdered xs)

  -- What is taken from the front ranks no higher than what is left.
  pub take-drop-IsOrdered :
      (n : ℕ) (xs : List A)
      → IsOrdered xs
      → All (λ x. All (λ y. rank x ≤ℤ rank y) (drop n xs)) (take n xs)
  take-drop-IsOrdered zero xs h = tt
  take-drop-IsOrdered (suc n) [] h = tt
  take-drop-IsOrdered (suc n) (x ∷ xs) h = (All-drop n xs h.0, take-drop-IsOrdered n xs h.1)
    where
      All-drop :
          (m : ℕ) (ys : List A)
          → All (λ y. rank x ≤ℤ rank y) ys
          → All (λ y. rank x ≤ℤ rank y) (drop m ys)
      All-drop zero ys k = k
      All-drop (suc m) [] k = tt
      All-drop (suc m) (y ∷ ys) k = All-drop m ys k.1

  -- Sorting keeps any sum over the elements.
  abbrev pub sum_by : (A → ℕ) → List A → ℕ
  sum_by f [] = 0
  sum_by f (x ∷ xs) = f x + sum_by f xs

  sum_by-insert_by :
      (f : A → ℕ) (x : A) (ys : List A) → sum_by f (insert_by x ys) ≡ f x + sum_by f ys
  unfolding insert_by
  sum_by-insert_by f x [] = refl
  sum_by-insert_by f x (y ∷ ys) = ground (arith, sum_by-insert_by f x ys)

  pub sum_by-order_by : (f : A → ℕ) (xs : List A) → sum_by f (order_by xs) ≡ sum_by f xs
  unfolding order_by
  sum_by-order_by f [] = refl
  sum_by-order_by f (x ∷ xs) =
      omega (arith, sum_by-insert_by f x (order_by xs), sum_by-order_by f xs)

  pub length-insert_by : (x : A) (ys : List A) → length (insert_by x ys) ≡ suc (length ys)
  unfolding insert_by
  length-insert_by x [] = refl
  length-insert_by x (y ∷ ys) = ground (arith, length-insert_by x ys)

  pub length-order_by : (xs : List A) → length (order_by xs) ≡ length xs
  unfolding order_by
  length-order_by [] = refl
  length-order_by (x ∷ xs) = omega (arith, length-insert_by x (order_by xs), length-order_by xs)
