-- ===== src/Server/Copies/Totals.antt =====
-- Sums over lists.
use phantasma.Prelude.{ℕ, zero, suc, ◌+◌, ◌≡◌, ap, some, List, [], ◌∷◌, ◌++◌, arith, get_elem?, set}

module _ {ℓ} {A : Type ℓ} (f : A → ℕ) where
  unfoldable pub total : List A → ℕ
  total [] = 0
  total (x ∷ xs) = f x + total xs

  pub total-append : (xs ys : List A) → total (xs ++ ys) ≡ total xs + total ys
  unfolding total
  total-append [] ys = omega arith
  total-append (x ∷ xs) ys = omega (arith, total-append xs ys)

  pub total-snoc : (xs : List A) (y : A) → total (xs ++ y ∷ []) ≡ total xs + f y
  unfolding total
  total-snoc xs y = omega (arith, total-append xs (y ∷ []))

  -- What one element is replaced by counts in its place.
  pub total-set :
      (xs : List A) (i : ℕ) (x y : A)
      → get_elem? xs i ≡ some x
      → total (set xs i y) + f x ≡ total xs + f y
  unfolding total
  total-set [] i x y e = absurd (cc)
  total-set (z ∷ xs) zero x y e = let same : z ≡ x = cc in omega (arith, ap f same)
  total-set (z ∷ xs) (suc i) x y e = omega (arith, total-set xs i x y e)
