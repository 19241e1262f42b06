-- ===== src/Prelude/Lists.antt =====
-- Lists measured and indexed by native numbers, under the library's names.
use Prim.Native.Nat.{ℕ, zero, suc, ◌+◌, ◌<◌}
use mathlib.Core.Path.{◌≡◌, refl, ap}
use mathlib.Core.Logic.{◌≢◌, ◌↔◌}
use mathlib.Core.Bool.{Bool, true, ◌&&◌}
use mathlib.Core.Option.{Option, none, some}
use mathlib.Core.List.{List, [], ◌∷◌, ◌++◌}
use native.Mathlib.Omega.{arith}
use phantasma.Prelude.Equality.{◌==◌, nat_eq, if◌then◌else◌}

module _ {ℓ} {A : Type ℓ} where
  abbrev pub length : List A → ℕ
  length [] = 0
  length (x ∷ xs) = suc (length xs)

  abbrev pub get_elem? : List A → ℕ → Option A
  get_elem? [] i = none
  get_elem? (x ∷ xs) zero = some x
  get_elem? (x ∷ xs) (suc i) = get_elem? xs i

  abbrev pub set : List A → ℕ → A → List A
  set [] i v = []
  set (x ∷ xs) zero v = v ∷ xs
  set (x ∷ xs) (suc i) v = x ∷ set xs i v

  abbrev pub take : ℕ → List A → List A
  take zero xs = []
  take (suc n) [] = []
  take (suc n) (x ∷ xs) = x ∷ take n xs

  abbrev pub drop : ℕ → List A → List A
  drop zero xs = xs
  drop (suc n) [] = []
  drop (suc n) (x ∷ xs) = drop n xs

  -- Every element passes the test.
  unfoldable pub all : (A → Bool) → List A → Bool
  all p [] = true
  all p (x ∷ xs) = p x && all p xs

  -- The elements that pass the test, in order.
  unfoldable pub keep : (A → Bool) → List A → List A
  keep p [] = []
  keep p (x ∷ xs) = let rest = keep p xs in if p x then x ∷ rest else rest

  abbrev pub All {κ} : (A → Type κ) → List A → Type κ
  All P [] = Unit
  All P (x ∷ xs) = P x × All P xs

module _ {ℓ} {A : Type ℓ} where
  pub length-append : (xs ys : List A) → length (xs ++ ys) ≡ length xs + length ys
  length-append [] ys = omega arith
  length-append (x ∷ xs) ys = omega (arith, length-append xs ys)

  pub get_elem?-set_self :
      (xs : List A) (i : ℕ) (v : A) → i < length xs → get_elem? (set xs i v) i ≡ some v
  get_elem?-set_self [] i v h = elim h [ ]
  get_elem?-set_self (x ∷ xs) zero v h = refl
  get_elem?-set_self (x ∷ xs) (suc i) v h = get_elem?-set_self xs i v (omega arith)

  pub get_elem?-set_ne :
      (xs : List A) (i j : ℕ) (v : A) → i ≢ j → get_elem? (set xs i v) j ≡ get_elem? xs j
  get_elem?-set_ne [] i j v h = refl
  get_elem?-set_ne (x ∷ xs) zero zero v h = absurd (h refl)
  get_elem?-set_ne (x ∷ xs) zero (suc j) v h = refl
  get_elem?-set_ne (x ∷ xs) (suc i) zero v h = refl
  get_elem?-set_ne (x ∷ xs) (suc i) (suc j) v h = get_elem?-set_ne xs i j v (λ e. h (ap suc e))

  pub get_elem?-lt : (xs : List A) (i : ℕ) (v : A) → get_elem? xs i ≡ some v → i < length xs
  get_elem?-lt [] i v h = absurd (cc)
  get_elem?-lt (x ∷ xs) zero v h = omega arith
  get_elem?-lt (x ∷ xs) (suc i) v h = omega (arith, get_elem?-lt xs i v h)

  pub get_elem?-append_lt :
      (xs ys : List A) (i : ℕ) → i < length xs → get_elem? (xs ++ ys) i ≡ get_elem? xs i
  get_elem?-append_lt [] ys i h = elim h [ ]
  get_elem?-append_lt (x ∷ xs) ys zero h = refl
  get_elem?-append_lt (x ∷ xs) ys (suc i) h = get_elem?-append_lt xs ys i (omega arith)

  pub get_elem?-append_length :
      (xs : List A) (y : A) (ys : List A) → get_elem? (xs ++ y ∷ ys) (length xs) ≡ some y
  get_elem?-append_length [] y ys = refl
  get_elem?-append_length (x ∷ xs) y ys = get_elem?-append_length xs y ys

  pub length-set : (xs : List A) (i : ℕ) (v : A) → length (set xs i v) ≡ length xs
  length-set [] i v = refl
  length-set (x ∷ xs) zero v = refl
  length-set (x ∷ xs) (suc i) v = ap suc (length-set xs i v)

  pub keep-append : (p : A → Bool) (xs ys : List A) → keep p (xs ++ ys) ≡ keep p xs ++ keep p ys
  unfolding keep
  keep-append p [] ys = refl
  keep-append p (x ∷ xs) ys = ground (arith, keep-append p xs ys)

  pub All-append {κ} : (P : A → Type κ) (xs ys : List A) → All P xs → All P ys → All P (xs ++ ys)
  All-append P [] ys h k = k
  All-append P (x ∷ xs) ys h k = (h.0, All-append P xs ys h.1 k)

  pub All-keep {κ} : (P : A → Type κ) (p : A → Bool) (xs : List A) → All P xs → All P (keep p xs)
  unfolding keep
  All-keep P p [] h = tt
  All-keep P p (x ∷ xs) h = ground (arith, h.0, All-keep P p xs h.1)

  -- A Boolean test of every element decides the predicate that the test decides.
  pub all_iff {κ} :
      (p : A → Bool) (P : A → Type κ)
      → ((a : A) → (p a ≡ true) ↔ P a)
      → (xs : List A) → (all p xs ≡ true) ↔ All P xs
  unfolding all
  all_iff p P h [] = (λ _. tt, λ _. refl)
  all_iff p P h (x ∷ xs) = ground (arith, h x, all_iff p P h xs)

  pub All-map {κ ι} :
      (P : A → Type κ) (Q : A → Type ι)
      → ((a : A) → P a → Q a)
      → (xs : List A) → All P xs
      → All Q xs
  All-map P Q f [] h = tt
  All-map P Q f (x ∷ xs) h = (f x h.0, All-map P Q f xs h.1)

module _ {ℓ} {A : Type ℓ} where
  pub get_elem?-set :
      (cs : List A) (a b : ℕ) (c d : A)
      → get_elem? cs a ≡ some d
      → get_elem? (set cs a c) b ≡ (if a == b then some c else get_elem? cs b)
  get_elem?-set cs a b c d e = elim (nat_eq.dec a b) [
    | yes p ↦ ground (arith, get_elem?-set_self cs a c (get_elem?-lt cs a d e))
    | no p ↦ ground (arith, get_elem?-set_ne cs a b c p)
  ]

  pub set-eq_self_of_none : (cs : List A) (a : ℕ) (c : A) → get_elem? cs a ≡ none → set cs a c ≡ cs
  set-eq_self_of_none [] a c e = refl
  set-eq_self_of_none (d ∷ cs) zero c e = absurd (cc)
  set-eq_self_of_none (d ∷ cs) (suc a) c e = cc (set-eq_self_of_none cs a c e)

  pub get_elem?-append :
      (cs : List A) (b : ℕ) (c : A)
      → get_elem? (cs ++ c ∷ []) b ≡ (if length cs == b then some c else get_elem? cs b)
  get_elem?-append [] zero c = ground arith
  get_elem?-append [] (suc b) c = ground arith
  get_elem?-append (d ∷ cs) zero c = ground arith
  get_elem?-append (d ∷ cs) (suc b) c = ground (arith, get_elem?-append cs b c)

  pub get_elem?-length : (cs : List A) (b : ℕ) → length cs ≡ b → get_elem? cs b ≡ none
  get_elem?-length [] b e = refl
  get_elem?-length (d ∷ cs) zero e = absurd (omega arith)
  get_elem?-length (d ∷ cs) (suc b) e = get_elem?-length cs b (omega arith)

module _ {ℓ} {A : Type ℓ} where
  pub take-length : (t rest : List A) → take (length t) (t ++ rest) ≡ t
  take-length [] rest = refl
  take-length (c ∷ t) rest = cc (take-length t rest)

  pub drop-length : (t rest : List A) → drop (length t) (t ++ rest) ≡ rest
  drop-length [] rest = refl
  drop-length (c ∷ t) rest = drop-length t rest
