-- ===== src/Prelude/Str/Laws.antt =====
-- How trimming, splitting and stripping act on texts that were put together.
use Prim.Native.Nat.{ℕ, ◌-◌}
use mathlib.Core.Path.{◌≡◌, refl, ap, sym, ◌∙◌}
use mathlib.Core.Logic.{◌≢◌, inl, inr}
use mathlib.Core.Bool.{Bool, true, false, not}
use mathlib.Core.Option.{some}
use mathlib.Core.List.{[], ◌∷◌, ◌++◌}
use native.Mathlib.Omega.{arith}
use phantasma.Prelude.Equality.{Text, ◌==◌, nat_eq, text_eq, Bool-cases}
use phantasma.Prelude.Lists.{length, length-append, take-length, drop-length, all}
use phantasma.Prelude.Utf8.{is_empty}
use phantasma.Prelude.Str.{
  is_whitespace, trim_end_matches, trim_start, trim, split_once, strip_prefix, strip_suffix,
}

pub trim_end_matches-append :
    (p : ℕ → Bool) (a b : Text)
    → is_empty (trim_end_matches p b) ≡ false
    → trim_end_matches p (a ++ b) ≡ a ++ trim_end_matches p b
unfolding trim_end_matches
trim_end_matches-append p [] b h = refl
trim_end_matches-append p (c ∷ []) b h = ground arith
trim_end_matches-append p (c ∷ d ∷ a) b h = ground (arith, trim_end_matches-append p (d ∷ a) b h)

pub strip_prefix-append : (p s : Text) → strip_prefix p (p ++ s) ≡ some s
unfolding strip_prefix
strip_prefix-append [] s = refl
strip_prefix-append (c ∷ p) s = ground (arith, strip_prefix-append p s)

pub strip_suffix-append : (s suffix : Text) → strip_suffix suffix (s ++ suffix) ≡ some s
unfolding strip_suffix
strip_suffix-append s suffix =
    let e : length (s ++ suffix) - length suffix ≡ length s =
      omega (arith, length-append s suffix) in
    ground (arith, e, take-length s suffix, drop-length s suffix, length-append s suffix)

pub split_once-append :
    (c : ℕ) (a b : Text)
    → all (λ d. not (d == c)) a ≡ true
    → split_once c (a ++ c ∷ b) ≡ some (a, b)
unfolding split_once all
split_once-append c [] b h = ground arith
split_once-append c (d ∷ a) b h = ground (arith, split_once-append c a b)

-- A text without white space is as it is trimmed.
abbrev pub is_solid : Text → Bool
is_solid = all (λ c. not (is_whitespace c))

pub trim_end_solid : (s : Text) → is_solid s ≡ true → trim_end_matches is_whitespace s ≡ s
unfolding trim_end_matches all
trim_end_solid [] h = refl
trim_end_solid (c ∷ s) h = ground (arith, trim_end_solid s)

trim_start_solid : (s : Text) → is_solid s ≡ true → trim_start s ≡ s
unfolding trim_start all
trim_start_solid [] h = refl
trim_start_solid (c ∷ s) h = ground arith

pub trim_solid : (s : Text) → is_solid s ≡ true → trim s ≡ s
unfolding trim
trim_solid s h = rw (trim_start_solid s h) (trim_end_solid s h)

-- A text that starts with such a text and ends in one that ends in no white space.
pub trim-append :
    (a b : Text) (c : ℕ)
    → is_solid (c ∷ a) ≡ true
    → is_empty b ≡ false
    → trim_end_matches is_whitespace b ≡ b
    → trim (c ∷ a ++ b) ≡ c ∷ a ++ b
unfolding trim trim_start all
trim-append a b c h full e = ground (arith, trim_end_matches-append is_whitespace (c ∷ a) b)

pub strip_prefix-some : (p s rest : Text) → strip_prefix p s ≡ some rest → s ≡ p ++ rest
unfolding strip_prefix
strip_prefix-some [] s rest h = cc
strip_prefix-some (c ∷ p) [] rest h = absurd (cc)
strip_prefix-some (c ∷ p) (d ∷ s) rest h = ground (arith, strip_prefix-some p s rest)

trim_end-trim_end :
    (p : ℕ → Bool) (s : Text) → trim_end_matches p (trim_end_matches p s) ≡ trim_end_matches p s
unfolding trim_end_matches
trim_end-trim_end p [] = refl
trim_end-trim_end p (c ∷ s) = ground (arith, trim_end-trim_end p s)

trim_end-append_empty :
    (p : ℕ → Bool) (a b : Text)
    → is_empty (trim_end_matches p b) ≡ true
    → trim_end_matches p (a ++ b) ≡ trim_end_matches p a
unfolding trim_end_matches
trim_end-append_empty p [] b h = ground arith
trim_end-append_empty p (c ∷ a) b h = ground (arith, trim_end-append_empty p a b h)

trim-empty :
    (s : Text) → is_empty (trim s) ≡ true → is_empty (trim_end_matches is_whitespace s) ≡ true
unfolding trim trim_start trim_end_matches
trim-empty [] h = refl
trim-empty (c ∷ s) h = ground (arith, trim-empty s)

-- What is left of a trimmed text after a prefix that ends in white space is not all white space.
pub trim-after :
    (p q s rest : Text)
    → trim s ≡ p ++ rest
    → trim_end_matches is_whitespace p ≡ q
    → (p ++ rest) ≢ q
    → is_empty (trim rest) ≡ false
unfolding trim
trim-after p q s rest h e ne = elim (Bool-cases (is_empty (trim rest))) [
  | inr full ↦ full
  | inl empty ↦ absurd (
      ne (
        sym h
        ∙ sym (trim_end-trim_end is_whitespace (trim_start s))
        ∙ ap (trim_end_matches is_whitespace) h
        ∙ trim_end-append_empty is_whitespace p rest (trim-empty rest empty)
        ∙ e))
]
