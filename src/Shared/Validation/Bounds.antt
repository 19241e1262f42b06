-- ===== src/Shared/Validation/Bounds.antt =====
-- What an accepted name or key text looks like, character by character.
use phantasma.Prelude.{
  ℕ, refl, all_iff, ◌≤◌, ◌<◌, ◌≡◌, ◌↔◌, ◌⊎◌, Text, Bool, not, ◌&&◌, true, [], ◌∷◌, arith, leb,
  nat_eq, all, All, length,
}
use phantasma.Prelude.Utf8.{len, is_empty, len_utf8, is_ascii_alphanumeric}
use phantasma.Shared.Validation.{
  is_username_char, is_base64url_char, is_valid_username, is_valid_ed25519_public_key_text,
  is_valid_x25519_public_key_text,
}

abbrev pub IsAlphanumeric : ℕ → Type 0
IsAlphanumeric c = ((b'0' ≤ c) × (c ≤ b'9')) ⊎ ((b'A' ≤ c) × (c ≤ b'Z')) ⊎ ((b'a' ≤ c) × (c ≤ b'z'))

abbrev pub IsUsernameChar : ℕ → Type 0
IsUsernameChar c = IsAlphanumeric c ⊎ (c ≡ b'-') ⊎ (c ≡ b'_') ⊎ (c ≡ b'.')

abbrev pub IsBase64urlChar : ℕ → Type 0
IsBase64urlChar c = IsAlphanumeric c ⊎ (c ≡ b'-') ⊎ (c ≡ b'_')

is_username_char_iff : (c : ℕ) → (is_username_char c ≡ true) ↔ IsUsernameChar c
unfolding is_username_char is_ascii_alphanumeric nat_eq
is_username_char_iff c = ground arith

is_base64url_char_iff : (c : ℕ) → (is_base64url_char c ≡ true) ↔ IsBase64urlChar c
unfolding is_base64url_char is_ascii_alphanumeric nat_eq
is_base64url_char_iff c = ground arith

-- A character of the accepted sets takes one byte.
len_utf8-IsUsernameChar : (c : ℕ) → IsUsernameChar c → len_utf8 c ≡ 1
unfolding len_utf8
len_utf8-IsUsernameChar c h = ground arith

module _ (P : ℕ → Type 0) (one_byte : (c : ℕ) → P c → len_utf8 c ≡ 1) where
  len-eq-length : (s : Text) → All P s → len s ≡ length s
  unfolding len
  len-eq-length [] h = refl
  len-eq-length (c ∷ s) h = omega (arith, one_byte c h.0, len-eq-length s h.1)

len_utf8-IsBase64urlChar : (c : ℕ) → IsBase64urlChar c → len_utf8 c ≡ 1
unfolding len_utf8
len_utf8-IsBase64urlChar c h = ground arith

all-is_username_char : (s : Text) → (all is_username_char s ≡ true) ↔ All IsUsernameChar s
all-is_username_char = all_iff is_username_char IsUsernameChar is_username_char_iff

all-is_base64url_char : (s : Text) → (all is_base64url_char s ≡ true) ↔ All IsBase64urlChar s
all-is_base64url_char = all_iff is_base64url_char IsBase64urlChar is_base64url_char_iff

len-username : (s : Text) → All IsUsernameChar s → len s ≡ length s
len-username = len-eq-length IsUsernameChar len_utf8-IsUsernameChar

len-base64url : (s : Text) → All IsBase64urlChar s → len s ≡ length s
len-base64url = len-eq-length IsBase64urlChar len_utf8-IsBase64urlChar

module _ (s : Text) (n : ℕ) (p : Bool) where
  nonempty-&& :
      (not (is_empty s) && leb n 64 && p ≡ true) ↔ ((0 < length s) × (n ≤ 64) × (p ≡ true))
  nonempty-&& = ground arith

-- A name is accepted exactly when it has between 1 and 64 characters, each a letter or digit of
-- ASCII, a dash, an underscore or a dot.
pub is_valid_username_iff :
    (u : Text)
    → (is_valid_username u ≡ true) ↔ ((0 < length u) × (length u ≤ 64) × All IsUsernameChar u)
unfolding is_valid_username
is_valid_username_iff u = (
  λ h.
      let t = (nonempty-&& u (len u) _).0 h in
      let a = (all-is_username_char u).0 t.2 in (t.0, omega (arith, t.1, len-username u a), a),
  λ h.
      (nonempty-&& u (len u) _).1
        (h.0, omega (arith, h.1, len-username u h.2), (all-is_username_char u).1 h.2),
)

-- Either key text is accepted exactly when it has 43 characters of the alphabet of base64url.
pub is_valid_public_key_text_iff :
    (k : Text)
    → ((is_valid_ed25519_public_key_text k ≡ true) ↔ ((length k ≡ 43) × All IsBase64urlChar k))
      × ((is_valid_x25519_public_key_text k ≡ true) ↔ ((length k ≡ 43) × All IsBase64urlChar k))
unfolding is_valid_ed25519_public_key_text is_valid_x25519_public_key_text
is_valid_public_key_text_iff k = (
  ground (arith, all-is_base64url_char k, len-base64url k),
  ground (arith, all-is_base64url_char k, len-base64url k),
)
