-- ===== src/Server/Hex/Decoding.antt =====
-- The preview in the log shows the first bytes of a payload, and can be read back.
use phantasma.Prelude.{
  ℕ, zero, suc, ◌/◌, ◌%◌, ◌⊎◌, inl, inr, Bool-cases, ◌+◌, ◌*◌, ◌-◌, ◌≤◌, ◌<◌, ◌≡◌, refl, Text,
  Bytes, [], ◌∷◌, ◌++◌, arith, length, take, leb, All, if◌then◌else◌,
}
use phantasma.Prelude.Utf8.{text}
use phantasma.Server.Hex.{limit, hex_digit, hex_bytes, hex_preview}

-- The value of a digit, and of a text of digits, two to a byte.
abbrev pub digit_value : ℕ → ℕ
digit_value c = if leb c b'9' then c - b'0' else c - b'W'

pub unhex : Text → Bytes
unhex [] = []
unhex (a ∷ []) = []
unhex (a ∷ b ∷ rest) = (digit_value a * 16 + digit_value b) ∷ unhex rest

abbrev double : ℕ → ℕ
double zero = 0
double (suc n) = suc (suc (double n))

digit_value-hex_digit : (n : ℕ) → n < 16 → digit_value (hex_digit n) ≡ n
unfolding hex_digit
digit_value-hex_digit n h = ground arith

byte_of_digits :
    (byte : ℕ)
    → byte < 256
    → digit_value (hex_digit (byte / 16)) * 16 + digit_value (hex_digit (byte % 16)) ≡ byte
byte_of_digits byte h = omega (
  arith,
  digit_value-hex_digit (byte / 16) (omega arith),
  digit_value-hex_digit (byte % 16) (omega arith),
)

unhex-take :
    (n : ℕ) (bytes : Bytes) (tail : Text)
    → (tail ≡ []) ⊎ (n ≤ length bytes)
    → All (λ b. b < 256) bytes
    → unhex (take (double n) (hex_bytes (take n bytes) ++ tail)) ≡ take n bytes
unfolding unhex hex_bytes
unhex-take zero bytes tail h v = refl
unhex-take (suc n) [] tail (inl e) v = rw e
unhex-take (suc n) [] tail (inr h) v = absurd (omega arith)
unhex-take (suc n) (b ∷ bytes) tail (inl e) v =
    cc (byte_of_digits b v.0, unhex-take n bytes tail (inl e) v.1)
unhex-take (suc n) (b ∷ bytes) tail (inr h) v =
    cc (byte_of_digits b v.0, unhex-take n bytes tail (inr (omega arith)) v.1)

-- Reading back the first 192 characters of the preview of a payload, two digits to a byte,
-- gives the first 96 bytes of the payload.
pub unhex-hex_preview :
    (bytes : Bytes)
    → All (λ b. b < 256) bytes
    → unhex (take 192 (hex_preview bytes)) ≡ take 96 bytes
unfolding hex_preview
unhex-hex_preview bytes v = elim (Bool-cases (leb (length bytes) limit)) [
  | inl short ↦ rw short (unhex-take 96 bytes [] (inl refl) v)
  | inr long ↦ rw long (unhex-take 96 bytes (text "...") (inr (ground arith)) v)
]
