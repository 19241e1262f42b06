-- ===== src/Tests/Codecs.antt =====
-- Concrete codecs for the message types: each text behind its length.
use phantasma.Prelude.{
  take-length, drop-length, ◌≡◌, refl, ap, sym, ◌∙◌, Text, Bytes, [], ◌∷◌, ◌++◌, arith, Result, ok,
  err, length, take, drop,
}
use mathlib.Core.List.{append-nil}
use phantasma.Shared.Codec.{Codec, JsonError, syntax, IsLawful}
use phantasma.Shared.Plaintext.{PlaintextChatMessage}
use phantasma.Shared.Encrypted.{EncryptedChatMessage}
use phantasma.Shared.Routed.{RoutedEncryptedMessage}

abbrev pub field : Text → Bytes
field t = length t ∷ t

abbrev pub first : Bytes → Text
first [] = []
first (n ∷ rest) = take n rest

abbrev pub behind : Bytes → Bytes
behind [] = []
behind (n ∷ rest) = drop n rest

abbrev pub read_plaintext : Bytes → Result JsonError PlaintextChatMessage
read_plaintext [] = err syntax
read_plaintext (n ∷ b) = ok (record {
  from = first (n ∷ b);
  to = first (behind (n ∷ b));
  body = first (behind (behind (n ∷ b)));
})

abbrev pub write_plaintext : PlaintextChatMessage → Bytes
write_plaintext m = field m.from ++ (field m.to ++ field m.body)

abbrev pub plaintext : Codec PlaintextChatMessage
plaintext = record { to_vec = λ m. ok (write_plaintext m); from_slice = read_plaintext }

abbrev pub read_encrypted : Bytes → Result JsonError EncryptedChatMessage
read_encrypted [] = err syntax
read_encrypted (v ∷ b) = ok (record {
  version = v;
  sender_encryption_public_key = first b;
  nonce = first (behind b);
  ciphertext = first (behind (behind b));
})

abbrev pub write_encrypted : EncryptedChatMessage → Bytes
write_encrypted m =
    m.version ∷ (field m.sender_encryption_public_key ++ (field m.nonce ++ field m.ciphertext))

abbrev pub encrypted : Codec EncryptedChatMessage
encrypted = record { to_vec = λ m. ok (write_encrypted m); from_slice = read_encrypted }

abbrev route :
    Text → Text → Result JsonError EncryptedChatMessage → Result JsonError RoutedEncryptedMessage
route from to (ok m) = ok (record { from = from; to = to; encrypted = m })
route from to (err e) = err e

abbrev pub routed : Codec RoutedEncryptedMessage
routed = record {
  to_vec = λ m. ok (field m.from ++ (field m.to ++ write_encrypted m.encrypted));
  from_slice = λ b. route (first b) (first (behind b)) (read_encrypted (behind (behind b)));
}

pub first-field_last : (t : Text) → first (field t) ≡ t
first-field_last t = ap (take (length t)) (sym (append-nil t)) ∙ take-length t []

read-write_plaintext : (m : PlaintextChatMessage) → read_plaintext (write_plaintext m) ≡ ok m
read-write_plaintext m = ground (
  arith,
  take-length m.from (field m.to ++ field m.body),
  drop-length m.from (field m.to ++ field m.body),
  take-length m.to (field m.body),
  drop-length m.to (field m.body),
  first-field_last m.body,
)

read-write_encrypted : (m : EncryptedChatMessage) → read_encrypted (write_encrypted m) ≡ ok m
read-write_encrypted m = ground (
  arith,
  take-length m.sender_encryption_public_key (field m.nonce ++ field m.ciphertext),
  drop-length m.sender_encryption_public_key (field m.nonce ++ field m.ciphertext),
  take-length m.nonce (field m.ciphertext),
  drop-length m.nonce (field m.ciphertext),
  first-field_last m.ciphertext,
)

pub plaintext-IsLawful : IsLawful plaintext
plaintext-IsLawful = record {
  total = λ m. (write_plaintext m, refl);
  round_trip = λ m bytes e.
      let w : write_plaintext m ≡ bytes = ground arith in rw (← w) (read-write_plaintext m);
}

pub encrypted-IsLawful : IsLawful encrypted
encrypted-IsLawful = record {
  total = λ m. (write_encrypted m, refl);
  round_trip = λ m bytes e.
      let w : write_encrypted m ≡ bytes = ground arith in rw (← w) (read-write_encrypted m);
}

abbrev write_routed : RoutedEncryptedMessage → Bytes
write_routed m = field m.from ++ (field m.to ++ write_encrypted m.encrypted)

read-write_routed : (m : RoutedEncryptedMessage) → routed.from_slice (write_routed m) ≡ ok m
read-write_routed m =
    let e = write_encrypted m.encrypted in
    ground (
      arith,
      take-length m.from (field m.to ++ e),
      drop-length m.from (field m.to ++ e),
      take-length m.to e,
      drop-length m.to e,
      read-write_encrypted m.encrypted,
    )

pub routed-IsLawful : IsLawful routed
routed-IsLawful = record {
  total = λ m. (write_routed m, refl);
  round_trip =
      λ m bytes e. let w : write_routed m ≡ bytes = ground arith in rw (← w) (read-write_routed m);
}
