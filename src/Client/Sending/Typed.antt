-- ===== src/Client/Sending/Typed.antt =====
-- What a line that a user types after `/send` comes to.
use phantasma.Prelude.{
  ℕ, suc, Text, Bytes, true, false, not, some, none, ok, ◌≡◌, ◌≢◌, refl, arith, ◌++◌, ◌∷◌, [], ◌==◌,
  nat_eq, text_eq, all, All,
}
use phantasma.Prelude.Dict
use phantasma.Prelude.Utf8.{is_empty}
use phantasma.Prelude.Str.{is_whitespace, trim, trim_start, trim_end_matches, split_once}
use phantasma.Prelude.Str.Laws.{
  is_solid, trim_solid, trim-append, split_once-append, trim_end_matches-append,
}
use phantasma.Shared.Codec.{Codec}
use phantasma.Shared.Plaintext.{PlaintextChatMessage}
use phantasma.Shared.Encrypted.{EncryptedChatMessage}
use phantasma.Shared.Routed as Routed
use phantasma.Shared.Routed.{RoutedEncryptedMessage}
use phantasma.Shared.Registration.{PublicKeyEntry}
use phantasma.Shared.Validation.{is_valid_username}
use phantasma.Shared.Validation.Bounds.{IsUsernameChar, is_valid_username_iff}
use phantasma.Client.Crypto.{Primitives, encrypt_message}
use phantasma.Client.Identity.{Identity}
use phantasma.Client.Directory.{Outside, ClientState, sent_message}
use phantasma.Client.Sending.{recipient_entry, write_to_socket, send_encrypted, send_message}

-- A message body that is not empty and has no white space at its ends.
pub record IsTrimmed (body : Text) : Type 0 where
  pub full : is_empty body ≡ false
  pub start : trim_start body ≡ body
  pub end : trim_end_matches is_whitespace body ≡ body

username_char-solid : (c : ℕ) → IsUsernameChar c → not (is_whitespace c) ≡ true
unfolding is_whitespace
username_char-solid c h = ground arith

All-IsUsernameChar-solid : (s : Text) → All IsUsernameChar s → is_solid s ≡ true
unfolding all
All-IsUsernameChar-solid [] h = refl
All-IsUsernameChar-solid (c ∷ s) h =
    ground (arith, username_char-solid c h.0, All-IsUsernameChar-solid s h.1)

pub valid-solid : (u : Text) → is_valid_username u ≡ true → is_solid u ≡ true
valid-solid u v = All-IsUsernameChar-solid u ((is_valid_username_iff u).0 v).2

space-is_whitespace : is_whitespace 0x20 ≡ true
unfolding is_whitespace nat_eq
space-is_whitespace = refl

solid-ne-space : (c : ℕ) → not (is_whitespace c) ≡ true → c ≢ 0x20
solid-ne-space c h p = cc (h, p, space-is_whitespace)

solid-no_space : (s : Text) → is_solid s ≡ true → all (λ d. not (d == 0x20)) s ≡ true
unfolding all
solid-no_space [] h = refl
solid-no_space (c ∷ s) h = ground (arith, solid-ne-space c, solid-no_space s)

-- The line splits into the name and the body as they stand.
pub split-typed :
    (recipient body : Text)
    → is_valid_username recipient ≡ true
    → IsTrimmed body
    → (split_once 0x20 (trim (recipient ++ 0x20 ∷ body)) ≡ some (recipient, body))
      × (trim recipient ≡ recipient)
      × (trim body ≡ body)
      × (is_empty recipient ≡ false)
unfolding trim
split-typed [] body v b = absurd (unfold is_valid_username in ground arith)
split-typed (c ∷ r) body v b =
    let solid = valid-solid (c ∷ r) v in
    let tail : trim_end_matches is_whitespace (0x20 ∷ body) ≡ 0x20 ∷ body =
      ground (arith, b.full, b.end, trim_end_matches-append is_whitespace (0x20 ∷ []) body) in
    let whole : trim (c ∷ r ++ 0x20 ∷ body) ≡ c ∷ r ++ 0x20 ∷ body =
      trim-append r (0x20 ∷ body) c solid refl tail in
    (
      rw whole (split_once-append 0x20 (c ∷ r) body (solid-no_space (c ∷ r) solid)),
      trim_solid (c ∷ r) solid,
      rw b.start b.end,
      refl,
    )

module _ (o : Outside) (http_base_url : Text) (p : Primitives)
    (plaintext : Codec PlaintextChatMessage) (routed_codec : Codec RoutedEncryptedMessage)
    (nonce : Bytes) (sender_name : Text) (identity : Identity) where
  pub send_message-typed :
      (recipient body wire : Text) (entry : PublicKeyEntry) (e : EncryptedChatMessage)
      (s : ClientState)
      → is_valid_username recipient ≡ true
      → IsTrimmed body
      → Dict.get recipient s.book.contacts ≡ some entry
      → encrypt_message p plaintext nonce sender_name recipient body identity.encryption_secret_key
          identity.encryption_public_key entry.encryption_public_key
        ≡ ok e
      → Routed.to_wire_bytes routed_codec (Routed.new sender_name recipient e) ≡ ok wire
      → o.socket_fault s.sends ≡ none
      → send_message o http_base_url p plaintext routed_codec nonce sender_name identity
          (recipient ++ 0x20 ∷ body)
          s
        ≡ (
          ok tt,
          record s {
            sends = suc s.sends;
            sent = s.sent ++ wire ∷ [];
            output = s.output ++ sent_message recipient ∷ [];
          },
        )
  unfolding send_message recipient_entry send_encrypted write_to_socket
  send_message-typed recipient body wire entry e s v b known enc w ready =
      let parts = split-typed recipient body v b in ground (arith, parts, b.full)
