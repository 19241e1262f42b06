-- ===== src/Client/Sending/Pins.antt =====
-- What the user's own commands do to a contact that is saved.
use phantasma.Prelude.{
  Text, Bytes, ok, some, none, ◌≡◌, ◌≢◌, arith, text_eq, nat_eq, Result-cases, Option-cases, inl,
  inr,
}
use phantasma.Prelude.Dict
use phantasma.Prelude.Str.{trim, split_once}
use phantasma.Shared.Codec.{Codec}
use phantasma.Shared.Plaintext.{PlaintextChatMessage}
use phantasma.Shared.Routed.{RoutedEncryptedMessage}
use phantasma.Shared.Registration.{PublicKeyEntry}
use phantasma.Client.Crypto.{Primitives}
use phantasma.Client.Identity.{Identity}
use phantasma.Client.Directory.{Outside, ClientState, lookup_public_key}
use phantasma.Client.Messages.{add, add_contact}
use phantasma.Client.Messages.Pins.{IsHonest, lookup_public_key-answer, contacts-add}
use phantasma.Client.Sending.{recipient_entry, send_encrypted, write_to_socket, send_message}

module _ (o : Outside) (http_base_url : Text) (name : Text) (entry : PublicKeyEntry) where
  -- The contact of `name` is saved.
  abbrev IsSaved : ClientState → Type 0
  IsSaved s = Dict.get name s.book.contacts ≡ some entry

  -- After a lookup of another name, saving what was found keeps the contact.
  add-keeps :
      (username : Text) (found : PublicKeyEntry) (s : ClientState)
      → IsHonest o http_base_url
      → username ≢ name
      → (lookup_public_key o http_base_url username s).0 ≡ ok (some found)
      → IsSaved s
      → IsSaved (add o found (lookup_public_key o http_base_url username s).1).1
  add-keeps username found s honest other e h =
      let (same, own) = lookup_public_key-answer o http_base_url username s honest in
      let looked_up = (lookup_public_key o http_base_url username s).1 in
      ground (
        arith,
        own found e,
        contacts-add o http_base_url found looked_up,
        Dict.get-insert name found.username found looked_up.book.contacts,
      )

  pub add_contact-keeps :
      (username : Text) (s : ClientState)
      → IsHonest o http_base_url
      → username ≢ name
      → IsSaved s
      → IsSaved (add_contact o http_base_url username s).1
  unfolding add_contact add
  add_contact-keeps username s honest other h =
      let (same, own) = lookup_public_key-answer o http_base_url username s honest in
      elim (Result-cases (lookup_public_key o http_base_url username s).0) [
        | inr (f, r) ↦ ground arith
        | inl (none, r) ↦ ground arith
        | inl (some found, r) ↦ ground (arith, add-keeps username found s honest other r h)
      ]

  recipient_entry-keeps :
      (recipient : Text) (s : ClientState)
      → IsHonest o http_base_url
      → IsSaved s
      → IsSaved (recipient_entry o http_base_url recipient s).1
  unfolding recipient_entry add
  recipient_entry-keeps recipient s honest h =
      let (same, own) = lookup_public_key-answer o http_base_url recipient s honest in
      elim (Option-cases (Dict.get recipient s.book.contacts)) [
        | inr (known, e) ↦ ground arith
        | inl e ↦ elim (Result-cases (lookup_public_key o http_base_url recipient s).0) [
          | inr (f, r) ↦ ground arith
          | inl (none, r) ↦ ground arith
          | inl (some found, r) ↦ ground (arith, add-keeps recipient found s honest (name_ne e) r h)
        ]
      ]
    where
      name_ne : Dict.get recipient s.book.contacts ≡ none → recipient ≢ name
      name_ne e p = absurd (ground arith)

  module _ (p : Primitives) (plaintext : Codec PlaintextChatMessage)
      (routed_codec : Codec RoutedEncryptedMessage) (nonce : Bytes) (sender_name : Text)
      (identity : Identity) where
    send_encrypted-book :
        (recipient body : Text) (found : PublicKeyEntry) (s : ClientState)
        → (send_encrypted o http_base_url p plaintext routed_codec nonce sender_name identity
            recipient body found s).1.book
          ≡ s.book
    unfolding send_encrypted write_to_socket
    send_encrypted-book recipient body found s = ground arith

    pub send_message-keeps :
        (rest : Text) (s : ClientState)
        → IsHonest o http_base_url
        → IsSaved s
        → IsSaved
            (send_message o http_base_url p plaintext routed_codec nonce sender_name identity rest
              s).1
    unfolding send_message
    send_message-keeps rest s honest h = elim (Option-cases (split_once 0x20 (trim rest))) [
      | inl e ↦ ground arith
      | inr ((recipient, body), e) ↦
          let kept = recipient_entry-keeps (trim recipient) s honest h in
          elim (Result-cases (recipient_entry o http_base_url (trim recipient) s).0) [
            | inr (f, r) ↦ ground arith
            | inl (none, r) ↦ ground arith
            | inl (some found, r) ↦
                let after = (recipient_entry o http_base_url (trim recipient) s).1 in
                ground (arith, send_encrypted-book (trim recipient) (trim body) found after)
          ]
    ]
