-- ===== src/Client/Messages/Pins.antt =====
-- What happens to a contact that is saved.
use phantasma.Prelude.{
  ℕ, Text, Bytes, ok, some, none, ◌≡◌, ◌≢◌, arith, text_eq, nat_eq, Result-cases, Option-cases, inl,
  inr, true, ◌&&◌, leb,
}
use phantasma.Prelude.Dict
use phantasma.Shared.Codec.{Codec}
use phantasma.Shared.Plaintext.{PlaintextChatMessage}
use phantasma.Shared.Encrypted as Encrypted
use phantasma.Shared.Encrypted.{EncryptedChatMessage}
use phantasma.Shared.Registration.{PublicKeyEntry}
use phantasma.Shared.Validation.{is_valid_username}
use phantasma.Client.Crypto.{Primitives, decrypt_message}
use phantasma.Client.Contacts as Contacts
use phantasma.Client.Directory.{
  Outside, Response, ClientState, key_url, lookup_public_key, ensure_success,
}
use phantasma.Client.Messages.{add, find_or_add_sender, open_message, receive_message}

-- The server answers each successful request for a valid name with an entry of that name.
abbrev pub IsHonest : Outside → Text → Type 0
IsHonest o http_base_url =
    (n : ℕ) (username : Text) (response : Response) (entry : PublicKeyEntry)
    → is_valid_username username ≡ true
    → o.get_request n (key_url o http_base_url username) ≡ ok response
    → (leb 200 response.status && leb response.status 299) ≡ true
    → response.json ≡ ok entry
    → entry.username ≡ username

module _ (o : Outside) (http_base_url : Text) where
  -- A lookup leaves the contact book alone, and what it gives is what the server answered.
  pub lookup_public_key-answer :
      (username : Text) (s : ClientState)
      → IsHonest o http_base_url
      → let (r, s') = lookup_public_key o http_base_url username s in
        (s'.book ≡ s.book)
        × ((entry : PublicKeyEntry) → r ≡ ok (some entry) → entry.username ≡ username)
  unfolding lookup_public_key ensure_success
  lookup_public_key-answer username s honest =
      elim (Result-cases (o.get_request s.requests (key_url o http_base_url username))) [
        | inr (f, e) ↦ ground arith
        | inl (response, e) ↦ elim (Result-cases response.json) [
          | inr (f, j) ↦ ground arith
          | inl (entry, j) ↦ ground (
            arith,
            λ (v : is_valid_username username ≡ true)
                  (success : (leb 200 response.status && leb response.status 299) ≡ true).
                honest s.requests username response entry v e success j,
          )
        ]
      ]

  pub contacts-add :
      (entry : PublicKeyEntry) (s : ClientState)
      → (add o entry s).1.book.contacts ≡ Dict.insert entry.username entry s.book.contacts
  unfolding add Contacts.add Contacts.save
  contacts-add entry s = ground arith

  find_or_add_sender-keeps :
      (username name : Text) (entry : PublicKeyEntry) (s : ClientState)
      → IsHonest o http_base_url
      → Dict.get name s.book.contacts ≡ some entry
      → Dict.get name (find_or_add_sender o http_base_url username s).1.book.contacts ≡ some entry
  unfolding find_or_add_sender add
  find_or_add_sender-keeps username name entry s honest h =
      let (same, own) = lookup_public_key-answer username s honest in
      let looked_up = (lookup_public_key o http_base_url username s).1 in
      elim (Option-cases (Dict.get username s.book.contacts)) [
        | inr (known, e) ↦ ground arith
        | inl e ↦ elim (Result-cases (lookup_public_key o http_base_url username s).0) [
          | inr (f, r) ↦ ground arith
          | inl (none, r) ↦ ground arith
          | inl (some found, r) ↦ ground (
            arith,
            own found r,
            contacts-add found looked_up,
            Dict.get-insert name found.username found looked_up.book.contacts,
            name_ne e,
          )
        ]
      ]
    where
      name_ne : Dict.get username s.book.contacts ≡ none → name ≢ username
      name_ne e p = absurd (ground arith)

  module _ (p : Primitives) (plaintext : Codec PlaintextChatMessage)
      (encrypted_codec : Codec EncryptedChatMessage) where
    -- If the server answers each successful request for a valid name with an entry of that name, no
    -- message, whoever sends it, changes a contact that is saved.
    pub receive_message-keeps_contact :
        (receiver_name : Text) (secret_key : Bytes) (public_key : Text) (bytes : Bytes)
        (name : Text) (entry : PublicKeyEntry) (s : ClientState)
        → IsHonest o http_base_url
        → Dict.get name s.book.contacts ≡ some entry
        → Dict.get name
            (receive_message o http_base_url p plaintext encrypted_codec receiver_name secret_key
              public_key bytes s).1.book.contacts
          ≡ some entry
    unfolding receive_message open_message
    receive_message-keeps_contact receiver_name secret_key public_key bytes name entry s honest h =
        elim (Result-cases (Encrypted.from_wire_bytes encrypted_codec bytes)) [
          | inr (f, r) ↦ ground arith
          | inl (e, r) ↦ elim (Result-cases (decrypt_message p plaintext secret_key public_key e)) [
            | inr (f, d) ↦ ground arith
            | inl (m, d) ↦ ground (arith, find_or_add_sender-keeps m.from name entry s honest h)
          ]
        ]

  -- If the server answers the request for an unknown name with an entry of another name, that
  -- entry takes the place of the contact of the other name, and the name that was asked for is
  -- still unknown.
  pub find_or_add_sender-overwrites :
      (username : Text) (response : Response) (entry : PublicKeyEntry) (s : ClientState)
      → is_valid_username username ≡ true
      → Dict.get username s.book.contacts ≡ none
      → o.get_request s.requests (key_url o http_base_url username) ≡ ok response
      → response.status ≡ 200
      → response.json ≡ ok entry
      → entry.username ≢ username
      → let s' = (find_or_add_sender o http_base_url username s).1 in
        (Dict.get entry.username s'.book.contacts ≡ some entry)
        × (Dict.get username s'.book.contacts ≡ none)
  unfolding find_or_add_sender lookup_public_key ensure_success add Contacts.add
  find_or_add_sender-overwrites username response entry s valid unknown e status j ne = ground (
    arith,
    Dict.get-insert entry.username entry.username entry s.book.contacts,
    Dict.get-insert username entry.username entry s.book.contacts,
  )
