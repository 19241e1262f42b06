-- ===== src/Tests/Client.antt =====
-- Witnesses for the client, with toy primitives in place of the crates.
use phantasma.Prelude.{
  ℕ, suc, zero, ◌≡◌, refl, sym, ap, ◌∙◌, Text, Bytes, [], ◌∷◌, ◌++◌, arith, ok, length, take, drop,
  some, Option, none, nat_eq, text_eq, ◌+◌, ◌-◌, if◌then◌else◌, ◌==◌, length-append, take-length,
  all,
}
use phantasma.Prelude.Utf8.{text, len, len_utf8, is_ascii_alphanumeric}
use phantasma.Shared.Plaintext as Plaintext
use phantasma.Shared.Encrypted.{EncryptedChatMessage}
use phantasma.Client.Crypto.{
  Primitives, IsLawful, encrypt_message, decrypt_message, decode_fixed_key, try_into, decode_nonce,
  derive_message_key,
}
use phantasma.Client.Crypto.Opening.{decrypt_message-encrypt_message}
use phantasma.Prelude.Dict
use phantasma.Shared.Encrypted as Encrypted
use phantasma.Shared.Validation.{is_valid_username, is_username_char}
use phantasma.Shared.Plaintext.{PlaintextChatMessage}
use phantasma.Shared.Registration.{PublicKeyEntry}
use phantasma.Client.Directory.{Outside, Response, ClientState, key_url}
use phantasma.Client.Messages.{receive_message, find_or_add_sender}
use phantasma.Client.Messages.Received.{receive_message-impostor}
use phantasma.Client.Messages.Pins.{IsHonest, find_or_add_sender-overwrites}
use phantasma.Tests.Contacts.{machine, contacts_json}
use phantasma.Tests.Codecs.{
  plaintext, plaintext-IsLawful, write_plaintext, encrypted, write_encrypted,
}

-- A secret is taken for its first byte, and a public key is that byte with 31 zeros behind it.
abbrev pub head : Bytes → ℕ
head [] = 0
head (b ∷ _) = b

abbrev pub padded : ℕ → Bytes → Bytes
padded zero rest = rest
padded (suc n) rest = 0 ∷ padded n rest

abbrev open_with : ℕ → Bytes → Option Bytes
open_with key [] = none
open_with key (k ∷ msg) = if key == k then some msg else none

-- The shared secret is the sum of the two bytes, a key is the first byte of it, and a ciphertext
-- is the message behind its key.
abbrev pub toy : Primitives
toy = record {
  encode = λ b. b;
  decode = λ t. some t;
  public_key = λ s. head s ∷ padded 31 [];
  diffie_hellman = λ s r. (head s + head r) ∷ [];
  expand = λ salt secret info. some (head secret ∷ []);
  encrypt = λ key nonce msg aad. some (head key ∷ msg);
  decrypt = λ key nonce ciphertext aad. open_with (head key) ciphertext;
}

pub toy-IsLawful : IsLawful toy
toy-IsLawful = record {
  decode-encode = λ b. refl;
  length-public_key = λ s. refl;
  agreement = λ s r. ap (λ n. n ∷ []) (omega arith);
  expand_total = λ salt secret info. (head secret ∷ [], refl);
  encrypt_total = λ key nonce msg aad small. (head key ∷ msg, refl);
  decrypt-encrypt = λ key nonce msg aad ciphertext e.
      let c : head key ∷ msg ≡ ciphertext = ground arith in ground arith;
}

abbrev alice : Bytes
alice = 5 ∷ []

abbrev bob : Bytes
bob = 9 ∷ []

abbrev wire : Bytes
wire = write_plaintext (Plaintext.new (text "alice") (text "bob") (text "hello bob"))

decrypt_message-encrypt_message_example :
    (e : EncryptedChatMessage) × (encrypt_message toy plaintext
        (padded 24 [])
        (text "alice")
        (text "bob")
        (text "hello bob")
        alice
        (5 ∷ padded 31 [])
        (9 ∷ padded 31 [])
      ≡ ok e)
    × (decrypt_message toy plaintext bob (9 ∷ padded 31 []) e
        ≡ ok (Plaintext.new (text "alice") (text "bob") (text "hello bob")))
    × (e.sender_encryption_public_key ≡ 5 ∷ padded 31 [])
decrypt_message-encrypt_message_example =
    decrypt_message-encrypt_message toy toy-IsLawful plaintext plaintext-IsLawful alice bob
      (padded 24 []) wire (text "alice") (text "bob") (text "hello bob") refl refl (omega arith)

abbrev pub entry_with : Text → Bytes → PublicKeyEntry
entry_with name key = record {
  username = name;
  identity_public_key = key;
  encryption_public_key = key;
}

abbrev pub alice_entry : PublicKeyEntry
alice_entry = entry_with (text "alice") (5 ∷ padded 31 [])

-- The client of bob, who knows alice.
abbrev pub client_of_bob : ClientState
client_of_bob = record {
  book = record { contacts = (text "alice", alice_entry) ∷ []; path = text "contacts/bob.json" };
  files = record { files = []; operations = 0 };
  requests = 0;
  attempts = 0;
  sends = 0;
  sent = [];
  output = [];
}

-- Where the name is in the address of a key, for an empty base.
abbrev pub name_of : Text → Text
name_of url = take (length (drop 7 url) - 11) (drop 7 url)

-- A server that knows everybody by one key.
abbrev pub everybody : Outside
everybody = record {
  get_request = λ n url. ok (record {
    status = 200;
    body = none;
    json = ok (entry_with (name_of url) (7 ∷ padded 31 []));
  });
  machine = machine;
  contacts_json = contacts_json;
  post_request =
      λ n url registration. ok (record { status = 201; body = none; json = ok alice_entry });
  socket_fault = λ n. none;
  connect_fault = λ n url. none;
}

name_of-key_url : (u : Text) → name_of (key_url everybody [] u) ≡ u
unfolding key_url
name_of-key_url u =
    let e : length (u ++ text "/public-key") - 11 ≡ length u =
      omega (arith, length-append u (text "/public-key")) in
    rw e (take-length u (text "/public-key"))

pub everybody-IsHonest : IsHonest everybody []
everybody-IsHonest n username response entry v e success j =
    let r : name_of (key_url everybody [] username) ≡ entry.username = ground arith in
    sym r ∙ name_of-key_url username

-- A server that answers every request with other keys for alice.
abbrev impostor : Response
impostor = record {
  status = 200;
  body = none;
  json = ok (entry_with (text "alice") (8 ∷ padded 31 []));
}

abbrev evil : Outside
evil = record everybody { get_request = λ n url. ok impostor }

find_or_add_sender-overwrites_example :
    let s' = (find_or_add_sender evil [] (text "carol") client_of_bob).1 in
    (Dict.get (text "alice") s'.book.contacts ≡ some (entry_with (text "alice") (8 ∷ padded 31 [])))
    × (Dict.get (text "carol") s'.book.contacts ≡ none)
unfolding key_url is_valid_username Dict.get len len_utf8 all is_username_char is_ascii_alphanumeric
    text_eq nat_eq
find_or_add_sender-overwrites_example =
    find_or_add_sender-overwrites evil [] (text "carol") impostor
      (entry_with (text "alice") (8 ∷ padded 31 [])) client_of_bob refl refl refl refl refl
      (λ p. let h : 97 ≡ 99 = ap head p in omega arith)

-- A message from one who calls himself carol or alice, with the secret 6.
abbrev forged : Text → EncryptedChatMessage
forged name = record {
  version = 1;
  sender_encryption_public_key = 6 ∷ padded 31 [];
  nonce = padded 24 [];
  ciphertext = 15 ∷ write_plaintext (Plaintext.new name (text "bob") (text "hi"));
}

receive_message-impostor_example :
    (receive_message everybody [] toy plaintext encrypted
      (text "bob")
      bob
      (9 ∷ padded 31 [])
      (write_encrypted (forged (text "alice")))
      client_of_bob).1
    ≡ client_of_bob
unfolding Dict.get Encrypted.from_wire_bytes decrypt_message nat_eq decode_fixed_key try_into
    decode_nonce derive_message_key Plaintext.from_wire_bytes text_eq
receive_message-impostor_example =
    receive_message-impostor everybody [] toy plaintext encrypted (text "bob") bob
      (9 ∷ padded 31 []) (write_encrypted (forged (text "alice"))) (forged (text "alice"))
      (Plaintext.new (text "alice") (text "bob") (text "hi")) alice_entry client_of_bob refl refl
      refl (λ p. let h : 5 ≡ 6 = ap head p in omega arith)
