-- ===== src/Tests/Contacts.antt =====
-- A toy format for the contacts file, and contacts at concrete data.
use phantasma.Prelude.{
  ℕ, zero, suc, ◌≡◌, refl, Text, [], ◌∷◌, ◌++◌, true, arith, ok, err, Result, some, none, nat_eq,
  text_eq, take-length, drop-length, length, all, if◌then◌else◌, ◌==◌, ap,
}
use phantasma.Prelude.Dict
use phantasma.Prelude.Dict.{Dict}
use phantasma.Prelude.Utf8.{text, len, len_utf8, is_ascii_alphanumeric}
use phantasma.Shared.Codec.{JsonError, syntax}
use phantasma.Shared.Registration.{PublicKeyEntry}
use phantasma.Shared.Validation.{is_valid_username, is_username_char}
use phantasma.Client.Files as Files
use phantasma.Client.Files.{Machine, FileSystem}
use phantasma.Client.Contacts.{ContactBook, ContactsJson, add, save, load_or_create_in}
use phantasma.Client.Contacts.Reload.{IsFaithful, load_or_create_in-add}
use phantasma.Tests.Codecs.{field, first, behind}

abbrev pub machine : Machine
machine = record { unix = true; join = λ a b. a ++ 47 ∷ b; fault = λ n. none }

abbrev pub write_entry : Text × PublicKeyEntry → Text → Text
write_entry (k, e) rest =
    field k
    ++ (field e.username
        ++ (field e.identity_public_key ++ (field e.encryption_public_key ++ rest)))

abbrev pub write_entries : Dict Text PublicKeyEntry → Text
write_entries [] = []
write_entries (x ∷ d) = write_entry x (write_entries d)

abbrev pub read_entry : Text → Text × PublicKeyEntry
read_entry t = (
  first t,
  record {
    username = first (behind t);
    identity_public_key = first (behind (behind t));
    encryption_public_key = first (behind (behind (behind t)));
  },
)

abbrev pub read_entries : ℕ → Text → Dict Text PublicKeyEntry
read_entries zero t = []
read_entries (suc n) t = read_entry t ∷ read_entries n (behind (behind (behind (behind t))))

abbrev read_contacts : Text → Result JsonError (Dict Text PublicKeyEntry)
read_contacts [] = err syntax
read_contacts (n ∷ t) = ok (read_entries n t)

abbrev pub contacts_json : ContactsJson
contacts_json = record {
  from_str = read_contacts;
  to_string_pretty = λ d. ok (length d ∷ write_entries d);
}

first-field : (t rest : Text) → first (field t ++ rest) ≡ t
first-field t rest = take-length t rest

behind-field : (t rest : Text) → behind (field t ++ rest) ≡ rest
behind-field t rest = drop-length t rest

read-write_entries : (d : Dict Text PublicKeyEntry) → read_entries (length d) (write_entries d) ≡ d
read-write_entries [] = refl
read-write_entries ((k, e) ∷ d) =
    let r = write_entries d in
    let c = field e.encryption_public_key ++ r in
    let b = field e.identity_public_key ++ c in
    let a = field e.username ++ b in
    simp (
      first-field k a,
      behind-field k a,
      first-field e.username b,
      behind-field e.username b,
      first-field e.identity_public_key c,
      behind-field e.identity_public_key c,
      first-field e.encryption_public_key r,
      behind-field e.encryption_public_key r,
      read-write_entries d,
    )

contacts_json-IsFaithful : IsFaithful contacts_json
contacts_json-IsFaithful = record {
  reads = λ d t. d;
  from_str-to_string = λ d t e.
      let w : length d ∷ write_entries d ≡ t = ground arith in
      rw (← w) (ap ok (read-write_entries d));
  same_entries = λ d t name. refl;
}

abbrev alice : Text
alice = text "alice"

abbrev root : Text
root = text "home"

abbrev path : Text
path = text "home/contacts/alice.json"

abbrev bob_entry : PublicKeyEntry
bob_entry = record {
  username = text "bob";
  identity_public_key = 7 ∷ [];
  encryption_public_key = 8 ∷ [];
}

abbrev empty_book : ContactBook
empty_book = record { contacts = []; path = path }

abbrev files : FileSystem
files = record { files = []; operations = 3 }

alice-is_valid : is_valid_username alice ≡ true
unfolding is_valid_username len len_utf8 all is_username_char is_ascii_alphanumeric nat_eq
alice-is_valid = refl

add_ok : (add machine contacts_json bob_entry (empty_book, files)).0 ≡ ok tt
unfolding add save Files.write
add_ok = refl

load_or_create_in-add_example :
    let s' = (add machine contacts_json bob_entry (empty_book, files)).1.1 in
    (loaded : ContactBook) × ((load_or_create_in machine contacts_json alice root s').0 ≡ ok loaded)
    × (loaded.path ≡ path)
    × ((name : Text)
        → Dict.get name loaded.contacts
          ≡ (if name == text "bob" then some bob_entry else Dict.get name (empty_book.contacts)))
load_or_create_in-add_example =
    load_or_create_in-add machine contacts_json contacts_json-IsFaithful alice root bob_entry
      empty_book files alice-is_valid refl add_ok refl refl
