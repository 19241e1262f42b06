-- ===== src/Tests/Identity.antt =====
-- Identity files at concrete data, with toy keys and a toy format.
use phantasma.Prelude.{
  ℕ, suc, ◌≡◌, ◌≢◌, refl, Text, [], ◌∷◌, ◌++◌, Bool, true, false, arith, ok, err, Result, some,
  none, nat_eq, text_eq, take-length, drop-length, all, if◌then◌else◌, ◌==◌, inl,
}
use phantasma.Prelude.Dict
use phantasma.Prelude.Utf8.{text, len, len_utf8, is_ascii_alphanumeric}
use phantasma.Shared.Codec.{JsonError, syntax}
use phantasma.Shared.Validation.{is_valid_username, is_username_char}
use phantasma.Client.Files.{Machine, FileSystem, torn, failed}
use phantasma.Client.Keys as Keys
use phantasma.Client.Keys.{
  StoredIdentity, LegacyStoredIdentity, Ed25519, generated, upgraded, io, decode_key,
  check_identity_keys, validate_stored_identity,
}
use phantasma.Client.Identity.{Identity, IdentityJson, Setting, load_or_create_in}
use phantasma.Client.Identity.Stored.{stored_of, stored_at, IsFaithful}
use phantasma.Client.Identity.Reload.{load_or_create_in_again}
use phantasma.Client.Identity.Kept.{
  runs, load_or_create_in-keeps_files, load_or_create_in_first, load_or_create_in-loses_legacy,
}
use phantasma.Tests.Codecs.{field, first, behind, first-field_last}
use phantasma.Tests.Client.{toy, toy-IsLawful, padded, head}

abbrev machine : Machine
machine = record { unix = true; join = λ a b. a ++ 47 ∷ b; fault = λ n. none }

abbrev write_stored : StoredIdentity → Text
write_stored i =
    1
    ∷ (field i.identity_public_key
        ++ (field i.identity_secret_key
            ++ (field i.encryption_public_key ++ field i.encryption_secret_key)))

abbrev read_stored : Text → Result JsonError StoredIdentity
read_stored [] = err syntax
read_stored (_ ∷ b) = ok (record {
  identity_public_key = first b;
  identity_secret_key = first (behind b);
  encryption_public_key = first (behind (behind b));
  encryption_secret_key = first (behind (behind (behind b)));
})

abbrev read_legacy : Text → Result JsonError LegacyStoredIdentity
read_legacy [] = err syntax
read_legacy (_ ∷ b) = ok (record { public_key = first b; secret_key = first (behind b) })

abbrev is_new : Text → Bool
is_new [] = false
is_new (n ∷ b) = n == 1

abbrev read_value : Text → Result JsonError Text
read_value [] = err syntax
read_value (c ∷ t) = ok (c ∷ t)

abbrev pub format : IdentityJson Text
format = record {
  from_str = read_value;
  has_identity_public_key = is_new;
  stored_from_value = read_stored;
  legacy_from_value = read_legacy;
  to_string_pretty = λ i. ok (write_stored i);
}

abbrev pub ed25519 : Ed25519
ed25519 = record {
  verifying_key = λ s. head s ∷ padded 31 [];
  is_point = λ b. true;
  signing_key = λ n. 3 ∷ padded 31 [];
  encryption_secret = λ n. 4 ∷ padded 31 [];
}

ed25519-IsLawful : Keys.IsLawful ed25519
ed25519-IsLawful = record {
  verifying_key_is_point = λ s. refl;
  length-verifying_key = λ s. refl;
  length-signing_key = λ n. refl;
  length-encryption_secret = λ n. refl;
}

abbrev setting : Setting Text
setting = record { machine = machine; primitives = toy; ed25519 = ed25519; format = format }

read-write_stored : (i : StoredIdentity) → read_stored (write_stored i) ≡ ok i
read-write_stored i =
    let d = field i.encryption_secret_key in
    let c = field i.encryption_public_key ++ d in
    let b = field i.identity_secret_key ++ c in
    ground (
      arith,
      take-length i.identity_public_key b,
      drop-length i.identity_public_key b,
      take-length i.identity_secret_key c,
      drop-length i.identity_secret_key c,
      take-length i.encryption_public_key d,
      drop-length i.encryption_public_key d,
      first-field_last i.encryption_secret_key,
    )

format-IsFaithful : IsFaithful setting
unfolding stored_of nat_eq
format-IsFaithful stored t e = ground (arith, read-write_stored stored)

-- A directory in which alice has no file.
abbrev fresh : FileSystem
fresh = record { files = []; operations = 0 }

abbrev alice : Text
alice = text "alice"

abbrev root : Text
root = text "home"

alice-is_valid : is_valid_username alice ≡ true
unfolding is_valid_username len len_utf8 all is_username_char is_ascii_alphanumeric nat_eq
alice-is_valid = refl

abbrev path : Text
path = text "home/identities/alice.json"

abbrev made : StoredIdentity
made = record {
  identity_public_key = 3 ∷ padded 31 [];
  identity_secret_key = 3 ∷ padded 31 [];
  encryption_public_key = 4 ∷ padded 31 [];
  encryption_secret_key = 4 ∷ padded 31 [];
}

abbrev alice_identity : Bool → Identity
alice_identity was_created = record {
  identity_public_key = 3 ∷ padded 31 [];
  encryption_public_key = 4 ∷ padded 31 [];
  encryption_secret_key = 4 ∷ padded 31 [];
  path = path;
  was_created = was_created;
}

first_start :
    let (r, s') = load_or_create_in setting alice root fresh in
    (r ≡ ok (alice_identity true)) × (s'.files ≡ (path, write_stored made) ∷ [])
unfolding generated Dict.get Dict.insert
first_start =
    load_or_create_in_first setting alice root (write_stored made) fresh (λ k. refl) alice-is_valid
      refl refl

created : (load_or_create_in setting alice root fresh).0 ≡ ok (alice_identity true)
created = first_start.0

load_or_create_in_again_example :
    let s' = (load_or_create_in setting alice root fresh).1 in
    load_or_create_in setting alice root s'
    ≡ (ok (alice_identity false), record s' { operations = suc (suc s'.operations) })
load_or_create_in_again_example =
    load_or_create_in_again setting format-IsFaithful toy-IsLawful ed25519-IsLawful alice root fresh
      (alice_identity true) created refl refl

-- A later run.
abbrev used : FileSystem
used = record { files = (path, write_stored made) ∷ []; operations = 7 }

-- A machine on which everything fails, half-way where something is written.
abbrev broken : Machine
broken = record { unix = true; join = λ a b. a ++ 47 ∷ b; fault = λ n. some (torn "disk full" []) }

abbrev broken_setting : Setting Text
broken_setting = record setting { machine = broken }

used-stored_at : stored_at broken_setting path used ≡ some made
unfolding stored_at stored_of Dict.get text_eq nat_eq
used-stored_at = refl

load_or_create_in-keeps_files_example :
    (load_or_create_in broken_setting alice root used).1.files ≡ used.files
load_or_create_in-keeps_files_example =
    load_or_create_in-keeps_files broken_setting alice root used made (inl refl) used-stored_at

-- An older file, and a disk that is full at the third operation.
abbrev old : Text
old = 0 ∷ (field (3 ∷ padded 31 []) ++ field (3 ∷ padded 31 []))

abbrev older : FileSystem
older = record { files = (path, old) ∷ []; operations = 0 }

abbrev full_at_third : Machine
full_at_third = record {
  unix = true;
  join = λ a b. a ++ 47 ∷ b;
  fault = λ n. if n == 2 then some (torn "disk full" []) else none;
}

abbrev torn_setting : Setting Text
torn_setting = record setting { machine = full_at_third }

load_or_create_in-loses_legacy_example :
    let (r, s') = load_or_create_in torn_setting alice root older in
    (r ≡ err (io (failed "disk full")))
    × (Dict.get path s'.files ≡ some [])
    × ((n : ℕ) (i : Identity)
        → (load_or_create_in torn_setting alice root (runs torn_setting alice root n s')).0 ≢ ok i)
unfolding Dict.get text_eq nat_eq upgraded decode_key check_identity_keys
load_or_create_in-loses_legacy_example =
    load_or_create_in-loses_legacy torn_setting alice root old (write_stored made) "disk full"
      syntax old (record { public_key = 3 ∷ padded 31 []; secret_key = 3 ∷ padded 31 [] }) made
      older refl alice-is_valid refl refl refl refl refl refl refl refl refl refl
