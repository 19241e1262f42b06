-- ===== src/Client/Identity/Stored.antt =====
-- The identity that a file holds, and what a run does with a file that holds one.
use phantasma.Prelude.{
  suc, Text, true, false, Option, none, some, ok, err, ◌≡◌, arith, text_eq, nat_eq, if◌then◌else◌,
}
use phantasma.Prelude.Dict
use phantasma.Prelude.Utf8.{text}
use phantasma.Shared.Validation.{is_valid_username}
use phantasma.Client.Files as Files
use phantasma.Client.Files.{FileSystem, Machine}
use phantasma.Client.Keys.{StoredIdentity, validate_stored_identity, decode_key}
use phantasma.Client.Identity.{
  Identity, Setting, identity_path, load_identity_file, load_identity, create_identity,
  load_or_create_in,
}

module _ {V : Type 0} (c : Setting V) where
  -- The identity that a text reads as, if it is of the newer format.
  unfoldable pub stored_of : Text → Option StoredIdentity
  stored_of contents = elim (c.format.from_str contents) [
    | err e ↦ none
    | ok v ↦
        if c.format.has_identity_public_key v
        then elim (c.format.stored_from_value v) [ ok stored ↦ some stored | err e ↦ none ]
        else none
  ]

  unfoldable pub stored_at : Text → FileSystem → Option StoredIdentity
  stored_at path s = elim (Dict.get path s.files) [ none ↦ none | some t ↦ stored_of t ]

  -- What `serde_json` documents for a derived format: what is written reads as what it was.
  abbrev pub IsFaithful : Type 0
  IsFaithful =
      (stored : StoredIdentity) (t : Text)
      → c.format.to_string_pretty stored ≡ ok t
      → stored_of t ≡ some stored

  -- The file at the path holds the keys of this identity, and they fit together.
  pub record Holds (path : Text) (s : FileSystem) (i : Identity) (stored : StoredIdentity)
      : Type 0 where
    pub held : stored_at path s ≡ some stored
    pub valid : validate_stored_identity c.primitives c.ed25519 stored ≡ ok tt
    pub secret :
        decode_key c.primitives c.ed25519 stored.encryption_secret_key "encryption secret key"
        ≡ ok i.encryption_secret_key
    pub identity_key : i.identity_public_key ≡ stored.identity_public_key
    pub encryption_key : i.encryption_public_key ≡ stored.encryption_public_key
    pub at_path : i.path ≡ path

  module _ (username root : Text) (s : FileSystem) (v : is_valid_username username ≡ true) where
    pub load_or_create_in-loads :
        let (found, s') = Files.exists c.machine (identity_path c username root) s in
        found ≡ true
        → load_or_create_in c username root s ≡ load_identity c (identity_path c username root) s'
    unfolding load_or_create_in
    load_or_create_in-loads e = ground arith

    pub load_or_create_in-creates :
        let (found, s') = Files.exists c.machine (identity_path c username root) s in
        found ≡ false
        → load_or_create_in c username root s
          ≡ create_identity c
              (c.machine.join root (text "identities"))
              (identity_path c username root)
              s'
    unfolding load_or_create_in
    load_or_create_in-creates e = ground arith

  module _ (path : Text) (s : FileSystem) (i : Identity) (stored : StoredIdentity)
      (holds : Holds path s i stored) where
    pub load_identity-Holds :
        c.machine.fault s.operations ≡ none
        → load_identity c path s
          ≡ (ok (record i { was_created = false }), record s { operations = suc s.operations })
    unfolding load_identity load_identity_file stored_at stored_of Files.read_to_string
    load_identity-Holds f = ground (
      arith, holds.held, holds.valid, holds.secret, holds.identity_key, holds.encryption_key,
      holds.at_path,
    )

    pub Holds-next : Holds path (record s { operations = suc s.operations }) i stored
    unfolding stored_at
    Holds-next = record {
      held = holds.held;
      valid = holds.valid;
      secret = holds.secret;
      identity_key = holds.identity_key;
      encryption_key = holds.encryption_key;
      at_path = holds.at_path;
    }

    pub exists-Holds :
        c.machine.fault s.operations ≡ none
        → Files.exists c.machine path s ≡ (true, record s { operations = suc s.operations })
    unfolding stored_at Files.exists
    exists-Holds f = ground (arith, holds.held)
