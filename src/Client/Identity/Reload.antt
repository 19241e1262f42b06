-- ===== src/Client/Identity/Reload.antt =====
-- What an identity file holds after it was made or read.
use phantasma.Prelude.{
  suc, Text, Bytes, true, false, none, some, ok, ◌≡◌, ap, ◌∙◌, arith, inl, inr, text_eq, nat_eq,
  Result-cases, Option-cases, Bool-cases, length, String,
}
use phantasma.Prelude.Dict
use phantasma.Shared.Validation.{is_valid_username}
use phantasma.Client.Crypto as Crypto
use phantasma.Client.Files as Files
use phantasma.Client.Files.{FileSystem, Machine}
use phantasma.Client.Files.Written.{get-write}
use phantasma.Client.Keys as Keys
use phantasma.Client.Keys.{
  check_identity_keys, StoredIdentity, upgraded, validate_stored_identity, decode_key, generated,
}
use phantasma.Client.Identity.{
  Identity, Setting, identity_path, upgrade_legacy_identity, load_identity_file, load_identity,
  write_identity, create_identity, load_or_create_in,
}
use phantasma.Client.Identity.Stored.{
  stored_of, stored_at, IsFaithful, Holds, load_or_create_in-loads, load_or_create_in-creates,
  load_identity-Holds, Holds-next, exists-Holds,
}

module _ {V : Type 0} (c : Setting V) where
  module _ (faithful : IsFaithful c) where
    upgrade_legacy_identity-stored_at :
        (path : Text) (v : V) (s : FileSystem) (stored : StoredIdentity)
        → let (r, s') = upgrade_legacy_identity c path v s in
          r ≡ ok stored → stored_at c path s' ≡ some stored
    unfolding upgrade_legacy_identity stored_at
    upgrade_legacy_identity-stored_at path v s stored h =
        elim (Result-cases (c.format.legacy_from_value v)) [
          | inr (e, l) ↦ absurd (ground arith)
          | inl (legacy, l) ↦
              elim (Result-cases (
                upgraded c.primitives c.ed25519 (c.ed25519.encryption_secret s.operations)
                  legacy)) [
                    | inr (e, u) ↦ absurd (ground arith)
                    | inl (stored', u) ↦ elim (Result-cases (c.format.to_string_pretty stored')) [
                      | inr (e, w) ↦ absurd (ground arith)
                      | inl (t, w) ↦
                          ground (arith, faithful stored' t w, get-write c.machine path t s)
                    ]
                  ]
        ]

    load_identity_file-stored_at :
        (path : Text) (s : FileSystem) (stored : StoredIdentity)
        → let (r, s') = load_identity_file c path s in
          r ≡ ok stored
          → (stored_at c path s' ≡ some stored)
            × (validate_stored_identity c.primitives c.ed25519 stored ≡ ok tt)
    unfolding load_identity_file stored_at stored_of Files.read_to_string
    load_identity_file-stored_at path s stored h =
        elim (Option-cases (c.machine.fault s.operations)) [
          | inr (e, f) ↦ absurd (ground arith)
          | inl f ↦ elim (Option-cases (Dict.get path s.files)) [
            | inl g ↦ absurd (ground arith)
            | inr (t, g) ↦ elim (Result-cases (c.format.from_str t)) [
              | inr (e, r) ↦ absurd (ground arith)
              | inl (v, r) ↦ load_parsed t v f g r
            ]
          ]
        ]
      where
        next : FileSystem
        next = record s { operations = suc s.operations }

        load_parsed :
            (t : Text) (v : V)
            → c.machine.fault s.operations ≡ none
            → Dict.get path s.files ≡ some t
            → c.format.from_str t ≡ ok v
            → (stored_at c path (load_identity_file c path s).1 ≡ some stored)
              × (validate_stored_identity c.primitives c.ed25519 stored ≡ ok tt)
        load_parsed t v f g r = ground (arith, upgrade_legacy_identity-stored_at path v next stored)

    load_identity-stored_at :
        (path : Text) (s : FileSystem) (i : Identity)
        → let (r, s') = load_identity c path s in
          r ≡ ok i → (stored : StoredIdentity) × Holds c path s' i stored
    unfolding load_identity
    load_identity-stored_at path s i h = elim (Result-cases (load_identity_file c path s).0) [
      | inr (e, r) ↦ absurd (ground arith)
      | inl (stored, r) ↦
          elim (Result-cases (
            decode_key c.primitives c.ed25519 stored.encryption_secret_key
              "encryption secret key")) [
                | inr (e, d) ↦ absurd (ground arith)
                | inl (secret, d) ↦
                    (stored, ground (arith, load_identity_file-stored_at path s stored))
              ]
    ]

    module _ (p_laws : Crypto.IsLawful c.primitives) (e_laws : Keys.IsLawful c.ed25519) where
      decode_key-encode :
          (b : Bytes) (label : String)
          → length b ≡ 32
          → decode_key c.primitives c.ed25519 (c.primitives.encode b) label ≡ ok b
      unfolding decode_key
      decode_key-encode b label n = ground (arith, p_laws.decode-encode b)

      validate-generated :
          (signing_key secret : Bytes)
          → length signing_key ≡ 32
          → length secret ≡ 32
          → validate_stored_identity c.primitives c.ed25519
              (generated c.primitives c.ed25519 signing_key secret)
            ≡ ok tt
      unfolding validate_stored_identity generated check_identity_keys
      validate-generated signing_key secret n m =
          let verifying = c.ed25519.verifying_key signing_key in
          let public = c.primitives.public_key secret in
          ground (
            arith,
            decode_key-encode signing_key "identity secret key" n,
            decode_key-encode verifying "identity public key"
                (e_laws.length-verifying_key signing_key),
            decode_key-encode secret "encryption secret key" m,
            decode_key-encode public "encryption public key" (p_laws.length-public_key secret),
            e_laws.verifying_key_is_point signing_key,
          )

      write_identity-Holds :
          (path : Text) (signing_key secret : Bytes) (s : FileSystem) (i : Identity)
          → length signing_key ≡ 32
          → length secret ≡ 32
          → let (r, s') = write_identity c path signing_key secret s in
            r ≡ ok i → (stored : StoredIdentity) × Holds c path s' i stored
      unfolding write_identity generated Files.write_secret_file Files.write_new stored_at
      write_identity-Holds path signing_key secret s i n m h =
          let stored = generated c.primitives c.ed25519 signing_key secret in
          elim (Result-cases (c.format.to_string_pretty stored)) [
            | inr (e, w) ↦ absurd (ground arith)
            | inl (t, w) ↦ (
              stored,
              ground (
                arith,
                faithful stored t w,
                get-write c.machine path t s,
                validate-generated signing_key secret n m,
                decode_key-encode secret "encryption secret key" m,
              ),
            )
          ]

      create_identity-Holds :
          (dir path : Text) (s : FileSystem) (i : Identity)
          → let (r, s') = create_identity c dir path s in
            r ≡ ok i → (stored : StoredIdentity) × Holds c path s' i stored
      unfolding create_identity Files.create_dir_all
      create_identity-Holds dir path s i h = elim (Option-cases (c.machine.fault s.operations)) [
        | inr (e, f) ↦ absurd (ground arith)
        | inl f ↦
            let n = suc s.operations in
            let same : create_identity c dir path s
                ≡ write_identity c path (c.ed25519.signing_key n) (c.ed25519.encryption_secret n)
                    (record s { operations = n }) =
              ground arith in
            rw same (
              write_identity-Holds path (c.ed25519.signing_key n) (c.ed25519.encryption_secret n)
                (record s { operations = n }) i (e_laws.length-signing_key n)
                (e_laws.length-encryption_secret n) (rw same at h))
      ]

      load_or_create_in-Holds :
          (username root : Text) (s : FileSystem) (i : Identity)
          → let (r, s') = load_or_create_in c username root s in
            r ≡ ok i
            → (stored : StoredIdentity) × Holds c (identity_path c username root) s' i stored
      load_or_create_in-Holds username root s i h = elim (Bool-cases (is_valid_username username)) [
        | inr v ↦ absurd (unfold load_or_create_in in ground arith)
        | inl v ↦ elim (Bool-cases (Files.exists c.machine path s).0) [
          | inl e ↦
              let same = load_or_create_in-loads c username root s v e in
              rw same (load_identity-stored_at path s₁ i (rw same at h))
          | inr e ↦
              let same = load_or_create_in-creates c username root s v e in
              rw same (create_identity-Holds _ path s₁ i (rw same at h))
        ]
      ]
        where
          path : Text
          path = identity_path c username root

          s₁ : FileSystem
          s₁ = (Files.exists c.machine path s).1

      valid_of_ok :
          (username root : Text) (s : FileSystem) (i : Identity)
          → (load_or_create_in c username root s).0 ≡ ok i
          → is_valid_username username ≡ true
      unfolding load_or_create_in
      valid_of_ok username root s i h = ground arith

      -- Once an identity was created, loaded or upgraded, every later run that reads the file
      -- without a fault loads the same keys and changes no file.
      pub load_or_create_in_again :
          (username root : Text) (s : FileSystem) (i : Identity)
          → let (r, s') = load_or_create_in c username root s in
            r ≡ ok i
            → c.machine.fault s'.operations ≡ none
            → c.machine.fault (suc s'.operations) ≡ none
            → load_or_create_in c username root s' ≡ (
              ok (record i { was_created = false }),
              record s' { operations = suc (suc s'.operations) },
            )
      load_or_create_in_again username root s i h f g =
          let s' = (load_or_create_in c username root s).1 in
          let path = identity_path c username root in
          let (stored, holds) = load_or_create_in-Holds username root s i h in
          let found = exists-Holds c path s' i stored holds f in
          let holds' : Holds c path (record s' { operations = suc s'.operations }) i stored =
            Holds-next c path s' i stored holds in
          load_or_create_in-loads c username root s' (valid_of_ok username root s i h)
            (ap (λ r. r.0) found)
          ∙ ap (λ r. load_identity c path r.1) found
          ∙ load_identity-Holds c path _ i stored holds' g
