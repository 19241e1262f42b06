-- ===== src/Client/Identity/Kept.antt =====
-- What the first run makes, and what a run with faults may do to the files.
use phantasma.Prelude.{
  ℕ, suc, Text, true, false, none, some, ok, err, ◌≡◌, ◌∙◌, arith, inl, inr, ◌⊎◌, text_eq, nat_eq,
  Option-cases, Bool-cases, String, zero, [], ◌≢◌,
}
use phantasma.Prelude.Dict
use phantasma.Prelude.Utf8.{text}
use phantasma.Shared.Codec.{JsonError}
use phantasma.Shared.Validation.{is_valid_username}
use phantasma.Client.Files as Files
use phantasma.Client.Files.{FileSystem, Fault, IoError, torn, failed}
use phantasma.Client.Keys.{StoredIdentity, LegacyStoredIdentity, upgraded, generated, io}
use phantasma.Client.Identity.{
  Identity, Setting, identity_path, upgrade_legacy_identity, load_identity_file, load_identity,
  write_identity, create_identity, load_or_create_in,
}
use phantasma.Client.Identity.Stored.{
  stored_of, stored_at, load_or_create_in-loads, load_or_create_in-creates,
}

module _ {V : Type 0} (c : Setting V) where
  load_identity-keeps :
      (path : Text) (s : FileSystem) (stored : StoredIdentity)
      → stored_at c path s ≡ some stored
      → (load_identity c path s).1.files ≡ s.files
  unfolding load_identity load_identity_file stored_at stored_of Files.read_to_string
  load_identity-keeps path s stored h = ground arith

  create_identity-keeps :
      (dir path old : Text) (s : FileSystem)
      → c.machine.unix ≡ true
      → Dict.get path s.files ≡ some old
      → (create_identity c dir path s).1.files ≡ s.files
  unfolding create_identity write_identity Files.create_dir_all Files.write_secret_file
      Files.write_new
  create_identity-keeps dir path old s unix h = ground arith

  exists-found :
      (path : Text) (s : FileSystem) (stored : StoredIdentity)
      → c.machine.fault s.operations ≡ none
      → stored_at c path s ≡ some stored
      → (Files.exists c.machine path s).0 ≡ true
  unfolding Files.exists stored_at
  exists-found path s stored works h = ground arith

  exists-keeps : (path : Text) (s : FileSystem) → (Files.exists c.machine path s).1.files ≡ s.files
  unfolding Files.exists
  exists-keeps path s = ground arith

  -- On Unix, whatever fails, and on another system if the file can be seen: a run that finds an
  -- identity file of the present format changes no file.
  pub load_or_create_in-keeps_files :
      (username root : Text) (s : FileSystem) (stored : StoredIdentity)
      → (c.machine.unix ≡ true) ⊎ (c.machine.fault s.operations ≡ none)
      → stored_at c (identity_path c username root) s ≡ some stored
      → (load_or_create_in c username root s).1.files ≡ s.files
  load_or_create_in-keeps_files username root s stored system h =
      elim (Bool-cases (is_valid_username username)) [
        | inr v ↦ unfold load_or_create_in in ground arith
        | inl v ↦ elim (Bool-cases (Files.exists c.machine path s).0) [
          | inl e ↦
              rw (load_or_create_in-loads c username root s v e)
                (load_identity-keeps path s₁ stored held ∙ exists-keeps path s)
          | inr e ↦
              let unix : c.machine.unix ≡ true = elim system [
                | inl u ↦ u
                | inr f ↦ absurd (ground (arith, exists-found path s stored f h))
              ] in
              rw (load_or_create_in-creates c username root s v e)
                (present unix (Option-cases (Dict.get path s.files)) ∙ exists-keeps path s)
        ]
      ]
    where
      path : Text
      path = identity_path c username root

      s₁ : FileSystem
      s₁ = (Files.exists c.machine path s).1

      held : stored_at c path s₁ ≡ some stored
      held = unfold stored_at in ground (arith, exists-keeps path s)

      present :
          c.machine.unix ≡ true
          → (Dict.get path s.files ≡ none) ⊎ ((old : Text) × (Dict.get path s.files ≡ some old))
          → (create_identity c (c.machine.join root (text "identities")) path s₁).1.files ≡ s₁.files
      present unix (inl e) = absurd (unfold stored_at in ground arith)
      present unix (inr (old, e)) =
          create_identity-keeps _ path old s₁ unix (rw (exists-keeps path s) e)

  -- The first run, without a fault: for a valid name without a file, an identity is made whose
  -- public encryption key belongs to its secret one, and its file holds it.
  pub load_or_create_in_first :
      (username root t : Text) (s : FileSystem)
      → let n = suc (suc s.operations) in
        let stored =
          generated c.primitives c.ed25519
            (c.ed25519.signing_key n)
            (c.ed25519.encryption_secret n) in
        ((k : ℕ) → c.machine.fault k ≡ none)
        → is_valid_username username ≡ true
        → Dict.get (identity_path c username root) s.files ≡ none
        → c.format.to_string_pretty stored ≡ ok t
        → let (r, s') = load_or_create_in c username root s in
          (r
            ≡ ok (record {
              identity_public_key = stored.identity_public_key;
              encryption_public_key = stored.encryption_public_key;
              encryption_secret_key = c.ed25519.encryption_secret n;
              path = identity_path c username root;
              was_created = true;
            }))
          × (s'.files ≡ Dict.insert (identity_path c username root) t s.files)
  unfolding load_or_create_in create_identity write_identity generated Files.exists
      Files.create_dir_all Files.write_secret_file Files.write_new Files.write
  load_or_create_in_first username root t s works v absent w =
      ground (arith, works s.operations, works (suc s.operations), works (suc (suc s.operations)))

  -- On Unix, a run that finds an empty file neither gives an identity nor changes a file.
  load_or_create_in-empty :
      (username root : Text) (j : JsonError) (s : FileSystem)
      → c.machine.unix ≡ true
      → c.format.from_str [] ≡ err j
      → Dict.get (identity_path c username root) s.files ≡ some []
      → let (r, s') = load_or_create_in c username root s in
        ((i : Identity) → r ≢ ok i) × (s'.files ≡ s.files)
  unfolding load_or_create_in load_identity load_identity_file create_identity write_identity
      Files.exists Files.read_to_string Files.create_dir_all Files.write_secret_file Files.write_new
  load_or_create_in-empty username root j s unix bad h = (λ i e. ground arith, ground arith)

  -- The state after `n` more runs.
  abbrev pub runs : Text → Text → ℕ → FileSystem → FileSystem
  runs username root zero s = s
  runs username root (suc n) s = runs username root n (load_or_create_in c username root s).1

  runs-empty :
      (username root : Text) (j : JsonError) (n : ℕ) (s : FileSystem)
      → c.machine.unix ≡ true
      → c.format.from_str [] ≡ err j
      → Dict.get (identity_path c username root) s.files ≡ some []
      → (i : Identity) → (load_or_create_in c username root (runs username root n s)).0 ≢ ok i
  runs-empty username root j zero s unix bad h =
      (load_or_create_in-empty username root j s unix bad h).0
  runs-empty username root j (suc n) s unix bad h =
      runs-empty username root j n (load_or_create_in c username root s).1 unix bad
        (rw (load_or_create_in-empty username root j s unix bad h).1 h)

  load_or_create_in-torn :
      (username root old t : Text) (e : String) (value : V) (legacy : LegacyStoredIdentity)
      (stored : StoredIdentity) (s : FileSystem)
      → is_valid_username username ≡ true
      → Dict.get (identity_path c username root) s.files ≡ some old
      → c.format.from_str old ≡ ok value
      → c.format.has_identity_public_key value ≡ false
      → c.format.legacy_from_value value ≡ ok legacy
      → upgraded c.primitives c.ed25519
          (c.ed25519.encryption_secret (suc (suc s.operations)))
          legacy
        ≡ ok stored
      → c.format.to_string_pretty stored ≡ ok t
      → c.machine.fault s.operations ≡ none
      → c.machine.fault (suc s.operations) ≡ none
      → c.machine.fault (suc (suc s.operations)) ≡ some (torn e [])
      → let (r, s') = load_or_create_in c username root s in
        (r ≡ err (io (failed e))) × (Dict.get (identity_path c username root) s'.files ≡ some [])
  unfolding load_or_create_in load_identity load_identity_file upgrade_legacy_identity Files.exists
      Files.read_to_string Files.write
  load_or_create_in-torn username root old t e value legacy stored s v g p h l u w f₀ f₁ f₂ =
      ground (
        arith,
        Dict.get-insert (identity_path c username root) (identity_path c username root) [] s.files,
      )

  -- On Unix, an older file is rewritten in place: if the new one cannot be written after the file
  -- was emptied, the run fails, the file is empty, and no later run, however many come and whatever
  -- fails in them, gives an identity: the keys are gone and the user has no way back.
  pub load_or_create_in-loses_legacy :
      (username root old t : Text) (e : String) (j : JsonError) (value : V)
      (legacy : LegacyStoredIdentity) (stored : StoredIdentity) (s : FileSystem)
      → c.machine.unix ≡ true
      → is_valid_username username ≡ true
      → Dict.get (identity_path c username root) s.files ≡ some old
      → c.format.from_str old ≡ ok value
      → c.format.has_identity_public_key value ≡ false
      → c.format.legacy_from_value value ≡ ok legacy
      → upgraded c.primitives c.ed25519
          (c.ed25519.encryption_secret (suc (suc s.operations)))
          legacy
        ≡ ok stored
      → c.format.to_string_pretty stored ≡ ok t
      → c.format.from_str [] ≡ err j
      → c.machine.fault s.operations ≡ none
      → c.machine.fault (suc s.operations) ≡ none
      → c.machine.fault (suc (suc s.operations)) ≡ some (torn e [])
      → let (r, s') = load_or_create_in c username root s in
        (r ≡ err (io (failed e)))
        × (Dict.get (identity_path c username root) s'.files ≡ some [])
        × ((n : ℕ) (i : Identity)
            → (load_or_create_in c username root (runs username root n s')).0 ≢ ok i)
  load_or_create_in-loses_legacy username root old t e j value legacy stored s unix v g p h l u w
        bad f₀ f₁ f₂ =
      let (failed_run, empty) =
        load_or_create_in-torn username root old t e value legacy stored s v g p h l u w f₀ f₁ f₂ in
      (failed_run, empty, λ n. runs-empty username root j n _ unix bad empty)
