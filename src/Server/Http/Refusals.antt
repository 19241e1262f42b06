-- ===== src/Server/Http/Refusals.antt =====
-- The errors with which the HTTP handlers answer.
use phantasma.Prelude.{
  Result, Option, ◌≤◌, ◌<◌, ◌≡◌, ◌⊎◌, inl, inr, ◌↔◌, Text, Bool, true, false, none, some, arith,
  All, length, ok, err, text_eq, Bool-cases, Option-cases, String,
}
use phantasma.Shared.Registration.{PublicKeyRegistration, PublicKeyEntry}
use phantasma.Shared.Validation.{is_valid_username}
use phantasma.Shared.Validation.Bounds.{
  IsUsernameChar, IsBase64urlChar, is_valid_username_iff, is_valid_public_key_text_iff,
}
use phantasma.Server.Sqlite.{SqlxError}
use phantasma.Server.Directory.Schema.Preparation.{IsReady}
use phantasma.Server.Directory.Keys.Lookups.{stored_entry}
use phantasma.Server.State.{AppState, Environment}
use phantasma.Server.Http.{
  HttpError, bad_request, not_found, internal_server_error, register_public_key,
  validate_registration, lookup_public_key, StatusCode,
}
use phantasma.Server.Http.Directory.{lookup_public_key_lem}

-- A name of 1 to 64 ASCII letters, digits, dashes, underscores and dots.
abbrev pub IsName : Text → Type 0
IsName u = (0 < length u) × (length u ≤ 64) × All IsUsernameChar u

-- A text of 43 characters of base64url.
abbrev pub IsKeyText : Text → Type 0
IsKeyText k = (length k ≡ 43) × All IsBase64urlChar k

module _ (b : Bool) {P : Type 0} (decides : (b ≡ true) ↔ P) where
  by_test : ((b ≡ true) × P) ⊎ ((b ≡ false) × ¬ P)
  by_test = elim (Bool-cases b) [
    | inl e ↦ inl (e, decides.0 e)
    | inr e ↦ inr (e, λ h. cc (e, decides.1 h))
  ]

-- A refusal with status 400.
abbrev bad : String → HttpError
bad message = record { status = bad_request; message = message }

-- The first of the three fields that is wrong is told, and the state is `s` still.
abbrev pub TellsField :
    AppState
    → PublicKeyRegistration
    → Result HttpError (StatusCode × PublicKeyEntry) × AppState
    → Type 0
TellsField s r answer =
    ((¬ IsName r.username)
      × (answer ≡ (err (bad "username must use only letters, numbers, '.', '-', or '_'"), s)))
    ⊎ (IsName r.username
        × (¬ IsKeyText r.identity_public_key)
        × (answer ≡ (err (bad "public key must be a base64url Ed25519 public key"), s)))
    ⊎ (IsName r.username
        × IsKeyText r.identity_public_key
        × (¬ IsKeyText r.encryption_public_key)
        × (answer ≡ (err (bad "encryption public key must be a base64url X25519 public key"), s)))

-- The answer to a lookup, by the name, the fault of the statement and the stored keys.
abbrev pub IsLookupAnswer :
    Text → Option SqlxError → Option PublicKeyEntry → Result HttpError PublicKeyEntry → Type 0
IsLookupAnswer name fault stored answer =
    ((¬ IsName name)
      × (answer ≡ err (bad "username must use only letters, numbers, '.', '-', or '_'")))
    ⊎ (IsName name
        × (f : SqlxError) × (fault ≡ some f)
        × (answer
            ≡ err
                (record { status = internal_server_error; message = "directory database error" })))
    ⊎ (IsName name
        × (fault ≡ none)
        × (stored ≡ none)
        × (answer ≡ err (record { status = not_found; message = "public key not found" })))
    ⊎ (IsName name
        × (fault ≡ none)
        × (entry : PublicKeyEntry) × (stored ≡ some entry)
        × (answer ≡ ok entry))

module _ (env : Environment) (s : AppState) where
  -- A registration whose name is not 1 to 64 letters, digits, dashes, underscores and dots, or one of
  -- whose keys is not 43 characters of base64url, is answered with a bad request that tells the
  -- first of the three fields that is wrong, and changes nothing at all.
  pub register_public_key-rejects :
      (r : PublicKeyRegistration)
      → ¬ (IsName r.username × IsKeyText r.identity_public_key × IsKeyText r.encryption_public_key)
      → TellsField s r (register_public_key env r s)
  unfolding register_public_key validate_registration
  register_public_key-rejects r h =
      elim (by_test (is_valid_username r.username) (is_valid_username_iff r.username)) [
        | inr (u, refuted) ↦ inl (refuted, ground arith)
        | inl (u, name) ↦ elim (by_test _ (is_valid_public_key_text_iff r.identity_public_key).0) [
          | inr (i, refuted) ↦ inr (inl (name, refuted, ground arith))
          | inl (i, identity) ↦
              elim (by_test _ (is_valid_public_key_text_iff r.encryption_public_key).1) [
                | inr (e, refuted) ↦ inr (inr (name, identity, refuted, ground arith))
                | inl (e, encryption) ↦ absurd (h (name, identity, encryption))
              ]
        ]
      ]

  -- Over ready tables, a lookup of a text that is no name (1 to 64 letters, digits, dashes,
  -- underscores and dots) is answered with a bad request; of a name, if the database fails, with an
  -- internal error that tells nothing of it, else with "not found" or with the stored keys.
  pub lookup_public_key-answers :
      (name : Text)
      → IsReady s.directory
      → IsLookupAnswer name
          (env.sqlite.fault s.directory.statements)
          (stored_entry name s.directory)
          (lookup_public_key env name s).0
  lookup_public_key-answers name ready =
      let code = lookup_public_key_lem env s name ready in
      elim (by_test (is_valid_username name) (is_valid_username_iff name)) [
        | inr (u, refuted) ↦ inl (refuted, ground (arith, code))
        | inl (u, is_name) ↦ elim (Option-cases (env.sqlite.fault s.directory.statements)) [
          | inr (f, e) ↦ inr (inl (is_name, f, e, ground (arith, code)))
          | inl e ↦ elim (Option-cases (stored_entry name s.directory)) [
            | inl none_stored ↦ inr (inr (inl (is_name, e, none_stored, ground (arith, code))))
            | inr (entry, stored) ↦
                inr (inr (inr (is_name, e, entry, stored, ground (arith, code))))
          ]
        ]
      ]
