-- ===== src/Server/Http/Directory.antt =====
-- The key directory as a client of the HTTP routes sees it.
use phantasma.Prelude.{
  ◌≡◌, ◌⊎◌, inl, inr, ◌↔◌, Text, true, not, Option, none, some, arith, Result, ok, err, ◌==◌,
  text_eq, if◌then◌else◌,
}
use phantasma.Shared.Registration.{PublicKeyRegistration, PublicKeyEntry}
use phantasma.Shared.Validation.{
  is_valid_username, is_valid_ed25519_public_key_text, is_valid_x25519_public_key_text,
}
use phantasma.Server.Directory.Schema.Preparation.{IsReady}
use phantasma.Server.Directory.Keys as Keys
use phantasma.Server.Directory.Keys.Lookups.{
  stored_entry, registered, register_public_key-stores, lookup_public_key-answer,
}
use phantasma.Server.State.{AppState, Environment}
use phantasma.Server.Http.{
  HttpError, created, bad_username, no_such_key, directory_error, validate_registration,
  internal_error, register_public_key, lookup_public_key,
}

-- The three fields pass their tests.
pub record IsValid (r : PublicKeyRegistration) : Type 0 where
  pub username : is_valid_username r.username ≡ true
  pub identity : is_valid_ed25519_public_key_text r.identity_public_key ≡ true
  pub encryption : is_valid_x25519_public_key_text r.encryption_public_key ≡ true

pub validate_registration_iff :
    (r : PublicKeyRegistration) → (validate_registration r ≡ ok tt) ↔ IsValid r
unfolding validate_registration
validate_registration_iff r = ground arith

-- The answer to a lookup of a name for which the table holds these keys.
abbrev pub served : Text → Option PublicKeyEntry → Result HttpError PublicKeyEntry
served name found =
    if not (is_valid_username name)
    then err bad_username
    else elim found [ none ↦ err no_such_key | some entry ↦ ok entry ]

module _ (env : Environment) (s : AppState) where
  pub lookup_public_key_lem :
      (name : Text)
      → IsReady s.directory
      → (lookup_public_key env name s).0 ≡ (
          if is_valid_username name
          then elim (env.sqlite.fault s.directory.statements) [
            | some e ↦ err directory_error
            | none ↦ served name (stored_entry name s.directory)
          ]
          else err bad_username)
  unfolding lookup_public_key internal_error
  lookup_public_key_lem name h =
      ground (arith, lookup_public_key-answer env.sqlite name s.directory h)

  module _ (r : PublicKeyRegistration) (v : IsValid r) where
    valid : validate_registration r ≡ ok tt
    valid = (validate_registration_iff r).1 v

    directory-register_public_key :
        (register_public_key env r s).1.directory
        ≡ (Keys.register_public_key env.sqlite r s.directory).1
    unfolding register_public_key internal_error
    directory-register_public_key = ground (arith, valid)

    answer-register_public_key :
        (register_public_key env r s).0
        ≡ elim (Keys.register_public_key env.sqlite r s.directory).0 [
          | ok entry ↦ ok (created, entry)
          | err e ↦ err directory_error
        ]
    unfolding register_public_key internal_error
    answer-register_public_key = ground (arith, valid)

  pub register_public_key-accepts :
      (r : PublicKeyRegistration)
      → IsValid r
      → IsReady s.directory
      → let (answer, s') = register_public_key env r s in
        IsReady s'.directory
        × (((answer ≡ ok (created, registered r))
              × ((name : Text)
                  → stored_entry name s'.directory ≡ (
                      if r.username == name
                      then some (registered r)
                      else stored_entry name s.directory)))
            ⊎ ((answer ≡ err directory_error)
                × (s'.directory.public_keys ≡ s.directory.public_keys)))
  register_public_key-accepts r v h =
      let (ready, queue, outcome) = register_public_key-stores env.sqlite r s.directory h in
      (
        rw (directory-register_public_key r v) ready,
        elim outcome [
          | inl (e, stores) ↦ inl (
            ground (arith, e, answer-register_public_key r v),
            λ name. rw (directory-register_public_key r v) (stores name),
          )
          | inr (f, e, same) ↦ inr (
            ground (arith, e, answer-register_public_key r v),
            rw (directory-register_public_key r v) same,
          )
        ],
      )

-- Register, then look up, over ready tables. A valid registration either fails with an internal
-- error and leaves the stored keys alone, or answers with the keys: then a lookup, if its
-- statement does not fail, serves these keys under their name, and under every other name what
-- the table held before.
pub register_public_key-lookup_public_key :
    (env : Environment) (s : AppState) (r : PublicKeyRegistration)
    → IsValid r
    → IsReady s.directory
    → env.sqlite.fault (register_public_key env r s).1.directory.statements ≡ none
    → let (answer, s') = register_public_key env r s in
      ((answer ≡ ok (created, registered r))
        × ((name : Text)
            → (lookup_public_key env name s').0
              ≡ served name (
                  if r.username == name
                  then some (registered r)
                  else stored_entry name s.directory)))
      ⊎ ((answer ≡ err directory_error) × (s'.directory.public_keys ≡ s.directory.public_keys))
register_public_key-lookup_public_key env s r v h works =
    let (ready, outcome) = register_public_key-accepts env s r v h in
    elim outcome [
      | inl (e, stores) ↦ inl (
        e,
        λ name. ground (
          arith,
          works,
          stores name,
          lookup_public_key_lem env (register_public_key env r s).1 name ready,
        ),
      )
      | inr failed ↦ inr failed
    ]
