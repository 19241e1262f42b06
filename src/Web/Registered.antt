-- ===== src/Web/Registered.antt =====
-- Registering at this relay, and looking the name up from another client.
use phantasma.Prelude.{
  ℕ, suc, Text, ◌≡◌, ◌≢◌, refl, ap, sym, ◌∙◌, Option, none, some, ok, text_eq, ◌++◌, ◌⊎◌, nat_eq,
}
use phantasma.Prelude.Dict
use phantasma.Prelude.Utf8.{text}
use phantasma.Shared.Registration as Registration
use phantasma.Shared.Registration.{PublicKeyRegistration, PublicKeyEntry}
use phantasma.Server.Directory.Schema.Preparation.{IsReady}
use phantasma.Server.Directory.Keys.Lookups.{stored_entry, registered}
use phantasma.Server.State.{AppState, Environment}
use phantasma.Server.Http.Directory.{IsValid}
use phantasma.Server.Router.{json_reply}
use phantasma.Server.Router.Answers.{key_path}
use phantasma.Client.Directory.{
  Outside, Response, ClientState, key_url, register_public_key, lookup_public_key,
}
use phantasma.Client.Messages.{add_contact}
use phantasma.Web.{Web, IsWeb, response_of, get_answer, post_answer}
use phantasma.Web.Honesty.{get_answer-dots, response_of-json_reply}
use phantasma.Web.Answers.{
  get_answer-stored, post_answer-stores, stored_entry-registered, lookup_public_key-found,
  lookup_public_key-missing, register_public_key-succeeds, add_contact-found,
}

module _ (env : Environment) (web : Web) (base : Text) (s : AppState) (a b : Outside)
    (alice bob : ClientState) (name identity_key encryption_key : Text) (response : Response) where
  abbrev registration : PublicKeyRegistration
  registration = Registration.new name identity_key encryption_key

  abbrev posted : Option Response × AppState
  posted = post_answer env web (base ++ text "/users") registration s

  abbrev asked : Response × AppState
  asked = get_answer env web (base ++ key_path name) posted.1

  -- What the registration does at the client, and in the tables.
  registering :
      IsWeb web base
      → IsValid registration
      → IsReady s.directory
      → env.sqlite.fault s.directory.statements ≡ none
      → posted.0 ≡ some response
      → a.post_request alice.requests (base ++ text "/users") registration ≡ ok response
      → (register_public_key a base name identity_key encryption_key alice
          ≡ (ok tt, record alice { requests = suc alice.requests }))
        × IsReady posted.1.directory
        × (stored_entry name posted.1.directory ≡ some (registered registration))
  registering lawful v ready works p sent =
      let (answer, after) = post_answer-stores env web base lawful s registration v ready works in
      let (still, stored) =
        stored_entry-registered env web base lawful s registration v ready works in
      let (status, json) =
        response_of-json_reply env web base lawful s 201 (registered registration) in
      let same : response_of env web (json_reply env web.axum 201 (registered registration))
          ≡ response =
        cc in
      (
        register_public_key-succeeds a base alice response name identity_key encryption_key sent
            (ap (λ r. r.status) (sym same) ∙ status),
        rw after still,
        rw after stored,
      )

  -- Over ready tables in which no statement fails, if the relay's answers reach both clients: once
  -- a client has registered valid keys under a name other than `.` and `..`, another client that
  -- then adds the name as a contact has exactly these keys for it, whatever the relay and its
  -- contact book held for the name before.
  pub register_public_key-add_contact :
      IsWeb web base
      → IsValid registration
      → IsReady s.directory
      → ((n : ℕ) → env.sqlite.fault n ≡ none)
      → name ≢ text "."
      → name ≢ text ".."
      → posted.0 ≡ some response
      → a.post_request alice.requests (base ++ text "/users") registration ≡ ok response
      → b.get_request bob.requests (key_url b base name) ≡ ok asked.0
      → (register_public_key a base name identity_key encryption_key alice
          ≡ (ok tt, record alice { requests = suc alice.requests }))
        × (Dict.get name (add_contact b base name bob).1.book.contacts
            ≡ some (registered registration))
  register_public_key-add_contact lawful v ready works this parent p sent got =
      let (done, still, stored) = registering lawful v ready (works _) p sent in
      let entry = registered registration in
      let answer =
        get_answer-stored env web base lawful posted.1 name entry v.username this parent still
          (works _) stored in
      let (status, json) = response_of-json_reply env web base lawful s 200 entry in
      let found =
        lookup_public_key-found b base bob asked.0 name entry v.username got
          (ap (λ r. r.status) answer ∙ status) (ap (λ r. r.json) answer ∙ json) in
      (done, add_contact-found b base bob asked.0 name entry v.username found refl)

  -- Over ready tables in which no statement fails, with valid keys, if the relay's answers reach
  -- both clients: a name `.` or `..` is accepted when a client registers it, and the keys are
  -- stored, but another client that looks the name up finds no key.
  pub register_public_key-dots :
      IsWeb web base
      → IsValid registration
      → IsReady s.directory
      → ((n : ℕ) → env.sqlite.fault n ≡ none)
      → (name ≡ text ".") ⊎ (name ≡ text "..")
      → posted.0 ≡ some response
      → a.post_request alice.requests (base ++ text "/users") registration ≡ ok response
      → b.get_request bob.requests (key_url b base name) ≡ ok asked.0
      → (register_public_key a base name identity_key encryption_key alice
          ≡ (ok tt, record alice { requests = suc alice.requests }))
        × (stored_entry name posted.1.directory ≡ some (registered registration))
        × (lookup_public_key b base name bob
            ≡ (ok none, record bob { requests = suc bob.requests }))
  register_public_key-dots lawful v ready works dots p sent got =
      let (done, still, stored) = registering lawful v ready (works _) p sent in
      let answer = get_answer-dots env web base lawful posted.1 name dots in
      (
        done,
        stored,
        lookup_public_key-missing b base bob asked.0 name v.username got
            (ap (λ r. r.0.status) answer),
      )
