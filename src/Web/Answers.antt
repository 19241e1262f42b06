-- ===== src/Web/Answers.antt =====
-- What a client learns from the relay's answers to a registration and to a lookup.
use phantasma.Prelude.{
  suc, Text, ◌≡◌, ◌≢◌, refl, ap, true, false, none, some, ok, arith, inl, inr, text_eq, ◌++◌,
  nat_eq,
}
use phantasma.Prelude.Dict
use phantasma.Prelude.Utf8.{text, is_empty}
use phantasma.Shared.Registration as Registration
use phantasma.Shared.Registration.{PublicKeyRegistration, PublicKeyEntry}
use phantasma.Shared.Validation.{is_valid_username}
use phantasma.Server.Directory.Schema.Preparation.{IsReady}
use phantasma.Server.Directory.Keys.Lookups.{stored_entry, registered}
use phantasma.Server.Sqlite.{run}
use phantasma.Server.Directory.Keys as Keys
use phantasma.Server.State.{AppState, Environment}
use phantasma.Server.Http as Http
use phantasma.Server.Http.{created}
use phantasma.Server.Http.Directory.{
  IsValid, validate_registration_iff, register_public_key-accepts, lookup_public_key_lem,
}
use phantasma.Server.Router.{json_reply}
use phantasma.Server.Router.Answers.{key_path, serve-register}
use phantasma.Client.Directory.{
  Outside, Response, ClientState, key_url, register_public_key, lookup_public_key, ensure_success,
}
use phantasma.Client.Messages.{add_contact, add}
use phantasma.Client.Messages.Pins.{contacts-add}
use phantasma.Web.{Web, IsWeb, response_of, get_answer, post_answer}
use phantasma.Web.Honesty.{get_answer-plain}

module _ (env : Environment) (web : Web) (base : Text) (lawful : IsWeb web base)
    (s : AppState) where
  -- The answer to a lookup of a name for which the relay holds keys.
  pub get_answer-stored :
      (name : Text) (entry : PublicKeyEntry)
      → is_valid_username name ≡ true
      → name ≢ text "."
      → name ≢ text ".."
      → IsReady s.directory
      → env.sqlite.fault s.directory.statements ≡ none
      → stored_entry name s.directory ≡ some entry
      → (get_answer env web (base ++ key_path name) s).0
        ≡ response_of env web (json_reply env web.axum 200 entry)
  get_answer-stored name entry v this parent ready works stored =
      let answer : (Http.lookup_public_key env name s).0 ≡ ok entry =
        ground (arith, lookup_public_key_lem env s name ready) in
      ap (λ r. r.0) (rw answer at (get_answer-plain env web base lawful s name v this parent))

  -- The registration of a valid entry, over ready tables, in which no statement fails.
  pub accepted :
      (r : PublicKeyRegistration)
      → IsValid r
      → IsReady s.directory
      → env.sqlite.fault s.directory.statements ≡ none
      → (Http.register_public_key env r s).0 ≡ ok (created, registered r)
  unfolding Http.register_public_key Keys.register_public_key run
  accepted r v ready works = ground (arith, (validate_registration_iff r).1 v)

  pub post_answer-stores :
      (r : PublicKeyRegistration)
      → IsValid r
      → IsReady s.directory
      → env.sqlite.fault s.directory.statements ≡ none
      → let (answer, s') = post_answer env web (base ++ text "/users") r s in
        (answer ≡ some (response_of env web (json_reply env web.axum 201 (registered r))))
        × (s' ≡ (Http.register_public_key env r s).1)
  unfolding post_answer
  post_answer-stores r v ready works =
      let (bytes, written) = lawful.registration.total r in
      let read = lawful.registration.round_trip r bytes written in
      rw
        (
          post_answer,
          written,
          lawful.urls.users,
          serve-register env web.axum lawful.router s r bytes read,
          accepted r v ready works,
        )
        (refl, refl)

  pub stored_entry-registered :
      (r : PublicKeyRegistration)
      → IsValid r
      → IsReady s.directory
      → env.sqlite.fault s.directory.statements ≡ none
      → let s' = (Http.register_public_key env r s).1 in
        IsReady s'.directory × (stored_entry r.username s'.directory ≡ some (registered r))
  stored_entry-registered r v ready works =
      let (still, outcome) = register_public_key-accepts env s r v ready in
      let answer = accepted r v ready works in
      elim outcome [
        | inl (_, stores) ↦ (still, ground (arith, stores r.username))
        | inr (failed, _) ↦ absurd (cc)
      ]

module _ (o : Outside) (base : Text) (c : ClientState) (response : Response) where
  pub lookup_public_key-found :
      (name : Text) (entry : PublicKeyEntry)
      → is_valid_username name ≡ true
      → o.get_request c.requests (key_url o base name) ≡ ok response
      → response.status ≡ 200
      → response.json ≡ ok entry
      → lookup_public_key o base name c ≡ (ok (some entry), record c { requests = suc c.requests })
  unfolding lookup_public_key ensure_success
  lookup_public_key-found name entry v e status json = ground arith

  pub lookup_public_key-missing :
      (name : Text)
      → is_valid_username name ≡ true
      → o.get_request c.requests (key_url o base name) ≡ ok response
      → response.status ≡ 404
      → lookup_public_key o base name c ≡ (ok none, record c { requests = suc c.requests })
  unfolding lookup_public_key
  lookup_public_key-missing name v e status = ground arith

  pub register_public_key-succeeds :
      (name identity_key encryption_key : Text)
      → o.post_request c.requests
          (base ++ text "/users")
          (Registration.new name identity_key encryption_key)
        ≡ ok response
      → response.status ≡ 201
      → register_public_key o base name identity_key encryption_key c
        ≡ (ok tt, record c { requests = suc c.requests })
  unfolding register_public_key ensure_success
  register_public_key-succeeds name identity_key encryption_key e status = ground arith

  pub add_contact-found :
      (name : Text) (entry : PublicKeyEntry)
      → is_valid_username name ≡ true
      → lookup_public_key o base name c ≡ (ok (some entry), record c { requests = suc c.requests })
      → entry.username ≡ name
      → Dict.get name (add_contact o base name c).1.book.contacts ≡ some entry
  unfolding add_contact is_valid_username
  add_contact-found name entry v e own =
      let looked_up : ClientState = record c { requests = suc c.requests } in
      let stored : Dict.get name (add o entry looked_up).1.book.contacts ≡ some entry =
        rw (contacts-add o base entry looked_up)
          (ground (arith, Dict.get-insert name entry.username entry c.book.contacts)) in
      let looks : (lookup_public_key o base name c).0 ≡ ok (some entry) = ap (λ r. r.0) e in
      let after : (lookup_public_key o base name c).1 ≡ looked_up = ap (λ r. r.1) e in
      let full : is_empty name ≡ false = ground arith in ground arith
