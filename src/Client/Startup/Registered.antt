-- ===== src/Client/Startup/Registered.antt =====
-- A session only follows a registration.
use phantasma.Prelude.{
  ℕ, Text, List, ok, err, some, none, ◌≡◌, arith, Result, ◌++◌, ◌⊎◌, ◌∷◌, [], Result-cases, inl,
  inr, ◌<◌, Bool-cases,
}
use phantasma.Shared.Codec.{Codec}
use phantasma.Shared.Plaintext.{PlaintextChatMessage}
use phantasma.Shared.Encrypted.{EncryptedChatMessage}
use phantasma.Shared.Routed.{RoutedEncryptedMessage}
use phantasma.Prelude.Utf8.{text, is_empty}
use phantasma.Shared.Registration as Registration
use phantasma.Shared.Registration.{PublicKeyRegistration}
use phantasma.Client.Crypto.{Primitives}
use phantasma.Client.Files.{failed}
use phantasma.Client.Keys.{Ed25519, io}
use phantasma.Client.Identity as Identity
use phantasma.Client.Identity.{IdentityJson}
use phantasma.Client.Contacts as Contacts
use phantasma.Client.Arguments.{read_args}
use phantasma.Client.Endpoints.{ServerEndpoints}
use phantasma.Client.Directory.{
  Outside, Response, ClientState, ClientError, ensure_success, server_returned,
  server_returned_body, body_or_empty, register_public_key, unreachable, bad_arguments,
  identity_failed, contacts_failed,
}
use phantasma.Client.Commands.{Event, stop}
use phantasma.Client.Startup.{Process, identity_root, setting, origin, start, main}

-- The server answers no registration with a status from 200 to 299.
abbrev pub Refuses : Outside → Type 0
Refuses o =
    (n : ℕ) (url : Text) (registration : PublicKeyRegistration) (response : Response)
    → o.post_request n url registration ≡ ok response
    → (response.status < 200) ⊎ (299 < response.status)

ensure_success-refused :
    (response : Response)
    → (response.status < 200) ⊎ (299 < response.status)
    → (e : ClientError) × (ensure_success response ≡ err e)
unfolding ensure_success
ensure_success-refused response h = elim (Bool-cases (is_empty (body_or_empty response.body))) [
  | inl e ↦ (server_returned response.status, ground arith)
  | inr e ↦ (server_returned_body response.status (body_or_empty response.body), ground arith)
]

-- It ended in an error, and has neither tried to connect nor sent a payload.
abbrev FailsUnconnected : {A : Type 0} → ClientState → Result ClientError A × ClientState → Type 0
FailsUnconnected s (r, s') =
    ((e : ClientError) × (r ≡ err e)) × (s'.attempts ≡ s.attempts) × (s'.sent ≡ s.sent)

register_public_key-refused :
    (o : Outside) (http_base_url name identity_public_key encryption_public_key : Text)
    (s : ClientState)
    → Refuses o
    → FailsUnconnected s
        (register_public_key o http_base_url name identity_public_key encryption_public_key s)
unfolding register_public_key
register_public_key-refused o url name ik ek s refuses =
    let registration = Registration.new name ik ek in
    elim (Result-cases (o.post_request s.requests (url ++ text "/users") registration)) [
      | inr (f, e) ↦ ((unreachable f, ground arith), ground arith, ground arith)
      | inl (response, e) ↦
          let (f, refused) =
            ensure_success-refused response
              (refuses s.requests (url ++ text "/users") registration response e) in
          ((f, ground arith), ground arith, ground arith)
    ]

module _ {V : Type 0} (o : Outside) (process : Process) (ed25519 : Ed25519)
    (format : IdentityJson V) (p : Primitives) (plaintext : Codec PlaintextChatMessage)
    (encrypted_codec : Codec EncryptedChatMessage) (routed_codec : Codec RoutedEncryptedMessage)
    (refuses : Refuses o) where
  abbrev setting_here : Identity.Setting V
  setting_here = setting o process ed25519 format p plaintext encrypted_codec routed_codec

  start-refused :
      (name : Text) (endpoints : ServerEndpoints) (fuel : ℕ) (events : List Event) (s : ClientState)
      → FailsUnconnected s (
          start o process ed25519 format p plaintext encrypted_codec routed_codec name endpoints
            fuel events s)
  unfolding start
  start-refused name endpoints fuel events s =
      let identity_of =
        λ (root : Text). Identity.load_or_create_in setting_here name root s.files in
      let book_of = λ (root : Text).
        Contacts.load_or_create_in o.machine o.contacts_json name root (identity_of root).1 in
      elim (Result-cases (identity_root o.machine process)) [
        | inr (f, e) ↦ ((identity_failed (io (failed f)), ground arith), ground arith, ground arith)
        | inl (root, e) ↦ elim (Result-cases (identity_of root).0) [
          | inr (f, i) ↦ ((identity_failed f, ground arith), ground arith, ground arith)
          | inl (identity, i) ↦ elim (Result-cases (book_of root).0) [
            | inr (f, c) ↦ ((contacts_failed f, ground arith), ground arith, ground arith)
            | inl (book, c) ↦
                let ((f, is_err), attempts, sent) =
                  register_public_key-refused o endpoints.http_base_url name
                    identity.identity_public_key identity.encryption_public_key
                    (record s {
                      files = (book_of root).1;
                      book = book;
                      output = s.output ++ origin identity ∷ [];
                    })
                    refuses in
                ((f, ground arith), ground arith, ground arith)
          ]
        ]
      ]

  -- If the server answers no registration with a status from 200 to 299, the program ends before it tries to connect or sends
  -- anything, whatever the arguments, the files and the input are: with an error, or, as after
  -- `--help`, without one.
  pub main-refused :
      (args : List Text) (fuel : ℕ) (events : List Event) (s : ClientState)
      → let (r, s') =
          main o process ed25519 format p plaintext encrypted_codec routed_codec args fuel events
            s in
        ((r ≡ ok stop) ⊎ ((e : ClientError) × (r ≡ err e)))
        × (s'.attempts ≡ s.attempts)
        × (s'.sent ≡ s.sent)
  unfolding main
  main-refused args fuel events s = elim (Result-cases (read_args args)) [
    | inr (f, e) ↦ (inr (bad_arguments f, ground arith), ground arith, ground arith)
    | inl (none, e) ↦ (inl (ground arith), ground arith, ground arith)
    | inl (some (name, endpoints), e) ↦
        let ((f, is_err), attempts, sent) = start-refused name endpoints fuel events s in
        (inr (f, ground arith), ground arith, ground arith)
  ]
