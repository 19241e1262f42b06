-- ===== src/Web.antt =====
-- client/src/server_api.rs and server/src/main.rs together: a request of the client, as the relay
-- answers it. `reqwest` and its reader of URLs are a parameter.
pub mod Honesty
pub mod Session
pub mod Answers
pub mod Registered
use phantasma.Prelude.{
  ℕ, Text, Bytes, Option, none, some, Result, ok, err, [], ◌++◌, true, ◌≡◌, ◌≢◌,
}
use phantasma.Prelude.Utf8.{text}
use phantasma.Shared.Codec.{IsLawful}
use phantasma.Shared.Registration.{PublicKeyRegistration}
use phantasma.Shared.Validation.{is_valid_username}
use phantasma.Server.State.{AppState, Environment}
use phantasma.Server.Router.{get, post, Reply, Outcome, reply, upgrade, Axum, serve}
use phantasma.Server.Router.Answers.{IsRouter, key_path}
use phantasma.Client.Directory.{Outside, Response}

pub record Web : Type 0 where
  pub axum : Axum
  -- the path that is sent for a URL
  pub url_path : Text → Text
  -- `Response::text`
  pub read_text : Bytes → Option Text

-- How `reqwest` reads the URLs of a relay: the path is what follows the base, except that the
-- segments `.` and `..` are taken away, the latter with the segment before it.
pub record ReadsUrls (url_path : Text → Text) (base : Text) : Type 0 where
  pub users : url_path (base ++ text "/users") ≡ text "/users"
  pub plain :
      (name : Text)
      → is_valid_username name ≡ true
      → name ≢ text "."
      → name ≢ text ".."
      → url_path (base ++ key_path name) ≡ key_path name
  pub this : url_path (base ++ key_path (text ".")) ≡ text "/users/public-key"
  pub parent : url_path (base ++ key_path (text "..")) ≡ text "/public-key"

-- The documented behaviour of the crates between the client and the handlers.
pub record IsWeb (web : Web) (base : Text) : Type 0 where
  pub router : IsRouter web.axum
  pub entry : IsLawful web.axum.entry
  pub registration : IsLawful web.axum.registration
  pub urls : ReadsUrls web.url_path base

module _ (env : Environment) (web : Web) where
  -- An answer as `reqwest` gives it to the client.
  abbrev pub response_of : Reply → Response
  response_of answer = record {
    status = answer.status;
    body = web.read_text answer.body;
    json = web.axum.entry.from_slice answer.body;
  }

  -- `101 Switching Protocols`
  abbrev switching : Reply
  switching = record { status = 101; body = [] }

  abbrev pub received : Outcome → Response
  received (reply answer) = response_of answer
  received (upgrade name) = response_of switching

  -- `get(url)`
  unfoldable pub get_answer : Text → AppState → Response × AppState
  get_answer url s =
      let (outcome, s') =
        serve env web.axum (record { method = get; path = web.url_path url; body = [] }) s in
      (received outcome, s')

  -- `post(url).json(&registration)`; a registration that cannot be serialised is not sent.
  unfoldable pub post_answer : Text → PublicKeyRegistration → AppState → Option Response × AppState
  post_answer url registration s = elim (web.axum.registration.to_vec registration) [
    | err e ↦ (none, s)
    | ok bytes ↦
        let (outcome, s') =
          serve env web.axum (record { method = post; path = web.url_path url; body = bytes }) s in
        (some (received outcome), s')
  ]

  -- Every answer that the client gets to a request is the relay's, in the state in which it is
  -- then.
  abbrev pub AnswersFrom : (ℕ → AppState) → Outside → Type 0
  AnswersFrom states o =
      (n : ℕ) (url : Text) (response : Response)
      → o.get_request n url ≡ ok response
      → (get_answer url (states n)).0 ≡ response
