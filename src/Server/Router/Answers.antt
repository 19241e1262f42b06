-- ===== src/Server/Router/Answers.antt =====
-- What axum, `reqwest` and the reader of URLs are documented to do with the requests of the client,
-- and what the relay answers to them.
use phantasma.Prelude.{
  Text, Bytes, Bool, true, not, ◌&&◌, ◌≡◌, refl, ◌∙◌, none, some, List, [], ◌∷◌, ◌++◌, ok, err,
  arith, text_eq, nat_eq, ◌==◌, all,
}
use phantasma.Prelude.Utf8.{text, is_empty, is_ascii_alphanumeric}
use phantasma.Shared.Registration.{PublicKeyRegistration}
use phantasma.Shared.Validation.{is_valid_username, is_username_char}
use phantasma.Server.State.{AppState, Environment}
use phantasma.Server.Http as Http
use phantasma.Server.Router.{
  Handler, register_key, lookup_key, websocket, status_number, get, post, Request, reply, upgrade,
  Axum, patterns, handler_of, routes, unmatched, status_number, error_reply, json_reply, handle,
  serve,
}

-- What a capture can hold: some characters, none of them a slash or a percent sign.
unfoldable pub is_segment : Text → Bool
is_segment s = not (is_empty s) && all (λ c. not (c == b'/') && not (c == b'%')) s

abbrev pub key_path : Text → Text
key_path name = text "/users/" ++ name ++ text "/public-key"

-- axum's matching of the declared patterns: a capture takes one segment of the path, and what it
-- holds without a percent sign is what the path has there.
pub record IsRouter (axum : Axum) : Type 0 where
  pub users : axum.matched patterns (text "/users") ≡ some (text "/users", [])
  pub public_key :
      (name : Text)
      → is_segment name ≡ true
      → axum.matched patterns (key_path name)
        ≡ some (text "/users/{username}/public-key", name ∷ [])
  pub websocket :
      (name : Text)
      → is_segment name ≡ true
      → axum.matched patterns (text "/ws/" ++ name) ≡ some (text "/ws/{username}", name ∷ [])
  pub short : axum.matched patterns (text "/public-key") ≡ none
  pub two : axum.matched patterns (text "/users/public-key") ≡ none

chars-segment :
    (s : Text)
    → all is_username_char s ≡ true
    → all (λ c. not (c == b'/') && not (c == b'%')) s ≡ true
unfolding all is_username_char is_ascii_alphanumeric
chars-segment [] h = refl
chars-segment (c ∷ s) h = ground (arith, chars-segment s)

-- A valid name is one segment.
pub is_segment-valid : (name : Text) → is_valid_username name ≡ true → is_segment name ≡ true
unfolding is_segment is_valid_username
is_segment-valid name h = ground (arith, chars-segment name)

module _ (env : Environment) (axum : Axum) (router : IsRouter axum) (s : AppState) where
  serve-handle :
      (request : Request) (pattern : Text) (captures : List Text) (handler : Handler)
      → axum.matched patterns request.path ≡ some (pattern, captures)
      → handler_of pattern request.method routes ≡ some handler
      → serve env axum request s ≡ handle env axum handler captures request s
  unfolding serve
  serve-handle request pattern captures handler m h = rw (serve, m, h) refl

  -- The path at which the client looks a valid name up reaches the handler of lookups, with that
  -- name.
  pub serve-lookup :
      (name : Text) (body : Bytes)
      → is_valid_username name ≡ true
      → serve env axum (record { method = get; path = key_path name; body = body }) s ≡ (
          let (answer, s') = Http.lookup_public_key env name s in
          (
            reply
                (elim answer [ ok entry ↦ json_reply env axum 200 entry | err e ↦ error_reply e ]),
            s',
          ))
  unfolding handle handler_of text_eq
  serve-lookup name body v =
      serve-handle _ (text "/users/{username}/public-key") (name ∷ []) lookup_key
        (router.public_key name (is_segment-valid name v)) refl

  -- The path at which the client registers reaches the handler of registrations.
  pub serve-register :
      (registration : PublicKeyRegistration) (body : Bytes)
      → axum.registration.from_slice body ≡ ok registration
      → serve env axum (record { method = post; path = text "/users"; body = body }) s ≡ (
          let (answer, s') = Http.register_public_key env registration s in
          (
            reply (elim answer [
              | ok (status, entry) ↦ json_reply env axum (status_number status) entry
              | err e ↦ error_reply e
            ]),
            s',
          ))
  unfolding handle handler_of text_eq
  serve-register registration body e =
      serve-handle _ (text "/users") [] register_key router.users refl ∙ ground arith

  -- The path at which the client connects under a valid name opens a connection of that name.
  pub serve-websocket :
      (name : Text) (body : Bytes)
      → let request : Request = record { method = get; path = text "/ws/" ++ name; body = body } in
        is_valid_username name ≡ true
        → axum.refusal request ≡ none
        → serve env axum request s ≡ (upgrade name, s)
  unfolding handle handler_of text_eq Http.websocket_handler
  serve-websocket name body v accepted =
      serve-handle _ (text "/ws/{username}") (name ∷ []) websocket
        (router.websocket name (is_segment-valid name v)) refl
      ∙ ground arith

  pub serve-unmatched :
      (request : Request)
      → axum.matched patterns request.path ≡ none
      → serve env axum request s ≡ (reply unmatched, s)
  unfolding serve
  serve-unmatched request e = rw (serve, e) refl
