-- ===== src/Server/Router.antt =====
-- server/src/main.rs: the routes that `main` declares, and how a request reaches its handler. What
-- axum does is a parameter: which of the declared patterns matches a path, how a body is read as
-- JSON, and the answers that it gives itself.
pub mod Answers
use phantasma.Prelude.{
  ℕ, Text, Bytes, Option, none, some, List, [], ◌∷◌, map, Result, ok, err, text_eq, ◌==◌, ◌&&◌,
  if◌then◌else◌, Bool, true, false,
}
use phantasma.Prelude.Utf8.{text}
use phantasma.Shared.Codec.{Codec, JsonError}
use phantasma.Shared.Registration.{PublicKeyRegistration, PublicKeyEntry}
use phantasma.Server.State.{AppState, Environment}
use phantasma.Server.Http.{
  StatusCode, created, bad_request, not_found, internal_server_error, HttpError,
  register_public_key, lookup_public_key, websocket_handler,
}

-- The two methods that the routes are declared with.
pub data Method : Type 0 where
  get post : Method

pub data Handler : Type 0 where
  index register_key lookup_key websocket : Handler

pub record Request : Type 0 where
  pub method : Method
  pub path : Text
  pub body : Bytes

-- A response of HTTP, or the switch to the websocket protocol under a name.
pub record Reply : Type 0 where
  pub status : ℕ
  pub body : Bytes

pub data Outcome : Type 0 where
  reply : Reply → Outcome
  upgrade : Text → Outcome

pub record Axum : Type 0 where
  -- the declared pattern that a path matches, and what its captures hold, percent-decoded
  pub matched : List Text → Text → Option (Text × List Text)
  -- `serde_json` at the two types of the HTTP interface, inside the `Json` extractor and response
  pub registration : Codec PublicKeyRegistration
  pub entry : Codec PublicKeyEntry
  -- whether a request can be upgraded; if not, the answer to it
  pub refusal : Request → Option Reply
  pub bad_body : JsonError → Reply
  pub bad_captures : Reply
  pub bad_response : JsonError → Reply

-- The argument of each `.route(...)`.
abbrev pub routes : List (Text × Method × Handler)
routes =
    (text "/", get, index)
    ∷ (text "/users", post, register_key)
    ∷ (text "/users/{username}/public-key", get, lookup_key)
    ∷ (text "/ws/{username}", get, websocket)
    ∷ []

abbrev pub patterns : List Text
patterns = map (λ route. route.0) routes

abbrev is_method : Method → Method → Bool
is_method get get = true
is_method post post = true
is_method _ _ = false

unfoldable pub handler_of : Text → Method → List (Text × Method × Handler) → Option Handler
handler_of pattern method [] = none
handler_of pattern method ((p, m, handler) ∷ rest) =
    if p == pattern && is_method m method then some handler else handler_of pattern method rest

abbrev pub status_number : StatusCode → ℕ
status_number created = 201
status_number bad_request = 400
status_number not_found = 404
status_number internal_server_error = 500

-- `(StatusCode, String)` as a response. The messages are ASCII: their bytes are their characters.
abbrev pub error_reply : HttpError → Reply
error_reply e = record { status = status_number e.status; body = text e.message }

-- A path that matches no pattern, and a method for which its pattern has no route.
abbrev pub unmatched : Reply
unmatched = record { status = 404; body = [] }

abbrev pub method_not_allowed : Reply
method_not_allowed = record { status = 405; body = [] }

module _ (env : Environment) (axum : Axum) where
  -- `Json(entry)` under a status.
  unfoldable pub json_reply : ℕ → PublicKeyEntry → Reply
  json_reply status entry = elim (axum.entry.to_vec entry) [
    | ok bytes ↦ record { status = status; body = bytes }
    | err e ↦ axum.bad_response e
  ]

  abbrev register : Request → AppState → Outcome × AppState
  register request s = elim (axum.registration.from_slice request.body) [
    | err e ↦ (reply (axum.bad_body e), s)
    | ok registration ↦
        let (answer, s') = register_public_key env registration s in
        (
          reply (elim answer [
            | ok (status, entry) ↦ json_reply (status_number status) entry
            | err e ↦ error_reply e
          ]),
          s',
        )
  ]

  abbrev lookup : List Text → AppState → Outcome × AppState
  lookup (username ∷ []) s =
      let (answer, s') = lookup_public_key env username s in
      (reply (elim answer [ ok entry ↦ json_reply 200 entry | err e ↦ error_reply e ]), s')
  lookup _ s = (reply axum.bad_captures, s)

  -- The extractors stand before the test on the name.
  abbrev open_websocket : List Text → Request → Outcome
  open_websocket (username ∷ []) request = elim (axum.refusal request) [
    | some refused ↦ reply refused
    | none ↦ elim (websocket_handler username) [
      | ok name ↦ upgrade name
      | err e ↦ reply (error_reply e)
    ]
  ]
  open_websocket _ request = reply axum.bad_captures

  unfoldable pub handle : Handler → List Text → Request → AppState → Outcome × AppState
  handle index captures request s =
      (reply (record { status = 200; body = text "Phantasma relay server\n" }), s)
  handle register_key captures request s = register request s
  handle lookup_key captures request s = lookup captures s
  handle websocket captures request s = (open_websocket captures request, s)

  -- One request to the router of `main`.
  unfoldable pub serve : Request → AppState → Outcome × AppState
  serve request s = elim (axum.matched patterns request.path) [
    | none ↦ (reply unmatched, s)
    | some (pattern, captures) ↦ elim (handler_of pattern request.method routes) [
      | none ↦ (reply method_not_allowed, s)
      | some handler ↦ handle handler captures request s
    ]
  ]
