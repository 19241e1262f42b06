-- ===== src/Web/Honesty.antt =====
-- What the client can rely on in the answers of this relay.
use phantasma.Prelude.{
  ℕ, Text, ◌≡◌, ◌≢◌, refl, ap, Bool, false, ◌∙◌, true, some, ok, err, arith, inl, inr, Result-cases,
  Option-cases, List, [], ◌∷◌, text_eq, ◌&&◌, leb, ◌++◌, ◌⊎◌,
}
use mathlib.Core.List.{append_assoc}
use phantasma.Prelude.Utf8.{text}
use phantasma.Shared.Registration.{PublicKeyEntry}
use phantasma.Shared.Validation.{is_valid_username}
use phantasma.Server.Sqlite.{PublicKeyRow, run}
use phantasma.Server.Directory.Keys as Keys
use phantasma.Server.Directory.Keys.{select_key}
use phantasma.Server.State.{AppState, Environment}
use phantasma.Server.Http as Http
use phantasma.Server.Http.{internal_error, HttpError}
use phantasma.Server.Router.{json_reply, error_reply, status_number, unmatched}
use phantasma.Server.Router.Answers.{key_path, serve-lookup, serve-unmatched}
use phantasma.Client.Directory.{Outside, key_url}
use phantasma.Client.Messages.Pins.{IsHonest}
use phantasma.Web.{Web, IsWeb, received, response_of, get_answer, AnswersFrom}

username-select_key :
    (name : Text) (rows : List PublicKeyRow) (row : PublicKeyRow)
    → select_key name rows ≡ some row
    → row.username ≡ name
unfolding select_key
username-select_key name [] row h = absurd (cc)
username-select_key name (old ∷ rows) row h = ground (arith, username-select_key name rows row)

-- An entry that a lookup is answered with has the name that was asked for.
username-lookup_public_key :
    (env : Environment) (name : Text) (s : AppState) (entry : PublicKeyEntry)
    → (Http.lookup_public_key env name s).0 ≡ ok entry
    → entry.username ≡ name
unfolding Http.lookup_public_key Keys.lookup_public_key run internal_error
username-lookup_public_key env name s entry h =
    elim (Option-cases (select_key name s.directory.public_keys)) [
      | inl e ↦ ground arith
      | inr (row, e) ↦ ground (arith, username-select_key name s.directory.public_keys row e)
    ]

abbrev is_success : ℕ → Bool
is_success status = leb 200 status && leb status 299

-- A lookup that fails is answered with the status of an error.
status-lookup_public_key :
    (env : Environment) (name : Text) (s : AppState) (e : HttpError)
    → (Http.lookup_public_key env name s).0 ≡ err e
    → is_success (status_number e.status) ≡ false
unfolding Http.lookup_public_key Keys.lookup_public_key run internal_error
status-lookup_public_key env name s e h = ground arith

module _ (env : Environment) (web : Web) (base : Text) (lawful : IsWeb web base)
    (s : AppState) where
  -- The answer to a lookup of a valid name that a URL can carry.
  pub get_answer-plain :
      (name : Text)
      → is_valid_username name ≡ true
      → name ≢ text "."
      → name ≢ text ".."
      → get_answer env web (base ++ key_path name) s ≡ (
          let (answer, s') = Http.lookup_public_key env name s in
          (
            response_of env web (elim answer [
              | ok entry ↦ json_reply env web.axum 200 entry
              | err e ↦ error_reply e
            ]),
            s',
          ))
  unfolding get_answer
  get_answer-plain name v this parent =
      rw (get_answer, lawful.urls.plain name v this parent)
        (ap (λ answer. (received env web answer.0, answer.1))
          (serve-lookup env web.axum lawful.router s name [] v))

  -- A request for one of the two names that are taken for a step in the path.
  pub get_answer-dots :
      (name : Text)
      → (name ≡ text ".") ⊎ (name ≡ text "..")
      → get_answer env web (base ++ key_path name) s ≡ (response_of env web unmatched, s)
  unfolding get_answer
  get_answer-dots name (inl e) =
      rw (e, get_answer, lawful.urls.this)
        (ap (λ answer. (received env web answer.0, answer.1))
          (serve-unmatched env web.axum lawful.router s _ lawful.router.two))
  get_answer-dots name (inr e) =
      rw (e, get_answer, lawful.urls.parent)
        (ap (λ answer. (received env web answer.0, answer.1))
          (serve-unmatched env web.axum lawful.router s _ lawful.router.short))

  -- An entry arrives as it was sent.
  pub response_of-json_reply :
      (status : ℕ) (entry : PublicKeyEntry)
      → let response = response_of env web (json_reply env web.axum status entry) in
        (response.status ≡ status) × (response.json ≡ ok entry)
  unfolding json_reply
  response_of-json_reply status entry =
      let (bytes, e) = lawful.entry.total entry in
      let back = lawful.entry.round_trip entry bytes e in rw (json_reply, e) (refl, back)

  -- A successful answer to a lookup of a valid name holds an entry of that name.
  username-get_answer :
      (name : Text) (entry : PublicKeyEntry)
      → is_valid_username name ≡ true
      → let response = (get_answer env web (base ++ key_path name) s).0 in
        (leb 200 response.status && leb response.status 299) ≡ true
        → response.json ≡ ok entry
        → entry.username ≡ name
  username-get_answer name entry v success j = elim (text_eq.dec name (text ".")) [
    | yes this ↦ dots (inl this)
    | no this ↦ elim (text_eq.dec name (text "..")) [
      | yes parent ↦ dots (inr parent)
      | no parent ↦ elim (Result-cases (Http.lookup_public_key env name s).0) [
        | inl (found, e) ↦
            let (status, json) = response_of-json_reply 200 found in
            let answer = rw e at (get_answer-plain name v this parent) in
            let same : found ≡ entry = cc in
            rw (← same) (username-lookup_public_key env name s found e)
        | inr (f, e) ↦
            let failed = status-lookup_public_key env name s f e in
            let answer = rw e at (get_answer-plain name v this parent) in absurd (cc)
      ]
    ]
  ]
    where
      dots : (name ≡ text ".") ⊎ (name ≡ text "..") → entry.username ≡ name
      dots d = absurd (ground (arith, get_answer-dots name d))

-- The client asks for the key of a name at this address.
pub key_url-key_path :
    (o : Outside) (base name : Text) → key_url o base name ≡ base ++ key_path name
unfolding key_url
key_url-key_path o base name =
    let users = text "/users/" in
    let suffix = text "/public-key" in
    ap (λ url. url ++ suffix) (append_assoc base users name)
    ∙ append_assoc base (users ++ name) suffix

-- If every answer that the client gets is this relay's, in whatever states it is then, the client
-- can rely on the names in them.
pub relay-IsHonest :
    (env : Environment) (web : Web) (base : Text) (states : ℕ → AppState) (o : Outside)
    → IsWeb web base
    → AnswersFrom env web states o
    → IsHonest o base
relay-IsHonest env web base states o lawful answers n name response entry v e success j =
    let same = answers n (base ++ key_path name) response (rw (← key_url-key_path o base name) e) in
    username-get_answer env web base lawful (states n) name entry v (rw same success) (rw same j)
