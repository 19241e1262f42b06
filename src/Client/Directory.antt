-- ===== src/Client/Directory.antt =====
-- client/src/server_api.rs: registering a public key at the relay, and looking one up. The HTTP
-- client is a parameter: what the n-th request is answered with.
use phantasma.Prelude.{
  ℕ, suc, Text, Bytes, String, not, ◌&&◌, Option, none, some, Result, ok, err, Exec, pure, raise,
  ◌>>=◌, ◌>>◌, map_err, leb, ◌==◌, nat_eq, ◌++◌, if◌then◌else◌, List, [],
}
use phantasma.Prelude.Utf8.{text, is_empty}
use phantasma.Shared.Codec.{JsonError}
use phantasma.Shared.Registration as Registration
use phantasma.Shared.Registration.{PublicKeyEntry, PublicKeyRegistration}
use phantasma.Shared.Validation.{is_valid_username}
use phantasma.Client.Crypto.{CryptoError}
use phantasma.Client.Files.{Machine, FileSystem}
use phantasma.Client.Keys.{IdentityError}
use phantasma.Client.Arguments.{ArgsError}
use phantasma.Client.Contacts.{ContactBook, ContactsJson, ContactError}

-- A response: its status, its body as a text if that can be read, and what its body reads as.
pub record Response : Type 0 where
  pub status : ℕ
  pub body : Option Text
  pub json : Result JsonError PublicKeyEntry

-- What the client meets outside: the answer to the n-th request, if the server is reached; its
-- machine and the format of its contacts file; the error with which the n-th payload cannot be
-- written to the socket, if it cannot; and the one with which the n-th attempt to connect fails.
pub record Outside : Type 0 where
  pub get_request : ℕ → Text → Result String Response
  pub post_request : ℕ → Text → PublicKeyRegistration → Result String Response
  pub machine : Machine
  pub contacts_json : ContactsJson
  pub socket_fault : ℕ → Option String
  pub connect_fault : ℕ → Text → Option String

-- An `anyhow::Error` of the client.
pub data ClientError : Type 0 where
  invalid_username sender_key_mismatch : ClientError
  unreachable socket_failed input_failed : String → ClientError
  contacts_failed : ContactError → ClientError
  identity_failed : IdentityError → ClientError
  bad_arguments : ArgsError → ClientError
  server_returned : ℕ → ClientError
  server_returned_body : ℕ → Text → ClientError
  json_failed : JsonError → ClientError
  crypto_failed : CryptoError → ClientError
  unknown_sender : Text → ClientError

pub data OutputLine : Type 0 where
  usage_add usage_send command_help unknown_command no_contacts connection_lost connected :
      OutputLine
  added_contact no_key_found no_recipient_key sent_message : Text → OutputLine
  contact_name loaded_identity created_identity registered_key own_name : Text → OutputLine
  received : Text → Text → OutputLine
  send_failed not_opened : ClientError → OutputLine
  unexpected_plaintext : ℕ → OutputLine
  connection_error connection_failed : String → OutputLine

pub record ClientState : Type 0 where
  -- the contact book in memory, and the files
  pub book : ContactBook
  pub files : FileSystem
  -- how many requests were sent and how many connections tried so far, how many payloads were
  -- sent, and what the socket took
  pub requests : ℕ
  pub attempts : ℕ
  pub sends : ℕ
  pub sent : List Bytes
  pub output : List OutputLine

abbrev pub Client : Type 0 → Type 0
Client A = Exec ClientState ClientError A

abbrev pub lift : {A : Type 0} → Result ClientError A → Client A
lift r s = (r, s)

abbrev pub body_or_empty : Option Text → Text
body_or_empty none = []
body_or_empty (some body) = body

unfoldable pub ensure_success : Response → Result ClientError Response
ensure_success response =
    let body = body_or_empty response.body in
    if leb 200 response.status && leb response.status 299
    then ok response
    else if is_empty body
    then err (server_returned response.status)
    else err (server_returned_body response.status body)

module _ (o : Outside) (http_base_url : Text) where
  unfoldable pub key_url : Text → Text
  key_url username = http_base_url ++ text "/users/" ++ username ++ text "/public-key"

  abbrev send_request : Text → Client Response
  send_request url s =
      (map_err unreachable (o.get_request s.requests url), record s { requests = suc s.requests })

  unfoldable pub register_public_key : Text → Text → Text → Client Unit
  register_public_key username identity_public_key encryption_public_key s =
      let registration = Registration.new username identity_public_key encryption_public_key in
      let answer = o.post_request s.requests (http_base_url ++ text "/users") registration in
      ((do response ← lift (map_err unreachable answer); lift (ensure_success response); pure tt)
        (record s { requests = suc s.requests }))

  abbrev entry_of : Response → Client (Option PublicKeyEntry)
  entry_of response = if response.status == 404 then pure none else (do
    success ← lift (ensure_success response)
    entry ← lift (map_err json_failed success.json)
    pure (some entry))

  unfoldable pub lookup_public_key : Text → Client (Option PublicKeyEntry)
  lookup_public_key username =
      if not (is_valid_username username)
      then raise invalid_username
      else send_request (key_url username) >>= entry_of
