-- ===== src/Server/System/Kept.antt =====
-- What every statement keeps, the handlers keep.
use phantasma.Prelude.{
  ℕ, ◌≡◌, refl, Text, Bytes, Bool, true, false, if◌then◌else◌, Option, List, [], ◌∷◌, arith, Result,
  ok, err, map_err, inl, inr, length,
}
use phantasma.Shared.Registration.{PublicKeyRegistration}
use phantasma.Server.Sqlite.{SqlxError, Database, Sqlite}
use phantasma.Server.Directory.Keys as Keys
use phantasma.Server.Directory.Queue.{
  QueuedMessage, queue_message, queued_messages_for, delete_queued_message,
}
use phantasma.Server.State.{
  AppState, Environment, delivered, load_failed, delete_failed, payload_failed, RelayError,
  ActiveClient, print, on_directory, send,
}
use phantasma.Server.State.Channels.{directory-send}
use phantasma.Shared.Validation.{is_valid_username}
use phantasma.Server.Hex.{hex_preview}
use phantasma.Server.Http.{
  HttpError, register_public_key, lookup_public_key, internal_error, validate_registration,
}
use phantasma.Server.Http.Directory.{IsValid, validate_registration_iff}
use phantasma.Server.Payload.{relay_or_queue, handle_encrypted_payload, send_to}
use phantasma.Server.Payload.Frame.{handle_encrypted_payload-AfterPayload, directory-send_to}
use phantasma.Server.Delivery.{deliver_loop, deliver_queued_messages}
use phantasma.Server.Connection.{Connection, Incoming, binary, text_frame, receive_turn}
use phantasma.Server.System.{}

-- From tables with `P`, an insertion into the queue leads to tables with `Q`, and any other
-- statement to tables with `P`, which have `Q` too.
pub record IsAdvanced (q : Sqlite) (P Q : Database → Type 0) : Type 0 where
  pub weaken : (db : Database) → P db → Q db
  pub queue :
      (to : Text) (payload : Bytes) (db : Database) → P db → Q (queue_message q to payload db).1
  pub load : (name : Text) (db : Database) → P db → P (queued_messages_for q name db).1
  pub delete : (id : ℕ) (db : Database) → P db → P (delete_queued_message q id db).1
  pub store :
      (r : PublicKeyRegistration) (db : Database)
      → IsValid r
      → P db
      → P (Keys.register_public_key q r db).1
  pub find : (name : Text) (db : Database) → P db → P (Keys.lookup_public_key q name db).1

abbrev pub IsKept : Sqlite → (Database → Type 0) → Type 0
IsKept q P = IsAdvanced q P P

if-keeps : (Q : Database → Type 0) (b : Bool) (x y : Database) → Q x → Q y → Q (if b then x else y)
if-keeps Q true x y h k = h
if-keeps Q false x y h k = k

directory-relay_or_queue :
    (env : Environment) (to : Text) (bytes : Bytes) (recipient : Option ActiveClient) (s : AppState)
    → (relay_or_queue env to bytes recipient s).1.directory ≡ (
        if (send_to recipient bytes s).0
        then s.directory
        else (queue_message env.sqlite to bytes s.directory).1)
unfolding relay_or_queue
directory-relay_or_queue env to bytes recipient s =
    ground (arith, directory-send_to recipient bytes s)

directory-register_public_key :
    (env : Environment) (r : PublicKeyRegistration) (s : AppState)
    → (register_public_key env r s).1.directory ≡ elim (validate_registration r) [
      | ok _ ↦ (Keys.register_public_key env.sqlite r s.directory).1
      | err e ↦ s.directory
    ]
unfolding register_public_key internal_error
directory-register_public_key env r s = ground arith

directory-lookup_public_key :
    (env : Environment) (name : Text) (s : AppState)
    → (lookup_public_key env name s).1.directory ≡ (
        if is_valid_username name
        then (Keys.lookup_public_key env.sqlite name s.directory).1
        else s.directory)
unfolding lookup_public_key internal_error
directory-lookup_public_key env name s = ground arith

module _ (env : Environment) (P Q : Database → Type 0) (kept : IsAdvanced env.sqlite P Q) where
  pub payload-keeps :
      (sender : Text) (payload : Bytes) (s : AppState)
      → P s.directory
      → Q (handle_encrypted_payload env sender payload s).1.directory
  payload-keeps sender payload s h =
      elim (handle_encrypted_payload-AfterPayload env sender payload s) [
        | inl e ↦ rw e (kept.weaken s.directory h)
        | inr (routed, bytes, reads, e) ↦
            rw (e, directory-relay_or_queue)
              (if-keeps Q _ _ _ (kept.weaken s.directory h)
                (kept.queue routed.to bytes s.directory h))
      ]

  pub register-keeps :
      (r : PublicKeyRegistration) (s : AppState)
      → P s.directory
      → P (register_public_key env r s).1.directory
  register-keeps r s h = rw directory-register_public_key (checked (validate_registration r) refl)
    where
      checked :
          (v : Result HttpError (Unit {0}))
          → validate_registration r ≡ v
          → P (elim v [
            | ok _ ↦ (Keys.register_public_key env.sqlite r s.directory).1
            | err e ↦ s.directory
          ])
      checked (ok u) e = kept.store r s.directory ((validate_registration_iff r).0 e) h
      checked (err f) e = h

  pub lookup-keeps :
      (name : Text) (s : AppState) → P s.directory → P (lookup_public_key env name s).1.directory
  lookup-keeps name s h =
      rw directory-lookup_public_key (if-keeps P _ _ _ (kept.find name s.directory h) h)

  pub loop-keeps :
      (username : Text) (sender : ℕ) (ms : List QueuedMessage) (s : AppState)
      → P s.directory
      → P (deliver_loop env username sender ms s).directory
  unfolding deliver_loop
  loop-keeps username sender [] s h = h
  loop-keeps username sender (m ∷ ms) s h =
      round (send sender m.payload s).0 (delete_queued_message env.sqlite m.id sent_s.directory).0
        (loop-keeps username sender ms said h₂)
    where
      sent_s : AppState
      sent_s = (send sender m.payload s).1

      deleted_s : AppState
      deleted_s = (on_directory (λ e. e) (delete_queued_message env.sqlite m.id) sent_s).1

      said : AppState
      said = print (delivered username (length m.payload) (hex_preview m.payload)) deleted_s

      h₁ : P sent_s.directory
      h₁ = rw directory-send h

      h₂ : P deleted_s.directory
      h₂ = kept.delete m.id sent_s.directory h₁

      round :
          (sent : Bool) (deleted : Result SqlxError (Unit {0}))
          → P (deliver_loop env username sender ms said).directory
          → P
              (if sent
                then elim (map_err (λ (e : SqlxError). e) deleted) [
                  | ok _ ↦ deliver_loop env username sender ms said
                  | err e ↦ print (delete_failed e username) deleted_s
                ]
                else sent_s).directory
      round true (ok u) rest = rest
      round true (err e) rest = h₂
      round false d rest = h₁

  pub deliver-keeps :
      (username : Text) (sender : ℕ) (s : AppState)
      → P s.directory
      → P (deliver_queued_messages env username sender s).directory
  unfolding deliver_queued_messages
  deliver-keeps username sender s h =
      when_loaded (queued_messages_for env.sqlite username s.directory).0
    where
      loaded_s : AppState
      loaded_s = (on_directory (λ e. e) (queued_messages_for env.sqlite username) s).1

      h₁ : P loaded_s.directory
      h₁ = kept.load username s.directory h

      when_loaded :
          (r : Result SqlxError (List QueuedMessage))
          → P
              (elim (map_err (λ (e : SqlxError). e) r) as (λ _. AppState) [
                | ok ms ↦ deliver_loop env username sender ms loaded_s
                | err e ↦ print (load_failed e username) loaded_s
              ]).directory
      when_loaded (ok ms) = loop-keeps username sender ms loaded_s h₁
      when_loaded (err e) = h₁

  pub receive-keeps :
      (c : Connection) (i : Incoming) (s : AppState)
      → P s.directory
      → Q (receive_turn env c i s).1.directory
  unfolding receive_turn
  receive-keeps c (binary bytes) s h = logged (handle_encrypted_payload env c.username bytes s).0
    where
      s' : AppState
      s' = (handle_encrypted_payload env c.username bytes s).1

      logged :
          (r : Result RelayError (Unit {0}))
          → Q
              (elim r as (λ _. AppState) [
                | ok _ ↦ s'
                | err _ ↦ print (payload_failed c.connection_id) s'
              ]).directory
      logged (ok u) = payload-keeps c.username bytes s h
      logged (err e) = payload-keeps c.username bytes s h
  receive-keeps c (text_frame t) s h = kept.weaken s.directory h
  receive-keeps c _ s h = kept.weaken s.directory h
