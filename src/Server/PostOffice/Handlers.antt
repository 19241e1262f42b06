-- ===== src/Server/PostOffice/Handlers.antt =====
-- The handlers that touch no mail, and the round of the receiving task.
use phantasma.Prelude.{ℕ, Text, true, ◌≡◌, refl, ◌∙◌, arith, Result, ok, err, text_eq, nat_eq}
use phantasma.Shared.Registration.{PublicKeyRegistration}
use phantasma.Server.Sqlite.{Database}
use phantasma.Server.Directory.Queue.Contents.{waiting}
use phantasma.Server.Directory.Keys as Keys
use phantasma.Server.Sqlite as Sqlite
use phantasma.Server.State.{AppState, Environment, RelayError, print, payload_failed}
use phantasma.Server.State.Frame.{SameRegistry}
use phantasma.Server.Payload.{handle_encrypted_payload}
use phantasma.Server.State.Channels.{buffer}
use phantasma.Server.Http.{register_public_key, lookup_public_key, internal_error}
use phantasma.Server.Connection.{Connection, Incoming, binary, text_frame, receive_turn}
use phantasma.Server.System.{}
use phantasma.Server.PostOffice.{act}
use phantasma.Server.PostOffice.Abstraction.{post_office, PostOffice-ext, of_frame, letter}
use phantasma.Server.PostOffice.Posting.{
  place-SameRegistry, post_office-log, post_office-handle_encrypted_payload,
}
use phantasma.Server.PostOffice.Lines.{}

-- The channels and the queue are as they were.
abbrev pub SameMail : AppState → AppState → Type 0
SameMail s s' =
    (s'.channels ≡ s.channels) × (s'.directory.queued_messages ≡ s.directory.queued_messages)

pub register-SameMail :
    (env : Environment) (r : PublicKeyRegistration) (s : AppState)
    → SameMail s (register_public_key env r s).1
unfolding register_public_key internal_error Keys.register_public_key Sqlite.run
register-SameMail env r s = ground arith

pub lookup-SameMail :
    (env : Environment) (name : Text) (s : AppState) → SameMail s (lookup_public_key env name s).1
unfolding lookup_public_key internal_error Keys.lookup_public_key Sqlite.run
lookup-SameMail env name s = ground arith

pub post_office-SameMail :
    (s s' : AppState)
    → SameMail s s'
    → ((other : ℕ) → SameRegistry other s s')
    → post_office s' ≡ post_office s
unfolding waiting buffer
post_office-SameMail s s' (channels, rows) same =
    PostOffice-ext _ _ (λ name. ground arith) (λ address. ground arith)
      (place-SameRegistry s s' same)

module _ (env : Environment) (c : Connection) (s : AppState)
    (ready : s.directory.has_queue ≡ true) where
  pub receive_turn-refines :
      (incoming : Incoming)
      → post_office (receive_turn env c incoming s).1
        ≡ act (of_frame env c.username s incoming) (post_office s)
  unfolding receive_turn
  receive_turn-refines (binary bytes) = answered (handle_encrypted_payload env c.username bytes s).0
    where
      posted :
          post_office (handle_encrypted_payload env c.username bytes s).1
          ≡ act (letter env c.username bytes s) (post_office s)
      posted = post_office-handle_encrypted_payload env c.username bytes s ready

      answered :
          (r : Result RelayError (Unit {0}))
          → post_office (elim r as (λ _. AppState) [
            | ok _ ↦ (handle_encrypted_payload env c.username bytes s).1
            | err _ ↦
                print
                  (payload_failed c.connection_id)
                  (handle_encrypted_payload env c.username bytes s).1
          ])
            ≡ act (letter env c.username bytes s) (post_office s)
      answered (ok u) = posted
      answered (err e) = post_office-log _ _ refl ∙ posted
  receive_turn-refines (text_frame t) = unfold act in post_office-log s _ refl
  receive_turn-refines Incoming.failed = unfold act in post_office-log s _ refl
  receive_turn-refines _ = unfold act in refl
