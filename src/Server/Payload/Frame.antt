-- ===== src/Server/Payload/Frame.antt =====
-- What no encrypted payload can change.
use phantasma.Prelude.{
  ℕ, ◌≡◌, refl, Text, Bytes, Option, none, some, arith, ok, Result-cases, inl, inr, Bool-cases,
  ◌&&◌, ◌⊎◌, ◌==◌, text_eq,
}
use phantasma.Prelude.Dict
use phantasma.Shared.Encrypted
use phantasma.Shared.Routed
use phantasma.Shared.Routed.{RoutedEncryptedMessage}
use phantasma.Shared.Validation.{is_valid_username}
use phantasma.Server.Directory.Queue.Order.{IsSound, queue_message-IsSound}
use phantasma.Server.State.{AppState, Environment, ActiveClient}
use phantasma.Server.State.Channels.{is_live, directory-send}
use phantasma.Server.State.Frame.{SameRegistry, SameRegistry-refl, send-SameRegistry}
use phantasma.Server.Payload.{send_to, relay_or_queue, handle_encrypted_payload}

send_to-SameRegistry :
    (other : ℕ) (recipient : Option ActiveClient) (payload : Bytes) (s : AppState)
    → SameRegistry other s (send_to recipient payload s).1
unfolding send_to
send_to-SameRegistry other none payload s = SameRegistry-refl other s
send_to-SameRegistry other (some c) payload s = send-SameRegistry other c.sender payload s

pub directory-send_to :
    (recipient : Option ActiveClient) (payload : Bytes) (s : AppState)
    → (send_to recipient payload s).1.directory ≡ s.directory
unfolding send_to
directory-send_to none payload s = refl
directory-send_to (some c) payload s = directory-send c.sender payload s

module _ (env : Environment) where
  pub relay_or_queue-SameRegistry :
      (other : ℕ) (to : Text) (bytes : Bytes) (recipient : Option ActiveClient) (s : AppState)
      → SameRegistry other s (relay_or_queue env to bytes recipient s).1
  unfolding relay_or_queue is_live
  relay_or_queue-SameRegistry other to bytes recipient s =
      ground (arith, send_to-SameRegistry other recipient bytes s)

  relay_or_queue-IsSound :
      (to : Text) (bytes : Bytes) (recipient : Option ActiveClient) (s : AppState)
      → IsSound s.directory
      → IsSound (relay_or_queue env to bytes recipient s).1.directory
  unfolding relay_or_queue
  relay_or_queue-IsSound to bytes recipient s sound = ground (
    arith,
    directory-send_to recipient bytes s,
    queue_message-IsSound env.sqlite s.directory sound to bytes,
  )

  -- The state after the handler: with another log, or as `relay_or_queue` leaves it for the
  -- recipient that the payload names.
  abbrev pub AfterPayload : Bytes → AppState → AppState → Type 0
  AfterPayload payload s s' =
      (s' ≡ record s { log = s'.log })
      ⊎ ((routed : RoutedEncryptedMessage) × (bytes : Bytes) × (Routed.from_wire_bytes env.routed
              payload
            ≡ ok routed)
          × (s' ≡ (relay_or_queue env routed.to bytes (Dict.get routed.to s.active_clients) s).1))

  pub handle_encrypted_payload-AfterPayload :
      (sender : Text) (payload : Bytes) (s : AppState)
      → AfterPayload payload s (handle_encrypted_payload env sender payload s).1
  unfolding handle_encrypted_payload
  handle_encrypted_payload-AfterPayload sender payload s =
      elim (Result-cases (Routed.from_wire_bytes env.routed payload)) [
        | inr (f, e) ↦ inl (ground arith)
        | inl (routed, e) ↦
            elim (Result-cases (Encrypted.to_wire_bytes env.encrypted routed.encrypted)) [
              | inr (f, d) ↦ inl (ground arith)
              | inl (bytes, d) ↦
                  elim (Bool-cases (routed.from == sender && is_valid_username routed.to)) [
                    | inr no_good ↦ inl (ground arith)
                    | inl good ↦ inr (routed, bytes, e, ground arith)
                  ]
            ]
      ]

  pub handle_encrypted_payload-SameRegistry :
      (other : ℕ) (sender : Text) (payload : Bytes) (s : AppState)
      → SameRegistry other s (handle_encrypted_payload env sender payload s).1
  handle_encrypted_payload-SameRegistry other sender payload s =
      elim (handle_encrypted_payload-AfterPayload sender payload s) [
        | inl e ↦ rw e (unfold is_live in SameRegistry-refl other s)
        | inr (routed, bytes, _, e) ↦ rw e (relay_or_queue-SameRegistry other routed.to bytes _ s)
      ]

  pub handle_encrypted_payload-IsSound :
      (sender : Text) (payload : Bytes) (s : AppState)
      → IsSound s.directory
      → IsSound (handle_encrypted_payload env sender payload s).1.directory
  handle_encrypted_payload-IsSound sender payload s sound =
      elim (handle_encrypted_payload-AfterPayload sender payload s) [
        | inl e ↦ rw e sound
        | inr (routed, bytes, _, e) ↦ rw e (relay_or_queue-IsSound routed.to bytes _ s sound)
      ]
