-- ===== src/Server/Delivery/Frame.antt =====
-- What no delivery can change.
use phantasma.Prelude.{ℕ, Text, List, [], ◌∷◌, arith, length, Result-cases, inl, inr}
use phantasma.Server.Directory.Queue.{QueuedMessage, queued_messages_for, delete_queued_message}
use phantasma.Server.State.{AppState, Environment, delivered, print, on_directory, send}
use phantasma.Server.State.Channels.{is_live}
use phantasma.Server.State.Frame.{SameRegistry, SameRegistry-refl, send-SameRegistry}
use phantasma.Server.Hex.{hex_preview}
use phantasma.Server.Delivery.{deliver_loop, deliver_queued_messages}

module _ (env : Environment) (username : Text) (sender : ℕ) where
  abbrev deleted : QueuedMessage → AppState → AppState
  deleted m s =
      (on_directory (λ e. e) (delete_queued_message env.sqlite m.id) (send sender m.payload s).1).1

  abbrev said : QueuedMessage → AppState → AppState
  said m s = print (delivered username (length m.payload) (hex_preview m.payload)) (deleted m s)

  said-SameRegistry :
      (other : ℕ) (m : QueuedMessage) (s : AppState) → SameRegistry other s (said m s)
  unfolding is_live
  said-SameRegistry other m s = send-SameRegistry other sender m.payload s

  deliver_loop-SameRegistry :
      (other : ℕ) (ms : List QueuedMessage) (s : AppState)
      → SameRegistry other s (deliver_loop env username sender ms s)
  unfolding deliver_loop is_live
  deliver_loop-SameRegistry other [] s = SameRegistry-refl other s
  deliver_loop-SameRegistry other (m ∷ ms) s = ground (
    arith,
    send-SameRegistry other sender m.payload s,
    deliver_loop-SameRegistry other ms (said m s),
  )

  pub deliver_queued_messages-SameRegistry :
      (other : ℕ) (s : AppState)
      → SameRegistry other s (deliver_queued_messages env username sender s)
  unfolding deliver_queued_messages is_live
  deliver_queued_messages-SameRegistry other s =
      elim (Result-cases (queued_messages_for env.sqlite username s.directory).0) [
        | inr (e, f) ↦ ground arith
        | inl (ms, f) ↦ ground (
          arith,
          f,
          deliver_loop-SameRegistry other ms
              (on_directory (λ e. e) (queued_messages_for env.sqlite username) s).1,
        )
      ]
