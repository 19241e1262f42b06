-- ===== src/Server/Delivery.antt =====
-- server/src/main.rs: `deliver_queued_messages`.
pub mod Round
pub mod Outcome
pub mod Accounting
pub mod Frame
use phantasma.Prelude.{ℕ, Text, List, [], ◌∷◌, Result, ok, err, length, if◌then◌else◌}
use phantasma.Server.Sqlite.{SqlxError}
use phantasma.Server.Directory.Queue.{QueuedMessage, queued_messages_for, delete_queued_message}
use phantasma.Server.State.{
  AppState, Environment, delivered, load_failed, delete_failed, print, on_directory, send,
}
use phantasma.Server.Hex.{hex_preview}

module _ (env : Environment) (username : Text) (sender : ℕ) where
  -- The `for` loop; it breaks at the first send or deletion that fails.
  unfoldable pub deliver_loop : List QueuedMessage → AppState → AppState
  deliver_loop [] s = s
  deliver_loop (m ∷ ms) s =
      let (sent, s₁) = send sender m.payload s in
      let (deleted, s₂) = on_directory (λ e. e) (delete_queued_message env.sqlite m.id) s₁ in
      let said = print (delivered username (length m.payload) (hex_preview m.payload)) s₂ in
      let rest = deliver_loop ms said in
      if sent
      then elim deleted [ ok _ ↦ rest | err e ↦ print (delete_failed e username) s₂ ]
      else s₁

  unfoldable pub deliver_queued_messages : AppState → AppState
  deliver_queued_messages s =
      let (loaded, s') = on_directory (λ e. e) (queued_messages_for env.sqlite username) s in
      elim loaded [ ok ms ↦ deliver_loop ms s' | err e ↦ print (load_failed e username) s' ]
