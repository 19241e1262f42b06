-- ===== src/Server/Tasks/Whole.antt =====
-- A task that is not interrupted does what the function does.
use phantasma.Prelude.{
  ℕ, zero, suc, ◌+◌, ◌*◌, ◌≤◌, ◌≡◌, refl, Text, Bytes, List, [], ◌∷◌, arith, Result, ok, length,
  text_eq, inl, inr, Bool-cases, Result-cases,
}
use phantasma.Server.Directory.Queue.{QueuedMessage, delete_queued_message}
use phantasma.Server.Sqlite.{Sqlite}
use phantasma.Server.State.{
  AppState, Environment, RelayError, send, on_directory, print, delivered, delete_failed,
}
use phantasma.Server.Hex.{hex_preview}
use phantasma.Server.Delivery.{deliver_loop}
use phantasma.Server.Payload.{relay_or_queue, handle_encrypted_payload}
use phantasma.Server.Tasks.{sending, looking_up, ended, done, advance, advance_by}

module _ (env : Environment) where
  advance_by-ended :
      (n : ℕ) (r : Result RelayError (Unit {0})) (s : AppState)
      → advance_by env n (ended r) s ≡ (ended r, s)
  unfolding advance_by advance
  advance_by-ended zero r s = refl
  advance_by-ended (suc n) r s = advance_by-ended n r s

  -- The loop of a delivery, with at least two pieces for each message.
  pub advance_by-sending :
      (n : ℕ) (username : Text) (sender : ℕ) (ms : List QueuedMessage) (s : AppState)
      → 2 * length ms + 1 ≤ n
      → advance_by env n (sending username sender ms) s
        ≡ (done, deliver_loop env username sender ms s)
  unfolding advance_by advance deliver_loop
  advance_by-sending zero username sender ms s le = absurd (omega arith)
  advance_by-sending (suc n) username sender [] s le = advance_by-ended n (ok tt) s
  advance_by-sending (suc zero) username sender (m ∷ ms) s le = absurd (omega arith)
  advance_by-sending (suc (suc n)) username sender (m ∷ ms) s le =
      let (sent, s₁) = send sender m.payload s in
      let (deleted, s₂) = on_directory (λ e. e) (delete_queued_message env.sqlite m.id) s₁ in
      let said = print (delivered username (length m.payload) (hex_preview m.payload)) s₂ in
      let rest = advance_by-sending n username sender ms said (omega arith) in
      elim (Bool-cases sent) [
        | inr e ↦ ground (arith, e, advance_by-ended n (ok tt) s₁)
        | inl e ↦ elim (Result-cases deleted) [
          | inl (u, d) ↦ ground (arith, e, d, rest)
          | inr (f, d) ↦
              ground (arith, e, d, advance_by-ended n (ok tt) (print (delete_failed f username) s₂))
        ]
      ]

module _ (env : Environment) where
  -- A payload that is handled without interruption takes three pieces at most, and they do what
  -- `handle_encrypted_payload` does, with its result.
  pub advance_by-looking_up :
      (sender : Text) (payload : Bytes) (s : AppState)
      → let (r, s') = handle_encrypted_payload env sender payload s in
        advance_by env 3 (looking_up sender payload) s ≡ (ended r, s')
  unfolding advance_by advance handle_encrypted_payload relay_or_queue
  advance_by-looking_up sender payload s = ground arith
