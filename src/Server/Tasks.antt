-- ===== src/Server/Tasks.antt =====
-- server/src/main.rs: `deliver_queued_messages` and `handle_encrypted_payload` as tasks that may be
-- interrupted wherever they wait: before each statement, and before and after the lock.
pub mod Whole
pub mod Twice
pub mod InHand
pub mod Account
pub mod Kept
pub mod Interleaved
use phantasma.Prelude.{
  ℕ, zero, suc, Text, Bytes, not, Option, none, some, List, [], ◌∷◌, Result, ok, err, map_err,
  length, get_elem?, set, ◌==◌, text_eq, if◌then◌else◌,
}
use phantasma.Prelude.Dict
use phantasma.Shared.Encrypted
use phantasma.Shared.Routed
use phantasma.Shared.Validation.{is_valid_username}
use phantasma.Server.Directory.Queue.{
  QueuedMessage, queue_message, queued_messages_for, delete_queued_message,
}
use phantasma.Server.State.{
  ActiveClient, AppState, Environment, RelayError, LogLine, forged_sender, invalid_recipient,
  relayed, queued, delivered, load_failed, delete_failed, json, database, print, on_directory, send,
}
use phantasma.Server.Hex.{hex_preview}
use phantasma.Server.Payload.{send_to}

pub data Task : Type 0 where
  -- `deliver_queued_messages` before it loads the queue, before the send of each round, and before
  -- the deletion of the message that it has sent
  loading : Text → ℕ → Task
  sending : Text → ℕ → List QueuedMessage → Task
  deleting : Text → ℕ → QueuedMessage → List QueuedMessage → Task
  -- `handle_encrypted_payload` before the lock, before the send, and before the insertion
  looking_up : Text → Bytes → Task
  handing_over : Text → Bytes → Option ActiveClient → Task
  storing : Text → Bytes → Task
  ended : Result RelayError (Unit {0}) → Task

abbrev pub done : Task
done = ended (ok tt)

module _ (env : Environment) where
  abbrev load : Text → ℕ → AppState → Task × AppState
  load username sender s =
      let (loaded, s') = on_directory (λ e. e) (queued_messages_for env.sqlite username) s in
      elim loaded [
        | ok ms ↦ (sending username sender ms, s')
        | err e ↦ (done, print (load_failed e username) s')
      ]

  abbrev send_next : Text → ℕ → List QueuedMessage → AppState → Task × AppState
  send_next username sender [] s = (done, s)
  send_next username sender (m ∷ ms) s =
      let (sent, s') = send sender m.payload s in
      (if sent then deleting username sender m ms else done, s')

  abbrev delete_sent : Text → ℕ → QueuedMessage → List QueuedMessage → AppState → Task × AppState
  delete_sent username sender m ms s =
      let (deleted, s') = on_directory (λ e. e) (delete_queued_message env.sqlite m.id) s in
      elim deleted [
        | ok _ ↦ (
          sending username sender ms,
          print (delivered username (length m.payload) (hex_preview m.payload)) s',
        )
        | err e ↦ (done, print (delete_failed e username) s')
      ]

  abbrev look_up : Text → Bytes → AppState → Task × AppState
  look_up sender payload s = elim (Routed.from_wire_bytes env.routed payload) [
    | err e ↦ (ended (err (json e)), s)
    | ok routed ↦ elim (Encrypted.to_wire_bytes env.encrypted routed.encrypted) [
      | err e ↦ (ended (err (json e)), s)
      | ok bytes ↦
          if not (routed.from == sender)
          then (done, print (forged_sender routed.from sender) s)
          else if not (is_valid_username routed.to)
          then (done, print invalid_recipient s)
          else (handing_over routed.to bytes (Dict.get routed.to s.active_clients), s)
    ]
  ]

  abbrev hand_over : Text → Bytes → Option ActiveClient → AppState → Task × AppState
  hand_over to bytes recipient s =
      let (sent, s') = send_to recipient bytes s in
      if sent
      then (done, print (relayed to (length bytes) (hex_preview bytes)) s')
      else (storing to bytes, s')

  abbrev store : Text → Bytes → AppState → Task × AppState
  store to bytes s =
      let (stored, s') = on_directory database (queue_message env.sqlite to bytes) s in
      elim stored [
        | ok _ ↦ (done, print (queued to (length bytes) (hex_preview bytes)) s')
        | err e ↦ (ended (err e), s')
      ]

  -- The next piece of a task.
  unfoldable pub advance : Task → AppState → Task × AppState
  advance (loading username sender) s = load username sender s
  advance (sending username sender ms) s = send_next username sender ms s
  advance (deleting username sender m ms) s = delete_sent username sender m ms s
  advance (looking_up sender payload) s = look_up sender payload s
  advance (handing_over to bytes recipient) s = hand_over to bytes recipient s
  advance (storing to bytes) s = store to bytes s
  advance (ended r) s = (ended r, s)

  -- So many pieces of one task, with nothing in between.
  unfoldable pub advance_by : ℕ → Task → AppState → Task × AppState
  unfolding advance
  advance_by zero task s = (task, s)
  advance_by (suc n) task s = let (task', s') = advance task s in advance_by n task' s'

  -- The pieces of several tasks in the order of a schedule, which names the task of each piece.
  unfoldable pub interleave : List ℕ → List Task → AppState → List Task × AppState
  interleave [] tasks s = (tasks, s)
  interleave (i ∷ schedule) tasks s = elim (get_elem? tasks i) [
    | none ↦ interleave schedule tasks s
    | some task ↦ let (task', s') = advance task s in interleave schedule (set tasks i task') s'
  ]
