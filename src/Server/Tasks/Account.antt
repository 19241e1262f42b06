-- ===== src/Server/Tasks/Account.antt =====
-- The account of a payload over the tasks, and what each piece of a delivery does to it.
use phantasma.Prelude.{
  ℕ, ◌+◌, ◌≡◌, ◌≤◌, ap, Text, Bytes, none, some, List, [], ◌∷◌, arith, err, length, get_elem?, set,
  All-map, Result-cases, Bool-cases, inl, inr, nat_eq, text_eq,
}
use phantasma.Server.Sqlite.{Database}
use phantasma.Server.Directory.Queue.{QueuedMessage, queued_messages_for, delete_queued_message}
use phantasma.Server.Directory.Queue.Order.{
  IsSound, queued_messages_for-IsSound, delete_queued_message-IsSound,
}
use phantasma.Server.Directory.Queue.Contents.{waiting, queued_messages_for-waiting}
use phantasma.Server.State.{
  AppState, Environment, database, on_directory, print, load_failed, delete_failed, delivered,
}
use phantasma.Server.Hex.{hex_preview}
use phantasma.Server.State.Channels.{is_live, send_lem, directory-send}
use phantasma.Server.Copies.Moves.{held-send}
use phantasma.Server.Copies.{one, in_rows, held}
use phantasma.Server.Tasks.{
  Task, loading, sending, deleting, looking_up, handing_over, storing, ended, done, advance,
}
use phantasma.Server.Tasks.InHand.{
  IsKnown, AreKnown, waiting-AreKnown, in_rows-delete_known, delete_queued_message-IsKnown,
  queued_messages_for-IsKnown, queued_messages_for-shape, delete_queued_message-shape,
}

module _ (p : Bytes) where
  -- The copy in the hands of a payload handler that has accepted it.
  abbrev pub carried : Task → ℕ
  carried (handing_over to bytes recipient) = one p bytes
  carried (storing to bytes) = one p bytes
  carried _ = 0

  -- The copy that a delivery has sent and is about to delete.
  abbrev pub owed : Task → ℕ
  owed (deleting username sender m ms) = one p m.payload
  owed _ = 0

  -- A payload handler that ended with an error of the database.
  abbrev pub failed : Task → ℕ
  failed (ended (err (database e))) = 1
  failed _ = 0

  abbrev pub accepted : Task → Task → ℕ
  accepted (looking_up sender payload) next = carried next
  accepted _ next = 0

  -- The copies that the handlers accept during a schedule.
  unfoldable pub handed_in : Environment → List ℕ → List Task → AppState → ℕ
  handed_in env [] tasks s = 0
  handed_in env (i ∷ schedule) tasks s = elim (get_elem? tasks i) [
    | none ↦ handed_in env schedule tasks s
    | some task ↦
        let (task', s') = advance env task s in
        accepted task task' + handed_in env schedule (set tasks i task') s'
  ]

  abbrev pub HasKnown : Database → Task → Type 0
  HasKnown db (sending username sender ms) = AreKnown db ms
  HasKnown db (deleting username sender m ms) = IsKnown db m × AreKnown db ms
  HasKnown db _ = Unit

  -- What a piece of a task does to the account, to the tables and to what other tasks have in hand.
  pub record Piece (task task' : Task) (s s' : AppState) : Type 0 where
    pub account :
        held p s + carried task + owed task' + failed task + accepted task task'
        ≤ held p s' + carried task' + owed task + failed task'
    pub sound : IsSound s'.directory
    pub known : HasKnown s'.directory task'
    pub others : (m : QueuedMessage) → IsKnown s.directory m → IsKnown s'.directory m

  module _ (env : Environment) (s : AppState) (sound : IsSound s.directory) where
    -- The pieces that leave the state as it is, but for the log.
    pub idle-Piece :
        (task task' : Task) (s' : AppState)
        → s' ≡ record s { log = s'.log }
        → carried task + owed task' + failed task + accepted task task'
          ≤ carried task' + owed task + failed task'
        → HasKnown s.directory task'
        → Piece task task' s s'
    idle-Piece task task' s' same account known = rw same (record {
      account = omega (arith, account);
      sound = sound;
      known = known;
      others = λ m k. k;
    })

    pub load-Piece :
        (username : Text) (sender : ℕ)
        → let (task', s') = advance env (loading username sender) s in
          Piece (loading username sender) task' s s'
    unfolding advance
    load-Piece username sender =
        let after = (on_directory (λ e. e) (queued_messages_for env.sqlite username) s).1 in
        let (rows, last) = queued_messages_for-shape env.sqlite s.directory username in
        let answer =
          queued_messages_for-waiting env.sqlite s.directory sound.has_queue username
            sound.ordered in
        let still = queued_messages_for-IsSound env.sqlite s.directory sound username in
        let keeps = λ (m : QueuedMessage) (k : IsKnown s.directory m).
          queued_messages_for-IsKnown env.sqlite m s.directory k username in
        elim (Result-cases (queued_messages_for env.sqlite username s.directory).0) [
          | inl (ms, e) ↦
              let same : waiting username s.directory ≡ ms = ground (arith, answer) in
              let step : advance env (loading username sender) s
                  ≡ (sending username sender ms, after) =
                ground arith in
              rw step (record {
                account = omega (arith, ap (in_rows p) rows);
                sound = still;
                known =
                    All-map (IsKnown s.directory) _ keeps ms
                      (rw same at (waiting-AreKnown username s.directory sound));
                others = keeps;
              })
          | inr (f, e) ↦
              let step : advance env (loading username sender) s
                  ≡ (done, print (load_failed f username) after) =
                ground arith in
              rw step (record {
                account = omega (arith, ap (in_rows p) rows);
                sound = still;
                known = tt;
                others = keeps;
              })
        ]

    pub send-Piece :
        (username : Text) (sender : ℕ) (m : QueuedMessage) (ms : List QueuedMessage)
        → AreKnown s.directory (m ∷ ms)
        → let (task', s') = advance env (sending username sender (m ∷ ms)) s in
          Piece (sending username sender (m ∷ ms)) task' s s'
    unfolding advance
    send-Piece username sender m ms known =
        let same = directory-send sender m.payload s in
        let counts = held-send p sender m.payload s in
        let sent = (send_lem sender sender m.payload s).0 in
        elim (Bool-cases (is_live sender s)) [
          | inl live ↦
              rw (sent, live)
                (record {
                  account = omega (arith, rw live at counts);
                  sound = rw same sound;
                  known = rw same known;
                  others = λ k h. rw same h;
                })
          | inr dead ↦
              rw (sent, dead)
                (record {
                  account = omega (arith, rw dead at counts);
                  sound = rw same sound;
                  known = tt;
                  others = λ k h. rw same h;
                })
        ]

    pub delete-Piece :
        (username : Text) (sender : ℕ) (m : QueuedMessage) (ms : List QueuedMessage)
        → IsKnown s.directory m
        → AreKnown s.directory ms
        → let (task', s') = advance env (deleting username sender m ms) s in
          Piece (deleting username sender m ms) task' s s'
    unfolding advance
    delete-Piece username sender m ms own known =
        let after = (on_directory (λ e. e) (delete_queued_message env.sqlite m.id) s).1 in
        let said = print (delivered username (length m.payload) (hex_preview m.payload)) after in
        let still = delete_queued_message-IsSound env.sqlite s.directory sound m.id in
        let keeps = λ (k : QueuedMessage) (h : IsKnown s.directory k).
          delete_queued_message-IsKnown env.sqlite k s.directory h m.id in
        let counts : in_rows p s.directory.queued_messages
            ≤ in_rows p (delete_queued_message env.sqlite m.id s.directory).1.queued_messages
              + one p m.payload =
          elim (delete_queued_message-shape env.sqlite s.directory m.id) [
            | inl (rows, last) ↦ omega (arith, ap (in_rows p) rows)
            | inr (rows, last) ↦ omega (
              arith,
              ap (in_rows p) rows,
              in_rows-delete_known p m 0 s.directory.last_id s.directory.queued_messages
                  sound.ordered own.own,
            )
          ] in
        elim (Result-cases (delete_queued_message env.sqlite m.id s.directory).0) [
          | inl (u, e) ↦
              let step : advance env (deleting username sender m ms) s
                  ≡ (sending username sender ms, said) =
                ground arith in
              rw step (record {
                account = omega (arith, counts);
                sound = still;
                known = All-map (IsKnown s.directory) _ keeps ms known;
                others = keeps;
              })
          | inr (f, e) ↦
              let step : advance env (deleting username sender m ms) s
                  ≡ (done, print (delete_failed f username) after) =
                ground arith in
              rw step (record {
                account = omega (arith, counts);
                sound = still;
                known = tt;
                others = keeps;
              })
        ]
