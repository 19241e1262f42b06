-- ===== src/Server/Tasks/Kept.antt =====
-- What each piece of a payload handler does to the account of a payload.
use phantasma.Prelude.{
  ◌+◌, ◌≡◌, ◌≤◌, refl, Text, Bytes, Option, [], ◌∷◌, arith, err, length, Result-cases, Bool-cases,
  inl, inr, nat_eq, text_eq, ◌==◌,
}
use phantasma.Prelude.Dict
use phantasma.Shared.Encrypted
use phantasma.Shared.Routed
use phantasma.Shared.Validation.{is_valid_username}
use phantasma.Server.Directory.Queue.{QueuedMessage, queue_message}
use phantasma.Server.Directory.Queue.Order.{IsSound, queue_message-IsSound}
use phantasma.Server.State.{
  ActiveClient, AppState, Environment, json, database, forged_sender, invalid_recipient, relayed,
  queued, print, on_directory,
}
use phantasma.Server.Hex.{hex_preview}
use phantasma.Server.Payload.{send_to}
use phantasma.Server.Payload.Routing.{reachable}
use phantasma.Server.Copies.Moves.{in_rows-queue_message}
use phantasma.Server.Copies.Posted.{held-send_to}
use phantasma.Server.Copies.{one}
use phantasma.Server.Tasks.{
  Task, loading, sending, deleting, looking_up, handing_over, storing, ended, done, advance,
}
use phantasma.Server.Tasks.InHand.{IsKnown, queue_message-IsKnown}
use phantasma.Server.Tasks.Account.{
  carried, owed, failed, HasKnown, Piece, idle-Piece, load-Piece, send-Piece, delete-Piece,
}

module _ (p : Bytes) (env : Environment) where
  module _ (s : AppState) (sound : IsSound s.directory) where
    look-Piece :
        (sender : Text) (payload : Bytes)
        → let (task', s') = advance env (looking_up sender payload) s in
          Piece p (looking_up sender payload) task' s s'
    unfolding advance
    look-Piece sender payload = elim (Result-cases (Routed.from_wire_bytes env.routed payload)) [
      | inr (f, e) ↦ to_task (ended (err (json f))) s (ground arith) refl (omega arith) tt
      | inl (routed, e) ↦
          elim (Result-cases (Encrypted.to_wire_bytes env.encrypted routed.encrypted)) [
            | inr (f, d) ↦ to_task (ended (err (json f))) s (ground arith) refl (omega arith) tt
            | inl (bytes, d) ↦ elim (Bool-cases (routed.from == sender)) [
              | inr n ↦
                  to_task done (print (forged_sender routed.from sender) s) (ground arith) refl
                    (omega arith) tt
              | inl n ↦ elim (Bool-cases (is_valid_username routed.to)) [
                | inr v ↦
                    to_task done (print invalid_recipient s) (ground arith) refl (omega arith) tt
                | inl v ↦
                    to_task (handing_over routed.to bytes (Dict.get routed.to s.active_clients)) s
                      (ground arith) refl (omega arith) tt
              ]
            ]
          ]
    ]
      where
        to_task :
            (task' : Task) (s' : AppState)
            → advance env (looking_up sender payload) s ≡ (task', s')
            → s' ≡ record s { log = s'.log }
            → owed p task' + carried p task' ≤ carried p task' + failed p task'
            → HasKnown p s.directory task'
            → let (t, u) = advance env (looking_up sender payload) s in
              Piece p (looking_up sender payload) t s u
        to_task task' s' step same account known = rw step (
            idle-Piece p env s sound (looking_up sender payload) task' s' same
              (omega (arith, account)) known)

    hand-Piece :
        (to : Text) (bytes : Bytes) (recipient : Option ActiveClient)
        → let (task', s') = advance env (handing_over to bytes recipient) s in
          Piece p (handing_over to bytes recipient) task' s s'
    unfolding advance
    hand-Piece to bytes recipient =
        let (sent, counts, same) = held-send_to p recipient bytes s in
        let s₁ = (send_to recipient bytes s).1 in
        elim (Bool-cases (reachable recipient s)) [
          | inl live ↦
              let step : advance env (handing_over to bytes recipient) s
                  ≡ (done, print (relayed to (length bytes) (hex_preview bytes)) s₁) =
                ground arith in
              rw step (record {
                account = omega (arith, rw live at counts);
                sound = rw same sound;
                known = tt;
                others = λ k h. rw same h;
              })
          | inr dead ↦
              let step : advance env (handing_over to bytes recipient) s ≡ (storing to bytes, s₁) =
                ground arith in
              rw step (record {
                account = omega (arith, rw dead at counts);
                sound = rw same sound;
                known = tt;
                others = λ k h. rw same h;
              })
        ]

    store-Piece :
        (to : Text) (bytes : Bytes)
        → let (task', s') = advance env (storing to bytes) s in
          Piece p (storing to bytes) task' s s'
    unfolding advance
    store-Piece to bytes =
        let after = (on_directory database (queue_message env.sqlite to bytes) s).1 in
        let counts = in_rows-queue_message p env.sqlite to bytes s.directory in
        let still = queue_message-IsSound env.sqlite s.directory sound to bytes in
        let keeps = λ (k : QueuedMessage) (h : IsKnown s.directory k).
          queue_message-IsKnown env.sqlite k s.directory h to bytes in
        elim (Result-cases (queue_message env.sqlite to bytes s.directory).0) [
          | inl (u, e) ↦
              let step : advance env (storing to bytes) s
                  ≡ (done, print (queued to (length bytes) (hex_preview bytes)) after) =
                ground arith in
              rw step (record {
                account = omega (arith, rw e at counts);
                sound = still;
                known = tt;
                others = keeps;
              })
          | inr (f, e) ↦
              let step : advance env (storing to bytes) s ≡ (ended (err (database f)), after) =
                ground arith in
              rw step (record {
                account =
                    let small : one p bytes ≤ 1 = ground arith in
                    omega (arith, rw e at counts, small);
                sound = still;
                known = tt;
                others = keeps;
              })
        ]

    pub advance-Piece :
        (task : Task)
        → HasKnown p s.directory task
        → let (task', s') = advance env task s in Piece p task task' s s'
    unfolding advance
    advance-Piece (loading username sender) known = load-Piece p env s sound username sender
    advance-Piece (sending username sender []) known =
        idle-Piece p env s sound (sending username sender []) done s refl (omega arith) tt
    advance-Piece (sending username sender (m ∷ ms)) known =
        send-Piece p env s sound username sender m ms known
    advance-Piece (deleting username sender m ms) known =
        delete-Piece p env s sound username sender m ms known.0 known.1
    advance-Piece (looking_up sender payload) known = look-Piece sender payload
    advance-Piece (handing_over to bytes recipient) known = hand-Piece to bytes recipient
    advance-Piece (storing to bytes) known = store-Piece to bytes
    advance-Piece (ended r) known =
        idle-Piece p env s sound (ended r) (ended r) s refl (omega arith) tt
