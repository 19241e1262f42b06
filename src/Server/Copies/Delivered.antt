-- ===== src/Server/Copies/Delivered.antt =====
-- A delivery moves copies from the queue into a channel.
use phantasma.Prelude.{
  ℕ, ◌+◌, ◌≡◌, ◌≤◌, refl, ap, Text, Bytes, true, false, none, List, [], ◌∷◌, arith, ok, err, nat_eq,
  text_eq, inl, inr, ◌⊎◌, keep, Bool-cases, Result-cases, Option-cases,
}
use phantasma.Server.Sqlite.{QueuedRow, Database, Sqlite, run}
use phantasma.Server.Directory.Queue.{QueuedMessage, is_for, delete_id, delete_queued_message}
use phantasma.Server.Directory.Queue.Order.{Between, IsSound}
use phantasma.Server.Directory.Queue.Contents.{
  waiting, delete_id-above, keep-above, map-message_of-eq_cons,
}
use phantasma.Server.State.{AppState, Environment}
use phantasma.Server.State.Channels.{is_live, send_lem, directory-send}
use phantasma.Server.Delivery.{deliver_loop, deliver_queued_messages}
use phantasma.Server.Delivery.Round.{
  IsDelivering, moved, after_round, answer, answer_lem, round-IsDelivering, deliver_loop-ok,
  deliver_loop-err,
}
use phantasma.Server.Delivery.Accounting.{
  loaded, loaded-IsDelivering, deliver_queued_messages-eq_loop, deliver_queued_messages-eq_failed,
}
use phantasma.Server.Copies.Totals.{total}
use phantasma.Server.Copies.Moves.{held-send}
use phantasma.Server.Copies.{one, in_rows, held}

module _ (p : Bytes) where
  in_rows-delete_id :
      (name : Text) (lo hi : ℕ) (rows : List QueuedRow) (r : QueuedRow) (rest : List QueuedRow)
      → Between lo hi rows
      → keep (is_for name) rows ≡ r ∷ rest
      → in_rows p (delete_id r.id rows) + one p r.payload ≡ in_rows p rows
  unfolding total keep delete_id is_for
  in_rows-delete_id name lo hi [] r rest h e = absurd (cc)
  in_rows-delete_id name lo hi (x ∷ rows) r rest h e = ground (
    arith,
    delete_id-above x.id x.id hi rows,
    keep-above (is_for name) x.id hi rows r rest h.1,
    in_rows-delete_id name x.id hi rows r rest h.1,
  )

  -- Deleting the oldest message of a name takes one copy of its payload from the queue, and none
  -- if the statement fails.
  in_rows-delete_queued_message :
      (q : Sqlite) (name : Text) (m : QueuedMessage) (ms : List QueuedMessage) (db : Database)
      → IsSound db
      → waiting name db ≡ m ∷ ms
      → let (r, db') = delete_queued_message q m.id db in
        in_rows p db'.queued_messages + (elim r [ ok _ ↦ one p m.payload | err _ ↦ 0 ])
        ≡ in_rows p db.queued_messages
  unfolding delete_queued_message run waiting
  in_rows-delete_queued_message q name m ms db sound e =
      let (r, rest, kept, same, others) =
        map-message_of-eq_cons (keep (is_for name) db.queued_messages) m ms e in
      let id : r.id ≡ m.id = ap (λ (x : QueuedMessage). x.id) same in
      let payload : r.payload ≡ m.payload = ap (λ (x : QueuedMessage). x.payload) same in
      ground (
        arith,
        id,
        payload,
        sound.has_queue,
        in_rows-delete_id name 0 db.last_id db.queued_messages r rest sound.ordered kept,
      )

  -- What is there before is there after, and nothing is there twice unless a statement fails.
  abbrev pub Keeps : Sqlite → AppState → AppState → Type 0
  Keeps q s s' = (held p s ≤ held p s') × (((n : ℕ) → q.fault n ≡ none) → held p s' ≡ held p s)

  module _ (env : Environment) (username : Text) (sender : ℕ) where
    held-moved :
        (m : QueuedMessage) (ms : List QueuedMessage) (s : AppState)
        → (d : IsDelivering username sender (m ∷ ms) s)
        → held p (moved env username sender m s)
            + (elim (answer env username sender m ms s d) [ ok _ ↦ one p m.payload | err _ ↦ 0 ])
          ≡ held p s + one p m.payload
    held-moved m ms s d =
        let same = directory-send sender m.payload s in
        ground (
          arith,
          d.live,
          held-send p sender m.payload s,
          ap (λ (db : Database). db.queued_messages) same,
          ap (delete_queued_message env.sqlite m.id) same,
          in_rows-delete_queued_message env.sqlite username m ms s.directory d.sound d.held,
        )

    deliver_loop-Keeps :
        (ms : List QueuedMessage) (s : AppState)
        → IsDelivering username sender ms s
        → Keeps env.sqlite s (deliver_loop env username sender ms s)
    deliver_loop-Keeps [] s d = unfold deliver_loop in (omega arith, λ works. refl)
    deliver_loop-Keeps (m ∷ ms) s d =
        let counted = held-moved m ms s d in
        elim (Result-cases (answer env username sender m ms s d)) [
          | inl (u, e) ↦
              let rest =
                deliver_loop-Keeps ms (after_round env username sender m s)
                  (round-IsDelivering env username sender m ms s d e) in
              rw (deliver_loop-ok env username sender m ms s d e) (
                let counts = rw e at counted in
                (omega (arith, counts, rest.0), λ works. omega (arith, counts, rest.1 works)))
          | inr (f, e) ↦ rw (deliver_loop-err env username sender m ms s d f e) (
              let counts = rw e at counted in
              (
                omega (arith, counts),
                λ works. absurd (
                    ground (
                      arith,
                      e,
                      answer_lem env username sender m ms s d,
                      works s.directory.statements,
                    )),
              ))
        ]

    -- Over a channel without a receiver the loop ends at its first send.
    deliver_loop-dead :
        (ms : List QueuedMessage) (s : AppState)
        → is_live sender s ≡ false
        → held p (deliver_loop env username sender ms s) ≡ held p s
    unfolding deliver_loop
    deliver_loop-dead [] s dead = refl
    deliver_loop-dead (m ∷ ms) s dead =
        ground (arith, send_lem sender sender m.payload s, held-send p sender m.payload s)

    -- A delivery, to a channel that is open or not.
    pub deliver_queued_messages-Keeps :
        (s : AppState)
        → IsSound s.directory
        → Keeps env.sqlite s (deliver_queued_messages env username sender s)
    unfolding is_live
    deliver_queued_messages-Keeps s sound =
        elim (Option-cases (env.sqlite.fault s.directory.statements)) [
          | inl e ↦
              rw (deliver_queued_messages-eq_loop env username sender s sound e)
                (loop (Bool-cases (is_live sender s)))
          | inr (f, e) ↦
              rw (deliver_queued_messages-eq_failed env username sender s f sound e)
                (omega arith, λ works. refl)
        ]
      where
        after : AppState
        after =
            deliver_loop env username sender (waiting username s.directory)
              (loaded env username sender s)

        loop : (is_live sender s ≡ true) ⊎ (is_live sender s ≡ false) → Keeps env.sqlite s after
        loop (inl live) =
            deliver_loop-Keeps (waiting username s.directory) (loaded env username sender s)
              (loaded-IsDelivering env username sender s live sound)
        loop (inr dead) =
            let same =
              deliver_loop-dead (waiting username s.directory) (loaded env username sender s)
                (ground arith) in
            (omega (arith, same), λ works. same)
