-- ===== src/Server/Delivery/Accounting.antt =====
-- What becomes of the messages that wait for a user when the user connects.
use phantasma.Prelude.{
  ℕ, suc, ◌≡◌, ◌≢◌, inl, inr, refl, Text, true, none, some, List, [], ◌++◌, arith, ◌==◌, text_eq,
  nat_eq, if◌then◌else◌, Option-cases,
}
use mathlib.Core.List.{append-nil}
use phantasma.Server.Sqlite.{SqlxError}
use phantasma.Server.Directory.Queue.{QueuedMessage}
use phantasma.Server.Directory.Queue.Order.{IsSound}
use phantasma.Server.Directory.Queue.Contents.{waiting, queued_messages_for-waiting}
use phantasma.Server.State.{AppState, Environment, load_failed, print}
use phantasma.Server.State.Channels.{buffer, is_live}
use phantasma.Server.Delivery.Round.{IsDelivering}
use phantasma.Server.Delivery.{deliver_loop, deliver_queued_messages}
use phantasma.Server.Delivery.Outcome.{payloads, IsAccounted, Outcome, deliver_loop-Outcome}

module _ (env : Environment) (username : Text) (sender : ℕ) where
  -- The state once the statement that loads the messages was sent.
  abbrev pub loaded : AppState → AppState
  loaded s = record s { directory = record s.directory { statements = suc s.directory.statements } }

  pub loaded-IsDelivering :
      (s : AppState)
      → is_live sender s ≡ true
      → IsSound s.directory
      → IsDelivering username sender (waiting username s.directory) (loaded s)
  unfolding is_live waiting
  loaded-IsDelivering s live sound = record {
    live = live;
    sound = record { has_queue = sound.has_queue; ordered = sound.ordered };
    held = refl;
  }

  Outcome-loaded :
      (s s' : AppState)
      → Outcome env.sqlite username sender (waiting username s.directory) (loaded s) s'
      → Outcome env.sqlite username sender (waiting username s.directory) s s'
  unfolding buffer waiting
  Outcome-loaded s s' o = record {
    sent = o.sent;
    accounted = o.accounted;
    buffers = o.buffers;
    others = o.others;
    complete = o.complete;
    sound = o.sound;
  }

  load_fails :
      (s : AppState) (e : SqlxError)
      → env.sqlite.fault s.directory.statements ≡ some e
      → IsSound s.directory
      → Outcome env.sqlite username sender
          (waiting username s.directory)
          s
          (print (load_failed e username) (loaded s))
  unfolding buffer waiting
  load_fails s e f sound = record {
    sent = [];
    accounted = (waiting username s.directory, refl, inl refl);
    buffers = λ other. ground (arith, append-nil (buffer other s));
    others = λ name ne. refl;
    complete = λ works. absurd (cc (works s.directory.statements));
    sound = record { has_queue = sound.has_queue; ordered = sound.ordered };
  }

  pub deliver_queued_messages-eq_loop :
      (s : AppState)
      → IsSound s.directory
      → env.sqlite.fault s.directory.statements ≡ none
      → deliver_queued_messages env username sender s
        ≡ deliver_loop env username sender (waiting username s.directory) (loaded s)
  unfolding deliver_queued_messages
  deliver_queued_messages-eq_loop s sound e = ground (
    arith,
    e,
    queued_messages_for-waiting env.sqlite s.directory sound.has_queue username sound.ordered,
  )

  pub deliver_queued_messages-eq_failed :
      (s : AppState) (f : SqlxError)
      → IsSound s.directory
      → env.sqlite.fault s.directory.statements ≡ some f
      → deliver_queued_messages env username sender s ≡ print (load_failed f username) (loaded s)
  unfolding deliver_queued_messages
  deliver_queued_messages-eq_failed s f sound e = ground (
    arith,
    e,
    queued_messages_for-waiting env.sqlite s.directory sound.has_queue username sound.ordered,
  )

  pub deliver_queued_messages-Outcome :
      (s : AppState)
      → is_live sender s ≡ true
      → IsSound s.directory
      → Outcome env.sqlite username sender
          (waiting username s.directory)
          s
          (deliver_queued_messages env username sender s)
  deliver_queued_messages-Outcome s live sound =
      elim (Option-cases (env.sqlite.fault s.directory.statements)) [
        | inl e ↦ rw (deliver_queued_messages-eq_loop s sound e) (
            Outcome-loaded s _ (
              deliver_loop-Outcome env username sender _ (loaded s)
                (loaded-IsDelivering s live sound)))
        | inr (f, e) ↦ rw (deliver_queued_messages-eq_failed s f sound e) (load_fails s f e sound)
      ]

  -- With an open channel and a queue in the order of its ids, whatever statements fail: of the
  -- messages that waited for the user, those up to some point went into the channel, oldest
  -- first, and all behind that point still wait, with at most the last one sent in front of
  -- them. No other channel changes.
  pub deliver_queued_messages-accounts :
      (s : AppState)
      → is_live sender s ≡ true
      → IsSound s.directory
      → let s' = deliver_queued_messages env username sender s in
        (sent : List QueuedMessage) × IsAccounted
          (waiting username s.directory)
          sent
          (waiting username s'.directory)
        × ((other : ℕ)
            → buffer other s' ≡ buffer other s ++ (if sender == other then payloads sent else []))
  deliver_queued_messages-accounts s live sound =
      let o = deliver_queued_messages-Outcome s live sound in (o.sent, o.accounted, o.buffers)

  -- With an open channel and a queue in the order of its ids, a delivery to one user changes
  -- nothing of what waits for another, whatever statements fail.
  pub waiting-deliver_queued_messages_ne :
      (s : AppState) (name : Text)
      → is_live sender s ≡ true
      → IsSound s.directory
      → username ≢ name
      → waiting name (deliver_queued_messages env username sender s).directory
        ≡ waiting name s.directory
  waiting-deliver_queued_messages_ne s name live sound ne =
      (deliver_queued_messages-Outcome s live sound).others name ne
