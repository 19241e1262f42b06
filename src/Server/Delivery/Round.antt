-- ===== src/Server/Delivery/Round.antt =====
-- One round of the loop in `deliver_queued_messages`: a send and a deletion.
use phantasma.Prelude.{
  ℕ, ◌≡◌, Text, true, List, [], ◌∷◌, ◌++◌, arith, Result, ok, err, ◌==◌, text_eq, nat_eq,
  if◌then◌else◌, length,
}
use phantasma.Server.Sqlite.{SqlxError}
use phantasma.Server.Directory.Queue.{QueuedMessage, delete_queued_message}
use phantasma.Server.Directory.Queue.Order.{IsSound, delete_queued_message-IsSound}
use phantasma.Server.Directory.Queue.Contents.{waiting, answers, delete_queued_message-waiting}
use phantasma.Server.State.{
  AppState, Environment, delivered, delete_failed, print, on_directory, send,
}
use phantasma.Server.State.Channels.{buffer, is_live, send_lem, directory-send}
use phantasma.Server.Hex.{hex_preview}
use phantasma.Server.Delivery.{deliver_loop}

-- What delivery needs, and keeps: an open channel, a sound table, and the messages in hand.
pub record IsDelivering (username : Text) (sender : ℕ) (ms : List QueuedMessage) (s : AppState)
    : Type 0 where
  pub live : is_live sender s ≡ true
  pub sound : IsSound s.directory
  pub held : waiting username s.directory ≡ ms

module _ (env : Environment) (username : Text) (sender : ℕ) where
  -- The state after a send and a deletion.
  abbrev pub moved : QueuedMessage → AppState → AppState
  moved m s =
      (on_directory (λ e. e) (delete_queued_message env.sqlite m.id) (send sender m.payload s).1).1

  abbrev pub after_round : QueuedMessage → AppState → AppState
  after_round m s =
      print (delivered username (length m.payload) (hex_preview m.payload)) (moved m s)

  module _ (m : QueuedMessage) (ms : List QueuedMessage) (s : AppState)
      (d : IsDelivering username sender (m ∷ ms) s) where
    abbrev pub answer : Result SqlxError (Unit {0})
    answer = (delete_queued_message env.sqlite m.id s.directory).0

    deleted_eq :
        (delete_queued_message env.sqlite m.id (send sender m.payload s).1.directory)
        ≡ delete_queued_message env.sqlite m.id s.directory
    deleted_eq = rw directory-send

    pub waiting-moved :
        (name : Text)
        → waiting name (moved m s).directory ≡ elim answer [
          | ok _ ↦ if username == name then ms else waiting name s.directory
          | err _ ↦ waiting name s.directory
        ]
    waiting-moved name =
        rw directory-send
          (delete_queued_message-waiting env.sqlite s.directory d.sound.has_queue username name m ms
            d.sound.ordered d.held).1

    pub answer_lem : answer ≡ answers env.sqlite s.directory tt
    answer_lem =
        (delete_queued_message-waiting env.sqlite s.directory d.sound.has_queue username username m
          ms d.sound.ordered d.held).0

    pub moved-IsSound : IsSound (moved m s).directory
    moved-IsSound =
        rw directory-send (delete_queued_message-IsSound env.sqlite s.directory d.sound m.id)

    pub buffer-moved :
        (other : ℕ)
        → buffer other (moved m s)
          ≡ buffer other s ++ (if sender == other then m.payload ∷ [] else [])
    unfolding buffer
    buffer-moved other = ground (arith, d.live, send_lem sender other m.payload s)

    pub is_live-moved : is_live sender (moved m s) ≡ true
    unfolding is_live
    is_live-moved = ground (arith, d.live, send_lem sender sender m.payload s)

    pub round-IsDelivering : answer ≡ ok tt → IsDelivering username sender ms (after_round m s)
    unfolding is_live
    round-IsDelivering e = record {
      live = is_live-moved;
      sound = moved-IsSound;
      held = ground (arith, e, waiting-moved username);
    }

    pub deliver_loop-ok :
        answer ≡ ok tt
        → deliver_loop env username sender (m ∷ ms) s
          ≡ deliver_loop env username sender ms (after_round m s)
    unfolding deliver_loop
    deliver_loop-ok e = ground (arith, e, d.live, send_lem sender sender m.payload s, deleted_eq)

    pub deliver_loop-err :
        (f : SqlxError)
        → answer ≡ err f
        → deliver_loop env username sender (m ∷ ms) s ≡ print (delete_failed f username) (moved m s)
    unfolding deliver_loop
    deliver_loop-err f e = ground (arith, e, d.live, send_lem sender sender m.payload s, deleted_eq)
