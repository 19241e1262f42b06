-- ===== src/Server/System/Tables.antt =====
-- A property of the tables that every statement keeps holds after any sequence of events.
use phantasma.Prelude.{ℕ, ◌≡◌, refl, Text, Bool, List, [], ◌∷◌, ◌++◌, Result, ok, err}
use phantasma.Server.Sqlite.{Database}
use phantasma.Server.Directory.Queue.{}
use phantasma.Server.State.{Environment}
use phantasma.Server.Http.{HttpError, websocket_handler}
use phantasma.Server.Connection.{Incoming, open_connection}
use phantasma.Server.Connection.Frame.{send_turn_lem, open_connection_lem, close_connection_lem}
use phantasma.Server.System.{
  Phase, starting, serving, ending, Session, World, Event, register, lookup, connect, deliver,
  receive, transmit, finish, deliver_event, receive_event, transmit_event, finish_event,
  connect_event, step, run,
}
use phantasma.Server.System.Runs.{at_session-keeps}
use phantasma.Server.System.Kept.{
  IsAdvanced, IsKept, register-keeps, lookup-keeps, deliver-keeps, receive-keeps,
}

module _ (env : Environment) (P Q : Database → Type 0) (kept : IsAdvanced env.sqlite P Q) where
  abbrev Before : World → Type 0
  Before w = P w.app.directory

  abbrev After : World → Type 0
  After w = Q w.app.directory

  idle : (w : World) → Before w → After w
  idle w h = kept.weaken w.app.directory h

  module _ (w : World) (h : Before w) (i : ℕ) (x : Session) where
    deliver_event-keeps : (p : Phase) → x.phase ≡ p → After (deliver_event env i x w)
    unfolding deliver_event
    deliver_event-keeps starting p = rw p (
        kept.weaken _
          (deliver-keeps env P Q kept x.connection.username x.connection.address w.app h))
    deliver_event-keeps _ p = rw p (idle w h)

    receive_event-keeps :
        (incoming : Incoming) (p : Phase) → x.phase ≡ p → After (receive_event env i incoming x w)
    unfolding receive_event
    receive_event-keeps incoming serving p =
        rw p (receive-keeps env P Q kept x.connection incoming w.app h)
    receive_event-keeps incoming _ p = rw p (idle w h)

    transmit_event-keeps :
        (accepts : Bool) (p : Phase) → x.phase ≡ p → After (transmit_event i accepts x w)
    unfolding transmit_event
    transmit_event-keeps accepts serving p =
        rw p (rw (send_turn_lem x.connection accepts i w.app).4 (idle w h))
    transmit_event-keeps accepts _ p = rw p (idle w h)

    finish_event-keeps : (p : Phase) → x.phase ≡ p → After (finish_event i x w)
    unfolding finish_event
    finish_event-keeps ending p = rw p (rw (close_connection_lem x.connection i w.app).3 (idle w h))
    finish_event-keeps _ p = rw p (idle w h)

  connect-keeps : (username : Text) (w : World) → Before w → After (connect_event username w)
  unfolding connect_event
  connect-keeps username w h = at_answer (websocket_handler username)
    where
      at_answer :
          (r : Result HttpError Text)
          → After (elim r [
            | err refusal ↦ w
            | ok name ↦
                let (c, s) = open_connection name w.app in
                record {
                  app = s;
                  sessions =
                      w.sessions ++ record { connection = c; phase = starting; written = [] } ∷ [];
                }
          ])
      at_answer (ok name) = rw (open_connection_lem name 0 w.app).4 (idle w h)
      at_answer (err refusal) = idle w h

  pub step-advances : (w : World) (e : Event) → Before w → After (step env w e)
  unfolding step
  step-advances w (register r) h = kept.weaken _ (register-keeps env P Q kept r w.app h)
  step-advances w (lookup name) h = kept.weaken _ (lookup-keeps env P Q kept name w.app h)
  step-advances w (connect username) h = connect-keeps username w h
  step-advances w (deliver i) h =
      at_session-keeps After w i (deliver_event env i) (idle w h)
        (λ x _. deliver_event-keeps w h i x x.phase refl)
  step-advances w (receive i incoming) h =
      at_session-keeps After w i (receive_event env i incoming) (idle w h)
        (λ x _. receive_event-keeps w h i x incoming x.phase refl)
  step-advances w (transmit i accepts) h =
      at_session-keeps After w i (transmit_event i accepts) (idle w h)
        (λ x _. transmit_event-keeps w h i x accepts x.phase refl)
  step-advances w (finish i) h =
      at_session-keeps After w i (finish_event i) (idle w h)
        (λ x _. finish_event-keeps w h i x x.phase refl)

module _ (env : Environment) (P : Database → Type 0) (kept : IsKept env.sqlite P) where
  pub step-keeps : (w : World) (e : Event) → P w.app.directory → P (step env w e).app.directory
  step-keeps = step-advances env P P kept

  -- What each statement of directory.rs keeps, for registrations that pass the tests, holds of the
  -- tables after any sequence of events.
  pub run-keeps : (es : List Event) (w : World) → P w.app.directory → P (run env w es).app.directory
  unfolding run
  run-keeps [] w h = h
  run-keeps (e ∷ es) w h = run-keeps es (step env w e) (step-keeps w e h)
