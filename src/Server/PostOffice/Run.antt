-- ===== src/Server/PostOffice/Run.antt =====
-- Whole runs of the server as runs of the post office.
use phantasma.Prelude.{
  ℕ, suc, ◌+◌, ◌≤◌, ◌<◌, Text, Bool, List, [], ◌∷◌, ◌≡◌, refl, ap, ◌∙◌, none, arith, length,
  length-set, length-append,
}
use phantasma.Server.State.{Environment}
use phantasma.Server.Http.{websocket_handler}
use phantasma.Server.Connection.{Incoming, u64_mod, open_connection}
use phantasma.Server.System.{
  Phase, starting, serving, ending, Session, World, Event, register, lookup, connect, deliver,
  receive, transmit, finish, deliver_event, receive_event, transmit_event, finish_event,
  connect_event, step, run,
}
use phantasma.Server.System.Invariant.{Inv}
use phantasma.Server.System.Runs.{step-Inv, at_session-keeps}
use phantasma.Server.System.Tables.{step-keeps}
use phantasma.Server.System.Safety.{TablesOk, TablesOk-IsKept}
use phantasma.Server.PostOffice.{Act, act_all}
use phantasma.Server.PostOffice.Abstraction.{post_office, meaning}
use phantasma.Server.PostOffice.Refinement.{step-Refines}

-- What the events of a run do, one after another.
unfoldable pub meanings : Environment → World → List Event → List Act
meanings env w [] = []
meanings env w (e ∷ es) = meaning env w e ∷ meanings env (step env w e) es

module _ (env : Environment) (w : World) where
  abbrev GrowsByOne : World → Type 0
  GrowsByOne w' = length w'.sessions ≤ suc (length w.sessions)

  same : GrowsByOne w
  same = omega arith

  module _ (i : ℕ) (x : Session) where
    deliver-GrowsByOne : (p : Phase) → x.phase ≡ p → GrowsByOne (deliver_event env i x w)
    unfolding deliver_event
    deliver-GrowsByOne starting p =
        rw p (omega (arith, length-set w.sessions i (record x { phase = serving })))
    deliver-GrowsByOne _ p = rw p same

    receive-GrowsByOne :
        (incoming : Incoming) (p : Phase)
        → x.phase ≡ p
        → GrowsByOne (receive_event env i incoming x w)
    unfolding receive_event
    receive-GrowsByOne incoming serving p = rw p (rw length-set same)
    receive-GrowsByOne incoming _ p = rw p same

    transmit-GrowsByOne :
        (accepts : Bool) (p : Phase) → x.phase ≡ p → GrowsByOne (transmit_event i accepts x w)
    unfolding transmit_event
    transmit-GrowsByOne accepts serving p = rw p (rw length-set same)
    transmit-GrowsByOne accepts _ p = rw p same

    finish-GrowsByOne : (p : Phase) → x.phase ≡ p → GrowsByOne (finish_event i x w)
    unfolding finish_event
    finish-GrowsByOne ending p = rw p (rw length-set same)
    finish-GrowsByOne _ p = rw p same

  connect-GrowsByOne : (username : Text) → GrowsByOne (connect_event username w)
  unfolding connect_event websocket_handler
  connect-GrowsByOne username = ground (
    arith,
    length-append w.sessions (
        record { connection = (open_connection username w.app).0; phase = starting; written = [] }
        ∷ []),
  )

  step-GrowsByOne : (e : Event) → GrowsByOne (step env w e)
  unfolding step
  step-GrowsByOne (register r) = same
  step-GrowsByOne (lookup name) = same
  step-GrowsByOne (connect username) = connect-GrowsByOne username
  step-GrowsByOne (deliver i) =
      at_session-keeps GrowsByOne w i (deliver_event env i) same
        (λ x _. deliver-GrowsByOne i x x.phase refl)
  step-GrowsByOne (receive i incoming) =
      at_session-keeps GrowsByOne w i (receive_event env i incoming) same
        (λ x _. receive-GrowsByOne i x incoming x.phase refl)
  step-GrowsByOne (transmit i accepts) =
      at_session-keeps GrowsByOne w i (transmit_event i accepts) same
        (λ x _. transmit-GrowsByOne i x accepts x.phase refl)
  step-GrowsByOne (finish i) =
      at_session-keeps GrowsByOne w i (finish_event i) same
        (λ x _. finish-GrowsByOne i x x.phase refl)

-- Over a database in which no statement fails, with the invariants that hold at the start, and as
-- long as the ids of connections do not wrap around, any sequence of events of the server is a
-- sequence of acts of the post office: what waits for each name, what waits in each line, and where
-- each name is reached are what these acts make of what they were.
pub run-refines :
    (env : Environment) (es : List Event) (w : World)
    → ((n : ℕ) → env.sqlite.fault n ≡ none)
    → Inv w
    → TablesOk w.app.directory
    → length w.sessions + length es < u64_mod
    → post_office (run env w es).app ≡ act_all (meanings env w es) (post_office w.app)
unfolding run act_all meanings
run-refines env [] w works inv tables room = refl
run-refines env (e ∷ es) w works inv tables room =
    let next = step env w e in
    let later =
      run-refines env es next works (step-Inv env w e inv)
        (step-keeps env TablesOk (TablesOk-IsKept env.sqlite) w e tables)
        (omega (arith, step-GrowsByOne env w e, room)) in
    later
    ∙ ap (act_all (meanings env next es)) (
        step-Refines env w
          (record { inv = inv; sound = tables.sound; works = works; room = omega (arith, room) }) e)
