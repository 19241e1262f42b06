-- ===== src/Server/System/Runs.antt =====
-- The invariants after any sequence of events, and what they say of the registry.
use phantasma.Prelude.{
  ℕ, ◌+◌, ◌%◌, ◌≡◌, refl, sym, ◌∙◌, ap, Text, Option, none, some, List, [], ◌∷◌, ◌++◌, arith,
  Result, ok, err, length, get_elem?, get_elem?-append, get_elem?-lt, length-append, nat_eq,
  text_eq,
}
use phantasma.Prelude.Dict
use phantasma.Server.Sqlite.{Database}
use phantasma.Server.State.{initial, AppState, Environment, ActiveClient}
use phantasma.Server.Http.{HttpError, websocket_handler}
use phantasma.Server.Connection.{Connection, u64_mod, open_connection}
use phantasma.Server.Connection.Frame.{open_connection_lem}
use phantasma.Server.Connection.Registry.{get-open_connection}
use phantasma.Server.System.{
  starting, Session, World, Event, register, lookup, connect, deliver, receive, transmit, finish,
  deliver_event, receive_event, transmit_event, finish_event, connect_event, at_session, step, run,
}
use phantasma.Server.System.Invariant.{SessionOk, SessionOk-other, EntryOk, Inv}
use phantasma.Server.System.Steps.{
  deliver-Inv, receive-Inv, transmit-Inv, finish-Inv, tables-Inv, register-SameRegistry,
  lookup-SameRegistry,
}

module _ (w : World) (name : Text) (inv : Inv w) where
  abbrev opened : Connection
  opened = (open_connection name w.app).0

  abbrev after : AppState
  after = (open_connection name w.app).1

  abbrev fresh_session : Session
  fresh_session = record { connection = opened; phase = starting; written = [] }

  session-connect :
      (j : ℕ) (z : Session)
      → get_elem? (w.sessions ++ fresh_session ∷ []) j ≡ some z
      → SessionOk after j z
  session-connect j z f = elim (nat_eq.dec (length w.sessions) j) [
    | yes p ↦
        let new_z : fresh_session ≡ z =
          ground (arith, f, get_elem?-append w.sessions j fresh_session) in
        let facts = open_connection_lem name j w.app in
        rw (← new_z) (record {
          address = ap (λ (c : Connection). c.address) facts.0 ∙ inv.channels ∙ p;
          id =
              ap (λ (c : Connection). c.connection_id) facts.0
              ∙ inv.counter
              ∙ ap (λ (n : ℕ). (n + 1) % u64_mod) p;
          live = λ h. ground (arith, facts, inv.channels, p);
        })
    | no p ↦
        let f' : get_elem? w.sessions j ≡ some z =
          ground (arith, f, get_elem?-append w.sessions j fresh_session) in
        SessionOk-other w.app after j z
          (ground (arith, open_connection_lem name j w.app, inv.channels)) (inv.session_ok j z f')
  ]

  entry-connect :
      (other : Text) (client : ActiveClient)
      → Dict.get other after.active_clients ≡ some client
      → EntryOk (w.sessions ++ fresh_session ∷ []) other client
  entry-connect other client f = elim (text_eq.dec other name) [
    | yes p ↦
        let facts = open_connection_lem name 0 w.app in
        let client_is : record { connection_id = opened.connection_id; sender = opened.address }
            ≡ client =
          ground (arith, f, p, get-open_connection name other w.app) in
        let place : length w.sessions ≡ client.sender =
          sym inv.channels
          ∙ sym (ap (λ (c : Connection). c.address) facts.0)
          ∙ ap (λ (c : ActiveClient). c.sender) client_is in
        record {
          session = fresh_session;
          found = ground (arith, place, get_elem?-append w.sessions client.sender fresh_session);
          own_name = ap (λ (c : Connection). c.username) facts.0 ∙ sym p;
          own_id = ap (λ (c : ActiveClient). c.connection_id) client_is;
          not_over = λ q. cc;
        }
    | no p ↦
        let f' : Dict.get other w.app.active_clients ≡ some client =
          ground (arith, f, p, get-open_connection name other w.app) in
        let old = inv.entry_ok other client f' in
        record {
          session = old.session;
          found = ground (
            arith,
            old.found,
            get_elem?-lt w.sessions client.sender old.session old.found,
            get_elem?-append w.sessions client.sender fresh_session,
          );
          own_name = old.own_name;
          own_id = old.own_id;
          not_over = old.not_over;
        }
  ]

  opened-Inv : Inv (record { app = after; sessions = w.sessions ++ fresh_session ∷ [] })
  opened-Inv =
      let facts = open_connection_lem name 0 w.app in
      record {
        channels =
            omega (arith, facts.3, inv.channels, length-append w.sessions (fresh_session ∷ []));
        counter =
            omega (arith, facts.2, inv.counter, length-append w.sessions (fresh_session ∷ []));
        session_ok = session-connect;
        entry_ok = entry-connect;
      }

connect-Inv : (username : Text) (w : World) → Inv w → Inv (connect_event username w)
unfolding connect_event
connect-Inv username w inv = at_answer (websocket_handler username)
  where
    at_answer :
        (r : Result HttpError Text)
        → Inv (elim r [
          | err refusal ↦ w
          | ok name ↦ record {
            app = after w name inv;
            sessions = w.sessions ++ fresh_session w name inv ∷ [];
          }
        ])
    at_answer (ok name) = opened-Inv w name inv
    at_answer (err refusal) = inv

module _ (P : World → Type 0) (w : World) (i : ℕ) (f : Session → World → World) (kept : P w) where
  pub at_session-keeps :
      ((x : Session) → get_elem? w.sessions i ≡ some x → P (f x w)) → P (at_session i f w)
  at_session-keeps keeps = at_place (get_elem? w.sessions i) refl
    where
      at_place :
          (o : Option Session)
          → get_elem? w.sessions i ≡ o
          → P (elim o [ none ↦ w | some x ↦ f x w ])
      at_place none e = kept
      at_place (some x) e = keeps x e

pub step-Inv : (env : Environment) (w : World) (e : Event) → Inv w → Inv (step env w e)
unfolding step
step-Inv env w (register r) inv = tables-Inv w _ inv (λ j. register-SameRegistry env r j w.app)
step-Inv env w (lookup name) inv = tables-Inv w _ inv (λ j. lookup-SameRegistry env name j w.app)
step-Inv env w (connect username) inv = connect-Inv username w inv
step-Inv env w (deliver i) inv =
    at_session-keeps Inv w i (deliver_event env i) inv
      (λ x e. deliver-Inv env w i x inv e x.phase refl)
step-Inv env w (receive i incoming) inv =
    at_session-keeps Inv w i (receive_event env i incoming) inv
      (λ x e. receive-Inv env w i x inv e incoming x.phase refl)
step-Inv env w (transmit i accepts) inv =
    at_session-keeps Inv w i (transmit_event i accepts) inv
      (λ x e. transmit-Inv env w i x inv e accepts x.phase refl)
step-Inv env w (finish i) inv =
    at_session-keeps Inv w i (finish_event i) inv (λ x e. finish-Inv env w i x inv e x.phase refl)

-- If it holds at the start, it holds after any events in any order: each session has the
-- channel of its position and an id counted from 1, its receiver is there until its loops end, and
-- the registry leads a name only to a session of that name that is not over.
pub run-Inv : (env : Environment) (es : List Event) (w : World) → Inv w → Inv (run env w es)
unfolding run
run-Inv env [] w inv = inv
run-Inv env (e ∷ es) w inv = run-Inv env es (step env w e) (step-Inv env w e inv)

-- The world at the start, over any database.
pub initial-Inv : (db : Database) → Inv (record { app = initial db; sessions = [] })
unfolding Dict.get
initial-Inv db = record {
  channels = refl;
  counter = refl;
  session_ok = λ i x e. absurd (cc);
  entry_ok = λ name client e. absurd (cc);
}
