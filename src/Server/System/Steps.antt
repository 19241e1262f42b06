-- ===== src/Server/System/Steps.antt =====
-- Every event keeps the invariant.
use phantasma.Prelude.{
  ℕ, ◌≡◌, ◌≢◌, refl, ◌∙◌, ap, Text, Bool, true, false, some, arith, get_elem?, set, get_elem?-set,
  length-set, nat_eq, text_eq,
}
use phantasma.Prelude.Dict
use phantasma.Shared.Registration.{PublicKeyRegistration}
use phantasma.Server.State.{AppState, Environment, ActiveClient}
use phantasma.Server.State.Channels.{is_live}
use phantasma.Server.State.Frame.{SameRegistry}
use phantasma.Server.Http.{
  register_public_key, lookup_public_key, internal_error, validate_registration,
}
use phantasma.Server.Delivery.Frame.{deliver_queued_messages-SameRegistry}
use phantasma.Server.Connection.{Incoming, receive_turn, send_turn, close_connection}
use phantasma.Server.Connection.Frame.{
  receive_turn-SameRegistry, send_turn_lem, close_connection_lem,
}
use phantasma.Server.Connection.Registry.{get-close_connection}
use phantasma.Server.System.{
  Phase, starting, serving, ending, closed, Session, World, deliver_event, receive_event,
  transmit_event, finish_event, phase_if,
}
use phantasma.Server.System.Invariant.{
  IsListening, SessionOk, SessionOk-other, EntryOk, Inv, update-Inv,
}

phase_if-ne-closed : (b : Bool) → phase_if b ≢ closed
phase_if-ne-closed true = λ e. cc
phase_if-ne-closed false = λ e. cc

listening-phase_if : (b : Bool) → IsListening (phase_if b) → b ≡ true
listening-phase_if true h = refl
listening-phase_if false h = absurd h

module _ (env : Environment) (w : World) (i : ℕ) (x : Session) (inv : Inv w)
    (e : get_elem? w.sessions i ≡ some x) where
  ok_x : SessionOk w.app i x
  ok_x = inv.session_ok i x e

  -- The session as it stands, so that its phase can be split.
  pub deliver-Inv : (p : Phase) → x.phase ≡ p → Inv (deliver_event env i x w)
  unfolding deliver_event
  deliver-Inv starting p = rw p (
      update-Inv w i x (record x { phase = serving }) _ inv e refl
        (λ j _.
          deliver_queued_messages-SameRegistry env x.connection.username x.connection.address j
            w.app)
        (λ _.
          (deliver_queued_messages-SameRegistry env x.connection.username x.connection.address i
            w.app).0
          ∙ ok_x.live (rw p tt))
        (λ q. cc))
  deliver-Inv serving p = rw p inv
  deliver-Inv _ p = rw p inv

  pub receive-Inv :
      (incoming : Incoming) (p : Phase) → x.phase ≡ p → Inv (receive_event env i incoming x w)
  unfolding receive_event
  receive-Inv incoming serving p =
      let (goes_on, s) = receive_turn env x.connection incoming w.app in
      rw p (
        update-Inv w i x (record x { phase = phase_if goes_on }) s inv e refl
          (λ j _. receive_turn-SameRegistry env x.connection j incoming w.app)
          (λ _.
            (receive_turn-SameRegistry env x.connection i incoming w.app).0 ∙ ok_x.live (rw p tt))
          (phase_if-ne-closed goes_on))
  receive-Inv incoming starting p = rw p inv
  receive-Inv incoming _ p = rw p inv

  pub transmit-Inv : (accepts : Bool) (p : Phase) → x.phase ≡ p → Inv (transmit_event i accepts x w)
  unfolding transmit_event
  transmit-Inv accepts serving p =
      let (payload, goes_on, s) = send_turn x.connection accepts w.app in
      let facts = λ (j : ℕ). send_turn_lem x.connection accepts j w.app in
      rw p (
        update-Inv w i x _ s inv e refl (λ j ne. ground (arith, facts j, ok_x.address))
          (λ h. ground (arith, facts i, listening-phase_if goes_on h, ok_x.live (rw p tt)))
          (phase_if-ne-closed goes_on))
  transmit-Inv accepts starting p = rw p inv
  transmit-Inv accepts _ p = rw p inv

  abbrev over : Session
  over = record x { phase = closed }

  finished : AppState
  finished = close_connection x.connection w.app

  session-finish :
      (j : ℕ) (z : Session) → get_elem? (set w.sessions i over) j ≡ some z → SessionOk finished j z
  unfolding finished
  session-finish j z f = elim (nat_eq.dec i j) [
    | yes p ↦
        let over_z : over ≡ z = ground (arith, f, get_elem?-set w.sessions i j over x e) in
        rw (← over_z, ← p) (record { address = ok_x.address; id = ok_x.id; live = λ h. absurd h })
    | no p ↦
        let f' : get_elem? w.sessions j ≡ some z =
          ground (arith, f, get_elem?-set w.sessions i j over x e) in
        SessionOk-other w.app _ j z
          (ground (arith, close_connection_lem x.connection j w.app, ok_x.address))
          (inv.session_ok j z f')
  ]

  -- An entry that is left after a session closed is not that of the session.
  entry-finish :
      (name : Text) (client : ActiveClient)
      → Dict.get name finished.active_clients ≡ some client
      → EntryOk (set w.sessions i over) name client
  unfolding finished
  entry-finish name client f =
      let f' : Dict.get name w.app.active_clients ≡ some client =
        ground (arith, f, get-close_connection x.connection name w.app) in
      let old = inv.entry_ok name client f' in
      elim (nat_eq.dec i client.sender) [
        | yes p ↦
            let x_old : x ≡ old.session = ground (arith, e, old.found, p) in
            let name_x : x.connection.username ≡ name =
              ap (λ (t : Session). t.connection.username) x_old ∙ old.own_name in
            let id_x : x.connection.connection_id ≡ client.connection_id =
              ap (λ (t : Session). t.connection.connection_id) x_old ∙ old.own_id in
            absurd
              (ground (arith, f, f', name_x, id_x, get-close_connection x.connection name w.app))
        | no p ↦ record {
          session = old.session;
          found = ground (arith, old.found, get_elem?-set w.sessions i client.sender over x e);
          own_name = old.own_name;
          own_id = old.own_id;
          not_over = old.not_over;
        }
      ]

  pub finish-Inv : (p : Phase) → x.phase ≡ p → Inv (finish_event i x w)
  unfolding finish_event finished
  finish-Inv ending p = rw p (record {
    channels = omega (
      arith,
      (close_connection_lem x.connection i w.app).2,
      inv.channels,
      length-set w.sessions i over,
    );
    counter = rw length-set ((close_connection_lem x.connection i w.app).1 ∙ inv.counter);
    session_ok = session-finish;
    entry_ok = entry-finish;
  })
  finish-Inv starting p = rw p inv
  finish-Inv _ p = rw p inv

-- An event that changes only the tables and the log.
pub tables-Inv :
    (w : World) (s : AppState)
    → Inv w
    → ((j : ℕ) → SameRegistry j w.app s)
    → Inv (record w { app = s })
tables-Inv w s inv frame = record {
  channels = (frame 0).3 ∙ inv.channels;
  counter = (frame 0).2 ∙ inv.counter;
  session_ok = λ j z f. SessionOk-other w.app s j z (frame j).0 (inv.session_ok j z f);
  entry_ok = λ name client f. inv.entry_ok name client (rw (frame 0).1 at f);
}

pub register-SameRegistry :
    (env : Environment) (r : PublicKeyRegistration) (j : ℕ) (s : AppState)
    → SameRegistry j s (register_public_key env r s).1
unfolding register_public_key validate_registration internal_error is_live
register-SameRegistry env r j s = ground arith

pub lookup-SameRegistry :
    (env : Environment) (name : Text) (j : ℕ) (s : AppState)
    → SameRegistry j s (lookup_public_key env name s).1
unfolding lookup_public_key internal_error is_live
lookup-SameRegistry env name j s = ground arith
