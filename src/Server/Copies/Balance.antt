-- ===== src/Server/Copies/Balance.antt =====
-- What each event does to the copies of a payload.
use phantasma.Prelude.{
  ℕ, ◌+◌, ◌≤◌, ◌≡◌, refl, ap, Text, Bytes, Bool, Option, none, some, [], ◌∷◌, ◌++◌, arith, Result,
  ok, err, length, get_elem?,
}
use phantasma.Server.Directory.Queue.Order.{IsSound}
use phantasma.Server.State.{AppState, Environment}
use phantasma.Server.State.Channels.{buffer}
use phantasma.Server.Http.{HttpError, register_public_key, lookup_public_key, websocket_handler}
use phantasma.Server.Connection.{
  Incoming, open_connection, receive_turn, send_turn, close_connection,
}
use phantasma.Server.System.{
  Phase, starting, serving, ending, Session, World, Event, register, lookup, connect, deliver,
  receive, transmit, finish, phase_if, deliver_event, receive_event, transmit_event, finish_event,
  connect_event, at_session, step, update,
}
use phantasma.Server.System.Invariant.{SessionOk, Inv}
use phantasma.Server.PostOffice.{Act, nothing, fetch, arrive, drop}
use phantasma.Server.PostOffice.Abstraction.{meaning, of_frame, of_round, in_phase, of_session}
use phantasma.Server.PostOffice.Handlers.{SameMail, register-SameMail, lookup-SameMail}
use phantasma.Server.Copies.Totals.{total, total-set, total-snoc}
use phantasma.Server.Copies.Delivered.{deliver_queued_messages-Keeps}
use phantasma.Server.Copies.Posted.{
  held-receive_turn, held-send_turn, held-open_connection, held-close_connection, dropped-of_frame,
  posted-of_round, total-append_written,
}
use phantasma.Server.Copies.{one, held, copies, posted_by, dropped_by}

module _ (p : Bytes) (env : Environment) (w : World) (inv : Inv w)
    (sound : IsSound w.app.directory) where
  -- No copy is lost but those that are dropped, and, unless a statement fails, none is made but
  -- those that are posted.
  abbrev pub Balanced : World → Act → Type 0
  Balanced w' a =
      (copies p w + posted_by p a ≤ copies p w' + dropped_by p a w.app)
      × (((n : ℕ) → env.sqlite.fault n ≡ none)
          → copies p w' + dropped_by p a w.app ≡ copies p w + posted_by p a)

  idle : Balanced w nothing
  idle = (omega arith, λ works. refl)

  idle_after : (s : AppState) → SameMail w.app s → Balanced (record w { app = s }) nothing
  idle_after s (channels, rows) = rw (channels, rows) (omega arith, λ works. refl)

  -- An exact account of the shared state and of the session that changes.
  exactly :
      (i : ℕ) (x y : Session) (s : AppState) (a : Act)
      → get_elem? w.sessions i ≡ some x
      → held p s + total (one p) y.written + dropped_by p a w.app
        ≡ held p w.app + total (one p) x.written + posted_by p a
      → Balanced (update i y s w) a
  exactly i x y s a e account =
      let sessions = total-set (λ (z : Session). total (one p) z.written) w.sessions i x y e in
      (omega (arith, account, sessions), λ works. omega (arith, account, sessions))

  connect-Balanced :
      (username : Text) → Balanced (connect_event username w) (meaning env w (connect username))
  unfolding connect_event meaning total
  connect-Balanced username = at_answer (websocket_handler username)
    where
      at_answer :
          (r : Result HttpError Text)
          → Balanced
              (elim r [
                | err refusal ↦ w
                | ok name ↦
                    let (c, s) = open_connection name w.app in
                    record {
                      app = s;
                      sessions =
                          w.sessions
                          ++ record { connection = c; phase = starting; written = [] } ∷ [];
                    }
              ])
              (elim r [ err refusal ↦ nothing | ok name ↦ arrive name (length w.app.channels) ])
      at_answer (err refusal) = idle
      at_answer (ok name) =
          let (c, s) = open_connection name w.app in
          let fresh : Session = record { connection = c; phase = starting; written = [] } in
          let same = held-open_connection p name w.app in
          let sessions = total-snoc (λ (z : Session). total (one p) z.written) w.sessions fresh in
          (omega (arith, same, sessions), λ works. omega (arith, same, sessions))

  module _ (i : ℕ) (x : Session) (e : get_elem? w.sessions i ≡ some x) where
    ok_x : SessionOk w.app i x
    ok_x = inv.session_ok i x e

    deliver-Balanced :
        (q : Phase)
        → x.phase ≡ q
        → Balanced
            (deliver_event env i x w)
            (in_phase x (fetch x.connection.username i) nothing nothing)
    unfolding deliver_event
    deliver-Balanced starting q =
        let keeps =
          deliver_queued_messages-Keeps p env x.connection.username x.connection.address w.app
            sound in
        let sessions =
          total-set (λ (z : Session). total (one p) z.written) w.sessions i x
            (record x { phase = serving }) e in
        rw q (omega (arith, keeps.0, sessions), λ works. omega (arith, keeps.1 works, sessions))
    deliver-Balanced _ q = rw q idle

    receive-Balanced :
        (incoming : Incoming) (q : Phase)
        → x.phase ≡ q
        → Balanced
            (receive_event env i incoming x w)
            (in_phase x nothing (of_frame env x.connection.username w.app incoming) nothing)
    unfolding receive_event
    receive-Balanced incoming serving q =
        let (goes_on, s) = receive_turn env x.connection incoming w.app in
        rw q (
          exactly i x (record x { phase = phase_if goes_on }) s
            (of_frame env x.connection.username w.app incoming) e
            (omega (
              arith,
              held-receive_turn p env x.connection incoming w.app,
              dropped-of_frame p env x.connection.username incoming w.app,
            )))
    receive-Balanced incoming _ q = rw q idle

    transmit-Balanced :
        (accepts : Bool) (q : Phase)
        → x.phase ≡ q
        → Balanced
            (transmit_event i accepts x w)
            (in_phase x nothing (of_round i accepts (buffer i w.app)) nothing)
    unfolding transmit_event
    transmit-Balanced accepts serving q =
        let (payload, goes_on, s) = send_turn x.connection accepts w.app in
        rw q (
          exactly i x _ s (of_round i accepts (buffer i w.app)) e (
            omega (
              arith,
              held-send_turn p x.connection accepts w.app,
              ap (λ a. dropped_by p (of_round a accepts (buffer a w.app)) w.app) ok_x.address,
              total-append_written p x.written payload,
              posted-of_round p i accepts (buffer i w.app),
            )))
    transmit-Balanced accepts _ q = rw q idle

    finish-Balanced :
        (q : Phase)
        → x.phase ≡ q
        → Balanced (finish_event i x w) (in_phase x nothing nothing (drop i))
    unfolding finish_event
    finish-Balanced ending q = rw q (
        exactly i x _ (close_connection x.connection w.app) (drop i) e (
          omega (
            arith,
            held-close_connection p x.connection w.app,
            ap (λ a. total (one p) (buffer a w.app)) ok_x.address,
          )))
    finish-Balanced _ q = rw q idle

  session-Balanced :
      (i : ℕ) (f : Session → World → World) (g : Session → Act)
      → ((x : Session) → get_elem? w.sessions i ≡ some x → Balanced (f x w) (g x))
      → Balanced (at_session i f w) (of_session (get_elem? w.sessions i) g)
  session-Balanced i f g each = at_place (get_elem? w.sessions i) refl
    where
      at_place :
          (o : Option Session)
          → get_elem? w.sessions i ≡ o
          → Balanced (elim o [ none ↦ w | some x ↦ f x w ]) (of_session o g)
      at_place none e = idle
      at_place (some x) e = each x e

  pub step-Balanced : (e : Event) → Balanced (step env w e) (meaning env w e)
  unfolding step meaning
  step-Balanced (register r) =
      idle_after (register_public_key env r w.app).1 (register-SameMail env r w.app)
  step-Balanced (lookup name) =
      idle_after (lookup_public_key env name w.app).1 (lookup-SameMail env name w.app)
  step-Balanced (connect username) = connect-Balanced username
  step-Balanced (deliver i) =
      session-Balanced i (deliver_event env i) _ (λ x e. deliver-Balanced i x e x.phase refl)
  step-Balanced (receive i incoming) =
      session-Balanced i (receive_event env i incoming) _
        (λ x e. receive-Balanced i x e incoming x.phase refl)
  step-Balanced (transmit i accepts) =
      session-Balanced i (transmit_event i accepts) _
        (λ x e. transmit-Balanced i x e accepts x.phase refl)
  step-Balanced (finish i) =
      session-Balanced i (finish_event i) _ (λ x e. finish-Balanced i x e x.phase refl)
