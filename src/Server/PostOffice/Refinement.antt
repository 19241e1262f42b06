-- ===== src/Server/PostOffice/Refinement.antt =====
-- The server does what the post office does, event by event.
use phantasma.Prelude.{
  ℕ, ◌<◌, Text, Bool, Option, none, some, [], ◌∷◌, ◌++◌, ◌≡◌, refl, ap, ◌∙◌, arith, length,
  get_elem?, get_elem?-lt, Result, ok, err, text_eq, nat_eq,
}
use phantasma.Prelude.Dict
use phantasma.Server.Directory.Queue.Order.{IsSound}
use phantasma.Server.State.{AppState, ActiveClient, Environment}
use phantasma.Server.State.Frame.{SameRegistry}
use phantasma.Server.State.Channels.{buffer}
use phantasma.Server.Http.{HttpError, websocket_handler}
use phantasma.Server.Connection.{Incoming, u64_mod, open_connection}
use phantasma.Server.System.{
  Phase, starting, serving, ending, Session, World, Event, register, lookup, connect, deliver,
  receive, transmit, finish, deliver_event, receive_event, transmit_event, finish_event,
  connect_event, at_session, step,
}
use phantasma.Server.System.Invariant.{SessionOk, Inv}
use phantasma.Server.System.Steps.{register-SameRegistry, lookup-SameRegistry}
use phantasma.Server.PostOffice.{Act, nothing, fetch, arrive, drop, act}
use phantasma.Server.PostOffice.Abstraction.{
  post_office, meaning, of_frame, of_round, in_phase, of_session,
}
use phantasma.Server.PostOffice.Posting.{post_office-deliver_queued_messages}
use phantasma.Server.PostOffice.Lines.{
  IsWithin, post_office-open_connection, post_office-send_turn, post_office-close_connection,
}
use phantasma.Server.PostOffice.Handlers.{
  SameMail, register-SameMail, lookup-SameMail, post_office-SameMail, receive_turn-refines,
}

-- What the events need: the invariant of runs, a queue that is there and in order, statements that
-- do not fail, and ids of connections that have not wrapped around.
pub record IsSteady (env : Environment) (w : World) : Type 0 where
  pub inv : Inv w
  pub sound : IsSound w.app.directory
  pub works : (n : ℕ) → env.sqlite.fault n ≡ none
  pub room : length w.sessions < u64_mod

module _ (env : Environment) (w : World) (steady : IsSteady env w) where
  abbrev inv : Inv w
  inv = steady.inv

  abbrev Refines : World → Act → Type 0
  Refines w' a = post_office w'.app ≡ act a (post_office w.app)

  idle : Refines w nothing
  unfolding act
  idle = refl

  idle_after :
      (s : AppState)
      → SameMail w.app s
      → ((other : ℕ) → SameRegistry other w.app s)
      → post_office s ≡ act nothing (post_office w.app)
  unfolding act
  idle_after s mail same = post_office-SameMail w.app s mail same

  within : IsWithin w.app
  within name client e =
      let entry = inv.entry_ok name client e in
      omega (arith, get_elem?-lt w.sessions client.sender entry.session entry.found, inv.channels)

  connect-Refines :
      (username : Text) → Refines (step env w (connect username)) (meaning env w (connect username))
  unfolding step connect_event meaning
  connect-Refines username = at_answer (websocket_handler username)
    where
      at_answer :
          (r : Result HttpError Text)
          → Refines
              (elim r [
                | err refusal ↦ w
                | ok name ↦
                    let (c, s) = open_connection name w.app in
                    record {
                      app = s;
                      sessions =
                          w.sessions
                          ++ record { connection = c; phase = starting; written = [] } ∷ [];
                    }
              ])
              (elim r [ err refusal ↦ nothing | ok name ↦ arrive name (length w.app.channels) ])
      at_answer (ok name) = post_office-open_connection name w.app within
      at_answer (err refusal) = idle

  module _ (i : ℕ) (x : Session) (e : get_elem? w.sessions i ≡ some x) where
    ok_x : SessionOk w.app i x
    ok_x = inv.session_ok i x e

    deliver-Refines :
        (p : Phase)
        → x.phase ≡ p
        → Refines
            (deliver_event env i x w)
            (in_phase x (fetch x.connection.username i) nothing nothing)
    unfolding deliver_event
    deliver-Refines starting p =
        rw (p, ok_x.address)
          (post_office-deliver_queued_messages env x.connection.username i w.app steady.works
            (ok_x.live (rw p tt)) steady.sound)
    deliver-Refines _ p = rw p idle

    receive-Refines :
        (incoming : Incoming) (p : Phase)
        → x.phase ≡ p
        → Refines
            (receive_event env i incoming x w)
            (in_phase x nothing (of_frame env x.connection.username w.app incoming) nothing)
    unfolding receive_event
    receive-Refines incoming serving p =
        rw p (receive_turn-refines env x.connection w.app steady.sound.has_queue incoming)
    receive-Refines incoming _ p = rw p idle

    transmit-Refines :
        (accepts : Bool) (p : Phase)
        → x.phase ≡ p
        → Refines
            (transmit_event i accepts x w)
            (in_phase x nothing (of_round i accepts (buffer i w.app)) nothing)
    unfolding transmit_event
    transmit-Refines accepts serving p = rw p (
        post_office-send_turn x.connection accepts w.app
        ∙ ap (λ (a : ℕ). act (of_round a accepts (buffer a w.app)) (post_office w.app))
            ok_x.address)
    transmit-Refines accepts _ p = rw p idle

    finish-Refines :
        (p : Phase)
        → x.phase ≡ p
        → Refines (finish_event i x w) (in_phase x nothing nothing (drop i))
    unfolding finish_event
    finish-Refines ending p = rw p (
        post_office-close_connection x.connection w.app own
        ∙ ap (λ (a : ℕ). act (drop a) (post_office w.app)) ok_x.address)
      where
        own :
            (client : ActiveClient)
            → Dict.get x.connection.username w.app.active_clients ≡ some client
            → client.connection_id ≡ x.connection.connection_id
            → client.sender ≡ x.connection.address
        own client f same =
            let entry = inv.entry_ok x.connection.username client f in
            let other = inv.session_ok client.sender entry.session entry.found in
            omega (
              arith,
              ok_x.id,
              ok_x.address,
              other.id,
              entry.own_id,
              same,
              steady.room,
              get_elem?-lt w.sessions client.sender entry.session entry.found,
              get_elem?-lt w.sessions i x e,
            )
    finish-Refines _ p = rw p idle

  -- The event of a session that is there, and nothing otherwise.
  session-Refines :
      (i : ℕ) (f : Session → World → World) (g : Session → Act)
      → ((x : Session) → get_elem? w.sessions i ≡ some x → Refines (f x w) (g x))
      → Refines (at_session i f w) (of_session (get_elem? w.sessions i) g)
  session-Refines i f g each = at_place (get_elem? w.sessions i) refl
    where
      at_place :
          (o : Option Session)
          → get_elem? w.sessions i ≡ o
          → Refines (elim o [ none ↦ w | some x ↦ f x w ]) (of_session o g)
      at_place none e = idle
      at_place (some x) e = each x e

  pub step-Refines : (e : Event) → Refines (step env w e) (meaning env w e)
  unfolding step meaning
  step-Refines (register r) =
      idle_after _ (register-SameMail env r w.app)
        (λ other. register-SameRegistry env r other w.app)
  step-Refines (lookup name) =
      idle_after _ (lookup-SameMail env name w.app)
        (λ other. lookup-SameRegistry env name other w.app)
  step-Refines (connect username) = connect-Refines username
  step-Refines (deliver i) =
      session-Refines i (deliver_event env i) _ (λ x e. deliver-Refines i x e x.phase refl)
  step-Refines (receive i incoming) =
      session-Refines i (receive_event env i incoming) _
        (λ x e. receive-Refines i x e incoming x.phase refl)
  step-Refines (transmit i accepts) =
      session-Refines i (transmit_event i accepts) _
        (λ x e. transmit-Refines i x e accepts x.phase refl)
  step-Refines (finish i) =
      session-Refines i (finish_event i) _ (λ x e. finish-Refines i x e x.phase refl)
