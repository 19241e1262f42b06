-- ===== src/Server/Copies/Accepted.antt =====
-- What accepted messages bring is posted, unless it is to be stored and the statement fails.
use phantasma.Prelude.{
  ℕ, suc, ◌+◌, ◌≤◌, ◌<◌, ◌≡◌, refl, Text, Bytes, true, false, not, ◌&&◌, Option, none, some, List,
  [], ◌∷◌, arith, nat_eq, text_eq, leb, length, get_elem?, Result-cases, inl, inr,
}
use phantasma.Prelude.Dict
use phantasma.Shared.Encrypted
use phantasma.Shared.Routed
use phantasma.Server.Sqlite as Sql
use phantasma.Server.Sqlite.{Database, Sqlite}
use phantasma.Server.Directory.Keys as Keys
use phantasma.Server.Directory.Queue.{
  max_id, queue_message, queued_messages_for, delete_queued_message,
}
use phantasma.Server.State.{AppState, Environment}
use phantasma.Server.Payload.Routing.{reachable}
use phantasma.Server.Connection.{Incoming, binary}
use phantasma.Server.Http.{}
use phantasma.Server.System.{
  Session, World, Event, register, lookup, connect, deliver, receive, transmit, finish, step,
}
use phantasma.Server.System.Kept.{IsAdvanced}
use phantasma.Server.System.Tables.{step-advances, step-keeps}
use phantasma.Server.System.Safety.{TablesOk, TablesOk-IsKept}
use phantasma.Server.State.Channels.{buffer}
use phantasma.Server.Copies.Posted.{posted-of_round}
use phantasma.Server.PostOffice.{Act, nothing, post, fetch, drop}
use phantasma.Server.PostOffice.Abstraction.{
  is_lost, letter, of_frame, of_round, of_session, in_phase, meaning,
}
use phantasma.Server.Copies.{
  is_some, posted_by, unstored_by, offer, offer_frame, offered, posted, accepted, unstored,
}

-- An event gives out one id at most.
module _ (q : Sqlite) (n : ℕ) where
  last_id-IsAdvanced : IsAdvanced q (λ db. db.last_id ≡ n) (λ db. db.last_id ≤ suc n)
  unfolding queue_message queued_messages_for delete_queued_message Keys.register_public_key
      Keys.lookup_public_key Sql.run
  last_id-IsAdvanced = record {
    weaken = λ db h. omega (arith, h);
    queue = λ to payload db h. ground (arith, h);
    load = λ name db h. ground (arith, h);
    delete = λ id db h. ground (arith, h);
    store = λ r db v h. ground (arith, h);
    find = λ name db h. ground (arith, h);
  }

last_id-step :
    (env : Environment) (w : World) (e : Event)
    → (step env w e).app.directory.last_id ≤ suc w.app.directory.last_id
last_id-step env w e =
    step-advances env _ _ (last_id-IsAdvanced env.sqlite w.app.directory.last_id) w e refl

module _ (env : Environment) (s : AppState) (ready : s.directory.has_queue ≡ true)
    (room : s.directory.last_id < max_id) where
  is_lost_lem :
      (to : Text) (bytes : Bytes)
      → is_lost env to bytes s
        ≡ not (reachable (Dict.get to s.active_clients) s)
          && is_some (env.sqlite.fault s.directory.statements)
  unfolding queue_message Sql.run
  is_lost_lem to bytes =
      let free : leb max_id s.directory.last_id ≡ false = ground arith in
      ground (arith, free, ready)

  module _ (p : Bytes) where
    -- What is posted, with what cannot be stored, is what is offered.
    abbrev Splits : Act → Act → Type 0
    Splits done due = posted_by p done + unstored_by p env due s ≡ posted_by p due

    letter-offer :
        (sender : Text) (payload : Bytes)
        → Splits (letter env sender payload s) (offer env sender payload)
    unfolding letter offer
    letter-offer sender payload = elim (Result-cases (Routed.from_wire_bytes env.routed payload)) [
      | inr (f, e) ↦ ground arith
      | inl (routed, e) ↦
          elim (Result-cases (Encrypted.to_wire_bytes env.encrypted routed.encrypted)) [
            | inr (f, d) ↦ ground arith
            | inl (bytes, d) ↦ ground (arith, is_lost_lem routed.to bytes)
          ]
    ]

    frame-offer :
        (sender : Text) (incoming : Incoming)
        → Splits (of_frame env sender s incoming) (offer_frame env sender incoming)
    frame-offer sender (binary bytes) = letter-offer sender bytes
    frame-offer sender _ = refl

module _ (p : Bytes) where
  in_phase-silent :
      (x : Session) (a b c : Act)
      → posted_by p a ≡ 0
      → posted_by p b ≡ 0
      → posted_by p c ≡ 0
      → posted_by p (in_phase x a b c) ≡ 0
  in_phase-silent x a b c h k l = ground (arith, h, k, l)

  of_session-silent :
      (o : Option Session) (f g h : Session → Act)
      → ((x : Session) → posted_by p (f x) ≡ 0)
      → ((x : Session) → posted_by p (g x) ≡ 0)
      → ((x : Session) → posted_by p (h x) ≡ 0)
      → posted_by p (of_session o (λ x. in_phase x (f x) (g x) (h x))) ≡ 0
  of_session-silent none f g h a b c = refl
  of_session-silent (some x) f g h a b c = in_phase-silent x (f x) (g x) (h x) (a x) (b x) (c x)

  module _ (env : Environment) (w : World) (tables : TablesOk w.app.directory)
      (room : w.app.directory.last_id < max_id) where
    abbrev Accounts : Act → Act → Type 0
    Accounts = Splits env w.app tables.sound.has_queue room p

    quiet : (done : Act) → posted_by p done ≡ 0 → Accounts done nothing
    quiet done h = omega (arith, h)

    of_session-offered :
        (o : Option Session) (incoming : Incoming)
        → Accounts
            (of_session o
              (λ x. in_phase x nothing (of_frame env x.connection.username w.app incoming) nothing))
            (of_session o
              (λ x. in_phase x nothing (offer_frame env x.connection.username incoming) nothing))
    of_session-offered none incoming = refl
    of_session-offered (some x) incoming =
        ground (
          arith,
          frame-offer env w.app tables.sound.has_queue room p x.connection.username incoming,
        )

    meaning-offered : (e : Event) → Accounts (meaning env w e) (offered env w e)
    unfolding meaning
    meaning-offered (register r) = refl
    meaning-offered (lookup name) = refl
    meaning-offered (connect username) = quiet _ (ground arith)
    meaning-offered (deliver i) = quiet _ (
        of_session-silent (get_elem? w.sessions i) (λ x. fetch x.connection.username i)
          (λ x. nothing) (λ x. nothing) (λ x. refl) (λ x. refl) (λ x. refl))
    meaning-offered (receive i incoming) = of_session-offered (get_elem? w.sessions i) incoming
    meaning-offered (transmit i accepts) =
        let round = of_round i accepts (buffer i w.app) in
        quiet _ (
          of_session-silent (get_elem? w.sessions i) (λ x. nothing) (λ x. round) (λ x. nothing)
            (λ x. refl) (λ x. posted-of_round p i accepts (buffer i w.app)) (λ x. refl))
    meaning-offered (finish i) = quiet _ (
        of_session-silent (get_elem? w.sessions i) (λ x. nothing) (λ x. nothing) (λ x. drop i)
          (λ x. refl) (λ x. refl) (λ x. refl))

  -- The same over a run in which the ids of the queue do not run out.
  pub posted-accepted :
      (env : Environment) (es : List Event) (w : World)
      → TablesOk w.app.directory
      → w.app.directory.last_id + length es ≤ max_id
      → posted p env w es + unstored p env w es ≡ accepted p env w es
  unfolding posted unstored accepted
  posted-accepted env [] w tables room = refl
  posted-accepted env (e ∷ es) w tables room =
      let now = meaning-offered env w tables (omega (arith, room)) e in
      let later =
        posted-accepted env es (step env w e)
          (step-keeps env TablesOk (TablesOk-IsKept env.sqlite) w e tables)
          (omega (arith, room, last_id-step env w e)) in
      omega (arith, now, later)

  pub unstored-none :
      (env : Environment) (es : List Event) (w : World)
      → ((n : ℕ) → env.sqlite.fault n ≡ none)
      → unstored p env w es ≡ 0
  unfolding unstored
  unstored-none env [] w works = refl
  unstored-none env (e ∷ es) w works =
      omega (arith, stored (offered env w e), unstored-none env es (step env w e) works)
    where
      stored : (a : Act) → unstored_by p env a w.app ≡ 0
      stored (post to bytes) = ground (arith, works w.app.directory.statements)
      stored _ = refl
