-- ===== src/Server/System/Invariant.antt =====
-- What holds after any sequence of events.
use phantasma.Prelude.{
  ℕ, suc, ◌+◌, ◌%◌, ◌≡◌, ◌≢◌, ◌∙◌, ap, Text, true, some, List, arith, length, get_elem?, set,
  get_elem?-set, length-set, nat_eq, text_eq,
}
use phantasma.Prelude.Dict
use phantasma.Server.State.{AppState, ActiveClient}
use phantasma.Server.State.Channels.{is_live}
use phantasma.Server.State.Frame.{SameRegistry}
use phantasma.Server.Connection.{Connection, u64_mod}
use phantasma.Server.System.{Phase, starting, serving, closed, Session, World, update}

-- The phases in which the channel of a session takes messages for sure.
abbrev pub IsListening : Phase → Type 0
IsListening starting = Unit
IsListening serving = Unit
IsListening _ = ⊥

-- What holds of the i-th session: its channel is its own, its id is the i-th, and its receiver is
-- there while its loops run.
pub record SessionOk (s : AppState) (i : ℕ) (x : Session) : Type 0 where
  pub address : x.connection.address ≡ i
  pub id : x.connection.connection_id ≡ (i + 1) % u64_mod
  pub live : IsListening x.phase → is_live i s ≡ true

-- The registry sends a name to a session of that name that is not over.
pub record EntryOk (sessions : List Session) (name : Text) (client : ActiveClient) : Type 0 where
  pub session : Session
  pub found : get_elem? sessions client.sender ≡ some session
  pub own_name : session.connection.username ≡ name
  pub own_id : session.connection.connection_id ≡ client.connection_id
  pub not_over : session.phase ≢ closed

pub record Inv (w : World) : Type 0 where
  pub channels : length w.app.channels ≡ length w.sessions
  pub counter : w.app.next_connection_id ≡ (length w.sessions + 1) % u64_mod
  pub session_ok : (i : ℕ) (x : Session) → get_elem? w.sessions i ≡ some x → SessionOk w.app i x
  pub entry_ok :
      (name : Text) (client : ActiveClient)
      → Dict.get name w.app.active_clients ≡ some client
      → EntryOk w.sessions name client

pub SessionOk-other :
    (s t : AppState) (i : ℕ) (x : Session)
    → is_live i t ≡ is_live i s
    → SessionOk s i x
    → SessionOk t i x
SessionOk-other s t i x e ok_ = record {
  address = ok_.address;
  id = ok_.id;
  live = λ listening. e ∙ ok_.live listening;
}

-- An event of a session that leaves the registry alone: the session moves to another phase that is
-- not the last, and keeps its connection.
module _ (w : World) (i : ℕ) (x y : Session) (s : AppState) (inv : Inv w)
    (e : get_elem? w.sessions i ≡ some x) (same : y.connection ≡ x.connection)
    (frame : (j : ℕ) → i ≢ j → SameRegistry j w.app s)
    (live : IsListening y.phase → is_live i s ≡ true) where
  common : SameRegistry (suc i) w.app s
  common = frame (suc i) (omega arith)

  session-update :
      (j : ℕ) (z : Session) → get_elem? (set w.sessions i y) j ≡ some z → SessionOk s j z
  session-update j z f = elim (nat_eq.dec i j) [
    | yes p ↦
        let y_z : y ≡ z = ground (arith, f, get_elem?-set w.sessions i j y x e) in
        let old : SessionOk w.app i x = inv.session_ok i x e in
        rw (← y_z, ← p)
          (record {
            address = ap (λ (c : Connection). c.address) same ∙ old.address;
            id = ap (λ (c : Connection). c.connection_id) same ∙ old.id;
            live = live;
          })
    | no p ↦
        let f' : get_elem? w.sessions j ≡ some z =
          ground (arith, f, get_elem?-set w.sessions i j y x e) in
        SessionOk-other w.app s j z (frame j p).0 (inv.session_ok j z f')
  ]

  entry-update :
      y.phase ≢ closed
      → (name : Text) (client : ActiveClient) → EntryOk w.sessions name client
      → EntryOk (set w.sessions i y) name client
  entry-update open_ name client old = elim (nat_eq.dec i client.sender) [
    | yes p ↦
        let x_old : x ≡ old.session = ground (arith, e, old.found, p) in
        record {
          session = y;
          found = ground (arith, p, get_elem?-set w.sessions i client.sender y x e);
          own_name =
              ap (λ (c : Connection). c.username) same
              ∙ ap (λ (t : Session). t.connection.username) x_old
              ∙ old.own_name;
          own_id =
              ap (λ (c : Connection). c.connection_id) same
              ∙ ap (λ (t : Session). t.connection.connection_id) x_old
              ∙ old.own_id;
          not_over = open_;
        }
    | no p ↦ record {
      session = old.session;
      found = ground (arith, old.found, get_elem?-set w.sessions i client.sender y x e);
      own_name = old.own_name;
      own_id = old.own_id;
      not_over = old.not_over;
    }
  ]

  pub update-Inv : y.phase ≢ closed → Inv (update i y s w)
  update-Inv open_ = record {
    channels = omega (arith, common.3, inv.channels, length-set w.sessions i y);
    counter = rw length-set (common.2 ∙ inv.counter);
    session_ok = session-update;
    entry_ok = λ name client f.
        entry-update open_ name client (inv.entry_ok name client (rw common.1 at f));
  }
