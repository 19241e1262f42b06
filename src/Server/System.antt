-- ===== src/Server/System.antt =====
-- server/src/main.rs: all connections of one server, as a sequence of events. An event is a piece
-- of a handler that runs while no other changes the shared state: the two ends of `handle_socket`,
-- its delivery, and one round of either of its loops.
pub mod Invariant
pub mod Steps
pub mod Runs
pub mod Recipients
pub mod StoreForward
pub mod Gaps
pub mod Kept
pub mod Tables
pub mod Safety
use phantasma.Prelude.{
  ℕ, Text, Bytes, Bool, true, false, Option, none, some, List, [], ◌∷◌, ◌++◌, Result, ok, err,
  get_elem?, set, if◌then◌else◌,
}
use phantasma.Shared.Registration.{PublicKeyRegistration}
use phantasma.Server.State.{AppState, Environment}
use phantasma.Server.Http.{register_public_key, lookup_public_key, websocket_handler}
use phantasma.Server.Delivery.{deliver_queued_messages}
use phantasma.Server.Connection.{
  Connection, Incoming, open_connection, receive_turn, send_turn, close_connection,
}

-- How far `handle_socket` has come: before `deliver_queued_messages`, in the two loops, in the
-- `select!` after one of them ended, and at its end.
pub data Phase : Type 0 where
  starting serving ending closed : Phase

-- A run of `handle_socket`; its position in the list is the address of its channel.
pub record Session : Type 0 where
  pub connection : Connection
  pub phase : Phase
  -- what its socket has taken, oldest first
  pub written : List Bytes

pub record World : Type 0 where
  pub app : AppState
  pub sessions : List Session

pub data Event : Type 0 where
  register : PublicKeyRegistration → Event
  lookup : Text → Event
  connect : Text → Event
  deliver : ℕ → Event
  receive : ℕ → Incoming → Event
  transmit : ℕ → Bool → Event
  finish : ℕ → Event

abbrev pub phase_if : Bool → Phase
phase_if goes_on = if goes_on then serving else ending

abbrev pub update : ℕ → Session → AppState → World → World
update i x s w = record { app = s; sessions = set w.sessions i x }

-- An event that does not fit the phase of its session does not happen.
-- The delivery is one call that nothing interrupts; Server/Tasks.antt has its statements as pieces
-- between which other handlers run.
unfoldable pub deliver_event : Environment → ℕ → Session → World → World
deliver_event env i x w = elim x.phase [
  | starting ↦
      update i (record x { phase = serving })
        (deliver_queued_messages env x.connection.username x.connection.address w.app) w
  | _ ↦ w
]

unfoldable pub receive_event : Environment → ℕ → Incoming → Session → World → World
receive_event env i incoming x w = elim x.phase [
  | serving ↦
      let (goes_on, s) = receive_turn env x.connection incoming w.app in
      update i (record x { phase = phase_if goes_on }) s w
  | _ ↦ w
]

abbrev pub append_written : List Bytes → Option Bytes → List Bytes
append_written sent none = sent
append_written sent (some payload) = sent ++ payload ∷ []

unfoldable pub transmit_event : ℕ → Bool → Session → World → World
transmit_event i accepts x w = elim x.phase [
  | serving ↦
      let (payload, goes_on, s) = send_turn x.connection accepts w.app in
      update i (record x { phase = phase_if goes_on; written = append_written x.written payload }) s
        w
  | _ ↦ w
]

unfoldable pub finish_event : ℕ → Session → World → World
finish_event i x w = elim x.phase [
  | ending ↦ update i (record x { phase = closed }) (close_connection x.connection w.app) w
  | _ ↦ w
]

unfoldable pub connect_event : Text → World → World
connect_event username w = elim (websocket_handler username) [
  | err refusal ↦ w
  | ok name ↦
      let (c, s) = open_connection name w.app in
      record {
        app = s;
        sessions = w.sessions ++ record { connection = c; phase = starting; written = [] } ∷ [];
      }
]

-- The event of a session, if there is one.
abbrev pub at_session : ℕ → (Session → World → World) → World → World
at_session i f w = elim (get_elem? w.sessions i) [ none ↦ w | some x ↦ f x w ]

unfoldable pub step : Environment → World → Event → World
step env w (register r) = record w { app = (register_public_key env r w.app).1 }
step env w (lookup name) = record w { app = (lookup_public_key env name w.app).1 }
step env w (connect username) = connect_event username w
step env w (deliver i) = at_session i (deliver_event env i) w
step env w (receive i incoming) = at_session i (receive_event env i incoming) w
step env w (transmit i accepts) = at_session i (transmit_event i accepts) w
step env w (finish i) = at_session i (finish_event i) w

unfoldable pub run : Environment → World → List Event → World
unfolding step
run env w [] = w
run env w (e ∷ es) = run env (step env w e) es
