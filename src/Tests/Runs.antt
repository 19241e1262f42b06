-- ===== src/Tests/Runs.antt =====
-- Runs of events at concrete data: bob and alice connect, and one leaves.
use phantasma.Prelude.{
  ◌+◌, ◌≤◌, Bytes, ◌≡◌, ◌≢◌, refl, arith, true, false, some, List, [], ◌∷◌, ok, all, nat_eq,
  text_eq, string_eq, get_elem?,
}
use phantasma.Prelude.Utf8.{len, len_utf8, is_ascii_alphanumeric}
use phantasma.Shared.Routed
use phantasma.Shared.Routed.{RoutedEncryptedMessage}
use phantasma.Shared.Validation.{is_valid_username, is_username_char}
use phantasma.Server.Directory.Queue.{}
use phantasma.Server.State.{initial, unbounded_channel}
use phantasma.Server.State.Channels.{buffer}
use phantasma.Server.Http.{websocket_handler}
use phantasma.Server.Http.Directory.{}
use phantasma.Server.Payload.{handle_encrypted_payload}
use phantasma.Server.Payload.Routing.{}
use phantasma.Server.Delivery.Accounting.{}
use phantasma.Server.Connection.{binary, open_connection}
use phantasma.Server.System.{
  World, connect_event, Session, Event, connect, deliver, receive, transmit, finish, starting, run,
}
use phantasma.Server.System.Invariant.{Inv}
use phantasma.Server.System.Runs.{run-Inv, initial-Inv}
use phantasma.Server.System.Recipients.{handle_encrypted_payload-only_recipient}
use phantasma.Server.System.StoreForward.{}
use phantasma.Server.Copies.{copies, accepted, unstored, dropped}
use phantasma.Server.Copies.Run.{copies-run, copies-run_le}
use phantasma.Server.System.Safety.{TablesOk, IdsRise, run-TablesOk}
use phantasma.Server.PostOffice.{act_all}
use phantasma.Server.PostOffice.Abstraction.{post_office}
use phantasma.Server.PostOffice.Run.{meanings, run-refines}
use phantasma.Tests.Codecs.{routed, write_encrypted}
use phantasma.Tests.Tables.{alice, bob, tables, tables-IsSound}
use phantasma.Tests.Relay.{env, wire, message, alice_ne_bob}

abbrev pub start : World
start = record { app = initial tables; sessions = [] }

abbrev events : List Event
events =
    connect bob
    ∷ connect alice
    ∷ deliver 0
    ∷ deliver 1
    ∷ receive 1 (binary (wire bob))
    ∷ transmit 0 true
    ∷ transmit 0 false
    ∷ finish 0
    ∷ connect bob
    ∷ []

run-Inv_example : Inv (run env start events)
run-Inv_example = run-Inv env events start (initial-Inv tables)

pub tables-TablesOk : TablesOk tables
tables-TablesOk = record { sound = tables-IsSound; unique = tt; vetted = tt }

run-TablesOk_example :
    TablesOk (run env start events).app.directory
    × IdsRise tables (run env start events).app.directory
run-TablesOk_example = run-TablesOk env events start tables-TablesOk

-- The world in which bob has connected.
abbrev bob_session : Session
bob_session = record {
  connection = record { username = bob; connection_id = 1; address = 0 };
  phase = starting;
  written = [];
}

bob_first : get_elem? (run env start (connect bob ∷ [])).sessions 0 ≡ some bob_session
unfolding run connect_event websocket_handler open_connection unbounded_channel is_valid_username
    len len_utf8 all is_username_char is_ascii_alphanumeric nat_eq
bob_first = refl

not_for_bob :
    (r : RoutedEncryptedMessage) → Routed.from_wire_bytes routed (wire alice) ≡ ok r → bob ≢ r.to
unfolding Routed.from_wire_bytes
not_for_bob r e f = alice_ne_bob (cc (e, f))

handle_encrypted_payload-only_recipient_example :
    let w = run env start (connect bob ∷ []) in
    buffer 0 (handle_encrypted_payload env alice (wire alice) w.app).1 ≡ buffer 0 w.app
handle_encrypted_payload-only_recipient_example =
    handle_encrypted_payload-only_recipient env (run env start (connect bob ∷ []))
      (run-Inv env (connect bob ∷ []) start (initial-Inv tables)) 0 bob_session bob_first alice
      (wire alice) not_for_bob

run-refines_example :
    post_office (run env start events).app
    ≡ act_all (meanings env start events) (post_office start.app)
run-refines_example =
    run-refines env events start (λ n. refl) (initial-Inv tables) tables-TablesOk (omega arith)

-- What the recipient of the message gets.
abbrev sealed : Bytes
sealed = write_encrypted message

copies-run_le_example :
    copies sealed start + accepted sealed env start events
    ≤ copies sealed (run env start events)
      + (dropped sealed env start events + unstored sealed env start events)
copies-run_le_example =
    copies-run_le sealed env events start (initial-Inv tables) tables-TablesOk (omega arith)

copies-run_example :
    copies sealed (run env start events) + dropped sealed env start events
    ≡ copies sealed start + accepted sealed env start events
copies-run_example =
    copies-run sealed env events start (λ n. refl) (initial-Inv tables) tables-TablesOk
      (omega arith)
