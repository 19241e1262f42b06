-- ===== src/Tests/Setup.antt =====
-- Starting the relay on a machine that sets no variable.
use phantasma.Prelude.{
  ◌≡◌, refl, Text, none, some, ok, inl, text_eq, string_eq, all, nat_eq, ◌==◌, if◌then◌else◌, [],
}
use phantasma.Prelude.{List, ◌∷◌, keep}
use phantasma.Prelude.Utf8.{len, len_utf8, is_ascii_alphanumeric}
use phantasma.Shared.Validation.{is_valid_username, is_username_char}
use phantasma.Server.Sqlite as Sql
use phantasma.Server.Directory.Queue.{
  queued_messages_for, order_by_id, insert_by_id, is_for, delete_queued_message, delete_id,
}
use phantasma.Server.Directory.Queue.Contents.{waiting}
use phantasma.Server.State.{AppState, unbounded_channel, send}
use phantasma.Server.State.Channels.{buffer}
use phantasma.Server.Http.{websocket_handler}
use phantasma.Server.Delivery.{deliver_queued_messages, deliver_loop}
use phantasma.Server.Delivery.Outcome.{payloads}
use phantasma.Server.Connection.{open_connection}
use phantasma.Server.System.{Event, connect, deliver, connect_event, deliver_event, step, run}
use phantasma.Server.System.StoreForward.{connection_of, connect_and_deliver}
use phantasma.Server.Startup.StoreForward.{connect_and_deliver-main}
use phantasma.Server.Sqlite.{Database, fresh}
use phantasma.Server.Directory.Schema.{prepare_database, add_column_if_missing, contains}
use phantasma.Server.Directory.Schema.Preparation.{IsReady}
use phantasma.Server.State.{initial}
use phantasma.Server.System.Invariant.{Inv}
use phantasma.Server.System.Safety.{TablesOk}
use phantasma.Server.PostOffice.Abstraction.{post_office}
use phantasma.Server.Startup.{
  Host, bind_address, open_directory_database, main, default_bind_addr, default_database_url,
}
use phantasma.Server.Startup.Restart.{reopened, main-reopens, main-listens}
use phantasma.Tests.Tables.{alice, bob, sqlite, tables, tables-IsReady}
use phantasma.Tests.Runs.{start, tables-TablesOk}
use phantasma.Tests.Relay.{env, online}

-- The machine has one file, at the default place; an address is its text.
abbrev host : Database → Host Text
host db = record {
  variable = λ name. none;
  connect = λ url. if url == default_database_url then ok db else ok fresh;
  parse_address = λ address. some address;
  bind_fault = λ address. none;
}

main-reopens_example :
    let state = initial (prepare_database sqlite tables).1 in
    (post_office state ≡ reopened (post_office online))
    × (state.directory.public_keys ≡ [])
    × IsReady state.directory
    × TablesOk state.directory
    × Inv (record { app = state; sessions = [] })
unfolding text_eq main open_directory_database bind_address prepare_database add_column_if_missing
    Sql.run contains string_eq all
main-reopens_example =
    main-reopens (host tables) sqlite online refl tables-IsReady tables-TablesOk default_bind_addr
      (initial (prepare_database sqlite tables).1) refl

main-listens_example :
    (prepared : Database) × ((main (host fresh) sqlite).0
      ≡ ok (default_bind_addr, initial prepared))
    × IsReady prepared
    × (prepared.queued_messages ≡ [])
unfolding text_eq bind_address
main-listens_example =
    main-listens (host fresh) sqlite fresh default_bind_addr refl (inl refl) (λ n. refl) refl refl

-- Alice connects and takes what waits for her; then the relay stops, and is started again.
abbrev before : List Event
before = connect alice ∷ deliver 0 ∷ []

abbrev stopped : Database
stopped = (run env start before).app.directory

abbrev again : AppState
again = initial (prepare_database sqlite stopped).1

starts_again : (main (host stopped) sqlite).0 ≡ ok (default_bind_addr, again)
unfolding text_eq main open_directory_database bind_address prepare_database add_column_if_missing
    Sql.run contains string_eq all run step connect_event websocket_handler open_connection
    unbounded_channel is_valid_username len len_utf8 is_username_char is_ascii_alphanumeric nat_eq
    deliver_event deliver_queued_messages deliver_loop queued_messages_for order_by_id insert_by_id
    keep is_for send delete_queued_message delete_id
starts_again = refl

connect_and_deliver-main_example :
    let s' = connect_and_deliver env bob again in
    (buffer (connection_of bob again).address s' ≡ payloads (waiting bob stopped))
    × (waiting bob s'.directory ≡ [])
unfolding text_eq
connect_and_deliver-main_example =
    connect_and_deliver-main env before start (host stopped) default_bind_addr again bob
      tables-IsReady tables-TablesOk (λ n. refl) refl starts_again

two_left : payloads (waiting bob stopped) ≡ (10 ∷ []) ∷ (40 ∷ []) ∷ []
unfolding text_eq Sql.run all run step connect_event websocket_handler open_connection
    unbounded_channel is_valid_username len len_utf8 is_username_char is_ascii_alphanumeric nat_eq
    deliver_event deliver_queued_messages deliver_loop queued_messages_for order_by_id insert_by_id
    keep is_for send delete_queued_message delete_id waiting
two_left = refl
