-- ===== src/Server/Startup/StoreForward.antt =====
-- Messages that wait while the relay is not running.
use phantasma.Prelude.{ℕ, Text, ◌≡◌, ap, ◌∙◌, none, ok, List, [], arith, text_eq}
use phantasma.Server.Sqlite as Sql
use phantasma.Server.Sqlite.{Database, Sqlite}
use phantasma.Server.Directory.Keys as Keys
use phantasma.Server.Directory.Queue.{queue_message, queued_messages_for, delete_queued_message}
use phantasma.Server.Directory.Queue.Contents.{waiting}
use phantasma.Server.Directory.Schema.Preparation.{IsReady}
use phantasma.Server.Delivery.Outcome.{payloads}
use phantasma.Server.State.{AppState, Environment}
use phantasma.Server.State.Channels.{buffer}
use phantasma.Server.System.StoreForward.{
  connection_of, connect_and_deliver, connect_and_deliver_complete,
}
use phantasma.Server.System.{World, Event, run}
use phantasma.Server.System.Kept.{IsKept}
use phantasma.Server.System.Tables.{run-keeps}
use phantasma.Server.System.Safety.{TablesOk, run-TablesOk}
use phantasma.Server.PostOffice.{PostOffice}
use phantasma.Server.Startup.{Host, database_url, main}
use phantasma.Server.Startup.Restart.{main-reopens}

IsReady-of_same :
    (db db' : Database)
    → (db'.columns ≡ db.columns) × (db'.has_queue ≡ db.has_queue)
    → IsReady db
    → IsReady db'
IsReady-of_same db db' (columns, queue) ready = record {
  keys = rw columns ready.keys;
  queue = rw queue ready.queue;
}

-- No statement of the handlers takes a table or a column away.
IsReady-IsKept : (q : Sqlite) → IsKept q IsReady
unfolding queue_message queued_messages_for delete_queued_message Keys.register_public_key
    Keys.lookup_public_key Sql.run
IsReady-IsKept q = record {
  weaken = λ db h. h;
  queue = λ to payload db h. IsReady-of_same db _ (ground arith, ground arith) h;
  load = λ name db h. IsReady-of_same db _ (ground arith, ground arith) h;
  delete = λ id db h. IsReady-of_same db _ (ground arith, ground arith) h;
  store = λ r db v h. IsReady-of_same db _ (ground arith, ground arith) h;
  find = λ name db h. IsReady-of_same db _ (ground arith, ground arith) h;
}

-- A relay that starts with ready tables in order, goes through any events, stops, and is started
-- again on its database, over which no statement fails: whoever connects then finds in the channel
-- of the connection exactly the messages that waited when the relay stopped, oldest first, and
-- nothing waits any more.
pub connect_and_deliver-main :
    (env : Environment) (es : List Event) (w : World) {A : Type 0} (host : Host A) (address : A)
    (state : AppState) (name : Text)
    → IsReady w.app.directory
    → TablesOk w.app.directory
    → ((n : ℕ) → env.sqlite.fault n ≡ none)
    → host.connect (database_url host) ≡ ok (run env w es).app.directory
    → (main host env.sqlite).0 ≡ ok (address, state)
    → let s' = connect_and_deliver env name state in
      (buffer (connection_of name state).address s'
        ≡ payloads (waiting name (run env w es).app.directory))
      × (waiting name s'.directory ≡ [])
connect_and_deliver-main env es w host address state name ready tables works e h =
    let stopped = (run env w es).app in
    let (office, keys, now_ready, in_order, inv) =
      main-reopens host env.sqlite stopped e
        (run-keeps env IsReady (IsReady-IsKept env.sqlite) es w ready)
        ((run-TablesOk env es w tables).0) address state h in
    let (full, empty, sound) = connect_and_deliver_complete env name state in_order.sound works in
    (full ∙ ap (λ (a : PostOffice). a.mailbox name) office, empty)
