-- ===== src/Server/Startup/Restart.antt =====
-- What a process of the relay finds in the database file, and what it makes of it.
use phantasma.Prelude.{ℕ, ◌≡◌, refl, none, [], arith, ok}
use phantasma.Prelude.Dict
use phantasma.Server.Sqlite.{Database, Sqlite}
use phantasma.Server.Directory.Queue.Order.{IsSound}
use phantasma.Server.Directory.Queue.Contents.{waiting}
use phantasma.Server.Directory.Schema.{prepare_database}
use phantasma.Server.Directory.Schema.Preparation.{
  IsReady, IsUpgradable, prepare_database-IsReady, prepare_database_again,
}
use phantasma.Server.State.{AppState, initial}
use phantasma.Server.State.Channels.{buffer}
use phantasma.Server.System.Invariant.{Inv}
use phantasma.Server.System.Runs.{initial-Inv}
use phantasma.Server.System.Safety.{TablesOk, TablesOk-of_same}
use phantasma.Server.PostOffice.{PostOffice}
use phantasma.Server.PostOffice.Abstraction.{post_office, PostOffice-ext}
use phantasma.Server.Startup.{Host, database_url, open_directory_database, bind_address, main}

-- A post office that nobody has reached yet, with these mailboxes.
abbrev pub reopened : PostOffice → PostOffice
reopened before = record { mailbox = before.mailbox; line = λ address. []; reached = λ name. none }

post_office-initial :
    (s : AppState) (db : Database)
    → db.queued_messages ≡ s.directory.queued_messages
    → post_office (initial db) ≡ reopened (post_office s)
unfolding waiting buffer Dict.get
post_office-initial s db e = PostOffice-ext _ _ (λ name. rw e refl) (λ address. refl) (λ name. refl)

module _ {A : Type 0} (host : Host A) (q : Sqlite) where
  module _ (s : AppState) (e : host.connect (database_url host) ≡ ok s.directory)
      (ready : IsReady s.directory) (tables : TablesOk s.directory) where
    abbrev prepared : Database
    prepared = (prepare_database q s.directory).1

    prepared-TablesOk : IsReady prepared × TablesOk prepared
    prepared-TablesOk =
        let (columns, keys, queue, ids, still) = prepare_database_again q s.directory ready in
        let sound : IsSound prepared = record {
          has_queue = still.queue;
          ordered = rw (ids, queue) tables.sound.ordered;
        } in
        (still, TablesOk-of_same q s.directory prepared keys tables sound)

    main-initial :
        (address : A) (state : AppState)
        → (main host q).0 ≡ ok (address, state)
        → initial prepared ≡ state
    unfolding main open_directory_database bind_address
    main-initial address state h = ground arith

    -- If the relay starts on the database that a process of it left, with ready tables in which the
    -- invariant holds, and then listens: it is a post office with the mailboxes of the process
    -- before, with no line and no name reached, it has the keys of the process before, and the
    -- invariants of its tables and connections hold, whatever the process before was doing.
    pub main-reopens :
        (address : A) (state : AppState)
        → (main host q).0 ≡ ok (address, state)
        → (post_office state ≡ reopened (post_office s))
          × (state.directory.public_keys ≡ s.directory.public_keys)
          × IsReady state.directory
          × TablesOk state.directory
          × Inv (record { app = state; sessions = [] })
    main-reopens address state h =
        let (columns, keys, queue, ids, still) = prepare_database_again q s.directory ready in
        let (now_ready, sound) = prepared-TablesOk in
        rw (← main-initial address state h)
          (post_office-initial s prepared queue, keys, now_ready, sound, initial-Inv prepared)

  -- A first start: on an empty file or on the tables of an older version, if no statement fails
  -- and the address is read and free, the relay listens there, over tables that are ready and with
  -- the queued messages of the file.
  pub main-listens :
      (db : Database) (address : A)
      → host.connect (database_url host) ≡ ok db
      → IsUpgradable db
      → ((n : ℕ) → q.fault n ≡ none)
      → bind_address host ≡ ok address
      → host.bind_fault address ≡ none
      → (prepared : Database) × ((main host q).0 ≡ ok (address, initial prepared))
        × IsReady prepared
        × (prepared.queued_messages ≡ db.queued_messages)
  unfolding main open_directory_database
  main-listens db address e old works a free =
      let (done, ready, index, queue) = prepare_database-IsReady q works db old in
      ((prepare_database q db).1, ground arith, ready, queue)
