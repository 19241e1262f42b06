-- ===== src/Server/Startup.antt =====
-- server/src/main.rs: `main` up to the point where it serves requests. The operating system is a
-- parameter, and so are the readers of a database URL and of a socket address.
pub mod Restart
pub mod StoreForward
use phantasma.Prelude.{Text, String, Option, none, some, Result, ok, err}
use phantasma.Prelude.Utf8.{text}
use phantasma.Server.Sqlite.{SqlxError, Database, Sqlite}
use phantasma.Server.Directory.Schema.{prepare_database}
use phantasma.Server.State.{AppState, initial}

abbrev pub default_database_url : Text
default_database_url = text "sqlite://phantasma.sqlite"

abbrev pub default_bind_addr : Text
default_bind_addr = text "127.0.0.1:3000"

-- `A` is the type of a `SocketAddr`.
pub record Host (A : Type 0) : Type 0 where
  -- `env::var`, if it is `Ok`
  pub variable : Text → Option Text
  -- opens the file of a URL, or creates an empty one
  pub connect : Text → Result SqlxError Database
  pub parse_address : Text → Option A
  -- the error with which the address cannot be bound
  pub bind_fault : A → Option String

-- An `anyhow::Error` of `main`.
pub data MainError : Type 0 where
  database_failed : SqlxError → MainError
  bad_address : MainError
  bind_failed : String → MainError

abbrev unwrap_or : Text → Option Text → Text
unwrap_or default none = default
unwrap_or default (some value) = value

module _ {A : Type 0} (host : Host A) where
  abbrev pub database_url : Text
  database_url = unwrap_or default_database_url (host.variable (text "PHANTASMA_DATABASE_URL"))

  unfoldable pub open_directory_database : Result SqlxError Database
  open_directory_database = host.connect database_url

  unfoldable pub bind_address : Result MainError A
  bind_address =
      elim (host.parse_address
        (unwrap_or default_bind_addr (host.variable (text "PHANTASMA_BIND_ADDR")))) [
          | none ↦ err bad_address
          | some address ↦ ok address
        ]

  abbrev listen : A → AppState → Result MainError (A × AppState)
  listen address state = elim (host.bind_fault address) [
    | some e ↦ err (bind_failed e)
    | none ↦ ok (address, state)
  ]

  abbrev then_listen : AppState → Result MainError (A × AppState)
  then_listen state = elim bind_address [ err e ↦ err e | ok address ↦ listen address state ]

  -- What `axum::serve` is called with, or the error that ends the process; and what the database
  -- file holds then, if it was opened.
  unfoldable pub main : Sqlite → Result MainError (A × AppState) × Option Database
  main q = elim open_directory_database [
    | err e ↦ (err (database_failed e), none)
    | ok opened ↦
        let (prepared, directory) = prepare_database q opened in
        (
          elim prepared [
            | err e ↦ err (database_failed e)
            | ok _ ↦ then_listen (initial directory)
          ],
          some directory,
        )
  ]
