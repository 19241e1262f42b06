-- ===== src/Server/State.antt =====
-- server/src/main.rs: the state that the handlers share. An unbounded channel of tokio is a buffer
-- on a heap of channels, and a sender or receiver is the channel's address.
pub mod Channels
pub mod Frame
use phantasma.Prelude.{
  ℕ, suc, ◌+◌, ◌%◌, ◌^◌, Text, Bytes, Bool, true, false, Option, none, some, List, [], ◌∷◌, ◌++◌,
  Result, ok, err, Exec, map_err, length, get_elem?, set, if◌then◌else◌,
}
use phantasma.Prelude.Dict.{Dict}
use phantasma.Shared.Codec.{Codec, JsonError}
use phantasma.Shared.Encrypted.{EncryptedChatMessage}
use phantasma.Shared.Routed.{RoutedEncryptedMessage}
use phantasma.Server.Sqlite.{SqlxError, Database, Sqlite, Sql, fresh}

pub record ActiveClient : Type 0 where
  pub connection_id : ℕ
  -- the address of the channel
  pub sender : ℕ

-- `is_open` until the receiver is dropped.
pub record Channel : Type 0 where
  pub buffer : List Bytes
  pub is_open : Bool

-- What the server prints or logs.
pub data LogLine : Type 0 where
  forged_sender : Text → Text → LogLine
  invalid_recipient : LogLine
  relayed queued delivered : Text → ℕ → Text → LogLine
  plaintext_rejected : ℕ → LogLine
  payload_failed : ℕ → LogLine
  load_failed delete_failed : SqlxError → Text → LogLine
  directory_failed : SqlxError → LogLine
  websocket_failed : ℕ → LogLine
  connected disconnected : ℕ → Text → LogLine

pub record AppState : Type 0 where
  pub active_clients : Dict Text ActiveClient
  pub directory : Database
  -- an `AtomicU64`
  pub next_connection_id : ℕ
  pub channels : List Channel
  pub log : List LogLine

-- The database, and `serde_json` at the two types that the relay reads and writes.
pub record Environment : Type 0 where
  pub sqlite : Sqlite
  pub routed : Codec RoutedEncryptedMessage
  pub encrypted : Codec EncryptedChatMessage

-- An `anyhow::Error` of the relay.
pub data RelayError : Type 0 where
  json : JsonError → RelayError
  database : SqlxError → RelayError

-- The state that `main` sets up over a database.
abbrev pub initial : Database → AppState
initial db = record {
  active_clients = [];
  directory = db;
  next_connection_id = 1;
  channels = [];
  log = [];
}

abbrev pub print : LogLine → AppState → AppState
print line s = record s { log = s.log ++ line ∷ [] }

-- Runs statements on the shared database.
abbrev pub on_directory {ℓ} :
    {E : Type ℓ} {A : Type 0} → (SqlxError → E) → Sql A → Exec AppState E A
on_directory f m s = let (r, db) = m s.directory in (map_err f r, record s { directory = db })

-- `mpsc::unbounded_channel`: the address of a new channel is the number of those before.
unfoldable pub unbounded_channel : AppState → ℕ × AppState
unbounded_channel s = (
  length s.channels,
  record s { channels = s.channels ++ record { buffer = []; is_open = true } ∷ [] },
)

-- `UnboundedSender::send`: whether it is `Ok`. It fails once the receiver is gone.
unfoldable pub send : ℕ → Bytes → AppState → Bool × AppState
send address payload s = elim (get_elem? s.channels address) [
  | none ↦ (false, s)
  | some c ↦
      if c.is_open
      then (
        true,
        record s {
          channels = set s.channels address (record c { buffer = c.buffer ++ payload ∷ [] });
        },
      )
      else (false, s)
]

-- Dropping the receiver: what the buffer still held is gone.
unfoldable pub drop_receiver : ℕ → AppState → AppState
drop_receiver address s = record s {
  channels = set s.channels address (record { buffer = []; is_open = false });
}
