-- ===== src/Lib.antt =====
-- A verification library for Phantasma, an end-to-end encrypted chat: a relay server that keeps
-- a directory of public keys and a queue of messages for users who are offline, and a client
-- that encrypts.
--
-- The parts, and the files that model them:
--
-- - shared/src/lib.rs, the messages and the tests on names and keys: Shared and its children, one
--   per message type, and Shared/Validation.antt. `serde_json` is a parameter, a codec for each
--   type that is read or written (Shared/Codec.antt, with its documented laws).
-- - server/src/directory.rs, the tables in SQLite: Server/Sqlite.antt is the state of the file and
--   how a statement is run; Server/Directory/Schema.antt is `prepare_database`,
--   Server/Directory/Keys.antt the key table, Server/Directory/Queue.antt the queue. Each statement
--   that the program sends is a function on the tables. Which statement fails, and what the clock
--   shows in it, is the parameter `Sqlite`.
-- - server/src/main.rs, the relay: Server/State.antt is `AppState` with the channels as a heap,
--   Server/Http.antt the handlers `register_public_key`, `lookup_public_key` and
--   `websocket_handler`, Server/Payload.antt `handle_encrypted_payload`, Server/Delivery.antt
--   `deliver_queued_messages`, Server/Hex.antt `hex_preview`, and Server/Connection.antt the pieces
--   of `handle_socket`: its start, one round of each of its two tasks, and its end.
--   Server/System.antt puts these together: a world is the shared state and the list of the
--   connections so far, an event is one piece of one handler, and a run is any list of events.
-- - client/src/crypto.rs: Client/Crypto.antt is `encrypt_message` and `decrypt_message`. The crates
--   for base64, X25519, HKDF and XChaCha20-Poly1305 are the parameter `Primitives`, with what they
--   document as laws, and the random nonce is an argument.
-- - client/src/server_api.rs: Client/Directory.antt is `register_public_key`, `lookup_public_key`
--   and `ensure_success`, with the HTTP client as a part of the parameter `Outside`, and the state
--   that the client's operations share. Client/Endpoints.antt is `ServerEndpoints`.
-- - client/src/identity.rs: Client/Keys.antt is what an identity file holds and the tests on it,
--   Client/Identity.antt `load_or_create_in` with all that it calls. client/src/contacts.rs:
--   Client/Contacts.antt is `ContactBook`, and Client/Contacts/Names.antt its names in the order of
--   a `BTreeMap`. Both use Client/Files.antt, a file system in which each operation can be refused
--   or leave a torn file, as the parameter `Machine` says, which also says whether the system is
--   Unix: `write_secret_file` has a version for it and one for other systems.
-- - client/src/main.rs: Client/Arguments.antt is `read_args`, Client/Messages.antt `add_contact`,
--   `find_or_add_sender` and `receive_message`, Client/Sending.antt `send_message`,
--   Client/Commands.antt the loop of `main` with its commands and `connect_with_retry`, and
--   Client/Startup.antt the rest of `main` with `identity_root`.
-- - server/src/main.rs, `main`: Server/Startup.antt is `main` up to the point where it serves, with
--   `open_directory_database` and `bind_address`; Server/Router.antt is its table of routes and the
--   way of a request through it to a handler. The operating system is the parameter `Host`, and
--   axum the parameter `Axum`; what axum is documented to match is Server/Router/Answers.antt.
-- - The functions of Rust's `str` that these use are in Prelude/Str.antt, on lists of code points.
--
-- Server/PostOffice.antt is an abstract description of the relay: a mailbox for each name, a
-- line of payloads for each connection, and the connection at which a name is reached. Its
-- children map the states and events of the relay to it. Server/Copies.antt counts the copies of
-- a payload in the whole relay. Client/Sending/EndToEnd.antt composes the client of one user,
-- the relay, and the client of another. Web.antt puts the HTTP requests of the client and the
-- routes of the relay together, with `reqwest` and its reader of URLs as the parameter `Web`.
--
-- How the parts interact: a handler reaches the tables only through the functions of
-- Server/Directory, a connection reaches another only through the registry `active_clients` and
-- the channel that it names, and the client's messages reach the relay as bytes of which it
-- reads the route alone.
--
-- Bounds. All loops are structural recursion but one: `connect_with_retry` tries for ever, and
-- takes the number of attempts as fuel; any fuel above the number of the attempt that would
-- succeed is enough. The loop of the client runs over the list of the events that it takes. A
-- `u64` connection id wraps around at 2 ^ 64, the ids of the queue end at 2 ^ 63 - 1 with an
-- error, and a length of text is counted in bytes of UTF-8 as Rust does. Texts are lists of code
-- points, and bytes are numbers that a theorem bounds where it needs to.
--
-- Granularity. An event runs one call of a handler as a whole. `relay_or_queue`, the part of
-- `handle_encrypted_payload` after the registry was read, is a function of its own, so that what
-- happens between the two can be stated. Server/Tasks.antt has the finer pieces:
-- `deliver_queued_messages` and `handle_encrypted_payload` as tasks that stop before each
-- statement and before and after the lock, and any schedule of several such tasks.
-- Server/Tasks/Whole.antt relates the two. What is shown for the events of Server/System.antt
-- holds for calls that nothing interrupts; where calls overlap, see Server/Tasks.
--
-- Not modelled: the logging set-up and the CORS layer of the relay's `main`, the text of log
-- lines and of the usage, the permissions and the directories of the client's files, how
-- `select!` picks the next event and what aborting a task does to the statement it waits for,
-- the closing of the socket at the end of a session, and the page in docs/app.js. These are
-- calls of libraries, or outside the program.
pub mod Prelude
pub mod Shared
pub mod Server
pub mod Client
pub mod Web
pub mod Tests
