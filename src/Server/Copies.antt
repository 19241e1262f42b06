-- ===== src/Server/Copies.antt =====
-- server/src/main.rs and server/src/directory.rs: how many copies of a payload the relay holds or
-- has delivered, in the rows of the queue, in the channels, and in what the sockets have taken.
pub mod Totals
pub mod Moves
pub mod Delivered
pub mod Posted
pub mod Balance
pub mod Accepted
pub mod Run
use phantasma.Prelude.{
  ℕ, ◌+◌, Text, Bytes, Bool, List, [], ◌∷◌, ◌==◌, text_eq, get_elem?, if◌then◌else◌, not, ◌&&◌,
  Option, none, some, ok, err, true, false,
}
use phantasma.Prelude.Dict
use phantasma.Shared.Encrypted
use phantasma.Shared.Routed
use phantasma.Shared.Validation.{is_valid_username}
use phantasma.Server.Sqlite.{QueuedRow}
use phantasma.Server.Payload.Routing.{reachable}
use phantasma.Server.Connection.{Incoming, binary}
use phantasma.Server.State.{AppState, Channel, Environment}
use phantasma.Server.State.Channels.{buffer}
use phantasma.Server.System.{World, Session, Event, receive, step}
use phantasma.Server.PostOffice.{Act, nothing, post, arrive, fetch, take, drop}
use phantasma.Server.PostOffice.Abstraction.{meaning, of_session, in_phase}
use phantasma.Server.Copies.Totals.{total}

abbrev pub is_some : {A : Type 0} → Option A → Bool
is_some none = false
is_some (some a) = true

-- What a payload from a user is to bring: it reads, claims no other sender, and its recipient has a
-- valid name.
unfoldable pub offer : Environment → Text → Bytes → Act
offer env sender payload = elim (Routed.from_wire_bytes env.routed payload) [
  | err e ↦ nothing
  | ok routed ↦ elim (Encrypted.to_wire_bytes env.encrypted routed.encrypted) [
    | err e ↦ nothing
    | ok bytes ↦
        if routed.from == sender && is_valid_username routed.to
        then post routed.to bytes
        else nothing
  ]
]

abbrev pub offer_frame : Environment → Text → Incoming → Act
offer_frame env sender (binary bytes) = offer env sender bytes
offer_frame env sender _ = nothing

abbrev pub offered : Environment → World → Event → Act
offered env w (receive i incoming) =
    of_session (get_elem? w.sessions i)
      (λ x. in_phase x nothing (offer_frame env x.connection.username incoming) nothing)
offered env w _ = nothing

module _ (p : Bytes) where
  abbrev pub one : Bytes → ℕ
  one bytes = if bytes == p then 1 else 0

  abbrev pub in_rows : List QueuedRow → ℕ
  in_rows = total (λ r. one r.payload)

  abbrev pub in_channels : List Channel → ℕ
  in_channels = total (λ c. total one c.buffer)

  abbrev pub held : AppState → ℕ
  held s = in_rows s.directory.queued_messages + in_channels s.channels

  abbrev pub written : List Session → ℕ
  written = total (λ x. total one x.written)

  abbrev pub copies : World → ℕ
  copies w = held w.app + written w.sessions

  abbrev pub posted_by : Act → ℕ
  posted_by (post to bytes) = one bytes
  posted_by _ = 0

  abbrev pub dropped_by : Act → AppState → ℕ
  dropped_by (drop address) s = total one (buffer address s)
  dropped_by _ s = 0

  -- The copies that senders hand in during a run, and those that are lost with the channel of a
  -- connection that ends.
  unfoldable pub posted : Environment → World → List Event → ℕ
  posted env w [] = 0
  posted env w (e ∷ es) = posted_by (meaning env w e) + posted env (step env w e) es

  unfoldable pub dropped : Environment → World → List Event → ℕ
  dropped env w [] = 0
  dropped env w (e ∷ es) = dropped_by (meaning env w e) w.app + dropped env (step env w e) es

  -- The copies of a message whose recipient cannot be reached when the next statement, which is to
  -- store it, fails.
  abbrev pub unstored_by : Environment → Act → AppState → ℕ
  unstored_by env (post to bytes) s =
      if not (reachable (Dict.get to s.active_clients) s)
        && is_some (env.sqlite.fault s.directory.statements)
      then one bytes
      else 0
  unstored_by env _ s = 0

  -- The copies that accepted messages bring during a run, and those of them that are not stored.
  unfoldable pub accepted : Environment → World → List Event → ℕ
  accepted env w [] = 0
  accepted env w (e ∷ es) = posted_by (offered env w e) + accepted env (step env w e) es

  unfoldable pub unstored : Environment → World → List Event → ℕ
  unstored env w [] = 0
  unstored env w (e ∷ es) = unstored_by env (offered env w e) w.app + unstored env (step env w e) es
