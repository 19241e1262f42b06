-- ===== src/Tests/Tasks.antt =====
-- Deliveries and payload handlers, piece by piece.
use phantasma.Prelude.{
  ℕ, ◌+◌, ◌≤◌, ◌≡◌, refl, true, all, List, [], ◌∷◌, ◌++◌, arith, nat_eq, text_eq, keep,
}
use phantasma.Prelude.Dict
use phantasma.Prelude.Utf8.{len, len_utf8, is_ascii_alphanumeric}
use phantasma.Shared.Encrypted
use phantasma.Shared.Routed
use phantasma.Shared.Validation.{is_valid_username, is_username_char}
use phantasma.Server.Sqlite as Sql
use phantasma.Server.Directory.Queue.{
  is_for, queued_messages_for, order_by_id, insert_by_id, delete_queued_message, delete_id,
}
use phantasma.Server.Directory.Queue.Contents.{waiting}
use phantasma.Server.State.{AppState, send}
use phantasma.Server.State.Channels.{buffer, is_live}
use phantasma.Server.Payload.{send_to}
use phantasma.Server.Copies.Totals.{total}
use phantasma.Server.Copies.{held}
use phantasma.Server.Tasks.{Task, loading, looking_up, done, advance, interleave}
use phantasma.Server.Tasks.Twice.{repeated, interleave-delivers_twice}
use phantasma.Server.Tasks.Account.{carried, owed, failed, handed_in}
use phantasma.Server.Tasks.Interleaved.{interleave-keeps}
use phantasma.Tests.Codecs.{write_encrypted}
use phantasma.Tests.Tables.{alice, bob, tables-IsSound}
use phantasma.Tests.Relay.{env, online, wire, message}

-- A second channel for bob.
abbrev twice_online : AppState
twice_online = record online {
  channels = record { buffer = []; is_open = true } ∷ record { buffer = []; is_open = true } ∷ [];
}

interleave-delivers_twice_example :
    let tasks = loading bob 0 ∷ loading bob 1 ∷ [] in
    let (tasks', s') = interleave env (0 ∷ 1 ∷ (repeated 5 0 ++ repeated 5 1)) tasks twice_online in
    (tasks' ≡ done ∷ done ∷ [])
    × (buffer 0 s' ≡ (10 ∷ []) ∷ (40 ∷ []) ∷ [])
    × (buffer 1 s' ≡ (10 ∷ []) ∷ (40 ∷ []) ∷ [])
unfolding waiting is_for keep text_eq buffer is_live
interleave-delivers_twice_example =
    interleave-delivers_twice env bob (λ n. refl) 0 1 5 twice_online tables-IsSound
      (λ e. absurd (omega (arith, e))) refl refl (omega arith)

-- A delivery and a payload handler, in pieces.
abbrev tasks : List Task
tasks = loading bob 0 ∷ looking_up alice (wire bob) ∷ []

abbrev schedule : List ℕ
schedule = 0 ∷ 1 ∷ 0 ∷ 1 ∷ 0 ∷ []

interleave-keeps_example :
    let p = write_encrypted message in
    let (tasks', s') = interleave env schedule tasks online in
    held p online + handed_in p env schedule tasks online + total (owed p) tasks'
    ≤ held p s' + total (carried p) tasks' + total (failed p) tasks'
interleave-keeps_example =
    interleave-keeps (write_encrypted message) env schedule tasks online tables-IsSound
      (tt, (tt, tt))

-- The handler accepts one message on the way.
one_handed_in : handed_in (write_encrypted message) env schedule tasks online ≡ 1
unfolding handed_in advance Routed.from_wire_bytes Encrypted.to_wire_bytes is_valid_username len
    len_utf8 all is_username_char is_ascii_alphanumeric nat_eq text_eq queued_messages_for Sql.run
    order_by_id insert_by_id is_for keep send Dict.get delete_queued_message delete_id send_to
one_handed_in = refl
