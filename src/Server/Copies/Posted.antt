-- ===== src/Server/Copies/Posted.antt =====
-- What a payload from a user adds, and what the pieces of a connection move.
use phantasma.Prelude.{
  ℕ, ◌+◌, ◌%◌, ◌≡◌, refl, ap, Text, Bytes, Bool, true, false, Option, none, some, List, [], ◌∷◌,
  arith, nat_eq, text_eq, if◌then◌else◌, inl, inr, Bool-cases,
}
use phantasma.Prelude.Dict
use phantasma.Server.Directory.Queue.{queue_message}
use phantasma.Server.State.{AppState, ActiveClient, Environment}
use phantasma.Server.State.Channels.{buffer, send_lem, directory-send}
use phantasma.Server.Payload.{send_to, relay_or_queue, handle_encrypted_payload}
use phantasma.Server.Payload.Routing.{reachable}
use phantasma.Server.Connection.{
  Connection, u64_mod, Incoming, binary, text_frame, open_connection, receive_turn, recv, send_turn,
  close_connection,
}
use phantasma.Server.Connection.Frame.{recv_lem}
use phantasma.Server.System.{append_written}
use phantasma.Server.PostOffice.Abstraction.{is_lost, letter, of_frame, of_round}
use phantasma.Server.PostOffice.Posting.{handle_encrypted_payload-Handled}
use phantasma.Server.Copies.Totals.{total, total-snoc}
use phantasma.Server.Copies.Moves.{
  held-send, held-recv, held-drop_receiver, held-unbounded_channel, in_rows-queue_message, of_next,
}
use phantasma.Server.Copies.{one, in_rows, held, posted_by, dropped_by}

module _ (p : Bytes) where
  pub held-send_to :
      (recipient : Option ActiveClient) (bytes : Bytes) (s : AppState)
      → let (sent, s') = send_to recipient bytes s in
        (sent ≡ reachable recipient s)
        × (held p s' ≡ held p s + (if reachable recipient s then one p bytes else 0))
        × (s'.directory ≡ s.directory)
  unfolding send_to
  held-send_to none bytes s = (refl, omega arith, refl)
  held-send_to (some client) bytes s = (
    (send_lem client.sender client.sender bytes s).0,
    held-send p client.sender bytes s,
    directory-send client.sender bytes s,
  )

  module _ (env : Environment) where
    held-relay_or_queue :
        (to : Text) (bytes : Bytes) (s : AppState)
        → held p (relay_or_queue env to bytes (Dict.get to s.active_clients) s).1
          ≡ held p s + (if is_lost env to bytes s then 0 else one p bytes)
    unfolding relay_or_queue
    held-relay_or_queue to bytes s =
        let (sent, counts, same) = held-send_to (Dict.get to s.active_clients) bytes s in
        ground (
          arith,
          sent,
          counts,
          ap (queue_message env.sqlite to bytes) same,
          ap (λ db. in_rows p db.queued_messages) same,
          in_rows-queue_message p env.sqlite to bytes s.directory,
        )

    held-handle_encrypted_payload :
        (sender : Text) (payload : Bytes) (s : AppState)
        → held p (handle_encrypted_payload env sender payload s).1
          ≡ held p s + posted_by p (letter env sender payload s)
    held-handle_encrypted_payload sender payload s =
        elim (handle_encrypted_payload-Handled env sender payload s) [
          | inl (none_posted, same) ↦ ground (arith, none_posted, same)
          | inr (to, bytes, posted, same) ↦
              rw (posted, same)
                (elim (Bool-cases (is_lost env to bytes s)) [
                  | inl lost ↦ rw lost (omega (arith, rw lost at (held-relay_or_queue to bytes s)))
                  | inr kept ↦ rw kept (omega (arith, rw kept at (held-relay_or_queue to bytes s)))
                ])
        ]

    -- A round of the receiving task adds what it posts.
    pub held-receive_turn :
        (c : Connection) (incoming : Incoming) (s : AppState)
        → held p (receive_turn env c incoming s).1
          ≡ held p s + posted_by p (of_frame env c.username s incoming)
    unfolding receive_turn
    held-receive_turn c (binary bytes) s =
        ground (arith, held-handle_encrypted_payload c.username bytes s)
    held-receive_turn c (text_frame t) s = omega arith
    held-receive_turn c _ s = omega arith

  -- A round of the sending task: what leaves the channels was written, or is dropped with them.
  pub held-send_turn :
      (c : Connection) (accepts : Bool) (s : AppState)
      → let (payload, goes_on, s') = send_turn c accepts s in
        held p s'
          + (of_next p payload + dropped_by p (of_round c.address accepts (buffer c.address s)) s)
        ≡ held p s
  unfolding send_turn total
  held-send_turn c true s = ground (arith, held-recv p c.address s)
  held-send_turn c false s = ground (
    arith,
    recv_lem c.address c.address s,
    held-recv p c.address s,
    held-drop_receiver p c.address (recv c.address s).1,
  )

  pub held-open_connection :
      (username : Text) (s : AppState) → held p (open_connection username s).1 ≡ held p s
  unfolding open_connection
  held-open_connection username s =
      held-unbounded_channel p
        (record s { next_connection_id = (s.next_connection_id + 1) % u64_mod })

  pub held-close_connection :
      (c : Connection) (s : AppState)
      → held p (close_connection c s) + total (one p) (buffer c.address s) ≡ held p s
  unfolding close_connection
  held-close_connection c s = held-drop_receiver p c.address s

  -- A payload drops nothing, and a round of the sending task posts nothing.
  dropped-letter :
      (env : Environment) (sender : Text) (payload : Bytes) (s : AppState)
      → dropped_by p (letter env sender payload s) s ≡ 0
  dropped-letter env sender payload s =
      elim (handle_encrypted_payload-Handled env sender payload s) [
        | inl (none_posted, same) ↦ rw none_posted refl
        | inr (to, bytes, posted, same) ↦ rw posted (elim (Bool-cases (is_lost env to bytes s)) [
          | inl lost ↦ rw lost refl
          | inr kept ↦ rw kept refl
        ])
      ]

  pub dropped-of_frame :
      (env : Environment) (sender : Text) (incoming : Incoming) (s : AppState)
      → dropped_by p (of_frame env sender s incoming) s ≡ 0
  dropped-of_frame env sender (binary bytes) s = dropped-letter env sender bytes s
  dropped-of_frame env sender _ s = refl

  pub posted-of_round :
      (address : ℕ) (accepts : Bool) (waits : List Bytes)
      → posted_by p (of_round address accepts waits) ≡ 0
  posted-of_round address true waits = refl
  posted-of_round address false [] = refl
  posted-of_round address false (_ ∷ _) = refl

  pub total-append_written :
      (sent : List Bytes) (next : Option Bytes)
      → total (one p) (append_written sent next) ≡ total (one p) sent + of_next p next
  total-append_written sent none = omega arith
  total-append_written sent (some payload) = total-snoc (one p) sent payload
