-- ===== src/Server/System/Recipients.antt =====
-- Who can be sent a message: only the connections of the user that it names.
use phantasma.Prelude.{
  ℕ, ◌≡◌, ◌≢◌, refl, sym, ◌∙◌, ap, Text, Bytes, false, some, arith, ok, get_elem?, ◌==◌, nat_eq,
  text_eq, Option-cases, inl, inr,
}
use phantasma.Prelude.Dict
use phantasma.Shared.Routed
use phantasma.Shared.Routed.{RoutedEncryptedMessage}
use phantasma.Server.State.{Environment, ActiveClient}
use phantasma.Server.State.Channels.{buffer}
use phantasma.Server.Payload.{handle_encrypted_payload}
use phantasma.Server.Payload.Frame.{handle_encrypted_payload-AfterPayload}
use phantasma.Server.Payload.Routing.{address_is, buffer-relay_or_queue_ne}
use phantasma.Server.System.{Session, World}
use phantasma.Server.System.Invariant.{EntryOk, Inv}

module _ (env : Environment) (w : World) (inv : Inv w) (j : ℕ) (y : Session)
    (at_j : get_elem? w.sessions j ≡ some y) where
  not_address :
      (to : Text)
      → y.connection.username ≢ to
      → address_is (Dict.get to w.app.active_clients) j ≡ false
  not_address to ne = elim (Option-cases (Dict.get to w.app.active_clients)) [
    | inl e ↦ rw e
    | inr (client, e) ↦ rw e (sender_ne client (inv.entry_ok to client e))
  ]
    where
      sender_ne :
          (client : ActiveClient) → EntryOk w.sessions to client → (client.sender == j) ≡ false
      sender_ne client entry = elim (nat_eq.dec client.sender j) [
        | yes p ↦
            let same : entry.session ≡ y = ground (arith, at_j, entry.found, p) in
            absurd (ne (ap (λ (t : Session). t.connection.username) (sym same) ∙ entry.own_name))
        | no p ↦ ground arith
      ]

  -- In a world with the invariant of runs, a payload from any sender changes no channel of a
  -- session whose user is not the recipient that the payload names.
  pub handle_encrypted_payload-only_recipient :
      (sender : Text) (payload : Bytes)
      → ((routed : RoutedEncryptedMessage)
          → Routed.from_wire_bytes env.routed payload ≡ ok routed
          → y.connection.username ≢ routed.to)
      → buffer j (handle_encrypted_payload env sender payload w.app).1 ≡ buffer j w.app
  handle_encrypted_payload-only_recipient sender payload ne =
      elim (handle_encrypted_payload-AfterPayload env sender payload w.app) [
        | inl e ↦ rw e (unfold buffer in refl)
        | inr (routed, bytes, reads, e) ↦ rw e (
            buffer-relay_or_queue_ne env routed.to bytes _ j w.app
              (not_address routed.to (ne routed reads)))
      ]
