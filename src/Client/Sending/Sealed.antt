-- ===== src/Client/Sending/Sealed.antt =====
-- What a line that a user types after `/send` becomes on its way to the other user.
use phantasma.Prelude.{
  Result, Text, Bytes, true, some, none, ok, ◌≡◌, refl, ap, ◌++◌, ◌∷◌, [], nat_eq, text_eq, length,
  ◌<◌, ◌^◌,
}
use phantasma.Prelude.Dict
use phantasma.Shared.Codec as Codec
use phantasma.Shared.Codec.{Codec}
use phantasma.Shared.Plaintext as Plaintext
use phantasma.Shared.Plaintext.{PlaintextChatMessage}
use phantasma.Shared.Routed as Routed
use phantasma.Shared.Routed.{RoutedEncryptedMessage}
use phantasma.Shared.Registration.{PublicKeyEntry}
use phantasma.Shared.Validation.{is_valid_username}
use phantasma.Server.State.{Environment}
use phantasma.Server.Payload.Routing.{IsAccepted}
use phantasma.Client.Crypto as Crypto
use phantasma.Client.Crypto.{Primitives}
use phantasma.Client.Identity.{Identity}
use phantasma.Client.Directory.{Outside, ClientState, ClientError, received}
use phantasma.Client.Messages.{receive_message}
use phantasma.Client.Messages.Received.{receive_message-encrypt_message}
use phantasma.Client.Sending.{send_message}
use phantasma.Client.Sending.Typed.{IsTrimmed, send_message-typed}

-- The keys of an identity belong together.
pub record HasKeys (p : Primitives) (secret : Bytes) (identity : Identity) : Type 0 where
  pub secret_key : identity.encryption_secret_key ≡ secret
  pub public_key : identity.encryption_public_key ≡ p.encode (p.public_key secret)

-- A client has saved the key of a user.
pub record Knows (p : Primitives) (name : Text) (secret : Bytes) (s : ClientState) : Type 0 where
  pub entry : PublicKeyEntry
  pub saved : Dict.get name s.book.contacts ≡ some entry
  pub own_key : entry.encryption_public_key ≡ p.encode (p.public_key secret)

module _ (env : Environment) (p : Primitives) (laws : Crypto.IsLawful p)
    (plaintext : Codec PlaintextChatMessage) (plaintext_laws : Codec.IsLawful plaintext)
    (routed_laws : Codec.IsLawful env.routed) (encrypted_laws : Codec.IsLawful env.encrypted)
    (sending receiving : Outside) (sending_url receiving_url : Text) where
  module _ (sender recipient body : Text) (a b nonce wire : Bytes) (ours theirs : Identity)
      (s t : ClientState) (our_keys : HasKeys p a ours) (their_keys : HasKeys p b theirs)
      (to : Knows p recipient b s) (from : Knows p sender a t)
      (valid : is_valid_username recipient ≡ true) (typed : IsTrimmed body) (n : length nonce ≡ 24)
      (plain : plaintext.to_vec (Plaintext.new sender recipient body) ≡ ok wire)
      (small : length wire < 2 ^ 32) (ready : sending.socket_fault s.sends ≡ none) where
    abbrev sent_line : Result ClientError (Unit {0}) × ClientState
    sent_line =
        send_message sending sending_url p plaintext env.routed nonce sender ours
          (recipient ++ 0x20 ∷ body) s

    abbrev shown_after : Bytes → Result ClientError (Unit {0}) × ClientState
    shown_after bytes =
        receive_message receiving receiving_url p plaintext env.encrypted recipient
          theirs.encryption_secret_key theirs.encryption_public_key bytes t

    -- What the line sends, what the relay makes of it, and what the recipient sees.
    pub record Letter : Type 0 where
      pub payload : Bytes
      pub bytes : Bytes
      pub routed : RoutedEncryptedMessage
      pub addressed : routed.to ≡ recipient
      pub accepted : IsAccepted env sender payload routed bytes
      pub sends : sent_line.0 ≡ ok tt
      pub writes : sent_line.1.sent ≡ s.sent ++ payload ∷ []
      pub shows :
          shown_after bytes ≡ (ok tt, record t { output = t.output ++ received sender body ∷ [] })

    pub sealed : Letter
    sealed =
        let (e, bytes, enc, writes, shown) =
          receive_message-encrypt_message receiving receiving_url p plaintext env.encrypted laws
            plaintext_laws encrypted_laws a b nonce wire sender recipient body from.entry t n plain
            small from.saved from.own_key in
        let routed = Routed.new sender recipient e in
        let (payload, sent) = routed_laws.total routed in
        let typed_line =
          send_message-typed sending sending_url p plaintext env.routed nonce sender ours recipient
            body payload to.entry e s valid typed to.saved
            (rw (our_keys.secret_key, our_keys.public_key, to.own_key) enc)
            (unfold Routed.to_wire_bytes in sent) ready in
        record {
          payload = payload;
          bytes = bytes;
          routed = routed;
          addressed = refl;
          accepted = record {
            reads = unfold Routed.from_wire_bytes in routed_laws.round_trip routed payload sent;
            writes = writes;
            from_sender = refl;
            to_valid = valid;
          };
          sends = ap (λ x. x.0) typed_line;
          writes = ap (λ x. x.1.sent) typed_line;
          shows = rw (their_keys.secret_key, their_keys.public_key) shown;
        }
