-- ===== src/Tests/EndToEnd.antt =====
-- Alice types a line, and bob reads it.
use phantasma.Prelude.{
  ℕ, Text, Bytes, true, false, false, ok, ◌≡◌, refl, arith, ◌++◌, ◌∷◌, [], ◌==◌, nat_eq, text_eq,
  all, if◌then◌else◌,
}
use phantasma.Prelude.Dict
use phantasma.Prelude.Utf8.{text, len, len_utf8, is_ascii_alphanumeric}
use phantasma.Prelude.Str.{is_whitespace, trim_start, trim_end_matches}
use phantasma.Shared.Plaintext as Plaintext
use phantasma.Shared.Validation.{is_valid_username, is_username_char}
use phantasma.Shared.Registration.{PublicKeyEntry}
use phantasma.Server.State.Channels.{buffer}
use phantasma.Server.Payload.{handle_encrypted_payload}
use phantasma.Client.Identity.{Identity}
use phantasma.Client.Directory.{ClientState, received}
use phantasma.Client.Messages.{receive_message}
use phantasma.Client.Sending.{send_message}
use phantasma.Client.Sending.Typed.{IsTrimmed}
use phantasma.Client.Sending.Sealed.{Knows}
use phantasma.Client.Sending.EndToEnd.{send_message-reaches, send_message-waits}
use phantasma.Tests.Codecs.{
  plaintext, plaintext-IsLawful, write_plaintext, routed, routed-IsLawful, encrypted,
  encrypted-IsLawful,
}
use phantasma.Server.State.{AppState}
use phantasma.Server.Directory.Queue.Contents.{waiting}
use phantasma.Server.Delivery.Outcome.{payloads}
use phantasma.Server.Payload.Routing.{reachable}
use phantasma.Server.System.StoreForward.{connection_of, connect_and_deliver}
use phantasma.Tests.Tables.{alice, bob, tables-IsSound}
use phantasma.Tests.Relay.{env, online, bob_online, bob_live}
use phantasma.Tests.Client.{
  toy, toy-IsLawful, padded, everybody, client_of_bob, alice_entry, entry_with,
}

abbrev identity_of : ℕ → Text → Identity
identity_of n path = record {
  identity_public_key = [];
  encryption_public_key = n ∷ padded 31 [];
  encryption_secret_key = n ∷ [];
  path = path;
  was_created = false;
}

abbrev bob_entry : PublicKeyEntry
bob_entry = entry_with bob (9 ∷ padded 31 [])

abbrev client_of_alice : ClientState
client_of_alice = record client_of_bob {
  book = record { contacts = (bob, bob_entry) ∷ []; path = [] };
}

alice-Knows : Knows toy bob (9 ∷ []) client_of_alice
unfolding Dict.get text_eq
alice-Knows = record { entry = bob_entry; saved = refl; own_key = refl }

bob-Knows : Knows toy alice (5 ∷ []) client_of_bob
unfolding Dict.get text_eq
bob-Knows = record { entry = alice_entry; saved = refl; own_key = refl }

bob-is_valid : is_valid_username bob ≡ true
unfolding is_valid_username len len_utf8 all is_username_char is_ascii_alphanumeric nat_eq
bob-is_valid = refl

abbrev hello : Text
hello = text "hello bob"

hello-IsTrimmed : IsTrimmed hello
unfolding trim_start trim_end_matches is_whitespace nat_eq
hello-IsTrimmed = record { full = refl; start = refl; end = refl }

abbrev plain : Bytes
plain = write_plaintext (Plaintext.new alice bob hello)

send_message-reaches_example :
    (payload bytes : Bytes) × (let (r, s') =
        send_message everybody [] toy plaintext routed
          (padded 24 [])
          alice
          (identity_of 5 [])
          (bob ++ 0x20 ∷ hello)
          client_of_alice in
      (r ≡ ok tt) × (s'.sent ≡ payload ∷ []))
    × (let (r, w') = handle_encrypted_payload env alice payload online in
        (r ≡ ok tt)
        × ((other : ℕ)
            → buffer other w' ≡ buffer other online ++ (if 0 == other then bytes ∷ [] else [])))
    × (receive_message everybody [] toy plaintext encrypted bob
          (9 ∷ [])
          (9 ∷ padded 31 [])
          bytes
          client_of_bob
        ≡ (ok tt, record client_of_bob { output = received alice hello ∷ [] }))
send_message-reaches_example =
    send_message-reaches env toy toy-IsLawful plaintext plaintext-IsLawful routed-IsLawful
      encrypted-IsLawful everybody everybody [] [] alice bob hello (5 ∷ []) (9 ∷ []) (padded 24 [])
      plain (identity_of 5 []) (identity_of 9 []) client_of_alice client_of_bob online
      (record { connection_id = 1; sender = 0 }) (record { secret_key = refl; public_key = refl })
      (record { secret_key = refl; public_key = refl }) alice-Knows bob-Knows bob-is_valid
      hello-IsTrimmed refl refl (omega arith) refl bob_online bob_live

-- Bob is away.
abbrev away : AppState
away = record online { active_clients = [] }

bob_unreached : reachable (Dict.get bob away.active_clients) away ≡ false
unfolding Dict.get
bob_unreached = refl

send_message-waits_example :
    (payload bytes : Bytes) × (let (r, s') =
        send_message everybody [] toy plaintext routed
          (padded 24 [])
          alice
          (identity_of 5 [])
          (bob ++ 0x20 ∷ hello)
          client_of_alice in
      (r ≡ ok tt) × (s'.sent ≡ payload ∷ []))
    × ((handle_encrypted_payload env alice payload away).0 ≡ ok tt
        → let w' = (handle_encrypted_payload env alice payload away).1 in
          let w'' = connect_and_deliver env bob w' in
          (buffer (connection_of bob w').address w''
            ≡ payloads (waiting bob away.directory) ++ bytes ∷ [])
          × (waiting bob w''.directory ≡ []))
    × (receive_message everybody [] toy plaintext encrypted bob
          (9 ∷ [])
          (9 ∷ padded 31 [])
          bytes
          client_of_bob
        ≡ (ok tt, record client_of_bob { output = received alice hello ∷ [] }))
send_message-waits_example =
    send_message-waits env toy toy-IsLawful plaintext plaintext-IsLawful routed-IsLawful
      encrypted-IsLawful everybody everybody [] [] alice bob hello (5 ∷ []) (9 ∷ []) (padded 24 [])
      plain (identity_of 5 []) (identity_of 9 []) client_of_alice client_of_bob away
      (record { secret_key = refl; public_key = refl })
      (record { secret_key = refl; public_key = refl }) alice-Knows bob-Knows bob-is_valid
      hello-IsTrimmed refl refl (omega arith) refl bob_unreached tables-IsSound (λ n. refl)
