-- ===== src/Tests/Session.antt =====
-- A session of bob's client: he types, messages arrive, and the connection is lost.
use phantasma.Prelude.{
  zero, suc, ◌≤◌, Text, Bytes, false, some, none, ok, err, List, ◌≡◌, refl, arith, ◌++◌, ◌∷◌, [],
  ◌⊎◌, nat_eq, text_eq, all, ℕ, ap, arith, inr,
}
use phantasma.Prelude.Utf8.{text, len, len_utf8, is_ascii_alphanumeric}
use phantasma.Prelude.Str.{is_whitespace, trim_start, trim_end_matches, trim}
use phantasma.Shared.Validation.{is_valid_username, is_username_char}
use phantasma.Client.Identity.{Identity}
use phantasma.Client.Directory.{Outside, ClientError, unreachable}
use phantasma.Client.Commands.{Event, typed, closed, binary, go_on, stop, run, connect_with_retry}
use phantasma.Client.Commands.Reconnect.{connect_with_retry-connects}
use phantasma.Client.Commands.Loop.{EndsNothing, run-goes_on}
use phantasma.Client.Commands.Saved.{run-ends_at_add}
use phantasma.Client.Startup.{Process, main}
use phantasma.Client.Startup.Registered.{Refuses, main-refused}
use phantasma.Tests.Codecs.{plaintext, encrypted, routed}
use phantasma.Tests.Client.{toy, padded, everybody, client_of_bob, alice_entry}
use phantasma.Tests.Identity.{ed25519, format}

abbrev bob : Text
bob = text "bob"

abbrev pub identity : Identity
identity = record {
  identity_public_key = [];
  encryption_public_key = 9 ∷ padded 31 [];
  encryption_secret_key = 9 ∷ [];
  path = [];
  was_created = false;
}

abbrev nonce : Bytes
nonce = padded 24 []

abbrev pub url : Text
url = text "ws://relay/ws/bob"

-- A server that cannot be reached the first two times.
abbrev slow : Outside
slow = record everybody {
  connect_fault =
      λ n url. elim n [ zero ↦ some "no" | suc m ↦ elim m [ zero ↦ some "no" | suc k ↦ none ] ];
}

connect_with_retry-connects_example :
    let (r, s') = connect_with_retry slow url 5 client_of_bob in (r ≡ ok go_on) × (s'.attempts ≤ 3)
connect_with_retry-connects_example =
    connect_with_retry-connects slow url 2 5 client_of_bob refl (omega arith)

abbrev pub events : List Event
events =
    typed (text " /help") nonce
    ∷ binary (1 ∷ 2 ∷ [])
    ∷ closed
    ∷ typed (text "/send alice hi") nonce
    ∷ []

abbrev later : List Event
later = typed (text "/quit") nonce ∷ []

abbrev second : Text → ℕ
second (a ∷ b ∷ rest) = b
second _ = 0

help_line : EndsNothing (text " /help")
unfolding trim trim_start trim_end_matches is_whitespace nat_eq
help_line = record {
  not_quit = λ e. omega (arith, ap second e);
  not_add = λ rest e. omega (arith, ap second e);
  not_lookup = λ rest e. cc;
}

send_line : EndsNothing (text "/send alice hi")
unfolding trim trim_start trim_end_matches is_whitespace nat_eq
send_line = record {
  not_quit = λ e. omega (arith, ap second e);
  not_add = λ rest e. omega (arith, ap second e);
  not_lookup = λ rest e. cc;
}

run-goes_on_example :
    let (r, s') =
      run everybody [] toy plaintext encrypted routed bob identity url 1 events client_of_bob in
    (r ≡ ok go_on)
    × (run everybody [] toy plaintext encrypted routed bob identity url 1
          (events ++ later)
          client_of_bob
        ≡ run everybody [] toy plaintext encrypted routed bob identity url 1 later s')
run-goes_on_example =
    run-goes_on everybody [] toy plaintext encrypted routed bob identity url 1 events later
      client_of_bob (λ a. (0, omega arith, refl)) (help_line, (tt, (tt, (send_line, tt))))

-- Nobody answers.
abbrev nowhere : Outside
nowhere = record everybody { get_request = λ n url. err "no route" }

run-ends_at_add_example :
    run nowhere [] toy plaintext encrypted routed bob identity url 1
      (typed (text "/add carol") nonce ∷ later)
      client_of_bob
    ≡ (err (unreachable "no route"), record client_of_bob { requests = 1 })
unfolding is_valid_username len len_utf8 all is_username_char is_ascii_alphanumeric nat_eq
run-ends_at_add_example =
    run-ends_at_add nowhere [] toy plaintext encrypted routed bob identity url 1 (text "carol")
      nonce "no route" later client_of_bob refl refl

-- A server whose database fails.
abbrev taken : Outside
taken = record everybody {
  post_request =
      λ n url registration. ok (record { status = 500; body = none; json = ok alice_entry });
}

taken-Refuses : Refuses taken
taken-Refuses n _ registration response e = inr (ground arith)

abbrev process : Process
process = record { var_os = λ name. some (text "home"); current_dir = err "no directory" }

abbrev args : List Text
args = text "bob" ∷ []

main-refused_example :
    let (r, s') =
      main taken process ed25519 format toy plaintext encrypted routed args 1 later client_of_bob in
    ((r ≡ ok stop) ⊎ ((e : ClientError) × (r ≡ err e))) × (s'.attempts ≡ 0) × (s'.sent ≡ [])
main-refused_example =
    main-refused taken process ed25519 format toy plaintext encrypted routed taken-Refuses args 1
      later client_of_bob
