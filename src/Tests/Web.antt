-- ===== src/Tests/Web.antt =====
-- A client and the relay over concrete versions of what lies between.
pub mod Crates
use phantasma.Prelude.{
  ◌≡◌, refl, sym, ap, ◌∙◌, Text, Bytes, Option, none, some, List, [], ◌∷◌, ◌++◌, arith, Result, ok,
  err, inr, text_eq, nat_eq, ◌==◌, if◌then◌else◌, take-length, drop-length, all, string_eq,
}
use mathlib.Core.List.{append_assoc}
use phantasma.Prelude.Str.{strip_prefix, strip_suffix}
use phantasma.Prelude.Str.Laws.{strip_prefix-append, strip_suffix-append}
use phantasma.Prelude.Utf8.{text}
use phantasma.Shared.Codec.{Codec, JsonError, syntax, IsLawful}
use phantasma.Shared.Registration.{PublicKeyRegistration, PublicKeyEntry}
use phantasma.Server.Router.{Axum, patterns}
use phantasma.Server.Router.Answers.{IsRouter, key_path}
use phantasma.Prelude.{String}
use phantasma.Prelude.Dict
use phantasma.Prelude.Utf8.{len, len_utf8, is_ascii_alphanumeric}
use phantasma.Shared.Validation.{
  is_valid_username, is_valid_ed25519_public_key_text, is_valid_x25519_public_key_text,
  is_username_char, is_base64url_char,
}
use phantasma.Server.State.{AppState, initial}
use phantasma.Server.Directory.Keys.Lookups.{stored_entry}
use phantasma.Server.Http.Directory.{IsValid}
use phantasma.Server.Router.{json_reply}
use phantasma.Client.Directory.{Outside, Response, key_url, register_public_key, lookup_public_key}
use phantasma.Client.Messages.{add_contact}
use phantasma.Tests.Tables.{alice, bob, tables, tables-IsReady, key_a}
use phantasma.Tests.Relay.{env}
use phantasma.Tests.Client.{everybody, client_of_bob}
use phantasma.Web.Honesty.{key_url-key_path}
use phantasma.Web.Session.{run-keeps_contact_of_relay}
use phantasma.Client.Commands.{run, parse_command, prefixed}
use phantasma.Prelude.Str.{trim, trim_start, trim_end_matches, is_whitespace}
use phantasma.Tests.Codecs.{plaintext, encrypted, routed}
use phantasma.Tests.Client.{toy, alice_entry}
use phantasma.Tests.Session.{identity, url, events}
use phantasma.Web.Answers.{post_answer-stores}
use phantasma.Web.Registered.{register_public_key-add_contact, register_public_key-dots}
use phantasma.Web.{Web, IsWeb, ReadsUrls, response_of, get_answer, post_answer}
use phantasma.Tests.Codecs.{field, first, behind, first-field_last}
use phantasma.Tests.Web.Crates.{axum, base, web, web-IsWeb}

-- The relay with ready tables.
abbrev relay : AppState
relay = initial tables

abbrev entry_of : Text → PublicKeyEntry
entry_of name = record {
  username = name;
  identity_public_key = key_a;
  encryption_public_key = key_a;
}

abbrev new : Text → PublicKeyRegistration
new name = record { username = name; identity_public_key = key_a; encryption_public_key = key_a }

abbrev answer_or_error : Option Response → Result String Response
answer_or_error none = err "not sent"
answer_or_error (some response) = ok response

-- A client of which each request reaches the relay in one state.
abbrev online_at : AppState → Outside
online_at s = record everybody {
  get_request = λ n url. ok (get_answer env web url s).0;
  post_request = λ n url r. answer_or_error (post_answer env web url r s).0;
}

run-keeps_contact_of_relay_example :
    Dict.get alice
      (run
        (online_at relay)
        base
        toy
        plaintext
        encrypted
        routed
        bob
        identity
        url
        1
        events
        client_of_bob).1.book.contacts
    ≡ some alice_entry
unfolding Dict.get parse_command prefixed trim trim_start trim_end_matches is_whitespace
    strip_prefix nat_eq text_eq
run-keeps_contact_of_relay_example =
    run-keeps_contact_of_relay env web (λ n. relay) (online_at relay) base toy plaintext encrypted
      routed bob identity url alice alice_entry 1 events client_of_bob web-IsWeb
      (λ n url response e. ground arith) ((λ e. cc), (tt, (tt, ((λ e. cc), tt)))) refl

-- Where alice registers, and where bob then looks for the keys.
abbrev after : Text → AppState
after name = (post_answer env web (base ++ text "/users") (new name) relay).1

new-IsValid : IsValid (new alice)
unfolding is_valid_username is_valid_ed25519_public_key_text is_valid_x25519_public_key_text len
    len_utf8 all is_username_char is_base64url_char is_ascii_alphanumeric nat_eq
new-IsValid = record { username = refl; identity = refl; encryption = refl }

dots-IsValid : IsValid (new (text ".."))
unfolding is_valid_username is_valid_ed25519_public_key_text is_valid_x25519_public_key_text len
    len_utf8 all is_username_char is_base64url_char is_ascii_alphanumeric nat_eq
dots-IsValid = record { username = refl; identity = refl; encryption = refl }

-- Bob asks the relay in that state.
got :
    (name : Text)
    → (online_at (after name)).get_request 0 (key_url (online_at (after name)) base name)
      ≡ ok (get_answer env web (base ++ key_path name) (after name)).0
got name =
    ap (λ url. (online_at (after name)).get_request 0 url)
      (key_url-key_path (online_at (after name)) base name)

abbrev answer : Text → Response
answer name = response_of env web (json_reply env axum 201 (entry_of name))

module _ (name : Text) (v : IsValid (new name)) where
  posted : (post_answer env web (base ++ text "/users") (new name) relay).0 ≡ some (answer name)
  posted = (post_answer-stores env web base web-IsWeb relay (new name) v tables-IsReady refl).0

  sent : (online_at relay).post_request 0 (base ++ text "/users") (new name) ≡ ok (answer name)
  sent = ap answer_or_error posted

register_public_key-add_contact_example :
    (register_public_key (online_at relay) base alice key_a key_a client_of_bob
      ≡ (ok tt, record client_of_bob { requests = 1 }))
    × (Dict.get alice
          (add_contact (online_at (after alice)) base alice client_of_bob).1.book.contacts
        ≡ some (entry_of alice))
register_public_key-add_contact_example =
    register_public_key-add_contact env web base relay (online_at relay) (online_at (after alice))
      client_of_bob client_of_bob alice key_a key_a (answer alice) web-IsWeb new-IsValid
      tables-IsReady (λ n. refl) (λ e. cc) (λ e. cc) (posted alice new-IsValid)
      (sent alice new-IsValid) (got alice)

abbrev dots : Text
dots = text ".."

register_public_key-dots_example :
    (register_public_key (online_at relay) base dots key_a key_a client_of_bob
      ≡ (ok tt, record client_of_bob { requests = 1 }))
    × (stored_entry dots (after dots).directory ≡ some (entry_of dots))
    × (lookup_public_key (online_at (after dots)) base dots client_of_bob
        ≡ (ok none, record client_of_bob { requests = 1 }))
register_public_key-dots_example =
    register_public_key-dots env web base relay (online_at relay) (online_at (after dots))
      client_of_bob client_of_bob dots key_a key_a (answer dots) web-IsWeb dots-IsValid
      tables-IsReady (λ n. refl) (inr refl) (posted dots dots-IsValid) (sent dots dots-IsValid)
      (got dots)
