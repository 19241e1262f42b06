-- ===== src/Tests/Web/Crates.antt =====
-- Concrete versions of the crates between a client and the handlers of the relay.
use phantasma.Prelude.{
  ◌≡◌, refl, sym, ap, ◌∙◌, Text, Bytes, Option, none, some, List, [], ◌∷◌, ◌++◌, arith, Result, ok,
  err, text_eq, nat_eq, ◌==◌, if◌then◌else◌, take-length, drop-length, string_eq,
}
use mathlib.Core.List.{append_assoc}
use phantasma.Prelude.Str.{strip_prefix, strip_suffix}
use phantasma.Prelude.Str.Laws.{strip_prefix-append, strip_suffix-append}
use phantasma.Prelude.Utf8.{text}
use phantasma.Shared.Codec.{Codec, JsonError, syntax, IsLawful}
use phantasma.Shared.Registration.{PublicKeyRegistration, PublicKeyEntry}
use phantasma.Server.Router.{Axum, patterns}
use phantasma.Server.Router.Answers.{IsRouter, key_path}
use phantasma.Shared.Validation.{}
use phantasma.Tests.Session.{url}
use phantasma.Web.{Web, IsWeb, ReadsUrls}
use phantasma.Tests.Codecs.{field, first, behind, first-field_last}

abbrev pub triple : Text → Text → Text → Bytes
triple a b c = field a ++ (field b ++ field c)

first-triple :
    (a b c : Text)
    → (first (triple a b c) ≡ a)
      × (first (behind (triple a b c)) ≡ b)
      × (first (behind (behind (triple a b c))) ≡ c)
first-triple a b c = ground (
  arith,
  take-length a (field b ++ field c),
  drop-length a (field b ++ field c),
  take-length b (field c),
  drop-length b (field c),
  first-field_last c,
)

abbrev pub read_entry : Bytes → Result JsonError PublicKeyEntry
read_entry [] = err syntax
read_entry (n ∷ b) = ok (record {
  username = first (n ∷ b);
  identity_public_key = first (behind (n ∷ b));
  encryption_public_key = first (behind (behind (n ∷ b)));
})

abbrev pub write_entry : PublicKeyEntry → Bytes
write_entry e = triple e.username e.identity_public_key e.encryption_public_key

abbrev pub entry : Codec PublicKeyEntry
entry = record { to_vec = λ e. ok (write_entry e); from_slice = read_entry }

abbrev pub read_registration : Bytes → Result JsonError PublicKeyRegistration
read_registration b = ok (record {
  username = first b;
  identity_public_key = first (behind b);
  encryption_public_key = first (behind (behind b));
})

abbrev pub write_registration : PublicKeyRegistration → Bytes
write_registration r = triple r.username r.identity_public_key r.encryption_public_key

abbrev pub registration : Codec PublicKeyRegistration
registration = record { to_vec = λ r. ok (write_registration r); from_slice = read_registration }

entry-IsLawful : IsLawful entry
entry-IsLawful = record {
  total = λ e. (write_entry e, refl);
  round_trip = λ e bytes w.
      let same : write_entry e ≡ bytes = ground arith in
      rw (← same)
        (ground (arith, first-triple e.username e.identity_public_key e.encryption_public_key));
}

registration-IsLawful : IsLawful registration
registration-IsLawful = record {
  total = λ r. (write_registration r, refl);
  round_trip = λ r bytes w.
      let same : write_registration r ≡ bytes = ground arith in
      rw (← same)
        (ground (arith, first-triple r.username r.identity_public_key r.encryption_public_key));
}

-- The name between a prefix and a suffix.
unfoldable pub named : Text → Text → Text → Option Text
named prefix suffix path = elim (strip_prefix prefix path) [
  | none ↦ none
  | some rest ↦ strip_suffix suffix rest
]

abbrev pub under : Text → Option Text → Option (Text × List Text)
under pattern none = none
under pattern (some name) = some (pattern, name ∷ [])

abbrev pub first_of :
    Option (Text × List Text) → Option (Text × List Text) → Option (Text × List Text)
first_of none second = second
first_of (some found) second = some found

unfoldable pub matched : List Text → Text → Option (Text × List Text)
matched ps path =
    first_of
      (under (text "/users/{username}/public-key")
        (named (text "/users/") (text "/public-key") path))
      (first_of (under (text "/ws/{username}") (strip_prefix (text "/ws/") path))
        (if path == text "/users" then some (text "/users", []) else none))

named-append :
    (prefix name suffix : Text) → named prefix suffix (prefix ++ name ++ suffix) ≡ some name
unfolding named
named-append prefix name suffix =
    rw (append_assoc prefix name suffix, named, strip_prefix-append prefix (name ++ suffix))
      (strip_suffix-append name suffix)

abbrev pub axum : Axum
axum = record {
  matched = matched;
  registration = registration;
  entry = entry;
  refusal = λ request. none;
  bad_body = λ e. record { status = 422; body = [] };
  bad_captures = record { status = 500; body = [] };
  bad_response = λ e. record { status = 500; body = [] };
}

matched-key_path :
    (ps : List Text) (name : Text)
    → matched ps (key_path name) ≡ some (text "/users/{username}/public-key", name ∷ [])
unfolding matched
matched-key_path ps name =
    rw (matched, named-append (text "/users/") name (text "/public-key")) refl

axum-IsRouter : IsRouter axum
unfolding matched named strip_prefix strip_suffix nat_eq text_eq
axum-IsRouter = record {
  users = refl;
  public_key = λ name s. matched-key_path patterns name;
  websocket = λ name s. refl;
  short = refl;
  two = refl;
}

abbrev pub base : Text
base = text "http://relay"

-- The segments `.` and `..` are taken away.
abbrev pub resolved : Text → Text
resolved path =
    if path == key_path (text ".")
    then text "/users/public-key"
    else if path == key_path (text "..")
    then text "/public-key"
    else path

abbrev pub resolved_in : Text → Option Text → Text
resolved_in whole none = whole
resolved_in whole (some path) = resolved path

unfoldable pub url_path : Text → Text
url_path url = resolved_in url (strip_prefix base url)

url_path-append : (path : Text) → url_path (base ++ path) ≡ resolved path
unfolding url_path
url_path-append path = rw (url_path, strip_prefix-append base path) refl

-- Different names have different paths.
name-key_path : (a b : Text) → key_path a ≡ key_path b → a ≡ b
name-key_path a b e =
    let found = ap (matched []) e in
    let same : some (text "/users/{username}/public-key", a ∷ [])
        ≡ some (text "/users/{username}/public-key", b ∷ []) =
      sym (matched-key_path [] a) ∙ found ∙ matched-key_path [] b in
    ground (arith, same)

url_path-ReadsUrls : ReadsUrls url_path base
unfolding url_path strip_prefix nat_eq text_eq
url_path-ReadsUrls = record {
  users = refl;
  plain = λ name v this parent.
      url_path-append (key_path name)
      ∙ ground (arith, name-key_path name (text "."), name-key_path name (text ".."));
  this = refl;
  parent = refl;
}

abbrev pub web : Web
web = record { axum = axum; url_path = url_path; read_text = λ bytes. some bytes }

pub web-IsWeb : IsWeb web base
web-IsWeb = record {
  router = axum-IsRouter;
  entry = entry-IsLawful;
  registration = registration-IsLawful;
  urls = url_path-ReadsUrls;
}
