-- ===== src/Client/Endpoints/Forms.antt =====
-- The forms in which one server can be named.
use phantasma.Prelude.{
  Text, false, some, none, ok, ◌++◌, ◌≡◌, refl, ap, ◌∙◌, arith, nat_eq, ◌==◌, text_eq,
}
use phantasma.Prelude.Str.{trim_end_matches, strip_prefix, strip_suffix}
use phantasma.Prelude.Str.Laws.{trim_end_matches-append, strip_prefix-append, strip_suffix-append}
use phantasma.Prelude.Utf8.{text, is_empty}
use phantasma.Client.Endpoints.{trim_end_slashes, endpoints, from_trimmed, from_optional_arg}

not_http : (rest : Text) → strip_prefix (text "http://") (text "https://" ++ rest) ≡ none
unfolding strip_prefix nat_eq
not_http rest = refl

not_http_of_ws :
    (rest : Text)
    → (strip_prefix (text "http://") (text "ws://" ++ rest) ≡ none)
      × (strip_prefix (text "https://") (text "ws://" ++ rest) ≡ none)
unfolding strip_prefix nat_eq
not_http_of_ws rest = (refl, refl)

not_http_of_wss :
    (rest : Text)
    → (strip_prefix (text "http://") (text "wss://" ++ rest) ≡ none)
      × (strip_prefix (text "https://") (text "wss://" ++ rest) ≡ none)
      × (strip_prefix (text "ws://") (text "wss://" ++ rest) ≡ none)
unfolding strip_prefix nat_eq
not_http_of_wss rest = (refl, refl, refl)

-- The four schemes, for a text that starts with one of them.
from_trimmed-http :
    (t rest : Text)
    → strip_prefix (text "http://") t ≡ some rest
    → from_trimmed t ≡ ok (endpoints (text "http://") (text "ws://") rest)
unfolding from_trimmed
from_trimmed-http t rest a = ground arith

from_trimmed-https :
    (t rest : Text)
    → strip_prefix (text "http://") t ≡ none
    → strip_prefix (text "https://") t ≡ some rest
    → from_trimmed t ≡ ok (endpoints (text "https://") (text "wss://") rest)
unfolding from_trimmed
from_trimmed-https t rest a b = ground arith

from_trimmed-ws :
    (t tail rest : Text)
    → (strip_prefix (text "http://") t ≡ none) × (strip_prefix (text "https://") t ≡ none)
    → strip_prefix (text "ws://") t ≡ some tail
    → strip_suffix (text "/ws") tail ≡ some rest
    → from_trimmed t ≡ ok (endpoints (text "http://") (text "ws://") rest)
unfolding from_trimmed
from_trimmed-ws t tail rest a b c = ground arith

from_trimmed-wss :
    (t tail rest : Text)
    → (strip_prefix (text "http://") t ≡ none)
      × (strip_prefix (text "https://") t ≡ none)
      × (strip_prefix (text "ws://") t ≡ none)
    → strip_prefix (text "wss://") t ≡ some tail
    → strip_suffix (text "/ws") tail ≡ some rest
    → from_trimmed t ≡ ok (endpoints (text "https://") (text "wss://") rest)
unfolding from_trimmed
from_trimmed-wss t tail rest a b c = ground arith

module _ (rest : Text) (full : is_empty rest ≡ false) (trimmed : trim_end_slashes rest ≡ rest) where
  trim-scheme : (scheme : Text) → trim_end_slashes (scheme ++ rest) ≡ scheme ++ rest
  trim-scheme scheme = ground (arith, trim_end_matches-append (λ c. c == b'/') scheme rest)

  trim-ws :
      (scheme : Text)
      → trim_end_slashes (scheme ++ (rest ++ text "/ws")) ≡ scheme ++ (rest ++ text "/ws")
  unfolding trim_end_matches nat_eq
  trim-ws scheme =
      let t = trim_end_matches-append (λ c. c == b'/') rest (text "/ws") refl in
      ground (arith, t, trim_end_matches-append (λ c. c == b'/') scheme (rest ++ text "/ws"))

  -- For a server name that is not empty and does not end in a slash, the `http` form and the `ws`
  -- form with `/ws` behind it give the same addresses, and so do the `https` and the `wss` form.
  pub from_optional_arg_forms :
      (from_optional_arg (some (text "http://" ++ rest))
        ≡ ok (endpoints (text "http://") (text "ws://") rest))
      × (from_optional_arg (some (text "ws://" ++ (rest ++ text "/ws")))
          ≡ ok (endpoints (text "http://") (text "ws://") rest))
      × (from_optional_arg (some (text "https://" ++ rest))
          ≡ ok (endpoints (text "https://") (text "wss://") rest))
      × (from_optional_arg (some (text "wss://" ++ (rest ++ text "/ws")))
          ≡ ok (endpoints (text "https://") (text "wss://") rest))
  unfolding from_optional_arg
  from_optional_arg_forms =
      let tail = rest ++ text "/ws" in
      let suffix = strip_suffix-append rest (text "/ws") in
      (
        ap from_trimmed (trim-scheme (text "http://"))
            ∙ from_trimmed-http _ rest (strip_prefix-append (text "http://") rest),
        ap from_trimmed (trim-ws (text "ws://"))
            ∙ from_trimmed-ws _ tail rest (not_http_of_ws tail)
                (strip_prefix-append (text "ws://") tail) suffix,
        ap from_trimmed (trim-scheme (text "https://"))
            ∙ from_trimmed-https _ rest (not_http rest)
                (strip_prefix-append (text "https://") rest),
        ap from_trimmed (trim-ws (text "wss://"))
            ∙ from_trimmed-wss _ tail rest (not_http_of_wss tail)
                (strip_prefix-append (text "wss://") tail) suffix,
      )
