-- ===== src/Client/Endpoints.antt =====
-- client/src/server_api.rs: the addresses that the client makes from its `--server` argument.
pub mod Forms
use phantasma.Prelude.{
  ℕ, ◌-◌, Text, Bool, not, ◌&&◌, Option, none, some, Result, ok, err, [], ◌∷◌, ◌++◌, length, take,
  drop, leb, ◌==◌, nat_eq, text_eq, if◌then◌else◌,
}
use phantasma.Prelude.Str.{trim_end_matches, strip_prefix, strip_suffix}
use phantasma.Prelude.Utf8.{text, is_empty}

pub record ServerEndpoints : Type 0 where
  pub http_base_url : Text
  pub websocket_base_url : Text

pub data EndpointError : Type 0 where
  unknown_scheme : EndpointError

-- `str::trim_end_matches('/')`
abbrev pub trim_end_slashes : Text → Text
trim_end_slashes = trim_end_matches (λ c. c == b'/')

abbrev pub unwrap_or : Text → Option Text → Text
unwrap_or default none = default
unwrap_or default (some s) = s

abbrev pub endpoints : Text → Text → Text → ServerEndpoints
endpoints http ws rest = record { http_base_url = http ++ rest; websocket_base_url = ws ++ rest }

-- The tests of `from_optional_arg`, in their order.
unfoldable pub from_trimmed : Text → Result EndpointError ServerEndpoints
from_trimmed trimmed = elim (strip_prefix (text "http://") trimmed) [
  | some rest ↦ ok (endpoints (text "http://") (text "ws://") rest)
  | none ↦ elim (strip_prefix (text "https://") trimmed) [
    | some rest ↦ ok (endpoints (text "https://") (text "wss://") rest)
    | none ↦ elim (strip_prefix (text "ws://") trimmed) [
      | some rest ↦ ok (
          endpoints (text "http://") (text "ws://")
            (unwrap_or rest (strip_suffix (text "/ws") rest)))
      | none ↦ elim (strip_prefix (text "wss://") trimmed) [
        | some rest ↦ ok (
            endpoints (text "https://") (text "wss://")
              (unwrap_or rest (strip_suffix (text "/ws") rest)))
        | none ↦ err unknown_scheme
      ]
    ]
  ]
]

unfoldable pub from_optional_arg : Option Text → Result EndpointError ServerEndpoints
from_optional_arg arg =
    from_trimmed (trim_end_slashes (unwrap_or (text "http://127.0.0.1:3000") arg))

unfoldable pub websocket_url : ServerEndpoints → Text → Text
websocket_url e username = e.websocket_base_url ++ text "/ws/" ++ username
