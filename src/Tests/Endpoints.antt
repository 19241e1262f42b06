-- ===== src/Tests/Endpoints.antt =====
-- The forms of a server's name at concrete data.
use phantasma.Prelude.{Text, some, ok, ◌≡◌, refl, ◌++◌, nat_eq}
use phantasma.Prelude.Str.{trim_end_matches}
use phantasma.Prelude.Utf8.{text}
use phantasma.Client.Endpoints.{endpoints, trim_end_slashes, from_optional_arg}
use phantasma.Client.Endpoints.Forms.{from_optional_arg_forms}

abbrev host : Text
host = text "chat.example:3000"

host-trimmed : trim_end_slashes host ≡ host
unfolding trim_end_matches nat_eq
host-trimmed = refl

from_optional_arg_forms_example :
    (from_optional_arg (some (text "http://" ++ host))
      ≡ ok (endpoints (text "http://") (text "ws://") host))
    × (from_optional_arg (some (text "ws://" ++ (host ++ text "/ws")))
        ≡ ok (endpoints (text "http://") (text "ws://") host))
    × (from_optional_arg (some (text "https://" ++ host))
        ≡ ok (endpoints (text "https://") (text "wss://") host))
    × (from_optional_arg (some (text "wss://" ++ (host ++ text "/ws")))
        ≡ ok (endpoints (text "https://") (text "wss://") host))
from_optional_arg_forms_example = from_optional_arg_forms host refl host-trimmed
