-- ===== src/Client/Arguments.antt =====
-- client/src/main.rs: `read_args`.
pub mod Forms
use phantasma.Prelude.{
  Text, String, Bool, true, false, not, ◌||◌, Option, none, some, List, [], ◌∷◌, ◌++◌, Result, ok,
  err, map_err, ◌==◌, nat_eq, text_eq, if◌then◌else◌,
}
use phantasma.Prelude.Fallible.{◌>>=◌, ok_or}
use phantasma.Prelude.Utf8.{text}
use phantasma.Client.Endpoints.{ServerEndpoints, EndpointError, from_optional_arg}

pub data ArgsError : Type 0 where
  needs_value : String → ArgsError
  unknown_option : Text → ArgsError
  too_many_arguments username_required : ArgsError
  bad_server : EndpointError → ArgsError

-- The variables of the loop.
pub record Given : Type 0 where
  pub name : Option Text
  pub server : Option Text
  pub positional : List Text

pub data ArgKind : Type 0 where
  help username server unknown plain : ArgKind

abbrev pub is_dashed : Text → Bool
is_dashed [] = false
is_dashed (c ∷ s) = c == b'-'

unfoldable pub kind : Text → ArgKind
kind arg =
    if arg == text "--help" || arg == text "-h"
    then help
    else if arg == text "--username" || arg == text "-u"
    then username
    else if arg == text "--server" || arg == text "-s"
    then server
    else if is_dashed arg
    then unknown
    else plain

-- `positional.push(arg)`
abbrev pub pushed : Text → Given → Given
pushed arg g = record g { positional = g.positional ++ arg ∷ [] }

-- The loop over the arguments; `none` after `--help`.
unfoldable pub scan : List Text → Given → Result ArgsError (Option Given)
scan [] g = ok (some g)
scan (arg ∷ []) g = elim (kind arg) [
  | help ↦ ok none
  | username ↦ err (needs_value "--username")
  | server ↦ err (needs_value "--server")
  | unknown ↦ err (unknown_option arg)
  | plain ↦ ok (some (pushed arg g))
]
scan (arg ∷ value ∷ rest) g = elim (kind arg) [
  | help ↦ ok none
  | username ↦ scan rest (record g { name = some value })
  | server ↦ scan rest (record g { server = some value })
  | unknown ↦ err (unknown_option arg)
  | plain ↦ scan (value ∷ rest) (pushed arg g)
]

-- `positional.remove(0)` where an option was not given.
abbrev pub filled : Option Text → List Text → Option Text × List Text
filled (some v) positional = (some v, positional)
filled none [] = (none, [])
filled none (v ∷ positional) = (some v, positional)

abbrev pub is_nil : List Text → Bool
is_nil [] = true
is_nil (_ ∷ _) = false

-- What follows the loop.
unfoldable pub finish : Given → Result ArgsError (Option (Text × ServerEndpoints))
finish g =
    let (name, left) = filled g.name g.positional in
    let (server_arg, over) = filled g.server left in
    if not (is_nil over) then err too_many_arguments else (do
      given_name ← ok_or username_required name
      endpoints ← map_err bad_server (from_optional_arg server_arg)
      ok (some (given_name, endpoints)))

abbrev pub nothing_given : Given
nothing_given = record { name = none; server = none; positional = [] }

abbrev pub finish_if_given : Option Given → Result ArgsError (Option (Text × ServerEndpoints))
finish_if_given none = ok none
finish_if_given (some g) = finish g

unfoldable pub read_args : List Text → Result ArgsError (Option (Text × ServerEndpoints))
read_args args = scan args nothing_given >>= finish_if_given
