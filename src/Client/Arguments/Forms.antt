-- ===== src/Client/Arguments/Forms.antt =====
-- Every way to write the options down.
use phantasma.Prelude.{
  Text, Bool, true, false, Option, none, some, List, [], ◌∷◌, ◌++◌, ok, ◌≡◌, refl, arith, nat_eq,
  text_eq, if◌then◌else◌, All, ap, sym,
}
use mathlib.Core.List.{append_assoc, append-nil}
use phantasma.Prelude.Utf8.{text}
use phantasma.Client.Arguments.{
  Given, kind, plain, is_dashed, pushed, scan, finish, nothing_given, read_args,
}

-- An option with its value, in the long or the short form, or a positional argument.
pub data Item : Type 0 where
  username_is : Bool → Text → Item
  server_is : Bool → Text → Item
  positional_is : Text → Item

abbrev pub written : List Item → List Text
written [] = []
written (username_is long v ∷ items) =
    (if long then text "--username" else text "-u") ∷ v ∷ written items
written (server_is long v ∷ items) =
    (if long then text "--server" else text "-s") ∷ v ∷ written items
written (positional_is v ∷ items) = v ∷ written items

-- A positional argument does not begin with a dash; a value may.
abbrev pub IsWritable : Item → Type 0
IsWritable (positional_is v) = is_dashed v ≡ false
IsWritable _ = Unit

-- The value given last, if one was given.
abbrev pub or_else : Option Text → Option Text → Option Text
or_else none earlier = earlier
or_else (some v) earlier = some v

abbrev pub last_username : List Item → Option Text
last_username [] = none
last_username (username_is long v ∷ items) = or_else (last_username items) (some v)
last_username (_ ∷ items) = last_username items

abbrev pub last_server : List Item → Option Text
last_server [] = none
last_server (server_is long v ∷ items) = or_else (last_server items) (some v)
last_server (_ ∷ items) = last_server items

abbrev pub positionals : List Item → List Text
positionals [] = []
positionals (positional_is v ∷ items) = v ∷ positionals items
positionals (_ ∷ items) = positionals items

abbrev after : List Item → Given → Given
after items g = record {
  name = or_else (last_username items) g.name;
  server = or_else (last_server items) g.server;
  positional = g.positional ++ positionals items;
}

kind-plain : (arg : Text) → is_dashed arg ≡ false → kind arg ≡ plain
unfolding kind text_eq
kind-plain [] h = refl
kind-plain (c ∷ s) h = ground arith

scan-plain :
    (arg : Text) (rest : List Text) (g : Given)
    → is_dashed arg ≡ false
    → scan (arg ∷ rest) g ≡ scan rest (pushed arg g)
unfolding scan
scan-plain arg [] g h = rw (scan, kind-plain arg h)
scan-plain arg (value ∷ rest) g h = rw (scan, kind-plain arg h)

scan-username :
    (long : Bool) (v : Text) (rest : List Text) (g : Given)
    → scan ((if long then text "--username" else text "-u") ∷ v ∷ rest) g
      ≡ scan rest (record g { name = some v })
unfolding scan kind text_eq
scan-username true v rest g = refl
scan-username false v rest g = refl

scan-server :
    (long : Bool) (v : Text) (rest : List Text) (g : Given)
    → scan ((if long then text "--server" else text "-s") ∷ v ∷ rest) g
      ≡ scan rest (record g { server = some v })
unfolding scan kind text_eq
scan-server true v rest g = refl
scan-server false v rest g = refl

or_else_assoc : (x y z : Option Text) → or_else x (or_else y z) ≡ or_else (or_else x y) z
or_else_assoc none y z = refl
or_else_assoc (some x) y z = refl

or_else-none : (x : Option Text) → or_else x none ≡ x
or_else-none none = refl
or_else-none (some x) = refl

scan-help : (tail : List Text) (g : Given) → scan (text "--help" ∷ tail) g ≡ ok none
unfolding scan kind text_eq
scan-help [] g = refl
scan-help (_ ∷ _) g = refl

scan-written :
    (items : List Item)
    → All IsWritable items
    → (tail : List Text) (g : Given) → scan (written items ++ tail) g ≡ scan tail (after items g)
scan-written [] h tail g =
    ap (λ ps. scan tail (record g { positional = ps })) (sym (append-nil g.positional))
scan-written (username_is long v ∷ items) h tail g = rw (
  scan-username long v (written items ++ tail) g,
  scan-written items h.1 tail (record g { name = some v }),
  sym (or_else_assoc (last_username items) (some v) g.name),
)
scan-written (server_is long v ∷ items) h tail g = rw (
  scan-server long v (written items ++ tail) g,
  scan-written items h.1 tail (record g { server = some v }),
  sym (or_else_assoc (last_server items) (some v) g.server),
)
scan-written (positional_is v ∷ items) h tail g = rw (
  scan-plain v (written items ++ tail) g h.0,
  scan-written items h.1 tail (pushed v g),
  append_assoc g.positional (v ∷ []) (positionals items),
)

-- Whichever way the options are written (long or short, each before, between or after the
-- positional arguments, none of which begins with a dash), the loop reads the last value of each
-- option and the positional arguments in order, and goes on with these; and `--help` after them
-- ends the program without an error, whatever follows.
pub read_args-written :
    (items : List Item)
    → All IsWritable items
    → (read_args (written items)
        ≡ finish (record {
          name = last_username items;
          server = last_server items;
          positional = positionals items;
        }))
      × ((tail : List Text) → read_args (written items ++ text "--help" ∷ tail) ≡ ok none)
unfolding read_args scan
read_args-written items h = (
  rw (
    sym (append-nil (written items)),
    scan-written items h [] nothing_given,
    scan,
    or_else-none (last_username items),
    or_else-none (last_server items),
  ),
  λ tail. rw (scan-written items h (text "--help" ∷ tail) nothing_given, scan-help tail),
)
