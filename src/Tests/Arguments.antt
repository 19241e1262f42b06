-- ===== src/Tests/Arguments.antt =====
-- The theorem on the arguments at a concrete input.
use phantasma.Prelude.{Text, true, false, some, List, [], ◌∷◌, ◌++◌, ok, none, ◌≡◌, refl, nat_eq}
use phantasma.Prelude.Utf8.{text}
use phantasma.Client.Arguments.{read_args, finish}
use phantasma.Client.Arguments.Forms.{
  Item, server_is, username_is, positional_is, written, read_args-written,
}

abbrev items : List Item
items =
    positional_is (text "bob")
    ∷ server_is false (text "ws://relay/ws")
    ∷ username_is true (text "-x")
    ∷ username_is false (text "al")
    ∷ []

read_args-written_example :
    (read_args (written items)
      ≡ finish (record {
        name = some (text "al");
        server = some (text "ws://relay/ws");
        positional = text "bob" ∷ [];
      }))
    × ((tail : List Text) → read_args (written items ++ text "--help" ∷ tail) ≡ ok none)
unfolding nat_eq
read_args-written_example = read_args-written items (refl, (tt, (tt, (tt, tt))))
