-- ===== src/Client/Contacts/Names.antt =====
-- client/src/contacts.rs: `ContactBook::names`, the keys of a `BTreeMap` in their order. The order
-- of texts is that of their UTF-8 bytes, which is that of their code points.
use phantasma.Prelude.{
  Text, Bool, true, false, List, [], ◌∷◌, ◌==◌, nat_eq, text_eq, if◌then◌else◌, leb,
}
use phantasma.Prelude.Dict.{Dict}
use phantasma.Shared.Registration.{PublicKeyEntry}
use phantasma.Client.Contacts.{ContactBook}

unfoldable pub precedes : Text → Text → Bool
precedes s [] = false
precedes [] (d ∷ t) = true
precedes (c ∷ s) (d ∷ t) = let rest = precedes s t in if c == d then rest else leb c d

unfoldable pub insert_name : Text → List Text → List Text
insert_name u [] = u ∷ []
insert_name u (v ∷ vs) =
    let rest = insert_name u vs in
    if u == v then v ∷ vs else if precedes u v then u ∷ v ∷ vs else v ∷ rest

unfoldable pub keys : Dict Text PublicKeyEntry → List Text
keys [] = []
keys ((name, entry) ∷ contacts) = insert_name name (keys contacts)

unfoldable pub names : ContactBook → List Text
names book = keys book.contacts
