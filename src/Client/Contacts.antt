-- ===== src/Client/Contacts.antt =====
-- client/src/contacts.rs: the contact book, in memory and in its file. A `BTreeMap` is a map by
-- its lookups; `serde_json` at the type of the file is a parameter.
pub mod Reload
pub mod Names
use phantasma.Prelude.{
  Text, Bool, true, false, not, Option, none, some, Result, ok, err, Exec, pure, raise, map_err,
  ◌>>=◌, ◌>>◌, ◌++◌, [], if◌then◌else◌, text_eq,
}
use phantasma.Prelude.Dict
use phantasma.Prelude.Dict.{Dict}
use phantasma.Prelude.Utf8.{text}
use phantasma.Shared.Codec.{JsonError}
use phantasma.Shared.Registration.{PublicKeyEntry}
use phantasma.Shared.Validation.{is_valid_username}
use phantasma.Client.Files as Files
use phantasma.Client.Files.{Machine, FileSystem, IoError, Io}

pub record ContactBook : Type 0 where
  pub contacts : Dict Text PublicKeyEntry
  pub path : Text

-- `serde_json` at `StoredContacts`.
pub record ContactsJson : Type 0 where
  pub from_str : Text → Result JsonError (Dict Text PublicKeyEntry)
  pub to_string_pretty : Dict Text PublicKeyEntry → Result JsonError Text

pub data ContactError : Type 0 where
  invalid_username : ContactError
  io : IoError → ContactError
  json : JsonError → ContactError

abbrev pub Book : Type 0 → Type 0
Book A = Exec FileSystem ContactError A

abbrev lift : {A : Type 0} → Result ContactError A → Book A
lift r s = (r, s)

abbrev on_files : {A : Type 0} → Io A → Book A
on_files m s = let (r, s') = m s in (map_err io r, s')

abbrev exists : Machine → Text → Book Bool
exists m path s = let (found, s') = Files.exists m path s in (ok found, s')

module _ (m : Machine) (format : ContactsJson) where
  unfoldable pub save : ContactBook → Book Unit
  save book = do
    written ← lift (map_err json (format.to_string_pretty book.contacts))
    on_files (Files.write m book.path written)

  abbrev pub inserted : PublicKeyEntry → ContactBook → ContactBook
  inserted entry book = record book { contacts = Dict.insert entry.username entry book.contacts }

  -- The name is the one in the entry. The book has the entry even if the file could not be saved.
  unfoldable pub add : PublicKeyEntry → Exec (ContactBook × FileSystem) ContactError (Unit {0})
  add entry (book, s) = let (r, s') = save (inserted entry book) s in (r, (inserted entry book, s'))

  abbrev pub contacts_path : Text → Text → Text
  contacts_path owner_username root =
      m.join (m.join root (text "contacts")) (owner_username ++ text ".json")

  unfoldable pub load : Text → Book ContactBook
  load path = do
    contents ← on_files (Files.read_to_string m path)
    stored ← lift (map_err json (format.from_str contents))
    pure (record { contacts = stored; path = path })

  unfoldable pub create : Text → Text → Book ContactBook
  create contacts_dir path = do
    on_files (Files.create_dir_all m contacts_dir)
    let contact_book : ContactBook = record { contacts = []; path = path }
    save contact_book
    pure contact_book

  unfoldable pub load_or_create_in : Text → Text → Book ContactBook
  load_or_create_in owner_username root =
      if not (is_valid_username owner_username) then raise invalid_username else (do
        found ← exists m (contacts_path owner_username root)
        if found
            then load (contacts_path owner_username root)
            else create (m.join root (text "contacts")) (contacts_path owner_username root))
