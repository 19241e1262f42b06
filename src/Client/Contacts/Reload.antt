-- ===== src/Client/Contacts/Reload.antt =====
-- What a later run of the client finds of the contacts.
use phantasma.Prelude.{
  suc, Text, true, none, some, ok, ◌≡◌, ap, sym, ◌∙◌, arith, text_eq, if◌then◌else◌, ◌==◌,
  Result-cases, inl, inr,
}
use phantasma.Prelude.Dict
use phantasma.Prelude.Dict.{Dict}
use phantasma.Shared.Registration.{PublicKeyEntry}
use phantasma.Shared.Validation.{is_valid_username}
use phantasma.Client.Files as Files
use phantasma.Client.Files.{Machine, FileSystem}
use phantasma.Client.Files.Written.{get-write}
use phantasma.Client.Contacts.{
  ContactBook, ContactsJson, contacts_path, inserted, save, add, load, load_or_create_in,
}

-- What `serde_json` documents for a map: what is written reads as a map with the same entries.
pub record IsFaithful (format : ContactsJson) : Type 0 where
  pub reads : Dict Text PublicKeyEntry → Text → Dict Text PublicKeyEntry
  pub from_str-to_string :
      (d : Dict Text PublicKeyEntry) (t : Text)
      → format.to_string_pretty d ≡ ok t
      → format.from_str t ≡ ok (reads d t)
  pub same_entries :
      (d : Dict Text PublicKeyEntry) (t name : Text) → Dict.get name (reads d t) ≡ Dict.get name d

module _ (m : Machine) (format : ContactsJson) where
  load_or_create_in-reads :
      (owner root t : Text) (d : Dict Text PublicKeyEntry) (s : FileSystem)
      → is_valid_username owner ≡ true
      → Dict.get (contacts_path m format owner root) s.files ≡ some t
      → format.from_str t ≡ ok d
      → m.fault s.operations ≡ none
      → m.fault (suc s.operations) ≡ none
      → load_or_create_in m format owner root s ≡ (
        ok (record { contacts = d; path = contacts_path m format owner root }),
        record s { operations = suc (suc s.operations) },
      )
  unfolding load_or_create_in load Files.exists Files.read_to_string
  load_or_create_in-reads owner root t d s v h r f g = ground arith

  -- What was added is there at the next run. If adding an entry to the book of a user succeeds, a
  -- later start that reads the file without a fault loads a book with that entry under its name,
  -- and under every other name what the book held before.
  pub load_or_create_in-add :
      IsFaithful format
      → (owner root : Text) (entry : PublicKeyEntry) (book : ContactBook) (s : FileSystem)
      → is_valid_username owner ≡ true
      → book.path ≡ contacts_path m format owner root
      → let (r, (b, s')) = add m format entry (book, s) in
        r ≡ ok tt
        → m.fault s'.operations ≡ none
        → m.fault (suc s'.operations) ≡ none
        → (loaded : ContactBook) × ((load_or_create_in m format owner root s').0 ≡ ok loaded)
          × (loaded.path ≡ book.path)
          × ((name : Text)
              → Dict.get name loaded.contacts
                ≡ (if name == entry.username then some entry else Dict.get name book.contacts))
  unfolding add save
  load_or_create_in-add faithful owner root entry book s v at_path h f g =
      elim (Result-cases (format.to_string_pretty (inserted m format entry book).contacts)) [
        | inr (e, w) ↦ absurd (ground arith)
        | inl (t, w) ↦
            let d = faithful.reads (inserted m format entry book).contacts t in
            let s' = (add m format entry (book, s)).1.1 in
            let file : Dict.get (contacts_path m format owner root) s'.files ≡ some t =
              ground (arith, get-write m book.path t s) in
            (
              record { contacts = d; path = contacts_path m format owner root },
              ap (λ x. x.0)
                  (load_or_create_in-reads owner root t d s' v file
                    (faithful.from_str-to_string (inserted m format entry book).contacts t w) f g),
              sym at_path,
              λ name.
                  faithful.same_entries _ t name
                  ∙ Dict.get-insert name entry.username entry book.contacts,
            )
      ]
