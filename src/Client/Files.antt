-- ===== src/Client/Files.antt =====
-- The files that client/src/identity.rs and client/src/contacts.rs read and write. The operating
-- system is a parameter, `Machine`: how paths are joined, and which operation fails in which way.
-- Directories and permissions are not modelled: that one is missing is one of the ways in which a write fails.
pub mod Written
use phantasma.Prelude.{
  ℕ, suc, Text, String, Bool, true, false, if◌then◌else◌, Option, none, some, Result, ok, err, Exec,
  text_eq,
}
use phantasma.Prelude.Dict
use phantasma.Prelude.Dict.{Dict}

-- An operation that fails has changed nothing, or has left a file with other contents.
pub data Fault : Type 0 where
  refused : String → Fault
  torn : String → Text → Fault

pub data IoError : Type 0 where
  not_found already_exists : IoError
  failed : String → IoError

pub record Machine : Type 0 where
  -- `cfg(unix)`
  pub unix : Bool
  -- `Path::join`
  pub join : Text → Text → Text
  -- how the n-th operation fails, if it does
  pub fault : ℕ → Option Fault

pub record FileSystem : Type 0 where
  pub files : Dict Text Text
  -- how many operations were made so far
  pub operations : ℕ

abbrev pub Io : Type 0 → Type 0
Io A = Exec FileSystem IoError A

abbrev message : Fault → String
message (refused e) = e
message (torn e contents) = e

abbrev used : FileSystem → FileSystem
used s = record s { operations = suc s.operations }

abbrev holding : Text → Text → FileSystem → FileSystem
holding path contents s = record s { files = Dict.insert path contents s.files }

abbrev pub is_some : {A : Type 0} → Option A → Bool
is_some none = false
is_some (some a) = true

module _ (m : Machine) where
  -- `Path::exists`, which answers an error by `false`.
  unfoldable pub exists : Text → FileSystem → Bool × FileSystem
  exists path s = elim (m.fault s.operations) [
    | some f ↦ (false, used s)
    | none ↦ (is_some (Dict.get path s.files), used s)
  ]

  -- `fs::create_dir_all`
  unfoldable pub create_dir_all : Text → Io Unit
  create_dir_all path s = elim (m.fault s.operations) [
    | some f ↦ (err (failed (message f)), used s)
    | none ↦ (ok tt, used s)
  ]

  -- `fs::read_to_string`
  unfoldable pub read_to_string : Text → Io Text
  read_to_string path s = elim (m.fault s.operations) [
    | some f ↦ (err (failed (message f)), used s)
    | none ↦ elim (Dict.get path s.files) [
      | none ↦ (err not_found, used s)
      | some contents ↦ (ok contents, used s)
    ]
  ]

  -- `fs::write`, which empties the file before it writes.
  unfoldable pub write : Text → Text → Io Unit
  write path contents s = elim (m.fault s.operations) [
    | some (refused e) ↦ (err (failed e), used s)
    | some (torn e left) ↦ (err (failed e), holding path left (used s))
    | none ↦ (ok tt, holding path contents (used s))
  ]

  -- `OpenOptions` with `create_new`, and then `write_all`.
  unfoldable pub write_new : Text → Text → Io Unit
  write_new path contents s = elim (Dict.get path s.files) [
    | some old ↦ (err already_exists, used s)
    | none ↦ write path contents s
  ]

  -- `write_secret_file`, in its version for Unix and in the one for other systems.
  unfoldable pub write_secret_file : Text → Text → Io Unit
  write_secret_file path contents = if m.unix then write_new path contents else write path contents
