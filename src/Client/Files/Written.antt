-- ===== src/Client/Files/Written.antt =====
-- What a file holds after a write.
use phantasma.Prelude.{Text, some, ok, ◌≡◌, arith, text_eq}
use phantasma.Prelude.Dict
use phantasma.Client.Files.{Machine, FileSystem, write}

-- A write that succeeds leaves the text at its path.
pub get-write :
    (m : Machine) (path t : Text) (s : FileSystem)
    → let (r, s') = write m path t s in r ≡ ok tt → Dict.get path s'.files ≡ some t
unfolding write
get-write m path t s = ground (arith, Dict.get-insert path path t s.files)
