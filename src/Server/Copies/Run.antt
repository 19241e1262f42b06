-- ===== src/Server/Copies/Run.antt =====
-- The copies of a payload over whole runs of the server.
use phantasma.Prelude.{ℕ, ◌+◌, ◌≤◌, ◌≡◌, refl, Bytes, none, List, [], ◌∷◌, arith, length}
use phantasma.Server.State.{Environment}
use phantasma.Server.Connection.{}
use phantasma.Server.System.{World, Event, step, run}
use phantasma.Server.System.Invariant.{Inv}
use phantasma.Server.System.Runs.{step-Inv}
use phantasma.Server.System.Tables.{step-keeps}
use phantasma.Server.System.Safety.{TablesOk, TablesOk-IsKept}
use phantasma.Server.Copies.Posted.{}
use phantasma.Server.Copies.{copies, posted, dropped, accepted, unstored}
use phantasma.Server.Copies.Accepted.{posted-accepted, unstored-none}
use phantasma.Server.Directory.Queue.{max_id}
use phantasma.Server.Copies.Balance.{step-Balanced}

module _ (p : Bytes) (env : Environment) where
  held_le :
      (es : List Event) (w : World)
      → Inv w
      → TablesOk w.app.directory
      → copies p w + posted p env w es ≤ copies p (run env w es) + dropped p env w es
  unfolding run posted dropped
  held_le [] w inv tables = omega arith
  held_le (e ∷ es) w inv tables =
      let later =
        held_le es (step env w e) (step-Inv env w e inv)
          (step-keeps env TablesOk (TablesOk-IsKept env.sqlite) w e tables) in
      omega (arith, (step-Balanced p env w inv tables.sound e).0, later)

  held_eq :
      (es : List Event) (w : World)
      → ((n : ℕ) → env.sqlite.fault n ≡ none)
      → Inv w
      → TablesOk w.app.directory
      → copies p (run env w es) + dropped p env w es ≡ copies p w + posted p env w es
  unfolding run posted dropped
  held_eq [] w works inv tables = refl
  held_eq (e ∷ es) w works inv tables =
      let later =
        held_eq es (step env w e) works (step-Inv env w e inv)
          (step-keeps env TablesOk (TablesOk-IsKept env.sqlite) w e tables) in
      omega (arith, (step-Balanced p env w inv tables.sound e).1 works, later)

  -- For each payload, any events in any order, and whatever statements fail, from a world in which
  -- the invariants hold and the ids of the queue cannot run out: the copies that are there at the
  -- start or come with an accepted message (one that reads, names its sender, and is for a valid
  -- name) are all, at the end, in the queue, in a channel or written to a socket, but for those that
  -- were in the channel of a connection when it ended, and those of a message whose recipient could
  -- not be reached while the statement that was to store it failed.
  pub copies-run_le :
      (es : List Event) (w : World)
      → Inv w
      → TablesOk w.app.directory
      → w.app.directory.last_id + length es ≤ max_id
      → copies p w + accepted p env w es
        ≤ copies p (run env w es) + (dropped p env w es + unstored p env w es)
  copies-run_le es w inv tables room =
      omega (arith, held_le es w inv tables, posted-accepted p env es w tables room)

  -- If no statement fails, from a world in which the invariants hold and the ids of the queue cannot
  -- run out: after any events in any order, each of them one that nothing interrupts, the copies of
  -- a payload in the queue, in the channels and written to sockets, with those that were in the
  -- channel of a connection when it ended, are exactly those that were there at the start and one
  -- for each accepted message (it reads, names its sender, and is for a valid name) that brings it.
  pub copies-run :
      (es : List Event) (w : World)
      → ((n : ℕ) → env.sqlite.fault n ≡ none)
      → Inv w
      → TablesOk w.app.directory
      → w.app.directory.last_id + length es ≤ max_id
      → copies p (run env w es) + dropped p env w es ≡ copies p w + accepted p env w es
  copies-run es w works inv tables room = omega (
    arith,
    held_eq es w works inv tables,
    posted-accepted p env es w tables room,
    unstored-none p env es w works,
  )
