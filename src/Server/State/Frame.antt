-- ===== src/Server/State/Frame.antt =====
-- The part of the state that only connecting and disconnecting change.
use phantasma.Prelude.{ℕ, ◌≡◌, refl, Bytes, arith, length}
use phantasma.Server.Sqlite.{SqlxError, Sql}
use phantasma.Server.State.{AppState, LogLine, print, on_directory, send}
use phantasma.Server.State.Channels.{is_live, send_lem}

-- The registry, the counter and the channels are as before, and so is the receiver of `other`.
abbrev pub SameRegistry : ℕ → AppState → AppState → Type 0
SameRegistry other s s' =
    (is_live other s' ≡ is_live other s)
    × (s'.active_clients ≡ s.active_clients)
    × (s'.next_connection_id ≡ s.next_connection_id)
    × (length s'.channels ≡ length s.channels)

pub SameRegistry-refl : (other : ℕ) (s : AppState) → SameRegistry other s s
SameRegistry-refl other s = (refl, refl, refl, refl)

pub SameRegistry-trans :
    (other : ℕ) (s t u : AppState)
    → SameRegistry other s t
    → SameRegistry other t u
    → SameRegistry other s u
SameRegistry-trans other s t u h k = ground arith

pub send-SameRegistry :
    (other address : ℕ) (payload : Bytes) (s : AppState)
    → SameRegistry other s (send address payload s).1
send-SameRegistry other address payload s =
    let e = send_lem address other payload s in ground (arith, e)

pub on_directory-SameRegistry :
    {A : Type 0} (other : ℕ) (f : SqlxError → SqlxError) (m : Sql A) (s : AppState)
    → SameRegistry other s (on_directory f m s).1
unfolding is_live
on_directory-SameRegistry other f m s = (refl, refl, refl, refl)

pub print-SameRegistry :
    (other : ℕ) (line : LogLine) (s : AppState) → SameRegistry other s (print line s)
unfolding is_live
print-SameRegistry other line s = (refl, refl, refl, refl)
