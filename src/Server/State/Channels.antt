-- ===== src/Server/State/Channels.antt =====
-- How sending and dropping change what each channel holds.
use phantasma.Prelude.{
  ℕ, ◌≡◌, refl, ap, Bytes, Bool, true, false, ◌&&◌, Option, none, some, List, [], ◌∷◌, ◌++◌, arith,
  ◌==◌, nat_eq, if◌then◌else◌, length, get_elem?, get_elem?-set, set-eq_self_of_none,
  get_elem?-append, get_elem?-length, length-set, Option-cases, inl, inr, length-append, ◌+◌,
}
use mathlib.Core.List.{append-nil}
use phantasma.Server.State.{Channel, AppState, send, drop_receiver, unbounded_channel}

abbrev buffer_in : Option Channel → List Bytes
buffer_in none = []
buffer_in (some c) = c.buffer

abbrev open_in : Option Channel → Bool
open_in none = false
open_in (some c) = c.is_open

-- What waits in a channel, and whether its receiver is still there.
unfoldable pub buffer : ℕ → AppState → List Bytes
buffer address s = buffer_in (get_elem? s.channels address)

unfoldable pub is_live : ℕ → AppState → Bool
is_live address s = open_in (get_elem? s.channels address)

abbrev closed : Channel
closed = record { buffer = []; is_open = false }

-- A send succeeds exactly if the receiver is there; it then puts the payload last in that channel,
-- and every other channel, and what else the server holds, stays as it was.
pub send_lem :
    (address other : ℕ) (payload : Bytes) (s : AppState)
    → let (sent, s') = send address payload s in
      (sent ≡ is_live address s)
      × (buffer other s'
          ≡ buffer other s ++ (if sent && address == other then payload ∷ [] else []))
      × (is_live other s' ≡ is_live other s)
      × (s' ≡ record s { channels = s'.channels })
      × (length s'.channels ≡ length s.channels)
unfolding send buffer is_live
send_lem address other payload s = elim (Option-cases (get_elem? s.channels address)) [
  | inl e ↦ ground (arith, append-nil (buffer other s))
  | inr (c, e) ↦
      let c' : Channel = record c { buffer = c.buffer ++ payload ∷ [] } in
      ground (
        arith,
        append-nil (buffer_in (get_elem? s.channels other)),
        get_elem?-set s.channels address other c' c e,
        length-set s.channels address c',
      )
]

pub directory-send :
    (address : ℕ) (payload : Bytes) (s : AppState)
    → (send address payload s).1.directory ≡ s.directory
directory-send address payload s =
    ap (λ (t : AppState). t.directory) (send_lem address address payload s).3

-- Dropping a receiver closes its channel and empties it; nothing else changes.
pub drop_receiver_lem :
    (address other : ℕ) (s : AppState)
    → let s' = drop_receiver address s in
      (buffer other s' ≡ (if address == other then [] else buffer other s))
      × (is_live other s' ≡ (if address == other then false else is_live other s))
      × (s' ≡ record s { channels = s'.channels })
      × (length s'.channels ≡ length s.channels)
unfolding drop_receiver buffer is_live
drop_receiver_lem address other s = elim (Option-cases (get_elem? s.channels address)) [
  | inl e ↦ ground (arith, set-eq_self_of_none s.channels address closed e)
  | inr (c, e) ↦ ground (
    arith,
    get_elem?-set s.channels address other closed c e,
    length-set s.channels address closed,
  )
]

-- A new channel is open and empty, and lies behind those that were there.
pub unbounded_channel_lem :
    (other : ℕ) (s : AppState)
    → let (address, s') = unbounded_channel s in
      (address ≡ length s.channels)
      × (buffer other s' ≡ buffer other s)
      × (is_live other s' ≡ (if address == other then true else is_live other s))
      × (s' ≡ record s { channels = s'.channels })
      × (length s'.channels ≡ length s.channels + 1)
unfolding unbounded_channel buffer is_live
unbounded_channel_lem other s = ground (
  arith,
  get_elem?-append s.channels other new,
  get_elem?-length s.channels other,
  length-append s.channels (new ∷ []),
)
  where
    new : Channel
    new = record { buffer = []; is_open = true }

pub buffer-length : (s : AppState) → buffer (length s.channels) s ≡ []
unfolding buffer
buffer-length s = ground (arith, get_elem?-length s.channels (length s.channels) refl)
