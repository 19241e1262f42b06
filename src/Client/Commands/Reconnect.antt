-- ===== src/Client/Commands/Reconnect.antt =====
-- How long the client tries to connect again.
use phantasma.Prelude.{
  ℕ, zero, suc, ◌+◌, ◌<◌, Text, ◌≤◌, ok, none, ◌≡◌, refl, arith, Option-cases, inl, inr, ◌++◌, ◌∷◌,
  [],
}
use phantasma.Client.Directory.{Outside, ClientState, OutputLine, connection_failed}
use phantasma.Client.Commands.{connect_with_retry, go_on}

abbrev tried : OutputLine → ClientState → ClientState
tried line s = record s { attempts = suc s.attempts; output = s.output ++ line ∷ [] }

pub connect_with_retry-book :
    (o : Outside) (url : Text) (fuel : ℕ) (s : ClientState)
    → (connect_with_retry o url fuel s).1.book ≡ s.book
unfolding connect_with_retry
connect_with_retry-book o url zero s = refl
connect_with_retry-book o url (suc fuel) s = elim (Option-cases (o.connect_fault s.attempts url)) [
  | inl e ↦ ground arith
  | inr (f, e) ↦ ground (arith, connect_with_retry-book o url fuel (tried (connection_failed f) s))
]

-- If the n-th of the next attempts would succeed, counted from 0, the loop ends with a connection
-- after at most that many attempts and one more, with any fuel above n.
pub connect_with_retry-connects :
    (o : Outside) (url : Text) (n fuel : ℕ) (s : ClientState)
    → o.connect_fault (s.attempts + n) url ≡ none
    → n < fuel
    → let (r, s') = connect_with_retry o url fuel s in
      (r ≡ ok go_on) × (s'.attempts ≤ suc (s.attempts + n))
unfolding connect_with_retry
connect_with_retry-connects o url n zero s h lt = absurd (omega arith)
connect_with_retry-connects o url zero (suc fuel) s h lt = ground arith
connect_with_retry-connects o url (suc m) (suc fuel) s h lt =
    elim (Option-cases (o.connect_fault s.attempts url)) [
      | inl e ↦ ground arith
      | inr (f, e) ↦
          ground (arith, connect_with_retry-connects o url m fuel (tried (connection_failed f) s))
    ]
