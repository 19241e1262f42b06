-- ===== src/Server/Tasks/Interleaved.antt =====
-- No interleaving of deliveries and payload handlers loses a message.
use phantasma.Prelude.{
  ℕ, zero, suc, ◌+◌, ◌≡◌, refl, ◌≤◌, Bytes, none, some, List, [], ◌∷◌, arith, get_elem?, set, All,
  All-map, Option-cases, inl, inr,
}
use phantasma.Server.Sqlite.{Database}
use phantasma.Server.Directory.Queue.{QueuedMessage}
use phantasma.Server.Directory.Queue.Order.{IsSound}
use phantasma.Server.State.{AppState, Environment}
use phantasma.Server.Copies.Totals.{total, total-set}
use phantasma.Server.Copies.{held}
use phantasma.Server.Tasks.{Task, loading, sending, deleting, looking_up, advance, interleave}
use phantasma.Server.Tasks.InHand.{IsKnown}
use phantasma.Server.Tasks.Account.{carried, owed, failed, accepted, handed_in, HasKnown}
use phantasma.Server.Tasks.Kept.{advance-Piece}

module _ {A : Type 0} (P : A → Type 0) where
  All-get : (xs : List A) (i : ℕ) (x : A) → get_elem? xs i ≡ some x → All P xs → P x
  All-get [] i x e h = absurd (cc)
  All-get (y ∷ xs) zero x e h = let same : y ≡ x = cc in rw (← same) h.0
  All-get (y ∷ xs) (suc i) x e h = All-get xs i x e h.1

  All-set : (xs : List A) (i : ℕ) (x : A) → P x → All P xs → All P (set xs i x)
  All-set [] i x p h = h
  All-set (y ∷ xs) zero x p h = (p, h.1)
  All-set (y ∷ xs) (suc i) x p h = (h.0, All-set xs i x p h.1)

module _ (p : Bytes) (env : Environment) where
  HasKnown-others :
      (db db' : Database)
      → ((m : QueuedMessage) → IsKnown db m → IsKnown db' m)
      → (task : Task) → HasKnown p db task
      → HasKnown p db' task
  HasKnown-others db db' keeps (sending username sender ms) h =
      All-map (IsKnown db) (IsKnown db') keeps ms h
  HasKnown-others db db' keeps (deleting username sender m ms) h =
      (keeps m h.0, All-map (IsKnown db) (IsKnown db') keeps ms h.1)
  HasKnown-others db db' keeps _ h = tt

  module _ (i : ℕ) (schedule : List ℕ) (tasks : List Task) (s : AppState) where
    interleave-none :
        get_elem? tasks i ≡ none
        → (interleave env (i ∷ schedule) tasks s ≡ interleave env schedule tasks s)
          × (handed_in p env (i ∷ schedule) tasks s ≡ handed_in p env schedule tasks s)
    unfolding interleave handed_in
    interleave-none e = (ground (arith, e), ground (arith, e))

    interleave-some :
        (task : Task)
        → get_elem? tasks i ≡ some task
        → let (task', s') = advance env task s in
          (interleave env (i ∷ schedule) tasks s ≡ interleave env schedule (set tasks i task') s')
          × (handed_in p env (i ∷ schedule) tasks s
              ≡ accepted p task task' + handed_in p env schedule (set tasks i task') s')
    unfolding interleave handed_in
    interleave-some task e = (ground (arith, e), ground (arith, e))

  interleave-account :
      (schedule : List ℕ) (tasks : List Task) (s : AppState)
      → IsSound s.directory
      → All (HasKnown p s.directory) tasks
      → let (tasks', s') = interleave env schedule tasks s in
        held p s
          + total (carried p) tasks
          + total (failed p) tasks
          + total (owed p) tasks'
          + handed_in p env schedule tasks s
        ≤ held p s' + total (carried p) tasks' + total (failed p) tasks' + total (owed p) tasks
  unfolding interleave handed_in
  interleave-account [] tasks s sound known = omega arith
  interleave-account (i ∷ schedule) tasks s sound known = elim (Option-cases (get_elem? tasks i)) [
    | inl e ↦
        let (run, counts) = interleave-none i schedule tasks s e in
        rw (run, counts) (interleave-account schedule tasks s sound known)
    | inr (task, e) ↦
        let (task', s') = advance env task s in
        let piece =
          advance-Piece p env s sound task
            (All-get (HasKnown p s.directory) tasks i task e known) in
        let rest = interleave-account schedule (set tasks i task') s' piece.sound (
          All-set (HasKnown p s'.directory) tasks i task' piece.known
            (All-map _ _ (HasKnown-others s.directory s'.directory piece.others) tasks known)) in
        let (run, counts) = interleave-some i schedule tasks s task e in
        rw (run, counts)
          (omega (
            arith,
            piece.account,
            rest,
            total-set (carried p) tasks i task task' e,
            total-set (owed p) tasks i task task' e,
            total-set (failed p) tasks i task task' e,
          ))
  ]

  -- The task has not begun.
  abbrev pub IsFresh : Task → Type 0
  IsFresh (loading username sender) = Unit
  IsFresh (looking_up sender payload) = Unit
  IsFresh _ = ⊥

  fresh_account :
      (db : Database) (tasks : List Task)
      → All IsFresh tasks
      → (total (carried p) tasks ≡ 0)
        × (total (failed p) tasks ≡ 0)
        × (total (owed p) tasks ≡ 0)
        × All (HasKnown p db) tasks
  unfolding total
  fresh_account db [] h = (refl, refl, refl, tt)
  fresh_account db (loading username sender ∷ tasks) h =
      let (a, b, c, known) = fresh_account db tasks h.1 in
      (omega (arith, a), omega (arith, b), omega (arith, c), (tt, known))
  fresh_account db (looking_up sender payload ∷ tasks) h =
      let (a, b, c, known) = fresh_account db tasks h.1 in
      (omega (arith, a), omega (arith, b), omega (arith, c), (tt, known))
  fresh_account db (_ ∷ tasks) h = absurd h.0

  -- Any deliveries and payload handlers, in any order of their pieces, whatever statements fail,
  -- over a queue that is in order: every copy of a payload that was in the queue or in a channel, or
  -- that a handler accepts on the way, is at the end in the queue, in a channel, or in the hands of
  -- a handler that has not ended, but for one for each handler that ended with an error of the
  -- database. What a delivery has sent and not yet deleted is there twice.
  pub interleave-keeps :
      (schedule : List ℕ) (tasks : List Task) (s : AppState)
      → IsSound s.directory
      → All IsFresh tasks
      → let (tasks', s') = interleave env schedule tasks s in
        held p s + handed_in p env schedule tasks s + total (owed p) tasks'
        ≤ held p s' + total (carried p) tasks' + total (failed p) tasks'
  interleave-keeps schedule tasks s sound fresh =
      let (a, b, c, known) = fresh_account s.directory tasks fresh in
      omega (arith, a, b, c, interleave-account schedule tasks s sound known)
