-- ===== src/Server/Tasks/Twice.antt =====
-- Two connections of one user whose deliveries overlap.
use phantasma.Prelude.{
  ℕ, zero, suc, ◌+◌, ◌*◌, ◌≤◌, ◌≡◌, ◌≢◌, refl, ap, ◌∙◌, Text, true, none, List, [], ◌∷◌, ◌++◌,
  arith, length, nat_eq, text_eq, ◌==◌, if◌then◌else◌, get_elem?, set, Option-cases, inl, inr,
}
use mathlib.Core.List.{append-nil, append_assoc}
use phantasma.Server.Sqlite.{Database, run}
use phantasma.Server.Directory.Queue.{QueuedMessage, delete_queued_message}
use phantasma.Server.Directory.Queue.Order.{IsSound}
use phantasma.Server.Directory.Queue.Contents.{waiting, queued_messages_for-waiting}
use phantasma.Server.State.{AppState, Environment, send, on_directory, print, delivered}
use phantasma.Server.State.Channels.{buffer, is_live, send_lem, directory-send}
use phantasma.Server.Hex.{hex_preview}
use phantasma.Server.Delivery.{deliver_loop}
use phantasma.Server.Delivery.Accounting.{loaded}
use phantasma.Server.Delivery.Outcome.{payloads}
use phantasma.Server.Tasks.{Task, loading, sending, done, advance, advance_by, interleave}
use phantasma.Server.Tasks.Whole.{advance_by-sending}

abbrev pub repeated : ℕ → ℕ → List ℕ
repeated zero i = []
repeated (suc n) i = i ∷ repeated n i

module _ (env : Environment) where
  interleave-append :
      (xs ys : List ℕ) (tasks : List Task) (s : AppState)
      → interleave env (xs ++ ys) tasks s
        ≡ (let (tasks', s') = interleave env xs tasks s in interleave env ys tasks' s')
  unfolding interleave
  interleave-append [] ys tasks s = refl
  interleave-append (i ∷ xs) ys tasks s = elim (Option-cases (get_elem? tasks i)) [
    | inl e ↦ ground (arith, e, interleave-append xs ys tasks s)
    | inr (task, e) ↦
        let (task', s') = advance env task s in
        ground (arith, e, interleave-append xs ys (set tasks i task') s')
  ]

  interleave-first :
      (n : ℕ) (task : Task) (others : List Task) (s : AppState)
      → interleave env (repeated n 0) (task ∷ others) s
        ≡ (let (task', s') = advance_by env n task s in (task' ∷ others, s'))
  unfolding interleave advance_by
  interleave-first zero task others s = refl
  interleave-first (suc n) task others s =
      let (task', s') = advance env task s in interleave-first n task' others s'

  interleave-second :
      (n : ℕ) (first task : Task) (others : List Task) (s : AppState)
      → interleave env (repeated n 1) (first ∷ task ∷ others) s
        ≡ (let (task', s') = advance_by env n task s in (first ∷ task' ∷ others, s'))
  unfolding interleave advance_by
  interleave-second zero first task others s = refl
  interleave-second (suc n) first task others s =
      let (task', s') = advance env task s in interleave-second n first task' others s'

  module _ (username : Text) (sender : ℕ) (works : (n : ℕ) → env.sqlite.fault n ≡ none) where
    module _ (m : QueuedMessage) (s : AppState) (ready : s.directory.has_queue ≡ true)
        (live : is_live sender s ≡ true) where
      abbrev after : AppState
      after =
          let s₁ = (send sender m.payload s).1 in
          let s₂ = (on_directory (λ e. e) (delete_queued_message env.sqlite m.id) s₁).1 in
          print (delivered username (length m.payload) (hex_preview m.payload)) s₂

      deliver_loop-after :
          (ms : List QueuedMessage)
          → deliver_loop env username sender (m ∷ ms) s ≡ deliver_loop env username sender ms after
      unfolding deliver_loop delete_queued_message run
      deliver_loop-after ms =
          let same = directory-send sender m.payload s in
          ground (
            arith,
            send_lem sender sender m.payload s,
            works (send sender m.payload s).1.directory.statements,
            ap (λ (db : Database). db.has_queue) same,
          )

      has_queue-after : after.directory.has_queue ≡ true
      unfolding delete_queued_message run
      has_queue-after =
          ground (arith, ap (λ (db : Database). db.has_queue) (directory-send sender m.payload s))

      is_live-after : (other : ℕ) → is_live other after ≡ is_live other s
      unfolding is_live
      is_live-after other = ground (arith, send_lem sender other m.payload s)

      buffer-after :
          (other : ℕ)
          → buffer other after ≡ buffer other s ++ (if sender == other then m.payload ∷ [] else [])
      unfolding buffer
      buffer-after other = ground (arith, send_lem sender other m.payload s)

    -- The loop of a delivery sends all that it has in hand, whether or not it still waits.
    deliver_loop-sends :
        (ms : List QueuedMessage) (s : AppState)
        → s.directory.has_queue ≡ true
        → is_live sender s ≡ true
        → let s' = deliver_loop env username sender ms s in
          (s'.directory.has_queue ≡ true)
          × ((other : ℕ) → is_live other s' ≡ is_live other s)
          × ((other : ℕ)
              → buffer other s' ≡ buffer other s ++ (if sender == other then payloads ms else []))
    unfolding deliver_loop
    deliver_loop-sends [] s ready live =
        (ready, (λ other. refl), λ other. ground (arith, append-nil (buffer other s)))
    deliver_loop-sends (m ∷ ms) s ready live =
        let next = after m s ready live in
        let (queue, lives, buffers) =
          deliver_loop-sends ms next (has_queue-after m s ready live)
            (is_live-after m s ready live sender ∙ live) in
        rw (deliver_loop-after m s ready live ms) (
          queue,
          (λ other. lives other ∙ is_live-after m s ready live other),
          λ other. ground (
            arith,
            buffers other,
            buffer-after m s ready live other,
            append-nil (buffer other s),
            append_assoc (buffer other s) (m.payload ∷ []) (payloads ms),
          ),
        )

module _ (env : Environment) (username : Text) (works : (n : ℕ) → env.sqlite.fault n ≡ none) where
  advance-loading :
      (sender : ℕ) (s : AppState)
      → IsSound s.directory
      → advance env (loading username sender) s
        ≡ (sending username sender (waiting username s.directory), loaded env username sender s)
  unfolding advance
  advance-loading sender s sound = ground (
    arith,
    works s.directory.statements,
    queued_messages_for-waiting env.sqlite s.directory sound.has_queue username sound.ordered,
  )

  -- Both load, then each runs to its end.
  interleave-loaded :
      (first second n : ℕ) (s : AppState)
      → IsSound s.directory
      → 2 * length (waiting username s.directory) + 1 ≤ n
      → let held = waiting username s.directory in
        let both = loaded env username second (loaded env username first s) in
        interleave env
          (0 ∷ 1 ∷ (repeated n 0 ++ repeated n 1))
          (loading username first ∷ loading username second ∷ [])
          s
        ≡ (
          done ∷ done ∷ [],
          deliver_loop env username second held (deliver_loop env username first held both),
        )
  unfolding interleave waiting
  interleave-loaded first second n s sound long =
      let held = waiting username s.directory in
      let s₁ = loaded env username first s in
      let s₂ = loaded env username second s₁ in
      let s₃ = deliver_loop env username first held s₂ in
      let sound₁ : IsSound s₁.directory = record {
        has_queue = sound.has_queue;
        ordered = sound.ordered;
      } in
      let tasks = sending username first held ∷ sending username second held ∷ [] in
      let both_load : interleave env (0 ∷ 1 ∷ (repeated n 0 ++ repeated n 1))
            (loading username first ∷ loading username second ∷ []) s
          ≡ interleave env (repeated n 0 ++ repeated n 1) tasks s₂ =
        ground (arith, advance-loading first s sound, advance-loading second s₁ sound₁) in
      both_load
      ∙ interleave-append env (repeated n 0) (repeated n 1) tasks s₂
      ∙ rw
          (
            interleave-first env n (sending username first held) (sending username second held ∷ [])
                s₂,
            advance_by-sending env n username first held s₂ long,
            interleave-second env n done (sending username second held) [] s₃,
            advance_by-sending env n username second held s₃ long,
          )
          refl

  -- Two connections of one user, over a database in which no statement fails and whose queue is in
  -- order. If both load the queue before either deletes from it, and each then runs to its end,
  -- both channels get all that waited: every queued message is delivered twice.
  pub interleave-delivers_twice :
      (first second n : ℕ) (s : AppState)
      → IsSound s.directory
      → first ≢ second
      → is_live first s ≡ true
      → is_live second s ≡ true
      → 2 * length (waiting username s.directory) + 1 ≤ n
      → let schedule = 0 ∷ 1 ∷ (repeated n 0 ++ repeated n 1) in
        let tasks = loading username first ∷ loading username second ∷ [] in
        let (tasks', s') = interleave env schedule tasks s in
        (tasks' ≡ done ∷ done ∷ [])
        × (buffer first s' ≡ buffer first s ++ payloads (waiting username s.directory))
        × (buffer second s' ≡ buffer second s ++ payloads (waiting username s.directory))
  unfolding waiting buffer is_live
  interleave-delivers_twice first second n s sound ne live live' long =
      let held = waiting username s.directory in
      let s₁ = loaded env username first s in
      let s₂ = loaded env username second s₁ in
      let s₃ = deliver_loop env username first held s₂ in
      let (queue, lives, buffers) =
        deliver_loop-sends env username first works held s₂ sound.has_queue live in
      let (queue', lives', buffers') =
        deliver_loop-sends env username second works held s₃ queue (lives second ∙ live') in
      rw (interleave-loaded first second n s sound long) (
        refl,
        ground (
          arith,
          ne,
          buffers first,
          buffers' first,
          append-nil (buffer first s ++ payloads held),
        ),
        ground (arith, ne, buffers second, buffers' second, append-nil (buffer second s)),
      )
