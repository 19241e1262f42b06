-- ===== src/Server/Delivery/Outcome.antt =====
-- What a delivery leaves of the messages that it was given.
use phantasma.Prelude.{
  ℕ, ◌≡◌, ◌≢◌, ◌⊎◌, inl, inr, refl, Text, Bytes, none, List, [], ◌∷◌, ◌++◌, map, arith, ok, err,
  ◌==◌, text_eq, nat_eq, if◌then◌else◌, Result-cases,
}
use mathlib.Core.List.{append-nil, append_assoc}
use phantasma.Server.Sqlite.{SqlxError, Sqlite}
use phantasma.Server.Directory.Queue.{QueuedMessage}
use phantasma.Server.Directory.Queue.Order.{IsSound}
use phantasma.Server.Directory.Queue.Contents.{waiting}
use phantasma.Server.State.{AppState, Environment, delete_failed, print}
use phantasma.Server.State.Channels.{buffer}
use phantasma.Server.Delivery.Round.{
  IsDelivering, moved, after_round, answer, waiting-moved, moved-IsSound, buffer-moved, answer_lem,
  round-IsDelivering, deliver_loop-ok, deliver_loop-err,
}
use phantasma.Server.Delivery.{deliver_loop}

abbrev pub payloads : List QueuedMessage → List Bytes
payloads = map (λ m. m.payload)

-- Of the messages `before`, those in `sent` went into the channel and those in `after` still wait:
-- `sent` is the front of `before`, and what waits is the rest, or the rest behind the last one sent.
abbrev pub IsAccounted : List QueuedMessage → List QueuedMessage → List QueuedMessage → Type 0
IsAccounted before sent after =
    (rest : List QueuedMessage) × (before ≡ sent ++ rest)
    × ((after ≡ rest)
        ⊎ ((front : List QueuedMessage) × (m : QueuedMessage) × (sent ≡ front ++ m ∷ [])
            × (after ≡ m ∷ rest)))

IsAccounted-cons :
    (m : QueuedMessage) (before sent after : List QueuedMessage)
    → IsAccounted before sent after
    → IsAccounted (m ∷ before) (m ∷ sent) after
IsAccounted-cons m before sent after (rest, e, inl d) = (rest, cc, inl d)
IsAccounted-cons m before sent after (rest, e, inr (front, l, d, w)) =
    (rest, cc, inr (m ∷ front, l, cc, w))

-- What a delivery leaves: every message accounted for, and nothing else touched.
pub record Outcome (q : Sqlite) (username : Text) (sender : ℕ) (ms : List QueuedMessage)
    (s s' : AppState) : Type 0 where
  pub sent : List QueuedMessage
  pub accounted : IsAccounted ms sent (waiting username s'.directory)
  pub buffers :
      (other : ℕ)
      → buffer other s' ≡ buffer other s ++ (if sender == other then payloads sent else [])
  pub others :
      (name : Text) → username ≢ name → waiting name s'.directory ≡ waiting name s.directory
  pub complete : ((n : ℕ) → q.fault n ≡ none) → (sent ≡ ms) × (waiting username s'.directory ≡ [])
  pub sound : IsSound s'.directory

module _ (env : Environment) (username : Text) (sender : ℕ) where
  nothing_sent :
      (s : AppState) → IsDelivering username sender [] s → Outcome env.sqlite username sender [] s s
  nothing_sent s d = record {
    sent = [];
    accounted = ([], refl, inl d.held);
    buffers = λ other. ground (arith, append-nil (buffer other s));
    others = λ name ne. refl;
    complete = λ works. (refl, d.held);
    sound = d.sound;
  }

  module _ (m : QueuedMessage) (ms : List QueuedMessage) (s : AppState)
      (d : IsDelivering username sender (m ∷ ms) s) where
    sent_not_deleted :
        (f : SqlxError)
        → answer env username sender m ms s d ≡ err f
        → Outcome env.sqlite username sender
            (m ∷ ms)
            s
            (print (delete_failed f username) (moved env username sender m s))
    unfolding buffer
    sent_not_deleted f e = record {
      sent = m ∷ [];
      accounted = (
        ms,
        refl,
        inr (
          [],
          m,
          refl,
          ground (arith, e, d.held, waiting-moved env username sender m ms s d username),
        ),
      );
      buffers = λ other. buffer-moved env username sender m ms s d other;
      others = λ name ne. ground (arith, e, waiting-moved env username sender m ms s d name);
      complete = λ works. absurd (
          ground (arith, e, answer_lem env username sender m ms s d, works s.directory.statements));
      sound = moved-IsSound env username sender m ms s d;
    }

    sent_and_deleted :
        (s' : AppState)
        → answer env username sender m ms s d ≡ ok tt
        → Outcome env.sqlite username sender ms (after_round env username sender m s) s'
        → Outcome env.sqlite username sender (m ∷ ms) s s'
    unfolding buffer
    sent_and_deleted s' e o = record {
      sent = m ∷ o.sent;
      accounted = IsAccounted-cons m ms o.sent _ o.accounted;
      buffers = λ other. ground (
        arith,
        o.buffers other,
        buffer-moved env username sender m ms s d other,
        append-nil (buffer other s),
        append_assoc (buffer other s) (m.payload ∷ []) (payloads o.sent),
      );
      others = λ name ne.
          ground (arith, e, waiting-moved env username sender m ms s d name, o.others name);
      complete = λ works. (cc ((o.complete works).0), (o.complete works).1);
      sound = o.sound;
    }

  pub deliver_loop-Outcome :
      (ms : List QueuedMessage) (s : AppState)
      → IsDelivering username sender ms s
      → Outcome env.sqlite username sender ms s (deliver_loop env username sender ms s)
  deliver_loop-Outcome [] s d = unfold deliver_loop in nothing_sent s d
  deliver_loop-Outcome (m ∷ ms) s d = elim (Result-cases (answer env username sender m ms s d)) [
    | inl (u, e) ↦ rw (deliver_loop-ok env username sender m ms s d e) (
        sent_and_deleted m ms s d _ e (
          deliver_loop-Outcome ms (after_round env username sender m s)
            (round-IsDelivering env username sender m ms s d e)))
    | inr (f, e) ↦
        rw (deliver_loop-err env username sender m ms s d f e) (sent_not_deleted m ms s d f e)
  ]
