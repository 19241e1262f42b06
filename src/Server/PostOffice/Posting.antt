-- ===== src/Server/PostOffice/Posting.antt =====
-- Payloads and deliveries in the post office.
use phantasma.Prelude.{
  ℕ, Text, Bytes, Bool, true, false, ◌&&◌, Option, none, some, List, [], ◌∷◌, ◌++◌, Result, ok, err,
  ◌≡◌, refl, ap, arith, ◌==◌, nat_eq, text_eq, if◌then◌else◌, Bool-cases, Option-cases,
  Result-cases, inl, inr, ◌⊎◌,
}
use mathlib.Core.List.{append-nil}
use phantasma.Prelude.Dict
use phantasma.Shared.Encrypted
use phantasma.Shared.Routed
use phantasma.Shared.Validation.{is_valid_username}
use phantasma.Server.Sqlite.{SqlxError}
use phantasma.Server.Directory.Queue.{QueuedMessage, queue_message}
use phantasma.Server.Directory.Queue.Order.{IsSound}
use phantasma.Server.Directory.Queue.Contents.{waiting, added, next_message}
use phantasma.Server.Delivery.{deliver_queued_messages}
use phantasma.Server.Delivery.Outcome.{payloads}
use phantasma.Server.Delivery.Frame.{deliver_queued_messages-SameRegistry}
use phantasma.Server.Delivery.Accounting.{deliver_queued_messages-Outcome}
use phantasma.Server.State.{AppState, ActiveClient, Environment}
use phantasma.Server.State.Channels.{buffer, is_live}
use phantasma.Server.State.Frame.{SameRegistry}
use phantasma.Server.Payload.{relay_or_queue, handle_encrypted_payload}
use phantasma.Server.Payload.Frame.{relay_or_queue-SameRegistry}
use phantasma.Server.Payload.Routing.{reachable, relay_or_queue-relays, relay_or_queue-queues}
use phantasma.Server.PostOffice.{nothing, post, fetch, act, act-post_reached, act-post_away}
use phantasma.Server.PostOffice.Abstraction.{
  place, post_office, PostOffice-ext, is_err, is_lost, letter,
}

-- Names are reached where they were while the registry and the receivers stay.
pub place-SameRegistry :
    (s s' : AppState)
    → ((other : ℕ) → SameRegistry other s s')
    → (name : Text)
    → place (Dict.get name s'.active_clients) s' ≡ place (Dict.get name s.active_clients) s
place-SameRegistry s s' same name = elim (Option-cases (Dict.get name s.active_clients)) [
  | inl e ↦ ground (arith, same 0)
  | inr (client, e) ↦ ground (arith, same client.sender)
]

payloads-added :
    (held : List QueuedMessage) (b : Bool) (m : QueuedMessage)
    → payloads (held ++ (if b then m ∷ [] else []))
      ≡ payloads held ++ (if b then m.payload ∷ [] else [])
payloads-added [] true m = refl
payloads-added [] false m = refl
payloads-added (x ∷ held) b m = ap (λ rest. x.payload ∷ rest) (payloads-added held b m)

module _ (env : Environment) (to : Text) (bytes : Bytes) (s : AppState) where
  abbrev after : AppState
  after = (relay_or_queue env to bytes (Dict.get to s.active_clients) s).1

  same_places :
      (name : Text)
      → place (Dict.get name after.active_clients) after ≡ place (Dict.get name s.active_clients) s
  same_places =
      place-SameRegistry s after
        (λ other. relay_or_queue-SameRegistry env other to bytes (Dict.get to s.active_clients) s)

  relayed :
      (client : ActiveClient)
      → Dict.get to s.active_clients ≡ some client
      → is_live client.sender s ≡ true
      → post_office after ≡ act (post to bytes) (post_office s)
  relayed client e live =
      let facts = relay_or_queue-relays env to bytes client s live in
      rw (act-post_reached to bytes (post_office s) client.sender (rw e (ground arith))) (
        PostOffice-ext _ _ (λ name. ground (arith, e, facts.2))
          (λ other. ground (arith, e, facts.1 other)) same_places)

  queued :
      reachable (Dict.get to s.active_clients) s ≡ false
      → s.directory.has_queue ≡ true
      → is_err (queue_message env.sqlite to bytes s.directory).0 ≡ false
      → post_office after ≡ act (post to bytes) (post_office s)
  queued away ready stored =
      let facts = relay_or_queue-queues env to bytes (Dict.get to s.active_clients) s away ready in
      let unreached : place (Dict.get to s.active_clients) s ≡ none =
        not_placed (Dict.get to s.active_clients) away in
      rw (act-post_away to bytes (post_office s) unreached) (
        PostOffice-ext _ _
          (λ name. rw (facts.2 name) (
            added_payloads (waiting name s.directory) (to == name)
              (queue_message env.sqlite to bytes s.directory).0 stored))
          facts.1 same_places)
    where
      not_placed : (o : Option ActiveClient) → reachable o s ≡ false → place o s ≡ none
      not_placed none h = refl
      not_placed (some client) h = ground arith

      added_payloads :
          (held : List QueuedMessage) (b : Bool) (answer : Result SqlxError (Unit {0}))
          → is_err answer ≡ false
          → payloads (held ++ added answer b (next_message s.directory bytes))
            ≡ payloads held ++ (if b then bytes ∷ [] else [])
      added_payloads held b (ok u) h = payloads-added held b (next_message s.directory bytes)
      added_payloads held b (err e) h = absurd (cc)

  lost :
      reachable (Dict.get to s.active_clients) s ≡ false
      → s.directory.has_queue ≡ true
      → is_err (queue_message env.sqlite to bytes s.directory).0 ≡ true
      → post_office after ≡ post_office s
  lost away ready failed =
      let facts = relay_or_queue-queues env to bytes (Dict.get to s.active_clients) s away ready in
      PostOffice-ext _ _
        (λ name. rw (facts.2 name) (
          nothing_added (waiting name s.directory) (to == name)
            (queue_message env.sqlite to bytes s.directory).0 failed))
        facts.1 same_places
    where
      nothing_added :
          (held : List QueuedMessage) (b : Bool) (answer : Result SqlxError (Unit {0}))
          → is_err answer ≡ true
          → payloads (held ++ added answer b (next_message s.directory bytes)) ≡ payloads held
      nothing_added held b (ok u) h = absurd (cc)
      nothing_added held b (err e) h = rw (append-nil held)

  relay_or_queue-posts :
      s.directory.has_queue ≡ true
      → post_office after
        ≡ act (if is_lost env to bytes s then nothing else post to bytes) (post_office s)
  relay_or_queue-posts ready = by_client (Dict.get to s.active_clients) refl
    where
      away_posts :
          reachable (Dict.get to s.active_clients) s ≡ false
          → post_office after
            ≡ act (if is_lost env to bytes s then nothing else post to bytes) (post_office s)
      away_posts away =
          elim (Bool-cases (is_err (queue_message env.sqlite to bytes s.directory).0)) [
            | inl failed ↦ rw (away, failed) (unfold act in lost away ready failed)
            | inr stored ↦ rw (away, stored) (queued away ready stored)
          ]

      by_client :
          (o : Option ActiveClient)
          → Dict.get to s.active_clients ≡ o
          → post_office after
            ≡ act (if is_lost env to bytes s then nothing else post to bytes) (post_office s)
      by_client none e = away_posts (rw e refl)
      by_client (some client) e = elim (Bool-cases (is_live client.sender s)) [
        | inl live ↦
            let here : is_lost env to bytes s ≡ false = ground (arith, e, live) in
            rw here (relayed client e live)
        | inr dead ↦ away_posts (rw e dead)
      ]

pub post_office-log :
    (s s' : AppState) → s' ≡ record s { log = s'.log } → post_office s' ≡ post_office s
unfolding buffer is_live
post_office-log s s' e =
    PostOffice-ext _ _ (λ name. rw e refl) (λ address. rw e refl)
      (place-SameRegistry s s' (λ other. rw e (refl, refl, refl, refl)))

-- The letter and the state after the handler, for a payload that is refused and for one that is not.
module _ (env : Environment) (sender : Text) (payload : Bytes) (s : AppState) where
  abbrev pub Handled : AppState → Type 0
  Handled s' =
      ((letter env sender payload s ≡ nothing) × (s' ≡ record s { log = s'.log }))
      ⊎ ((to : Text) × (bytes : Bytes) × (letter env sender payload s
            ≡ (if is_lost env to bytes s then nothing else post to bytes))
          × (s' ≡ (relay_or_queue env to bytes (Dict.get to s.active_clients) s).1))

  pub handle_encrypted_payload-Handled : Handled (handle_encrypted_payload env sender payload s).1
  unfolding handle_encrypted_payload letter
  handle_encrypted_payload-Handled =
      elim (Result-cases (Routed.from_wire_bytes env.routed payload)) [
        | inr (f, e) ↦ inl (ground arith, ground arith)
        | inl (routed, e) ↦
            elim (Result-cases (Encrypted.to_wire_bytes env.encrypted routed.encrypted)) [
              | inr (f, d) ↦ inl (ground arith, ground arith)
              | inl (bytes, d) ↦
                  elim (Bool-cases (routed.from == sender && is_valid_username routed.to)) [
                    | inr no_good ↦ inl (ground arith, ground arith)
                    | inl good ↦ inr (routed.to, bytes, ground arith, ground arith)
                  ]
            ]
      ]

  -- A payload from a user does what it is in the post office.
  pub post_office-handle_encrypted_payload :
      s.directory.has_queue ≡ true
      → post_office (handle_encrypted_payload env sender payload s).1
        ≡ act (letter env sender payload s) (post_office s)
  post_office-handle_encrypted_payload ready = elim handle_encrypted_payload-Handled [
    | inl (no_letter, same) ↦ rw no_letter (unfold act in post_office-log s _ same)
    | inr (to, bytes, is_letter, after_s) ↦
        rw (is_letter, after_s) (relay_or_queue-posts env to bytes s ready)
  ]

module _ (env : Environment) (name : Text) (address : ℕ) where
  pub post_office-deliver_queued_messages :
      (s : AppState)
      → ((n : ℕ) → env.sqlite.fault n ≡ none)
      → is_live address s ≡ true
      → IsSound s.directory
      → post_office (deliver_queued_messages env name address s)
        ≡ act (fetch name address) (post_office s)
  unfolding act
  post_office-deliver_queued_messages s works live sound =
      let o = deliver_queued_messages-Outcome env name address s live sound in
      let (all, empty) = o.complete works in
      PostOffice-ext _ _
        (λ other. elim (text_eq.dec name other) [
          | yes p ↦ ground (arith, rw p at empty)
          | no p ↦ ground (arith, o.others other p)
        ])
        (λ other. ground (arith, o.buffers other, all))
        (place-SameRegistry s _
          (λ other. deliver_queued_messages-SameRegistry env name address other s))
