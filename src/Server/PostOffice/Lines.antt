-- ===== src/Server/PostOffice/Lines.antt =====
-- What connections that come, send and go do in the post office.
use phantasma.Prelude.{
  ℕ, ◌<◌, Text, Bytes, Bool, true, false, none, some, List, [], ◌∷◌, ◌≡◌, refl, ap, ◌∙◌, arith,
  length, ◌+◌, ◌%◌, ◌==◌, nat_eq, text_eq, if◌then◌else◌, get_elem?, get_elem?-set, Option-cases,
  List-cases, inl, inr,
}
use phantasma.Prelude.Dict
use phantasma.Server.State.{AppState, ActiveClient, Channel, drop_receiver}
use phantasma.Server.State.Channels.{
  buffer, drop_receiver_lem, unbounded_channel_lem, buffer-length,
}
use phantasma.Server.Connection.{
  Connection, recv, send_turn, open_connection, close_connection, u64_mod,
}
use phantasma.Server.Connection.Frame.{recv_lem, open_connection_lem, close_connection_lem}
use phantasma.Server.Connection.Registry.{get-open_connection, get-close_connection}
use phantasma.Server.PostOffice.{PostOffice, arrive, take, drop, act, tail}
use phantasma.Server.PostOffice.Abstraction.{place, post_office, PostOffice-ext, of_round}
use phantasma.Server.PostOffice.Posting.{place-SameRegistry}

buffer-open_connection :
    (name : Text) (other : ℕ) (s : AppState)
    → buffer other (open_connection name s).1
      ≡ (if length s.channels == other then [] else buffer other s)
unfolding open_connection buffer
buffer-open_connection name other s =
    let s₀ = record s { next_connection_id = (s.next_connection_id + 1) % u64_mod } in
    elim (nat_eq.dec (length s.channels) other) [
      | yes p ↦ ground (arith, unbounded_channel_lem other s₀, rw p at (buffer-length s))
      | no p ↦ ground (arith, unbounded_channel_lem other s₀)
    ]

-- The registry leads to channels that are there.
abbrev pub IsWithin : AppState → Type 0
IsWithin s =
    (name : Text) (client : ActiveClient)
    → Dict.get name s.active_clients ≡ some client
    → client.sender < length s.channels

pub post_office-open_connection :
    (name : Text) (s : AppState)
    → IsWithin s
    → post_office (open_connection name s).1 ≡ act (arrive name (length s.channels)) (post_office s)
unfolding act
post_office-open_connection name s within =
    PostOffice-ext _ _ (λ other. ground (arith, open_connection_lem name 0 s))
      (λ other. buffer-open_connection name other s)
      (λ other. arrived other (text_eq.dec other name))
  where
    arrived :
        (other : Text)
        → Dec (other ≡ name)
        → place
            (Dict.get other (open_connection name s).1.active_clients)
            (open_connection name s).1
          ≡ (if other == name
              then some (length s.channels)
              else place (Dict.get other s.active_clients) s)
    arrived other (yes p) =
        ground
          (arith, get-open_connection name other s, open_connection_lem name (length s.channels) s)
    arrived other (no p) = elim (Option-cases (Dict.get other s.active_clients)) [
      | inl e ↦ ground (arith, get-open_connection name other s)
      | inr (client, e) ↦ ground (
        arith,
        get-open_connection name other s,
        open_connection_lem name client.sender s,
        within other client e,
      )
    ]

recv-buffers :
    (address other : ℕ) (s : AppState)
    → (buffer other (recv address s).1
        ≡ (if address == other then tail (buffer other s) else buffer other s))
      × ((recv address s).0 ≡ elim (buffer address s) [ [] ↦ none | payload ∷ rest ↦ some payload ])
unfolding recv buffer
recv-buffers address other s = elim (Option-cases (get_elem? s.channels address)) [
  | inl e ↦ ground arith
  | inr (c, e) ↦ elim (List-cases c.buffer) [
    | inl d ↦ ground arith
    | inr (payload, rest, d) ↦
        let c' : Channel = record c { buffer = rest } in
        ground (arith, get_elem?-set s.channels address other c' c e)
  ]
]

drop_receiver-drops :
    (address : ℕ) (s : AppState)
    → post_office (drop_receiver address s) ≡ act (drop address) (post_office s)
unfolding act
drop_receiver-drops address s =
    PostOffice-ext _ _ (λ name. ground (arith, drop_receiver_lem address 0 s))
      (λ other. ground (arith, drop_receiver_lem address other s))
      (λ name. elim (Option-cases (Dict.get name s.active_clients)) [
        | inl e ↦ ground (arith, drop_receiver_lem address 0 s)
        | inr (client, e) ↦ ground (arith, drop_receiver_lem address client.sender s)
      ])

recv-takes :
    (address : ℕ) (s : AppState)
    → post_office (recv address s).1 ≡ act (take address) (post_office s)
unfolding act
recv-takes address s =
    PostOffice-ext _ _ (λ name. ground (arith, recv_lem address 0 s))
      (λ other. (recv-buffers address other s).0)
      (place-SameRegistry s _ (λ other. (recv_lem address other s).1))

recv-empty : (address : ℕ) (s : AppState) → buffer address s ≡ [] → recv address s ≡ (none, s)
unfolding recv buffer
recv-empty address s h = elim (Option-cases (get_elem? s.channels address)) [
  | inl e ↦ ground arith
  | inr (c, e) ↦ elim (List-cases c.buffer) [
    | inl d ↦ ground arith
    | inr (payload, rest, d) ↦ absurd (ground arith)
  ]
]

drop-take :
    (address : ℕ) (a : PostOffice)
    → act (drop address) (act (take address) a) ≡ act (drop address) a
unfolding act
drop-take address a = PostOffice-ext _ _ (λ name. refl) (λ other. ground arith) (λ name. refl)

send_turn-idle :
    (c : Connection) (accepts : Bool) (s : AppState)
    → buffer c.address s ≡ []
    → (send_turn c accepts s).2 ≡ s
unfolding send_turn
send_turn-idle c accepts s e = ground (arith, recv-empty c.address s e)

send_turn-takes :
    (c : Connection) (accepts : Bool) (s : AppState) (payload : Bytes) (rest : List Bytes)
    → buffer c.address s ≡ payload ∷ rest
    → (send_turn c accepts s).2
      ≡ (if accepts then (recv c.address s).1 else drop_receiver c.address (recv c.address s).1)
unfolding send_turn
send_turn-takes c accepts s payload rest e = ground (arith, recv-buffers c.address 0 s)

pub post_office-send_turn :
    (c : Connection) (accepts : Bool) (s : AppState)
    → post_office (send_turn c accepts s).2
      ≡ act (of_round c.address accepts (buffer c.address s)) (post_office s)
post_office-send_turn c accepts s = elim (List-cases (buffer c.address s)) [
  | inl e ↦ rw (send_turn-idle c accepts s e, e) (idle accepts e)
  | inr (payload, rest, e) ↦
      rw (send_turn-takes c accepts s payload rest e, e) (round payload rest accepts)
]
  where
    idle :
        (b : Bool)
        → buffer c.address s ≡ []
        → post_office s ≡ act (of_round c.address b []) (post_office s)
    idle true e = rw (recv-empty c.address s e) at (recv-takes c.address s)
    idle false e = unfold act in refl

    round :
        (payload : Bytes) (rest : List Bytes) (b : Bool)
        → post_office
            (if b then (recv c.address s).1 else drop_receiver c.address (recv c.address s).1)
          ≡ act (of_round c.address b (payload ∷ rest)) (post_office s)
    round payload rest true = recv-takes c.address s
    round payload rest false =
        drop_receiver-drops c.address (recv c.address s).1
        ∙ ap (act (drop c.address)) (recv-takes c.address s)
        ∙ drop-take c.address (post_office s)

close_connection-buffers :
    (c : Connection) (other : ℕ) (s : AppState)
    → buffer other (close_connection c s) ≡ (if c.address == other then [] else buffer other s)
unfolding close_connection buffer
close_connection-buffers c other s = ground (arith, drop_receiver_lem c.address other s)

pub post_office-close_connection :
    (c : Connection) (s : AppState)
    → ((client : ActiveClient)
        → Dict.get c.username s.active_clients ≡ some client
        → client.connection_id ≡ c.connection_id
        → client.sender ≡ c.address)
    → post_office (close_connection c s) ≡ act (drop c.address) (post_office s)
unfolding act
post_office-close_connection c s own =
    PostOffice-ext _ _ (λ name. ground (arith, close_connection_lem c 0 s))
      (λ other. close_connection-buffers c other s)
      (λ name. elim (Option-cases (Dict.get name s.active_clients)) [
        | inl e ↦ ground (arith, get-close_connection c name s)
        | inr (client, e) ↦ ground (
          arith,
          get-close_connection c name s,
          close_connection_lem c client.sender s,
          own client,
        )
      ])
