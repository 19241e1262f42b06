-- ===== src/Server/PostOffice/Abstraction.antt =====
-- The post office that a state of the server is, and what each event does in it.
use phantasma.Prelude.{
  ℕ, Text, Bytes, Bool, true, false, Option, none, some, List, [], ◌∷◌, Result, ok, err, not, ◌&&◌,
  ◌≡◌, length, get_elem?, if◌then◌else◌, ◌==◌, text_eq,
}
use mathlib.Core.Path.{fun_ext}
use phantasma.Prelude.Dict
use phantasma.Shared.Encrypted
use phantasma.Shared.Routed
use phantasma.Shared.Validation.{is_valid_username}
use phantasma.Server.Directory.Queue.{queue_message}
use phantasma.Server.Payload.Routing.{reachable}
use phantasma.Server.Directory.Queue.Contents.{waiting}
use phantasma.Server.Delivery.Outcome.{payloads}
use phantasma.Server.State.{AppState, ActiveClient, Environment}
use phantasma.Server.State.Channels.{buffer, is_live}
use phantasma.Server.Http.{websocket_handler}
use phantasma.Server.Connection.{Incoming, binary}
use phantasma.Server.System.{
  Phase, starting, serving, ending, Session, World, Event, register, lookup, connect, deliver,
  receive, transmit, finish,
}
use phantasma.Server.PostOffice.{PostOffice, Act, nothing, post, arrive, fetch, take, drop}

abbrev pub place : Option ActiveClient → AppState → Option ℕ
place none s = none
place (some client) s = if is_live client.sender s then some client.sender else none

abbrev pub post_office : AppState → PostOffice
post_office s = record {
  mailbox = λ name. payloads (waiting name s.directory);
  line = λ address. buffer address s;
  reached = λ name. place (Dict.get name s.active_clients) s;
}

pub PostOffice-ext :
    (a b : PostOffice)
    → ((name : Text) → a.mailbox name ≡ b.mailbox name)
    → ((address : ℕ) → a.line address ≡ b.line address)
    → ((name : Text) → a.reached name ≡ b.reached name)
    → a ≡ b
PostOffice-ext a b m l r =
    λ i. record { mailbox = fun_ext m i; line = fun_ext l i; reached = fun_ext r i }

abbrev pub is_err : {E A : Type 0} → Result E A → Bool
is_err (ok a) = false
is_err (err e) = true

-- The message can neither be relayed nor queued; the sender's connection logs the error.
abbrev pub is_lost : Environment → Text → Bytes → AppState → Bool
is_lost env to bytes s =
    not (reachable (Dict.get to s.active_clients) s)
    && is_err (queue_message env.sqlite to bytes s.directory).0

-- What a payload from a user is, if it is posted: its recipient, and what the recipient gets.
unfoldable pub letter : Environment → Text → Bytes → AppState → Act
letter env sender payload s = elim (Routed.from_wire_bytes env.routed payload) [
  | err e ↦ nothing
  | ok routed ↦ elim (Encrypted.to_wire_bytes env.encrypted routed.encrypted) [
    | err e ↦ nothing
    | ok bytes ↦
        if not (routed.from == sender)
        then nothing
        else if not (is_valid_username routed.to)
        then nothing
        else if is_lost env routed.to bytes s
        then nothing
        else post routed.to bytes
  ]
]

abbrev pub of_frame : Environment → Text → AppState → Incoming → Act
of_frame env sender s (binary bytes) = letter env sender bytes s
of_frame env sender s _ = nothing

abbrev pub of_round : ℕ → Bool → List Bytes → Act
of_round address true waits = take address
of_round address false [] = nothing
of_round address false (_ ∷ _) = drop address

abbrev pub in_phase : Session → Act → Act → Act → Act
in_phase x at_start in_loops at_end = elim x.phase [
  | starting ↦ at_start
  | serving ↦ in_loops
  | ending ↦ at_end
  | Phase.closed ↦ nothing
]

abbrev pub of_session : Option Session → (Session → Act) → Act
of_session none f = nothing
of_session (some x) f = f x

-- What an event does.
unfoldable pub meaning : Environment → World → Event → Act
meaning env w (register r) = nothing
meaning env w (lookup name) = nothing
meaning env w (connect username) = elim (websocket_handler username) [
  | err refusal ↦ nothing
  | ok name ↦ arrive name (length w.app.channels)
]
meaning env w (deliver i) =
    of_session (get_elem? w.sessions i)
      (λ x. in_phase x (fetch x.connection.username i) nothing nothing)
meaning env w (receive i incoming) =
    of_session (get_elem? w.sessions i)
      (λ x. in_phase x nothing (of_frame env x.connection.username w.app incoming) nothing)
meaning env w (transmit i accepts) =
    of_session (get_elem? w.sessions i)
      (λ x. in_phase x nothing (of_round i accepts (buffer i w.app)) nothing)
meaning env w (finish i) =
    of_session (get_elem? w.sessions i) (λ x. in_phase x nothing nothing (drop i))
