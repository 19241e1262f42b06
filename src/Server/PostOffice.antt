-- ===== src/Server/PostOffice.antt =====
-- server/src/main.rs and server/src/directory.rs as their users see them: a mailbox for each name,
-- a line of payloads for each connection, and the connection at which a name is reached. There are
-- no statements, no ids, no registry and no channels that close.
pub mod Abstraction
pub mod Posting
pub mod Lines
pub mod Handlers
pub mod Refinement
pub mod Run
use phantasma.Prelude.{
  ℕ, Text, Bytes, Bool, Option, none, some, List, [], ◌∷◌, ◌++◌, ◌==◌, ◌≡◌, arith, nat_eq, text_eq,
  if◌then◌else◌,
}

pub record PostOffice : Type 0 where
  pub mailbox : Text → List Bytes
  pub line : ℕ → List Bytes
  pub reached : Text → Option ℕ

-- What happens in it; `drop` is that a connection is gone, with what is still in its line.
pub data Act : Type 0 where
  nothing : Act
  post : Text → Bytes → Act
  arrive fetch : Text → ℕ → Act
  take drop : ℕ → Act

abbrev pub tail : List Bytes → List Bytes
tail [] = []
tail (_ ∷ rest) = rest

abbrev pub unless_at : ℕ → Option ℕ → Option ℕ
unless_at address none = none
unless_at address (some other) = if address == other then none else some other

unfoldable pub act : Act → PostOffice → PostOffice
act nothing a = a
act (post to bytes) a = elim (a.reached to) [
  | some address ↦ record a {
    line = λ other. a.line other ++ (if address == other then bytes ∷ [] else []);
  }
  | none ↦ record a { mailbox = λ name. a.mailbox name ++ (if to == name then bytes ∷ [] else []) }
]
act (arrive name address) a = record a {
  line = λ other. if address == other then [] else a.line other;
  reached = λ other. if other == name then some address else a.reached other;
}
act (fetch name address) a = record a {
  line = λ other. a.line other ++ (if address == other then a.mailbox name else []);
  mailbox = λ other. if name == other then [] else a.mailbox other;
}
act (take address) a = record a {
  line = λ other. if address == other then tail (a.line other) else a.line other;
}
act (drop address) a = record a {
  line = λ other. if address == other then [] else a.line other;
  reached = λ name. unless_at address (a.reached name);
}

unfoldable pub act_all : List Act → PostOffice → PostOffice
act_all [] a = a
act_all (x ∷ xs) a = act_all xs (act x a)

module _ (to : Text) (bytes : Bytes) (a : PostOffice) where
  pub act-post_reached :
      (address : ℕ)
      → a.reached to ≡ some address
      → act (post to bytes) a
        ≡ record a { line = λ other. a.line other ++ (if address == other then bytes ∷ [] else []) }
  unfolding act
  act-post_reached address e = rw (act, e)

  pub act-post_away :
      a.reached to ≡ none
      → act (post to bytes) a
        ≡ record a { mailbox = λ name. a.mailbox name ++ (if to == name then bytes ∷ [] else []) }
  unfolding act
  act-post_away e = rw (act, e)
