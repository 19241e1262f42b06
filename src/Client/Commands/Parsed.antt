-- ===== src/Client/Commands/Parsed.antt =====
-- What the lines that a user types are read as.
use phantasma.Prelude.{
  Text, all, true, false, some, [], ◌∷◌, ◌++◌, ◌≡◌, refl, ap, ◌∙◌, arith, nat_eq, text_eq,
  Option-cases, inl, inr,
}
use phantasma.Prelude.Utf8.{text, is_empty}
use phantasma.Prelude.Str.{trim, trim_end_matches, is_whitespace, strip_prefix}
use phantasma.Prelude.Str.Laws.{
  strip_prefix-some, trim-after, trim-append, trim_solid, trim_end_matches-append, trim_end_solid,
  is_solid,
}
use phantasma.Client.Sending.Typed.{valid-solid}
use phantasma.Shared.Validation.{is_valid_username}
use phantasma.Client.Commands.{add, parse_command, prefixed}

module _ (line : Text) where
  after_add :
      (rest : Text)
      → strip_prefix (text "/add ") (trim line) ≡ some rest
      → is_empty (trim rest) ≡ false
  unfolding trim_end_matches is_whitespace nat_eq
  after_add rest h =
      trim-after (text "/add ") (text "/add") line rest
        (strip_prefix-some (text "/add ") (trim line) rest h) refl (λ e. cc)

  after_lookup :
      (rest : Text)
      → strip_prefix (text "/lookup ") (trim line) ≡ some rest
      → is_empty (trim rest) ≡ false
  unfolding trim_end_matches is_whitespace nat_eq
  after_lookup rest h =
      trim-after (text "/lookup ") (text "/lookup") line rest
        (strip_prefix-some (text "/lookup ") (trim line) rest h) refl (λ e. cc)

  prefixed-add_full :
      (username : Text) → prefixed (trim line) ≡ add username → is_empty username ≡ false
  unfolding prefixed
  prefixed-add_full username h = elim (Option-cases (strip_prefix (text "/add ") (trim line))) [
    | inr (rest, e) ↦ ground (arith, after_add rest e)
    | inl e ↦ elim (Option-cases (strip_prefix (text "/lookup ") (trim line))) [
      | inr (rest, l) ↦ ground (arith, after_lookup rest l)
      | inl l ↦ ground arith
    ]
  ]

  -- No line is read as an `/add` or `/lookup` of nothing.
  pub parse_command-add_full :
      (username : Text) → parse_command line ≡ add username → is_empty username ≡ false
  unfolding parse_command
  parse_command-add_full username h = ground (arith, prefixed-add_full username)

prefixed-add : (rest : Text) → prefixed (text "/add " ++ rest) ≡ add (trim rest)
unfolding prefixed strip_prefix nat_eq
prefixed-add rest = refl

slash_add : is_solid (text "/add") ≡ true
unfolding is_whitespace nat_eq all
slash_add = refl

trim-typed_add :
    (username : Text)
    → is_valid_username username ≡ true
    → (trim (text "/add " ++ username) ≡ text "/add " ++ username) × (trim username ≡ username)
unfolding is_valid_username
trim-typed_add [] v = absurd (ground arith)
trim-typed_add (c ∷ u) v =
    let solid = valid-solid (c ∷ u) v in
    let tail : trim_end_matches is_whitespace (0x20 ∷ c ∷ u) ≡ 0x20 ∷ c ∷ u =
      trim_end_matches-append is_whitespace (0x20 ∷ []) (c ∷ u) (rw (trim_end_solid (c ∷ u) solid))
      ∙ ap (λ t. 0x20 ∷ t) (trim_end_solid (c ∷ u) solid) in
    (trim-append (text "add") (0x20 ∷ c ∷ u) b'/' slash_add refl tail, trim_solid (c ∷ u) solid)

-- A valid name after `/add`.
pub parse_command-typed_add :
    (username : Text)
    → is_valid_username username ≡ true
    → parse_command (text "/add " ++ username) ≡ add username
unfolding parse_command text_eq
parse_command-typed_add username v =
    let (whole, part) = trim-typed_add username v in rw whole (prefixed-add username ∙ ap add part)
