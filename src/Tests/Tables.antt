-- ===== src/Tests/Tables.antt =====
-- The database at concrete data.
use phantasma.Prelude.{
  ◌≡◌, refl, ◌<◌, ◌≤◌, ◌↔◌, Text, true, false, none, some, [], ◌∷◌, arith, All, all, length, nat_eq,
  text_eq, string_eq, keep,
}
use phantasma.Prelude.Utf8.{text, len, is_ascii_alphanumeric}
use phantasma.Shared.Validation.{
  is_valid_username, is_valid_ed25519_public_key_text, is_valid_x25519_public_key_text,
  is_username_char, is_base64url_char,
}
use phantasma.Shared.Validation.Bounds.{
  IsUsernameChar, IsBase64urlChar, is_valid_username_iff, is_valid_public_key_text_iff,
}
use phantasma.Server.Sqlite.{Database, Sqlite}
use phantasma.Server.Directory.Schema.{contains, key_columns}
use phantasma.Server.Directory.Schema.Preparation.{IsReady}
use phantasma.Server.Directory.Queue.{QueuedMessage, is_for}
use phantasma.Server.Directory.Queue.Order.{IsSound}
use phantasma.Server.Directory.Queue.Contents.{waiting}

-- A database that always answers.
abbrev pub sqlite : Sqlite
sqlite = record { fault = λ n. none; now = λ n. [] }

abbrev pub alice : Text
alice = text "alice"

abbrev pub bob : Text
bob = text "bob"

-- Ready tables with two messages for bob, one for alice between them.
abbrev pub tables : Database
tables = record {
  columns = some key_columns;
  public_keys = [];
  has_queue = true;
  has_index = true;
  queued_messages =
      record { id = 1; recipient = bob; payload = 10 ∷ []; created_at = [] }
      ∷ record { id = 2; recipient = alice; payload = 20 ∷ []; created_at = [] }
      ∷ record { id = 4; recipient = bob; payload = 40 ∷ []; created_at = [] }
      ∷ [];
  last_id = 4;
  statements = 0;
}

pub tables-IsSound : IsSound tables
tables-IsSound = record { has_queue = refl; ordered = omega arith }

pub tables-IsReady : IsReady tables
unfolding all contains string_eq
tables-IsReady = record { keys = refl; queue = refl }

pub waiting-bob :
    waiting bob tables
    ≡ record { id = 1; payload = 10 ∷ [] } ∷ record { id = 4; payload = 40 ∷ [] } ∷ []
unfolding waiting is_for keep text_eq
waiting-bob = refl

abbrev oldest : QueuedMessage
oldest = record { id = 1; payload = 10 ∷ [] }

abbrev newest : QueuedMessage
newest = record { id = 4; payload = 40 ∷ [] }

is_valid_username_iff_example : (is_valid_username (text "a.b-1") ≡ true) ↔ (
    (0 < length (text "a.b-1")) × (length (text "a.b-1") ≤ 64) × All IsUsernameChar (text "a.b-1"))
is_valid_username_iff_example = is_valid_username_iff (text "a.b-1")

abbrev pub key_a : Text
key_a = text "AAAAAAAAAAAAAAAAAAAAAAAAAAAAAAAAAAAAAAAAAAA"

is_valid_public_key_text_iff_example :
    ((is_valid_ed25519_public_key_text key_a ≡ true)
      ↔ ((length key_a ≡ 43) × All IsBase64urlChar key_a))
    × ((is_valid_x25519_public_key_text key_a ≡ true)
        ↔ ((length key_a ≡ 43) × All IsBase64urlChar key_a))
is_valid_public_key_text_iff_example = is_valid_public_key_text_iff key_a

-- The tests of shared/src/lib.rs.
username_tests :
    (is_valid_username (text "alice.smith-1") ≡ true)
    × (is_valid_username [] ≡ false)
    × (is_valid_username (text "../alice") ≡ false)
    × (is_valid_username (text "alice smith") ≡ false)
    × (is_valid_ed25519_public_key_text key_a ≡ true)
    × (is_valid_ed25519_public_key_text (text "short") ≡ false)
unfolding is_valid_username is_valid_ed25519_public_key_text len all is_username_char
    is_base64url_char is_ascii_alphanumeric nat_eq
username_tests = (refl, refl, refl, refl, refl, refl)
