-- ===== src/Shared/Codec.antt =====
-- The wire format of the messages. `serde_json` is a parameter: a codec for each message type.
use phantasma.Prelude.{Bytes, Result, ok, ◌≡◌}

pub data JsonError : Type 0 where
  syntax data_error : JsonError

-- `serde_json::to_vec` and `serde_json::from_slice` at one type.
pub record Codec (A : Type 0) : Type 0 where
  pub to_vec : A → Result JsonError Bytes
  pub from_slice : Bytes → Result JsonError A

-- What derived `Serialize` and `Deserialize` are documented to do for a struct of texts and
-- numbers: serialising cannot fail, and reading the bytes back gives the value.
pub record IsLawful {A : Type 0} (c : Codec A) : Type 0 where
  pub total : (a : A) → (bytes : Bytes) × (c.to_vec a ≡ ok bytes)
  pub round_trip : (a : A) (bytes : Bytes) → c.to_vec a ≡ ok bytes → c.from_slice bytes ≡ ok a
