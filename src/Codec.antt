-- ===== src/Codec.antt =====
-- json.Marshal and json.Unmarshal at one Go type: a parameter of the definitions that use them.
use digital_square.Base.{String, Option}
use digital_square.Errors.{Result}

pub record Codec (A : Type 0) : Type 0 where
  pub marshal : A → Result String
  pub unmarshal : String → Option A
