-- ===== src/Http.antt =====
-- What the gin handlers answer, as far as the program decides it: the status and the JSON body of an
-- error. A middleware answers or goes on to the next handler.
use digital_square.Base.{ℕ, String, Option}
use digital_square.Redis.{ℤ}

pub record Refusal : Type 0 where
  pub status : ℕ
  pub error : String
  pub retry_after : Option ℤ
