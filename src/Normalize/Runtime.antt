-- ===== src/Normalize/Runtime.antt =====
-- What normalization takes from the libraries and does not implement: the SHA-256 digest in hex,
-- `float` of a text (`none` where it raises), and `str` of a value that is no text.
use omniscan.Prelude.{ℕ, String, Option}
use omniscan.Python.Json.{Json}

pub record Runtime : Type 0 where
  pub sha256_hex : String → String
  pub float_text : String → Option ℕ
  pub show : Json → String
