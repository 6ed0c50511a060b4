-- ===== src/Crypto.antt =====
-- What the program takes from `hashlib`, `hmac` and `json`: UTF-8 encoding, `json.dumps` with
-- sorted keys, the hexadecimal SHA-256 digest and the hexadecimal HMAC-SHA256, the number
-- of bytes, and the first 16 characters of a digest. None of them is
-- defined here: they are the fields of a parameter.
use zaynor.Prelude.{ℕ, String}
use zaynor.Json.{Json}

pub record Crypto : Type 1 where
  pub Bytes : Type 0
  pub encode : String → Bytes
  pub dumps : Json → Bytes
  pub sha256 : Bytes → String
  pub hmac : Bytes → Bytes → String
  pub size : Bytes → ℕ
  pub key_prefix : String → String
