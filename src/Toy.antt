-- ===== src/Toy.antt =====
-- A toy digest in the place of SHA-256 and HMAC, for the examples: it shows that the parameter can
-- be met, and lets the code run.
use zaynor.Prelude.{String, Option, some}
use zaynor.Json.{Json, text, obj, get}
use zaynor.Crypto.{Crypto}
use Prim.Native.String.{◌++◌ as append_text}

-- The toy digest of a dictionary is the hash before it with a mark.
toy_prev : Option Json → String
toy_prev (some (text s)) = append_text "#" s
toy_prev _ = "?"

unfoldable pub toy_digest : Json → String
unfolding toy_prev get
toy_digest (text s) = s
toy_digest (obj d) = toy_prev (get "prev_hash" d)
toy_digest _ = "!"

unfoldable pub toy_hmac : Json → Json → String
unfolding toy_digest
toy_hmac k m = append_text "mac:" (append_text (toy_digest k) (toy_digest m))

abbrev pub toy : Crypto
toy = record {
  Bytes = Json;
  encode = λ s. text s;
  dumps = λ j. j;
  sha256 = toy_digest;
  hmac = toy_hmac;
  size = λ b. 100;
  key_prefix = λ s. s;
}
