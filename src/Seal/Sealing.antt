-- ===== src/Seal/Sealing.antt =====
-- `canonical_bytes`, `seal_authoritative_result` and `verify_authoritative_result`.
use zaynor.Prelude.{
  String, if◌then◌else◌, Bool, true, false, not, Option, none, some, List, [], ◌∷◌, str_eq, ◌==◌,
  text_length, Outcome, ok, raised, ◌>>=◌, ◌>>◌, require,
}
use zaynor.Seal.Values.{
  Value, text, nothing, instance_of, Elements, nil, cons, payload, Platform, SealError,
  not_encodable, unsupported_version, schema_version_mismatch, invalid_seal, seal_mismatch, typed,
}

abbrev pub canonicalize_version : String
canonicalize_version = "zaynor-authority-v1"

abbrev pub result_schema_version : String
result_schema_version = "zaynor-result-v1"

pub record AuthoritySeal : Type 0 where
  pub version : String
  pub sha256 : String

-- getattr(value, name, None) of a dataclass with these names of fields
unfoldable pub attribute_in : String → List String → Elements → Option Value
attribute_in name [] xs = none
attribute_in name (field ∷ names) nil = none
attribute_in name (field ∷ names) (cons v xs) =
    let rest = attribute_in name names xs in if str_eq field name then some v else rest

module _ (c : Platform) where
  unfoldable pub attribute : String → Value → Option Value
  unfolding attribute_in
  attribute name (instance_of class xs) = attribute_in name (c.field_names class) xs
  attribute name v = none

  unfoldable pub encoded : Option c.Bytes → Outcome SealError c.Bytes
  encoded none = raised not_encodable
  encoded (some b) = ok b

  -- `canonical_bytes`
  unfoldable pub canonical_bytes : Value → Outcome SealError c.Bytes
  unfolding typed encoded
  canonical_bytes result = typed c result >>= λ t. encoded (c.json (payload canonicalize_version t))

  unfoldable pub seal_authoritative_result : Value → Outcome SealError AuthoritySeal
  unfolding canonical_bytes
  seal_authoritative_result result = canonical_bytes result >>= λ b.
      ok (record { version = canonicalize_version; sha256 = c.sha256 b })

  -- stored_schema_version is not None and stored_schema_version != RESULT_SCHEMA_VERSION
  unfoldable pub other_schema : Option Value → Bool
  other_schema none = false
  other_schema (some nothing) = false
  other_schema (some (text s)) = not (str_eq s result_schema_version)
  other_schema (some v) = true

  unfoldable pub verify_authoritative_result : Value → AuthoritySeal → Outcome SealError Bool
  unfolding seal_authoritative_result attribute other_schema
  verify_authoritative_result result seal = do
    require (str_eq seal.version canonicalize_version) unsupported_version
    require (not (other_schema (attribute "schema_version" result))) schema_version_mismatch
    expected ← seal_authoritative_result result
    require (text_length seal.sha256 == 64) invalid_seal
    require (str_eq expected.sha256 seal.sha256) seal_mismatch
    ok true
