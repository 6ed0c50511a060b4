-- ===== src/Investigation/Contracts.antt =====
-- The checks that the contracts of src/zaynor/agents/investigation_contracts.py share. `json.dumps`
-- with its `encode`, `hashlib.sha256` and `len` are a parameter.
use zaynor.Prelude.{
  ℕ, String, ◌*◌, Bool, true, ◌&&◌, ◌||◌, Option, none, some, Outcome, ok, raised, ◌>>◌, require,
  not, leb, ◌==◌, is_blank, text_length,
}
use zaynor.Investigation.Values.{Value, float_free, thaw}
use Prim.Native.Char.{code}

-- `dumps` gives nothing where `json.dumps` raises TypeError or ValueError.
pub record Codec : Type 1 where
  pub Bytes : Type 0
  pub dumps : Value → Option Bytes
  pub size : Bytes → ℕ
  pub sha256 : Bytes → String

-- `InvestigationContractError`, with the field that its message names.
pub data ContractError : Type 0 where
  bad_text bad_digest not_json too_large : String → ContractError
  has_float not_an_object bad_projection : ContractError
  not_untrusted instruction_authority : ContractError
  hash_mismatch case_mismatch duplicate_proposal duplicate_observation unbound_observation :
      ContractError
  bad_max_steps unknown_proposal : ContractError
  exceeded_max_steps : ℕ → ℕ → ContractError

pub data EpistemicAuthority : Type 0 where
  authorized untrusted : EpistemicAuthority

pub data InvestigationStatus : Type 0 where
  «open» blocked complete : InvestigationStatus

pub data ObservationStatus : Type 0 where
  observed rejected error : ObservationStatus

pub data CapabilityEffect : Type 0 where
  read derive acquire mutate authorize : CapabilityEffect

abbrev pub max_text : ℕ
max_text = 4096

abbrev pub max_argument_bytes : ℕ
max_argument_bytes = 64 * 1024

unfoldable pub is_text : String → Bool
is_text s = not (is_blank s) && leb (text_length s) max_text

-- `_text`
unfoldable pub check_text : String → String → Outcome ContractError (Unit {0})
check_text s field = require (is_text s) (bad_text field)

is_hex : String → Bool
is_hex String.[] = true
is_hex (String.◌∷◌ c s) =
    ((leb 48 (code c) && leb (code c) 57) || (leb 97 (code c) && leb (code c) 102)) && is_hex s

unfoldable pub is_sha256 : String → Bool
unfolding is_hex
is_sha256 s = text_length s == 64 && is_hex s

-- `_sha256`
unfoldable pub check_sha256 : String → String → Outcome ContractError (Unit {0})
check_sha256 s field = require (is_sha256 s) (bad_digest field)

module _ (c : Codec) where
  open c use {Bytes, dumps, size}

  encoded_as : String → Option Bytes → Outcome ContractError Bytes
  encoded_as field none = raised (not_json field)
  encoded_as field (some b) = do require (leb (size b) max_argument_bytes) (too_large field); ok b

  -- `_canonical_json`
  unfoldable pub canonical_json : Value → String → Outcome ContractError Bytes
  unfolding encoded_as
  canonical_json v field = do require (float_free v) has_float; encoded_as field (dumps (thaw v))
