-- ===== src/Investigation/Projection.antt =====
-- `ObservationEnvelope.as_dict` and `from_dict`: the envelope as a dictionary for transport, and its
-- strict reading, which checks the hash of the payload again.
use zaynor.Prelude.{
  String, Bool, none, some, List, [], ◌∷◌, Outcome, ok, raised, ◌>>=◌, ◌>>◌, require, str_eq,
  if◌then◌else◌,
}
use zaynor.Investigation.Values.{Value, bool, text, thaw, Entries, end, entry}
use zaynor.Investigation.Contracts.{
  Codec, ContractError, bad_projection, EpistemicAuthority, authorized, untrusted,
  ObservationStatus, observed, rejected, error, CapabilityEffect, read, derive, acquire, mutate,
  authorize,
}
use zaynor.Investigation.Proposal.{lookup, has_fields, string_field, invalid_projection}
use zaynor.Investigation.Observation.{ObservationEnvelope, check_observation}

-- The values of the enumerations, and `Enum(text)`.
abbrev pub effect_text : CapabilityEffect → String
effect_text read = "read"
effect_text derive = "derive"
effect_text acquire = "acquire"
effect_text mutate = "mutate"
effect_text authorize = "authorize"

unfoldable pub effect_named : String → Outcome ContractError CapabilityEffect
effect_named t =
    if str_eq t "read"
    then ok read
    else if str_eq t "derive"
    then ok derive
    else if str_eq t "acquire"
    then ok acquire
    else if str_eq t "mutate"
    then ok mutate
    else if str_eq t "authorize"
    then ok authorize
    else raised bad_projection

abbrev pub status_text : ObservationStatus → String
status_text observed = "OBSERVED"
status_text rejected = "REJECTED"
status_text error = "ERROR"

unfoldable pub status_named : String → Outcome ContractError ObservationStatus
status_named t =
    if str_eq t "OBSERVED"
    then ok observed
    else if str_eq t "REJECTED"
    then ok rejected
    else if str_eq t "ERROR"
    then ok error
    else raised bad_projection

abbrev pub authority_text : EpistemicAuthority → String
authority_text authorized = "AUTHORIZED"
authority_text untrusted = "UNTRUSTED"

unfoldable pub authority_named : String → Outcome ContractError EpistemicAuthority
authority_named t =
    if str_eq t "AUTHORIZED"
    then ok authorized
    else if str_eq t "UNTRUSTED"
    then ok untrusted
    else raised bad_projection

abbrev pub observation_fields : List String
observation_fields =
    "observation_id" ∷ "case_id" ∷ "proposal_id" ∷ "tool_name" ∷ "capability_effect" ∷ "resource"
    ∷ "arguments_digest" ∷ "provider" ∷ "payload" ∷ "truncated" ∷ "status" ∷ "payload_sha256"
    ∷ "epistemic_authority" ∷ "instruction_authority" ∷ []

unfoldable pub observation_as_dict : ObservationEnvelope → Entries
observation_as_dict o = entry "observation_id" (text o.observation_id) (
    entry "case_id" (text o.case_id) (
      entry "proposal_id" (text o.proposal_id) (
        entry "tool_name" (text o.tool_name) (
          entry "capability_effect" (text (effect_text o.capability_effect)) (
            entry "resource" (text o.resource) (
              entry "arguments_digest" (text o.arguments_digest) (
                entry "provider" (text o.provider) (
                  entry "payload" (thaw o.payload) (
                    entry "truncated" (bool o.truncated) (
                      entry "status" (text (status_text o.status)) (
                        entry "payload_sha256" (text o.payload_sha256) (
                          entry "epistemic_authority" (text (authority_text o.epistemic_authority))
                            (entry "instruction_authority" (text "NONE") end)))))))))))))

unfoldable pub value_field : String → Entries → Outcome ContractError Value
value_field k raw = elim (lookup k raw) [ some v ↦ ok v | none ↦ raised bad_projection ]

unfoldable pub bool_field : String → Entries → Outcome ContractError Bool
bool_field k raw = elim (lookup k raw) [ some (bool b) ↦ ok b | _ ↦ raised bad_projection ]

module _ (c : Codec) where
  -- The enumerations, and cls(**values).
  unfoldable pub observation_of : Entries → Outcome ContractError ObservationEnvelope
  unfolding string_field value_field bool_field effect_named status_named authority_named
  observation_of raw = do
    effect ← string_field "capability_effect" raw >>= λ t. effect_named t
    status ← string_field "status" raw >>= λ t. status_named t
    authority ← string_field "epistemic_authority" raw >>= λ t. authority_named t
    instruction ← string_field "instruction_authority" raw
    require (str_eq instruction "NONE") bad_projection
    observation_id ← string_field "observation_id" raw
    case_id ← string_field "case_id" raw
    proposal_id ← string_field "proposal_id" raw
    tool_name ← string_field "tool_name" raw
    resource ← string_field "resource" raw
    provider ← string_field "provider" raw
    arguments_digest ← string_field "arguments_digest" raw
    payload_sha256 ← string_field "payload_sha256" raw
    truncated ← bool_field "truncated" raw
    payload ← value_field "payload" raw
    check_observation c (record {
      observation_id = observation_id;
      case_id = case_id;
      proposal_id = proposal_id;
      tool_name = tool_name;
      capability_effect = effect;
      resource = resource;
      arguments_digest = arguments_digest;
      provider = provider;
      payload = payload;
      truncated = truncated;
      status = status;
      payload_sha256 = payload_sha256;
      epistemic_authority = authority;
    })

  unfoldable pub observation_from_dict : Entries → Outcome ContractError ObservationEnvelope
  unfolding has_fields invalid_projection observation_of
  observation_from_dict raw = do
    require (has_fields observation_fields raw) bad_projection
    invalid_projection (observation_of raw)
