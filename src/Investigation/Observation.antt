-- ===== src/Investigation/Observation.antt =====
-- `ObservationEnvelope`: its constructor, and the envelope around what a tool returned.
use zaynor.Prelude.{String, Bool, true, false, Outcome, ok, ◌>>=◌, ◌>>◌, require, str_eq}
use zaynor.Investigation.Values.{Value, freeze}
use zaynor.Investigation.Contracts.{
  Codec, ContractError, not_untrusted, hash_mismatch, case_mismatch, EpistemicAuthority, authorized,
  untrusted, ObservationStatus, CapabilityEffect, check_text, check_sha256, canonical_json,
}
use zaynor.Investigation.Proposal.{InvestigationProposal, arguments_digest}

-- `InstructionAuthority` has the one member NONE, so that the field holds nothing.
pub record ObservationEnvelope : Type 0 where
  pub observation_id : String
  pub case_id : String
  pub proposal_id : String
  pub tool_name : String
  pub capability_effect : CapabilityEffect
  pub resource : String
  pub arguments_digest : String
  pub provider : String
  pub payload : Value
  pub truncated : Bool
  pub status : ObservationStatus
  pub payload_sha256 : String
  pub epistemic_authority : EpistemicAuthority

unfoldable pub is_untrusted : EpistemicAuthority → Bool
is_untrusted authorized = false
is_untrusted untrusted = true

module _ (c : Codec) where
  open c use {Bytes, sha256}

  -- `__post_init__`: the envelope with its payload frozen.
  unfoldable pub check_observation : ObservationEnvelope → Outcome ContractError ObservationEnvelope
  unfolding is_untrusted
  check_observation o = do
    check_text o.observation_id "observation_id"
    check_text o.case_id "case_id"
    check_text o.proposal_id "proposal_id"
    check_text o.tool_name "tool_name"
    check_text o.resource "resource"
    check_text o.provider "provider"
    check_sha256 o.arguments_digest "arguments_digest"
    check_sha256 o.payload_sha256 "payload_sha256"
    require (is_untrusted o.epistemic_authority) not_untrusted
    b ← canonical_json c (freeze o.payload) "payload"
    require (str_eq (sha256 b) o.payload_sha256) hash_mismatch
    ok (record o { payload = freeze o.payload })

  -- `from_payload`
  unfoldable pub from_payload :
      String
      → String
      → InvestigationProposal
      → CapabilityEffect
      → String
      → String
      → Value
      → Bool
      → ObservationStatus
      → Outcome ContractError ObservationEnvelope
  unfolding check_observation
  from_payload observation_id case_id p effect resource provider payload truncated status = do
    require (str_eq p.case_id case_id) case_mismatch
    b ← canonical_json c payload "payload"
    digest ← arguments_digest c p
    check_observation (record {
      observation_id = observation_id;
      case_id = case_id;
      proposal_id = p.proposal_id;
      tool_name = p.requested_tool;
      capability_effect = effect;
      resource = resource;
      arguments_digest = digest;
      provider = provider;
      payload = payload;
      truncated = truncated;
      status = status;
      payload_sha256 = sha256 b;
      epistemic_authority = untrusted;
    })
