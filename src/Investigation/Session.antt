-- ===== src/Investigation/Session.antt =====
-- `InvestigationSession`: the checks of its constructor, and the two operations on the ledger. A
-- constructor runs again in `replace`. `max_steps` is a number; a negative one is refused by the
-- code as zero is, and has no model.
use zaynor.Prelude.{
  ℕ, String, Bool, true, ◌&&◌, not, List, [], ◌∷◌, ◌++◌, Outcome, ok, ◌>>◌, require, str_eq, ltb,
  elem, all, map, length,
}
use zaynor.Investigation.Contracts.{
  ContractError, bad_max_steps, case_mismatch, duplicate_proposal, duplicate_observation,
  unbound_observation, unknown_proposal, exceeded_max_steps, InvestigationStatus, check_text,
  check_sha256,
}
use zaynor.Investigation.Proposal.{InvestigationProposal}
use zaynor.Investigation.Observation.{ObservationEnvelope}

pub record InvestigationSession : Type 0 where
  pub session_id : String
  pub case_id : String
  pub base_result_sha256 : String
  pub proposals : List InvestigationProposal
  pub observations : List ObservationEnvelope
  pub status : InvestigationStatus
  pub max_steps : ℕ

-- {proposal.proposal_id for proposal in proposals}
abbrev pub proposal_ids : List InvestigationProposal → List String
proposal_ids ps = map (λ p. p.proposal_id) ps

abbrev pub observation_ids : List ObservationEnvelope → List String
observation_ids os = map (λ o. o.observation_id) os

-- len(set(ids)) == len(ids)
unfoldable pub distinct : List String → Bool
distinct [] = true
distinct (i ∷ ids) = not (elem i ids) && distinct ids

unfoldable pub one_case : String → List InvestigationProposal → Bool
one_case case_id ps = all (λ p. str_eq p.case_id case_id) ps

unfoldable pub bound : String → List String → List ObservationEnvelope → Bool
bound case_id ids os = all (λ o. str_eq o.case_id case_id && elem o.proposal_id ids) os

-- `__post_init__`
unfoldable pub check_session : InvestigationSession → Outcome ContractError InvestigationSession
check_session s = do
  check_text s.session_id "session_id"
  check_text s.case_id "case_id"
  check_sha256 s.base_result_sha256 "base_result_sha256"
  require (ltb 0 s.max_steps) bad_max_steps
  require (distinct (proposal_ids s.proposals)) duplicate_proposal
  require (one_case s.case_id s.proposals) case_mismatch
  require (distinct (observation_ids s.observations)) duplicate_observation
  require (bound s.case_id (proposal_ids s.proposals) s.observations) unbound_observation
  ok s

unfoldable pub add_proposal :
    InvestigationProposal → InvestigationSession → Outcome ContractError InvestigationSession
add_proposal p s = do
  require (str_eq p.case_id s.case_id) case_mismatch
  require (not (elem p.proposal_id (proposal_ids s.proposals))) duplicate_proposal
  require (ltb (length s.proposals) s.max_steps)
      (exceeded_max_steps (length s.proposals) s.max_steps)
  check_session (record s { proposals = s.proposals ++ p ∷ [] })

unfoldable pub record_observation :
    ObservationEnvelope → InvestigationSession → Outcome ContractError InvestigationSession
record_observation o s = do
  require (str_eq o.case_id s.case_id) case_mismatch
  require (elem o.proposal_id (proposal_ids s.proposals)) unknown_proposal
  require (not (elem o.observation_id (observation_ids s.observations))) duplicate_observation
  check_session (record s { observations = s.observations ++ o ∷ [] })
