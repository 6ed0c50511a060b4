-- ===== src/Investigation/Facts.antt =====
-- The facts of a sealed result, `AuthorizedFacts` of src/zaynor/agents/investigation_contracts.py, and
-- the investigator that src/zaynor/agents/investigation_runner.py binds to them.
use zaynor.Prelude.{
  ℕ, String, Bool, true, false, ◌&&◌, List, [], ◌∷◌, ◌++◌, map, Outcome, ok, raised, ◌>>=◌, ◌>>◌,
  require, str_eq,
}
use zaynor.Seal.Values.{Platform, SealError, Pairs}
use zaynor.Seal.Sealing.{AuthoritySeal, verify_authoritative_result}
use zaynor.Guard.Result.{Ref, Finding, Result, value_of, text_item}
use zaynor.Investigation.Contracts.{
  ContractError, EpistemicAuthority, authorized, untrusted, «open», check_text, check_sha256,
}
use zaynor.Investigation.Session.{InvestigationSession, check_session}

-- `InstructionAuthority` has the one member NONE, so that the field holds nothing.
pub record AuthorizedFacts : Type 0 where
  pub case_id : String
  pub result_sha256 : String
  pub verdict : String
  pub finding_ids : List String
  pub unknowns : List String
  pub fracture_ids : List String
  pub hypothesis_ids : List String
  pub evidence_refs : List Ref
  pub epistemic_authority : EpistemicAuthority

pub data BindingError : Type 0 where
  by_seal : SealError → BindingError
  by_contract : ContractError → BindingError
  not_authorized_facts unbound_facts : BindingError

abbrev pub through_seal : {A : Type 0} → Outcome SealError A → Outcome BindingError A
through_seal (ok a) = ok a
through_seal (raised e) = raised (by_seal e)

abbrev pub through_contract : {A : Type 0} → Outcome ContractError A → Outcome BindingError A
through_contract (ok a) = ok a
through_contract (raised e) = raised (by_contract e)

abbrev pub is_authorized : EpistemicAuthority → Bool
is_authorized authorized = true
is_authorized untrusted = false

-- `AuthorizedFacts.__post_init__`
unfoldable pub check_facts : AuthorizedFacts → Outcome BindingError AuthorizedFacts
check_facts f = do
  through_contract (check_text f.case_id "case_id")
  through_contract (check_sha256 f.result_sha256 "result_sha256")
  through_contract (check_text f.verdict "verdict")
  require (is_authorized f.epistemic_authority) not_authorized_facts
  ok f

-- item["id"] of the records whose id is a text
abbrev pub text_ids : List Pairs → List String
text_ids [] = []
text_ids (d ∷ ds) = text_item "id" d ++ text_ids ds

abbrev pub refs_of : List Finding → List Ref
refs_of [] = []
refs_of (f ∷ fs) = f.evidence_refs ++ refs_of fs

abbrev pub facts_of : Result → AuthoritySeal → AuthorizedFacts
facts_of result seal = record {
  case_id = result.case_id;
  result_sha256 = seal.sha256;
  verdict = result.verdict;
  finding_ids = map (λ f. f.finding_id) result.findings;
  unknowns = result.unknowns;
  fracture_ids = text_ids result.fractures;
  hypothesis_ids = text_ids result.hypotheses;
  evidence_refs = refs_of result.findings;
  epistemic_authority = authorized;
}

-- InvestigationSession(session_id, case_id, base_result_sha256), with the defaults.
abbrev pub default_max_steps : ℕ
default_max_steps = 20

abbrev pub fresh_session : String → String → String → InvestigationSession
fresh_session session_id case_id base = record {
  session_id = session_id;
  case_id = case_id;
  base_result_sha256 = base;
  proposals = [];
  observations = [];
  status = «open»;
  max_steps = default_max_steps;
}

-- The check of `BoundedInvestigator.__init__`.
unfoldable pub bind_investigator :
    InvestigationSession
    → AuthorizedFacts
    → Outcome BindingError (InvestigationSession × AuthorizedFacts)
bind_investigator session facts = do
  require
      (str_eq facts.case_id session.case_id
        && str_eq facts.result_sha256 session.base_result_sha256)
      unbound_facts
  ok (session, facts)

module _ (c : Platform) where
  unfoldable pub facts_from_sealed_result :
      Result → AuthoritySeal → Outcome BindingError AuthorizedFacts
  unfolding check_facts
  facts_from_sealed_result result seal =
      through_seal (verify_authoritative_result c (value_of result) seal) >>= λ passed.
      check_facts (facts_of result seal)

  -- `BoundedInvestigator.from_sealed_result`
  unfoldable pub investigator_from_sealed_result :
      Result
      → AuthoritySeal
      → String
      → Outcome BindingError (InvestigationSession × AuthorizedFacts)
  unfolding facts_from_sealed_result bind_investigator
  investigator_from_sealed_result result seal session_id = do
    facts ← facts_from_sealed_result result seal
    session ← through_contract (check_session (fresh_session session_id result.case_id seal.sha256))
    bind_investigator session facts
