-- ===== src/Investigation/Bound.antt =====
-- An investigator that is made from a sealed result is bound to it.
use zaynor.Prelude.{
  String, ◌≡◌, ◌↔◌, [], map, refl, sym, ap, ◌∙◌, subst, Bool, ◌&&◌, Outcome, ok, raised,
  require-true, bind-returned, str_eq, ltb,
}
use zaynor.Seal.Values.{Platform, SealError}
use zaynor.Seal.Sealing.{AuthoritySeal, verify_authoritative_result}
use zaynor.Guard.Result.{Ref, Result, value_of}
use zaynor.Guard.Members.{Some, Member}
use zaynor.Guard.Sets.{HasText, text_ids-Member, refs_of-Member}
use zaynor.Investigation.Contracts.{
  ContractError, authorized, «open», bad_max_steps, duplicate_proposal, case_mismatch,
  duplicate_observation, unbound_observation, check_text, check_sha256,
}
use zaynor.Investigation.Session.{
  InvestigationSession, proposal_ids, observation_ids, distinct, one_case, bound, check_session,
}
use zaynor.Investigation.Facts.{
  AuthorizedFacts, unbound_facts, not_authorized_facts, through_seal, through_contract,
  is_authorized, check_facts, facts_of, fresh_session, bind_investigator, facts_from_sealed_result,
  investigator_from_sealed_result,
}

got : {E A : Type 0} {a b : A} {o : Outcome E A} → ok a ≡ o → o ≡ ok b → a ≡ b
got h k = cc

through_seal_returned :
    {A : Type 0} (o : Outcome SealError A) (a : A) → through_seal o ≡ ok a → o ≡ ok a
through_seal_returned (ok b) a h = cc
through_seal_returned (raised e) a h = cc

through_contract_returned :
    {A : Type 0} (o : Outcome ContractError A) (a : A) → through_contract o ≡ ok a → o ≡ ok a
through_contract_returned (ok b) a h = cc
through_contract_returned (raised e) a h = cc

check_facts_same : (f g : AuthorizedFacts) → check_facts f ≡ ok g → f ≡ g
unfolding check_facts
check_facts_same f g h =
    let a = bind-returned (through_contract (check_text f.case_id "case_id")) _ h in
    let b = bind-returned (through_contract (check_sha256 f.result_sha256 "result_sha256")) _ a.2 in
    let d = bind-returned (through_contract (check_text f.verdict "verdict")) _ b.2 in
    let e = require-true (is_authorized f.epistemic_authority) not_authorized_facts _ d.2 in
    got refl e.1

check_session_same : (s t : InvestigationSession) → check_session s ≡ ok t → s ≡ t
unfolding check_session
check_session_same s t h =
    let a = bind-returned (check_text s.session_id "session_id") _ h in
    let b = bind-returned (check_text s.case_id "case_id") _ a.2 in
    let d = bind-returned (check_sha256 s.base_result_sha256 "base_result_sha256") _ b.2 in
    let e = require-true (ltb 0 s.max_steps) bad_max_steps _ d.2 in
    let f = require-true (distinct (proposal_ids s.proposals)) duplicate_proposal _ e.1 in
    let g = require-true (one_case s.case_id s.proposals) case_mismatch _ f.1 in
    let i = require-true (distinct (observation_ids s.observations)) duplicate_observation _ g.1 in
    let j =
      require-true (bound s.case_id (proposal_ids s.proposals) s.observations) unbound_observation _
        i.1 in
    got refl j.1

-- The facts of a result and its seal: its case, verdict, unknowns and the ids of its findings in their
-- order, the ids that its records of fractures and hypotheses hold under "id", and the references that
-- its findings cite.
pub record FactsOf (result : Result) (seal : AuthoritySeal) (f : AuthorizedFacts) : Type 0 where
  pub case_id : f.case_id ≡ result.case_id
  pub result_sha256 : f.result_sha256 ≡ seal.sha256
  pub verdict : f.verdict ≡ result.verdict
  pub finding_ids : f.finding_ids ≡ map (λ finding. finding.finding_id) result.findings
  pub unknowns : f.unknowns ≡ result.unknowns
  pub fracture_ids : (x : String) → Member x f.fracture_ids ↔ Some (HasText "id" x) result.fractures
  pub hypothesis_ids :
      (x : String) → Member x f.hypothesis_ids ↔ Some (HasText "id" x) result.hypotheses
  pub evidence_refs :
      (r : Ref)
      → Member r f.evidence_refs ↔ Some (λ finding. Member r finding.evidence_refs) result.findings
  pub authority : f.epistemic_authority ≡ authorized

-- A session of the case and the digest, with nothing in it.
pub record Fresh (id case base : String) (s : InvestigationSession) : Type 0 where
  pub session_id : s.session_id ≡ id
  pub case_id : s.case_id ≡ case
  pub base_result_sha256 : s.base_result_sha256 ≡ base
  pub proposals : s.proposals ≡ []
  pub observations : s.observations ≡ []
  pub status : s.status ≡ «open»
  pub max_steps : s.max_steps ≡ 20

pub record Bound (c : Platform) (result : Result) (seal : AuthoritySeal) (session_id : String)
    (r : InvestigationSession × AuthorizedFacts) : Type 0 where
  pub verified : (b : Bool) × (verify_authoritative_result c (value_of result) seal ≡ ok b)
  pub facts : FactsOf result seal r.1
  pub session : Fresh session_id result.case_id seal.sha256 r.0
  pub valid : check_session r.0 ≡ ok r.0

facts_of-FactsOf :
    (result : Result) (seal : AuthoritySeal) → FactsOf result seal (facts_of result seal)
facts_of-FactsOf result seal = record {
  case_id = refl;
  result_sha256 = refl;
  verdict = refl;
  finding_ids = refl;
  unknowns = refl;
  fracture_ids = λ x. text_ids-Member x result.fractures;
  hypothesis_ids = λ x. text_ids-Member x result.hypotheses;
  evidence_refs = λ r. refs_of-Member r result.findings;
  authority = refl;
}

fresh_session-Fresh :
    (session_id case_id base : String)
    → Fresh session_id case_id base (fresh_session session_id case_id base)
fresh_session-Fresh session_id case_id base = record {
  session_id = refl;
  case_id = refl;
  base_result_sha256 = refl;
  proposals = refl;
  observations = refl;
  status = refl;
  max_steps = refl;
}

-- What `from_sealed_result` returns comes from a result that passes with its seal: the facts are
-- those of the result with the seal's digest (its case, verdict, unknowns and finding ids, the ids
-- of its fracture and hypothesis records, the references of its findings), and the session is an
-- empty one of the same case and digest, open and with at most 20 steps, which its constructor accepts.
pub investigator_from_sealed_result-Bound :
    (c : Platform) (result : Result) (seal : AuthoritySeal) (session_id : String)
    (r : InvestigationSession × AuthorizedFacts)
    → investigator_from_sealed_result c result seal session_id ≡ ok r
    → Bound c result seal session_id r
unfolding investigator_from_sealed_result facts_from_sealed_result bind_investigator
investigator_from_sealed_result-Bound c result seal session_id r h =
    let a = bind-returned (facts_from_sealed_result c result seal) _ h in
    let v =
      bind-returned (through_seal (verify_authoritative_result c (value_of result) seal)) _ a.1 in
    let fresh = fresh_session session_id result.case_id seal.sha256 in
    let b = bind-returned (through_contract (check_session fresh)) _ a.2 in
    let valid = through_contract_returned (check_session fresh) b.0 b.1 in
    let same = check_session_same fresh b.0 valid in
    let bound =
      require-true
        (str_eq a.0.case_id b.0.case_id && str_eq a.0.result_sha256 b.0.base_result_sha256)
        unbound_facts _ b.2 in
    let out = got refl bound.1 in
    record {
      verified = (
        v.0,
        through_seal_returned (verify_authoritative_result c (value_of result) seal) v.0 v.1,
      );
      facts =
          subst (FactsOf result seal)
            (check_facts_same (facts_of result seal) a.0 v.2 ∙ ap (λ x. x.1) out)
            (facts_of-FactsOf result seal);
      session =
          subst (Fresh session_id result.case_id seal.sha256) (same ∙ ap (λ x. x.0) out)
            (fresh_session-Fresh session_id result.case_id seal.sha256);
      valid =
          subst (λ s. check_session s ≡ ok s) (same ∙ ap (λ x. x.0) out) (valid ∙ ap ok (sym same));
    }
