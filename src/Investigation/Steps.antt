-- ===== src/Investigation/Steps.antt =====
-- The sessions that the two operations reach from a new one.
use zaynor.Prelude.{
  require-true, ◌≤◌, ◌≡◌, refl, sym, ap, ◌∙◌, subst, true, not, [], ◌∷◌, Outcome, ok, str_eq, ltb,
  elem, length, length-append, arith,
}
use zaynor.Investigation.Contracts.{
  ContractError, case_mismatch, duplicate_proposal, duplicate_observation, unknown_proposal,
  exceeded_max_steps,
}
use zaynor.Investigation.Proposal.{InvestigationProposal}
use zaynor.Investigation.Observation.{ObservationEnvelope}
use zaynor.Investigation.Session.{
  InvestigationSession, proposal_ids, observation_ids, check_session, add_proposal,
  record_observation,
}
use zaynor.Investigation.Ledger.{
  check_session-Checked, Checked-check_session, with_proposal, with_observation,
  with_proposal-Checked, with_observation-Checked, add_proposal_lem, record_observation_lem,
}

-- One call that returns.
pub data Extends (s t : InvestigationSession) : Type 0 where
  proposes : (p : InvestigationProposal) → add_proposal p s ≡ ok t → Extends s t
  observes : (o : ObservationEnvelope) → record_observation o s ≡ ok t → Extends s t

pub data Reaches (start : InvestigationSession) : InvestigationSession → Type 0 where
  here : Reaches start start
  next : {s t : InvestigationSession} → Reaches start s → Extends s t → Reaches start t

-- What a session keeps.
pub record Bounded (start s : InvestigationSession) : Type 0 where
  pub valid : check_session s ≡ ok s
  pub within : length s.proposals ≤ start.max_steps
  pub same_case : s.case_id ≡ start.case_id
  pub same_result : s.base_result_sha256 ≡ start.base_result_sha256
  pub same_limit : s.max_steps ≡ start.max_steps

module _ (start : InvestigationSession) where
  with_proposal-Bounded :
      (p : InvestigationProposal) (s : InvestigationSession)
      → Bounded start s
      → str_eq p.case_id s.case_id ≡ true
      → not (elem p.proposal_id (proposal_ids s.proposals)) ≡ true
      → ltb (length s.proposals) s.max_steps ≡ true
      → Bounded start (with_proposal p s)
  with_proposal-Bounded p s b h k l = record {
    valid =
        Checked-check_session (with_proposal p s)
          (with_proposal-Checked p s (check_session-Checked s b.valid) h k);
    within = let q = b.same_limit in let r = length-append s.proposals (p ∷ []) in ground arith;
    same_case = b.same_case;
    same_result = b.same_result;
    same_limit = b.same_limit;
  }

  with_observation-Bounded :
      (o : ObservationEnvelope) (s : InvestigationSession)
      → Bounded start s
      → str_eq o.case_id s.case_id ≡ true
      → elem o.proposal_id (proposal_ids s.proposals) ≡ true
      → not (elem o.observation_id (observation_ids s.observations)) ≡ true
      → Bounded start (with_observation o s)
  with_observation-Bounded o s b h k l = record {
    valid =
        Checked-check_session (with_observation o s)
          (with_observation-Checked o s (check_session-Checked s b.valid) h k l);
    within = b.within;
    same_case = b.same_case;
    same_result = b.same_result;
    same_limit = b.same_limit;
  }

  returned-Bounded :
      (s t : InvestigationSession) (r : Outcome ContractError InvestigationSession)
      → Bounded start s
      → r ≡ ok s
      → r ≡ ok t
      → Bounded start t
  returned-Bounded s t r b h k = let same : s ≡ t = cc in subst (λ x. Bounded start x) same b

  Extends-Bounded : {s t : InvestigationSession} → Bounded start s → Extends s t → Bounded start t
  Extends-Bounded {s} {t} b (proposes p e) =
      let e' = sym (add_proposal_lem p s b.valid) ∙ e in
      let h = require-true (str_eq p.case_id s.case_id) case_mismatch _ e' in
      let k =
        require-true (not (elem p.proposal_id (proposal_ids s.proposals))) duplicate_proposal _
          h.1 in
      let l =
        require-true (ltb (length s.proposals) s.max_steps)
          (exceeded_max_steps (length s.proposals) s.max_steps) _ k.1 in
      returned-Bounded (with_proposal p s) t _ (with_proposal-Bounded p s b h.0 k.0 l.0) refl l.1
  Extends-Bounded {s} {t} b (observes o e) =
      let e' = sym (record_observation_lem o s b.valid) ∙ e in
      let h = require-true (str_eq o.case_id s.case_id) case_mismatch _ e' in
      let k = require-true (elem o.proposal_id (proposal_ids s.proposals)) unknown_proposal _ h.1 in
      let l =
        require-true (not (elem o.observation_id (observation_ids s.observations)))
          duplicate_observation _ k.1 in
      returned-Bounded (with_observation o s) t _ (with_observation-Bounded o s b h.0 k.0 l.0) refl
        l.1

  -- From a session that its constructor accepts and that holds no proposals yet, whatever calls of
  -- `add_proposal` and `record_observation` return, one after the other, lead to a session that the
  -- constructor accepts, of the same case, result and limit, with at most `max_steps` proposals.
  pub Reaches-Bounded :
      {s : InvestigationSession}
      → check_session start ≡ ok start
      → start.proposals ≡ []
      → Reaches start s
      → Bounded start s
  Reaches-Bounded v none_yet here = record {
    valid = v;
    within = let l : length start.proposals ≡ 0 = ap (λ ps. length ps) none_yet in omega arith;
    same_case = refl;
    same_result = refl;
    same_limit = refl;
  }
  Reaches-Bounded v none_yet (next r e) = Extends-Bounded (Reaches-Bounded v none_yet r) e
