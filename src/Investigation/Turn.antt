-- ===== src/Investigation/Turn.antt =====
-- What one turn leaves, and what a proposal read from a model's reply is good for.
use zaynor.Prelude.{
  require-true, String, ◌≡◌, refl, sym, ap, ◌∙◌, subst, true, false, not, Option, Outcome, ok,
  raised, require, leb, ltb, str_eq, elem, any, length, text_length, bind-returned, ◌*◌,
}
use zaynor.Investigation.Values.{Value}
use zaynor.Investigation.Contracts.{
  Codec, ContractError, case_mismatch, duplicate_proposal, duplicate_observation, unknown_proposal,
  exceeded_max_steps, canonical_json, CapabilityEffect, ObservationStatus, untrusted,
}
use zaynor.Investigation.Proposal.{
  InvestigationProposal, proposal_fields, keys, has_fields, proposal_of, arguments_digest,
}
use zaynor.Investigation.Observation.{ObservationEnvelope, from_payload}
use zaynor.Investigation.Session.{
  InvestigationSession, proposal_ids, observation_ids, check_session, add_proposal,
  record_observation,
}
use zaynor.Investigation.Ledger.{
  with_proposal, with_observation, add_proposal_lem, record_observation_lem, Checked-check_session,
  check_session-Checked, with_proposal-Checked, with_observation-Checked,
}
use zaynor.Investigation.Policy.{investigator, authorize_tool, declared_tool_capability}
use zaynor.Investigation.Envelope.{Bound, check_observation-Bound}
use zaynor.Investigation.Runner.{
  RunnerError, missing_or_too_large, authoritative_fields, wrong_fields, invalid_json,
  invalid_proposal, other_case, proposal_exists, operation_rejected, forbidden_authority_fields,
  Handled, BoundedInvestigator, raise_as, pass_on, some_or, as_object, parse_proposal, observe,
  execute, handler_of, payload_of,
}

pass_on-returned {ℓ} :
    {A : Type ℓ} (m : Outcome ContractError A) {a : A} → pass_on m ≡ ok a → m ≡ ok a
unfolding pass_on
pass_on-returned (ok a) h = cc
pass_on-returned (raised e) h = cc

raise_as-returned {ℓ} :
    {A : Type ℓ} {E : Type 0} (e : RunnerError) (m : Outcome E A) {a : A}
    → raise_as e m ≡ ok a
    → m ≡ ok a
unfolding raise_as
raise_as-returned e (ok a) h = cc
raise_as-returned e (raised x) h = cc

-- A session is the one session that a call gives back.
session-inj :
    (s t : InvestigationSession) (r : Outcome ContractError InvestigationSession)
    → r ≡ ok s
    → r ≡ ok t
    → s ≡ t
session-inj s t r h k = cc

turn-inj :
    (t u : BoundedInvestigator × ObservationEnvelope)
    (r : Outcome RunnerError (BoundedInvestigator × ObservationEnvelope))
    → r ≡ ok t
    → r ≡ ok u
    → t ≡ u
turn-inj t u r h k = cc

proposal-inj :
    (p q : InvestigationProposal) (r : Outcome RunnerError InvestigationProposal)
    → r ≡ ok p
    → r ≡ ok q
    → p ≡ q
proposal-inj p q r h k = cc

-- What `add_proposal` gives back on a valid session is valid, and is the session with the proposal.
pub add_proposal-returned :
    (p : InvestigationProposal) (s t : InvestigationSession)
    → check_session s ≡ ok s
    → add_proposal p s ≡ ok t
    → (with_proposal p s ≡ t) × (check_session t ≡ ok t)
add_proposal-returned p s t v e =
    let e' = sym (add_proposal_lem p s v) ∙ e in
    let h = require-true (str_eq p.case_id s.case_id) case_mismatch _ e' in
    let k =
      require-true (not (elem p.proposal_id (proposal_ids s.proposals))) duplicate_proposal _ h.1 in
    let l =
      require-true (ltb (length s.proposals) s.max_steps)
        (exceeded_max_steps (length s.proposals) s.max_steps) _ k.1 in
    let same = session-inj (with_proposal p s) t _ refl l.1 in
    (
      same,
      subst (λ x. check_session x ≡ ok x) same
          (Checked-check_session (with_proposal p s)
            (with_proposal-Checked p s (check_session-Checked s v) h.0 k.0)),
    )

pub record_observation-returned :
    (o : ObservationEnvelope) (s t : InvestigationSession)
    → check_session s ≡ ok s
    → record_observation o s ≡ ok t
    → (with_observation o s ≡ t) × (check_session t ≡ ok t)
record_observation-returned o s t v e =
    let e' = sym (record_observation_lem o s v) ∙ e in
    let h = require-true (str_eq o.case_id s.case_id) case_mismatch _ e' in
    let k = require-true (elem o.proposal_id (proposal_ids s.proposals)) unknown_proposal _ h.1 in
    let l =
      require-true (not (elem o.observation_id (observation_ids s.observations)))
        duplicate_observation _ k.1 in
    let same = session-inj (with_observation o s) t _ refl l.1 in
    (
      same,
      subst (λ x. check_session x ≡ ok x) same
          (Checked-check_session (with_observation o s)
            (with_observation-Checked o s (check_session-Checked s v) h.0 k.0 l.0)),
    )

module _ (c : Codec) (loads : String → Option Value) (hash_text : String → String) where
  -- What a turn that returns has done.
  pub record Turned (p : InvestigationProposal) (r r' : BoundedInvestigator)
      (o : ObservationEnvelope) : Type 0 where
    pub granted : authorize_tool investigator p.requested_tool r.human_approved ≡ ok tt
    pub recorded : with_observation o (with_proposal p r.session) ≡ r'.session
    pub valid : check_session r'.session ≡ ok r'.session
    pub bound : Bound c o

  from_payload-Bound :
      (i case_id resource provider : String) (p : InvestigationProposal) (e : CapabilityEffect)
      (v : Value) (status : ObservationStatus) (o : ObservationEnvelope)
      → from_payload c i case_id p e resource provider v false status ≡ ok o
      → Bound c o
  unfolding from_payload
  from_payload-Bound i case_id resource provider p e v status o h =
      let a = bind-returned (require (str_eq p.case_id case_id) case_mismatch) _ h in
      let b = bind-returned (canonical_json c v "payload") _ a.2 in
      let d = bind-returned (arguments_digest c p) _ b.2 in
      check_observation-Bound c
        (record {
          observation_id = i;
          case_id = case_id;
          proposal_id = p.proposal_id;
          tool_name = p.requested_tool;
          capability_effect = e;
          resource = resource;
          arguments_digest = d.0;
          provider = provider;
          payload = v;
          truncated = false;
          status = status;
          payload_sha256 = c.sha256 b.0;
          epistemic_authority = untrusted;
        })
        o d.2

  observe-Bound :
      (r : BoundedInvestigator) (s : InvestigationSession) (p : InvestigationProposal) (h : Handled)
      (o : ObservationEnvelope)
      → observe c loads hash_text r s p h ≡ ok o
      → Bound c o
  unfolding observe
  observe-Bound r s p h o k =
      let a =
        bind-returned (raise_as operation_rejected (declared_tool_capability p.requested_tool)) _
          k in
      let b = bind-returned (some_or operation_rejected (c.dumps (payload_of h))) _ a.2 in
      from_payload-Bound _ _ _ _ _ _ _ _ _ (raise_as-returned operation_rejected _ b.2)

  -- A turn on a valid session that returns was granted by the policy; it has recorded the proposal
  -- and one observation, which carries the digest of its payload, and has left a valid session.
  pub execute-Turned :
      (p : InvestigationProposal) (r r' : BoundedInvestigator) (o : ObservationEnvelope)
      → check_session r.session ≡ ok r.session
      → execute c loads hash_text p r ≡ ok (r', o)
      → Turned p r r' o
  unfolding execute
  execute-Turned p r r' o v h =
      let a = bind-returned (require (str_eq p.case_id r.session.case_id) other_case) _ h in
      let b = bind-returned (pass_on (add_proposal p r.session)) _ a.2 in
      let d =
        bind-returned
          (raise_as operation_rejected
            (authorize_tool investigator p.requested_tool r.human_approved))
          _ b.2 in
      let e =
        bind-returned (some_or operation_rejected (handler_of p.requested_tool r.handlers)) _ d.2 in
      let f = bind-returned (observe c loads hash_text r b.0 p (e.0 p.arguments)) _ e.2 in
      let g = bind-returned (pass_on (record_observation f.0 b.0)) _ f.2 in
      let added =
        add_proposal-returned p r.session b.0 v (pass_on-returned (add_proposal p r.session) b.1) in
      let seen =
        record_observation-returned f.0 b.0 g.0 added.1
          (pass_on-returned (record_observation f.0 b.0) g.1) in
      let ends = turn-inj _ (r', o) _ refl g.2 in
      record {
        granted = raise_as-returned operation_rejected _ d.1;
        recorded =
            ap (λ x. with_observation x (with_proposal p r.session)) (sym (ap (λ x. x.1) ends))
            ∙ ap (λ x. with_observation f.0 x) added.0
            ∙ seen.0
            ∙ ap (λ x. x.0.session) ends;
        valid = subst (λ x. check_session x ≡ ok x) (ap (λ x. x.0.session) ends) seen.1;
        bound =
            subst (λ x. Bound c x) (ap (λ x. x.1) ends)
              (observe-Bound r b.0 p (e.0 p.arguments) f.0 f.1);
      }

  -- A proposal that was read from a model's reply for a valid session with a step left is one that
  -- `add_proposal` accepts.
  pub parse_proposal-add_proposal :
      (raw_text : String) (s : InvestigationSession) (p : InvestigationProposal)
      → check_session s ≡ ok s
      → parse_proposal c loads hash_text raw_text s ≡ ok p
      → ltb (length s.proposals) s.max_steps ≡ true
      → add_proposal p s ≡ ok (with_proposal p s)
  unfolding parse_proposal
  parse_proposal-add_proposal raw_text s p v h room =
      let a =
        bind-returned (require (leb (text_length raw_text) (32 * 1024)) missing_or_too_large) _ h in
      let b = bind-returned (some_or invalid_json (loads raw_text)) _ a.2 in
      let d = bind-returned (as_object b.0) _ b.2 in
      let e =
        bind-returned
          (require (not (any (λ k. elem k forbidden_authority_fields) (keys d.0)))
            authoritative_fields)
          _ d.2 in
      let f = bind-returned (require (has_fields proposal_fields d.0) wrong_fields) _ e.2 in
      let g = bind-returned (raise_as invalid_proposal (proposal_of c d.0)) _ f.2 in
      let i = require-true (str_eq g.0.case_id s.case_id) other_case _ g.2 in
      let j =
        require-true (not (elem g.0.proposal_id (proposal_ids s.proposals))) proposal_exists _
          i.1 in
      subst (λ q. add_proposal q s ≡ ok (with_proposal q s)) (proposal-inj _ p _ refl j.1)
        (add_proposal_lem g.0 s v ∙ simp (i.0, j.0, room))
