-- ===== src/Investigation/Ledger.antt =====
-- What the ledger keeps: the checks of `InvestigationSession` over its two operations.
use zaynor.Prelude.{
  String, ◌≡◌, refl, ap, ◌∙◌, true, ◌||◌, not, List, [], ◌∷◌, ◌++◌, ok, ◌>>◌, require, require-true,
  str_eq, eq_iff, ltb, elem, length, arith, inl, inr, Bool-cases,
}
use zaynor.Investigation.Contracts.{
  bad_text, bad_digest, bad_max_steps, case_mismatch, duplicate_proposal, duplicate_observation,
  unbound_observation, unknown_proposal, exceeded_max_steps, is_text, is_sha256, check_text,
  check_sha256,
}
use zaynor.Investigation.Proposal.{InvestigationProposal}
use zaynor.Investigation.Observation.{ObservationEnvelope}
use zaynor.Investigation.Session.{
  InvestigationSession, proposal_ids, observation_ids, distinct, one_case, bound, check_session,
  add_proposal, record_observation,
}

-- What the constructor tests, field by field.
pub record Checked (s : InvestigationSession) : Type 0 where
  pub named : is_text s.session_id ≡ true
  pub of_case : is_text s.case_id ≡ true
  pub anchored : is_sha256 s.base_result_sha256 ≡ true
  pub bounded : ltb 0 s.max_steps ≡ true
  pub distinct_proposals : distinct (proposal_ids s.proposals) ≡ true
  pub one_case_only : one_case s.case_id s.proposals ≡ true
  pub distinct_observations : distinct (observation_ids s.observations) ≡ true
  pub all_bound : bound s.case_id (proposal_ids s.proposals) s.observations ≡ true

pub check_session-Checked : (s : InvestigationSession) → check_session s ≡ ok s → Checked s
unfolding check_session check_text check_sha256
check_session-Checked s h =
    let a = require-true (is_text s.session_id) (bad_text "session_id") _ h in
    let b = require-true (is_text s.case_id) (bad_text "case_id") _ a.1 in
    let c = require-true (is_sha256 s.base_result_sha256) (bad_digest "base_result_sha256") _ b.1 in
    let d = require-true (ltb 0 s.max_steps) bad_max_steps _ c.1 in
    let e = require-true (distinct (proposal_ids s.proposals)) duplicate_proposal _ d.1 in
    let f = require-true (one_case s.case_id s.proposals) case_mismatch _ e.1 in
    let g = require-true (distinct (observation_ids s.observations)) duplicate_observation _ f.1 in
    let i =
      require-true (bound s.case_id (proposal_ids s.proposals) s.observations) unbound_observation _
        g.1 in
    record {
      named = a.0;
      of_case = b.0;
      anchored = c.0;
      bounded = d.0;
      distinct_proposals = e.0;
      one_case_only = f.0;
      distinct_observations = g.0;
      all_bound = i.0;
    }

pub Checked-check_session : (s : InvestigationSession) → Checked s → check_session s ≡ ok s
unfolding check_session check_text check_sha256
Checked-check_session s v = simp (
  v.named, v.of_case, v.anchored, v.bounded, v.distinct_proposals, v.one_case_only,
  v.distinct_observations, v.all_bound,
)

elem-append : (i : String) (xs ys : List String) → elem i (xs ++ ys) ≡ (elem i xs || elem i ys)
elem-append i [] ys = refl
elem-append i (x ∷ xs) ys = ground (arith, elem-append i xs ys)

str_eq_sym : (i j : String) → str_eq i j ≡ str_eq j i
str_eq_sym i j = ground (arith, eq_iff i j, eq_iff j i)

distinct-append :
    (ids : List String) (i : String)
    → distinct ids ≡ true
    → not (elem i ids) ≡ true
    → distinct (ids ++ i ∷ []) ≡ true
unfolding distinct
distinct-append [] i h k = refl
distinct-append (j ∷ ids) i h k =
    ground (arith, elem-append j ids (i ∷ []), str_eq_sym i j, distinct-append ids i)

one_case-append :
    (case_id : String) (ps : List InvestigationProposal) (p : InvestigationProposal)
    → one_case case_id ps ≡ true
    → str_eq p.case_id case_id ≡ true
    → one_case case_id (ps ++ p ∷ []) ≡ true
unfolding one_case
one_case-append case_id [] p h k = ground arith
one_case-append case_id (q ∷ ps) p h k = ground (arith, one_case-append case_id ps p)

bound-append :
    (case_id : String) (ids : List String) (os : List ObservationEnvelope) (o : ObservationEnvelope)
    → bound case_id ids os ≡ true
    → str_eq o.case_id case_id ≡ true
    → elem o.proposal_id ids ≡ true
    → bound case_id ids (os ++ o ∷ []) ≡ true
unfolding bound
bound-append case_id ids [] o h k l = ground arith
bound-append case_id ids (q ∷ os) o h k l = ground (arith, bound-append case_id ids os o)

bound-more :
    (case_id : String) (ids : List String) (i : String) (os : List ObservationEnvelope)
    → bound case_id ids os ≡ true
    → bound case_id (ids ++ i ∷ []) os ≡ true
unfolding bound
bound-more case_id ids i [] h = refl
bound-more case_id ids i (o ∷ os) h =
    ground (arith, bound-more case_id ids i os, elem-append o.proposal_id ids (i ∷ []))

proposal_ids-append :
    (ps : List InvestigationProposal) (p : InvestigationProposal)
    → proposal_ids (ps ++ p ∷ []) ≡ proposal_ids ps ++ p.proposal_id ∷ []
proposal_ids-append [] p = refl
proposal_ids-append (q ∷ ps) p = ap (λ ids. q.proposal_id ∷ ids) (proposal_ids-append ps p)

observation_ids-append :
    (os : List ObservationEnvelope) (o : ObservationEnvelope)
    → observation_ids (os ++ o ∷ []) ≡ observation_ids os ++ o.observation_id ∷ []
observation_ids-append [] o = refl
observation_ids-append (q ∷ os) o = ap (λ ids. q.observation_id ∷ ids) (observation_ids-append os o)

abbrev pub with_proposal : InvestigationProposal → InvestigationSession → InvestigationSession
with_proposal p s = record s { proposals = s.proposals ++ p ∷ [] }

abbrev pub with_observation : ObservationEnvelope → InvestigationSession → InvestigationSession
with_observation o s = record s { observations = s.observations ++ o ∷ [] }

pub with_proposal-Checked :
    (p : InvestigationProposal) (s : InvestigationSession)
    → Checked s
    → str_eq p.case_id s.case_id ≡ true
    → not (elem p.proposal_id (proposal_ids s.proposals)) ≡ true
    → Checked (with_proposal p s)
with_proposal-Checked p s v h k = record {
  named = v.named;
  of_case = v.of_case;
  anchored = v.anchored;
  bounded = v.bounded;
  distinct_proposals =
      ap distinct (proposal_ids-append s.proposals p)
      ∙ distinct-append (proposal_ids s.proposals) p.proposal_id v.distinct_proposals k;
  one_case_only = one_case-append s.case_id s.proposals p v.one_case_only h;
  distinct_observations = v.distinct_observations;
  all_bound =
      ap (λ ids. bound s.case_id ids s.observations) (proposal_ids-append s.proposals p)
      ∙ bound-more s.case_id (proposal_ids s.proposals) p.proposal_id s.observations v.all_bound;
}

pub with_observation-Checked :
    (o : ObservationEnvelope) (s : InvestigationSession)
    → Checked s
    → str_eq o.case_id s.case_id ≡ true
    → elem o.proposal_id (proposal_ids s.proposals) ≡ true
    → not (elem o.observation_id (observation_ids s.observations)) ≡ true
    → Checked (with_observation o s)
with_observation-Checked o s v h k l = record {
  named = v.named;
  of_case = v.of_case;
  anchored = v.anchored;
  bounded = v.bounded;
  distinct_proposals = v.distinct_proposals;
  one_case_only = v.one_case_only;
  distinct_observations =
      ap distinct (observation_ids-append s.observations o)
      ∙ distinct-append (observation_ids s.observations) o.observation_id v.distinct_observations l;
  all_bound = bound-append s.case_id (proposal_ids s.proposals) s.observations o v.all_bound h k;
}

-- On a session that its constructor accepts, `add_proposal` raises by its own three guards alone:
-- the constructor, which `replace` runs again, accepts the longer session.
pub add_proposal_lem :
    (p : InvestigationProposal) (s : InvestigationSession)
    → check_session s ≡ ok s
    → add_proposal p s ≡ (do
      require (str_eq p.case_id s.case_id) case_mismatch
      require (not (elem p.proposal_id (proposal_ids s.proposals))) duplicate_proposal
      require
          (ltb (length s.proposals) s.max_steps)
          (exceeded_max_steps (length s.proposals) s.max_steps)
      ok (with_proposal p s))
unfolding add_proposal
add_proposal_lem p s v = elim (Bool-cases (str_eq p.case_id s.case_id)) [
  | inr h ↦ simp h
  | inl h ↦ elim (Bool-cases (not (elem p.proposal_id (proposal_ids s.proposals)))) [
    | inr k ↦ simp (h, k)
    | inl k ↦ simp (
      h,
      k,
      Checked-check_session (with_proposal p s)
          (with_proposal-Checked p s (check_session-Checked s v) h k),
    )
  ]
]

-- On a session that its constructor accepts, `record_observation` raises by its own three guards
-- alone: the constructor, which `replace` runs again, accepts the longer session.
pub record_observation_lem :
    (o : ObservationEnvelope) (s : InvestigationSession)
    → check_session s ≡ ok s
    → record_observation o s ≡ (do
      require (str_eq o.case_id s.case_id) case_mismatch
      require (elem o.proposal_id (proposal_ids s.proposals)) unknown_proposal
      require (not (elem o.observation_id (observation_ids s.observations))) duplicate_observation
      ok (with_observation o s))
unfolding record_observation
record_observation_lem o s v = elim (Bool-cases (str_eq o.case_id s.case_id)) [
  | inr h ↦ simp h
  | inl h ↦ elim (Bool-cases (elem o.proposal_id (proposal_ids s.proposals))) [
    | inr k ↦ simp (h, k)
    | inl k ↦ elim (Bool-cases (not (elem o.observation_id (observation_ids s.observations)))) [
      | inr l ↦ simp (h, k, l)
      | inl l ↦ simp (
        h,
        k,
        l,
        Checked-check_session (with_observation o s)
            (with_observation-Checked o s (check_session-Checked s v) h k l),
      )
    ]
  ]
]
