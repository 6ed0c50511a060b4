-- ===== src/Investigation/Examples.antt =====
-- One turn of an investigation: a proposal, its observation and the session that holds them, over a
-- codec whose digest is one fixed text.
use zaynor.Prelude.{
  String, ◌≡◌, refl, true, false, some, [], ◌∷◌, ok, text_length, strip, is_blank, elem, All,
  raised, str_eq, if◌then◌else◌, ◌&&◌,
}
use zaynor.Investigation.Values.{
  Value, num, text, list, tuple, dict, end, entry, freeze, thaw, float_free, is_json, cons, nil,
  proxy,
}
use zaynor.Investigation.Contracts.{
  Codec, CapabilityEffect, «open», observed, acquire, is_text, is_sha256, check_text, check_sha256,
  canonical_json, untrusted,
}
use zaynor.Investigation.Proposal.{
  InvestigationProposal, check_proposal, proposal_as_dict, proposal_from_dict, arguments_digest,
}
use zaynor.Investigation.Observation.{
  ObservationEnvelope, check_observation, from_payload, is_untrusted,
}
use zaynor.Investigation.Session.{
  InvestigationSession, check_session, add_proposal, record_observation, distinct, one_case, bound,
}
use zaynor.Investigation.Ledger.{
  add_proposal_lem, record_observation_lem, with_proposal, with_observation,
}
use zaynor.Investigation.Steps.{here, next, proposes, observes, Bounded, Reaches-Bounded}
use zaynor.Investigation.Policy.{
  investigator, mentor, lacks_capability, authorize_tool, declared_tool_capability, effect_in,
  matching, permits, spec_for, same_effect,
}
use zaynor.Investigation.Authority.{
  authorize_tool-granted, authorize_tool-approved, granted, is_mentor,
}
use zaynor.Investigation.RoundTrip.{proposal_from_dict-as_dict}
use zaynor.Investigation.Envelope.{envelope, from_payload-envelope, Bound, check_observation-Bound}

abbrev pub digest : String
digest = "00000000000000000000000000000000000000000000000000000000000000aa"

abbrev pub fixed : Codec
fixed = record { Bytes = Value; dumps = λ v. some v; size = λ b. 100; sha256 = λ b. digest }

abbrev pub raw : InvestigationProposal
raw = record {
  proposal_id = "P1";
  case_id = "INC-1";
  question = "which hosts";
  rationale = "lateral movement";
  requested_tool = "collect_window";
  arguments = entry "hours" (list (cons (num 3) nil)) end;
  information_sought = "hosts";
}

abbrev pub made : InvestigationProposal
made = record raw { arguments = entry "hours" (tuple (cons (num 3) nil)) end }

made_accepted : check_proposal fixed raw ≡ ok made
unfolding check_proposal check_text is_text is_blank strip text_length canonical_json float_free
    thaw freeze
made_accepted = refl

proposal_from_dict-as_dict_example : proposal_from_dict fixed (proposal_as_dict made) ≡ ok made
proposal_from_dict-as_dict_example = proposal_from_dict-as_dict fixed raw made made_accepted

abbrev pub found : Value
found = dict (entry "hosts" (list (cons (text "a") nil)) end)

abbrev pub seen : ObservationEnvelope
seen = record {
  observation_id = "O1";
  case_id = "INC-1";
  proposal_id = "P1";
  tool_name = "collect_window";
  capability_effect = acquire;
  resource = "evidence_window";
  arguments_digest = digest;
  provider = "zaynor";
  payload = proxy (entry "hosts" (tuple (cons (text "a") nil)) end);
  truncated = false;
  status = observed;
  payload_sha256 = digest;
  epistemic_authority = untrusted;
}

from_payload-envelope_example :
    (b : Value) × (arguments_digest fixed made ≡ ok digest)
    × (from_payload fixed "O1" "INC-1" made acquire "evidence_window" "zaynor" found false observed
        ≡ ok (
            envelope fixed "O1" "evidence_window" "zaynor" made acquire found false observed b
              found))
unfolding is_sha256 is_text is_blank strip text_length canonical_json float_free thaw is_json
from_payload-envelope_example =
    from_payload-envelope fixed "O1" "evidence_window" "zaynor" raw made acquire found false
      observed found (λ b. refl)
      (record { id_text = refl; resource_text = refl; provider_text = refl }) made_accepted refl
      refl

seen_accepted : check_observation fixed seen ≡ ok seen
unfolding check_observation check_text check_sha256 is_text is_sha256 is_blank strip text_length
    canonical_json float_free thaw freeze is_untrusted
seen_accepted = refl

check_observation-Bound_example : Bound fixed seen
check_observation-Bound_example = check_observation-Bound fixed seen seen seen_accepted

abbrev pub fresh : InvestigationSession
fresh = record {
  session_id = "S1";
  case_id = "INC-1";
  base_result_sha256 = digest;
  proposals = [];
  observations = [];
  status = «open»;
  max_steps = 20;
}

pub fresh_accepted : check_session fresh ≡ ok fresh
unfolding check_session check_text check_sha256 is_text is_sha256 is_blank strip text_length
    distinct one_case bound
fresh_accepted = refl

abbrev pub asked : InvestigationSession
asked = record fresh { proposals = made ∷ [] }

abbrev answered : InvestigationSession
answered = record asked { observations = seen ∷ [] }

asks : add_proposal made fresh ≡ ok asked
unfolding add_proposal check_session check_text check_sha256 is_text is_sha256 is_blank strip
    text_length distinct one_case bound
asks = refl

answers : record_observation seen asked ≡ ok answered
unfolding record_observation check_session check_text check_sha256 is_text is_sha256 is_blank strip
    text_length distinct one_case bound
answers = refl

Reaches-Bounded_example : Bounded fresh answered
Reaches-Bounded_example =
    Reaches-Bounded fresh fresh_accepted refl
      (next (next here (proposes made asks)) (observes seen answers))

add_proposal_lem_example : add_proposal made fresh ≡ ok (with_proposal made fresh)
add_proposal_lem_example = add_proposal_lem made fresh fresh_accepted

asked_accepted : check_session asked ≡ ok asked
unfolding check_session check_text check_sha256 is_text is_sha256 is_blank strip text_length
    distinct one_case bound
asked_accepted = refl

record_observation_lem_example : record_observation seen asked ≡ ok (with_observation seen asked)
record_observation_lem_example = record_observation_lem seen asked asked_accepted

authorized : authorize_tool investigator "collect_window" true ≡ ok tt
unfolding authorize_tool declared_tool_capability effect_in matching permits spec_for same_effect
authorized = refl

authorize_tool-granted_example :
    (elem "collect_window" (spec_for investigator).tools ≡ true)
    × (e : CapabilityEffect × String) × (declared_tool_capability "collect_window" ≡ ok e)
    × (granted e.0 true ≡ true)
authorize_tool-granted_example =
    authorize_tool-granted investigator "collect_window" true authorized

authorize_tool-approved_example :
    All
      (λ tool.
        authorize_tool mentor tool true
        ≡ (if is_mentor mentor && str_eq tool "list_hunts" then raised lacks_capability else ok tt))
      (spec_for mentor).tools
authorize_tool-approved_example = authorize_tool-approved mentor
