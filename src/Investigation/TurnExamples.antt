-- ===== src/Investigation/TurnExamples.antt =====
-- A turn of the investigator with one handler, over the examples' codec.
use zaynor.Prelude.{
  String, ◌≡◌, refl, true, Option, some, [], ◌∷◌, ok, text_length, strip, is_blank,
}
use zaynor.Investigation.Values.{Value, dict, float_free, thaw, freeze}
use zaynor.Investigation.Contracts.{check_text, check_sha256, is_text, is_sha256, canonical_json}
use zaynor.Investigation.Proposal.{
  proposal_as_dict, proposal_of, check_proposal, arguments_digest, has_fields, keys, lookup,
  string_field, object_field,
}
use zaynor.Investigation.Observation.{check_observation, from_payload, is_untrusted}
use zaynor.Investigation.Session.{
  add_proposal, record_observation, check_session, distinct, one_case, bound,
}
use zaynor.Investigation.Ledger.{with_proposal, with_observation}
use zaynor.Investigation.Policy.{
  authorize_tool, declared_tool_capability, effect_in, matching, permits, spec_for, same_effect,
}
use zaynor.Investigation.Runner.{
  returned, BoundedInvestigator, parse_proposal, execute, observe, handler_of, payload_of,
  status_of, raise_as, pass_on, some_or, as_object,
}
use zaynor.Investigation.Turn.{Turned, execute-Turned, parse_proposal-add_proposal}
use zaynor.Investigation.Projection.{observation_as_dict, observation_from_dict}
use zaynor.Investigation.Restored.{observation_from_dict-as_dict}
use zaynor.Investigation.Snapshot.{session_as_dict, session_from_dict}
use zaynor.Investigation.Resumed.{session_from_dict-as_dict}
use zaynor.Investigation.Examples.{fixed, raw, made, found, seen, fresh, fresh_accepted}

abbrev reads : String → Option Value
reads s = some (dict (proposal_as_dict raw))

abbrev hashed : String → String
hashed s = "O1"

abbrev bot : BoundedInvestigator
bot = record {
  session = fresh;
  handlers = ("collect_window", λ arguments. returned found) ∷ [];
  human_approved = true;
  provider = "zaynor";
}

runs :
    execute fixed reads hashed made bot
    ≡ ok (record bot { session = with_observation seen (with_proposal made fresh) }, seen)
unfolding execute observe add_proposal record_observation check_session distinct one_case bound
    check_text check_sha256 is_text is_sha256 is_blank strip text_length authorize_tool
    declared_tool_capability effect_in matching permits spec_for same_effect handler_of payload_of
    status_of raise_as pass_on some_or from_payload check_observation is_untrusted arguments_digest
    canonical_json float_free thaw freeze
runs = refl

parsed : parse_proposal fixed reads hashed "{}" fresh ≡ ok made
unfolding parse_proposal some_or as_object has_fields keys lookup string_field object_field raise_as
    proposal_of proposal_as_dict check_proposal check_text is_text is_blank strip text_length
    canonical_json float_free thaw freeze
parsed = refl

execute-Turned_example :
    Turned fixed reads hashed made bot
      (record bot { session = with_observation seen (with_proposal made fresh) })
      seen
execute-Turned_example =
    execute-Turned fixed reads hashed made bot
      (record bot { session = with_observation seen (with_proposal made fresh) }) seen
      fresh_accepted runs

parse_proposal-add_proposal_example : add_proposal made fresh ≡ ok (with_proposal made fresh)
parse_proposal-add_proposal_example =
    parse_proposal-add_proposal fixed reads hashed "{}" fresh made fresh_accepted parsed refl

seen_accepted_again : check_observation fixed seen ≡ ok seen
unfolding check_observation check_text check_sha256 is_text is_sha256 is_blank strip text_length
    canonical_json float_free thaw freeze is_untrusted
seen_accepted_again = refl

observation_from_dict-as_dict_example :
    observation_from_dict fixed (observation_as_dict seen) ≡ ok seen
observation_from_dict-as_dict_example =
    observation_from_dict-as_dict fixed seen seen seen_accepted_again

answered_accepted :
    check_session (with_observation seen (with_proposal made fresh))
    ≡ ok (with_observation seen (with_proposal made fresh))
unfolding check_session check_text check_sha256 is_text is_sha256 is_blank strip text_length
    distinct one_case bound
answered_accepted = refl

made_once : check_proposal fixed raw ≡ ok made
unfolding check_proposal check_text is_text is_blank strip text_length canonical_json float_free
    thaw freeze
made_once = refl

session_from_dict-as_dict_example :
    session_from_dict fixed (session_as_dict (with_observation seen (with_proposal made fresh)))
    ≡ ok (with_observation seen (with_proposal made fresh))
session_from_dict-as_dict_example =
    session_from_dict-as_dict fixed (with_observation seen (with_proposal made fresh))
      answered_accepted (record { raw = raw; made = made_once }, tt)
      (record { raw = seen; made = seen_accepted_again }, tt)
