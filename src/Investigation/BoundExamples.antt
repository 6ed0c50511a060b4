-- ===== src/Investigation/BoundExamples.antt =====
-- An investigator from the sealed result of the guard's examples.
use zaynor.Prelude.{◌≡◌, refl, ok, text_length, is_blank}
use zaynor.Seal.Values.{typed, sort_pairs}
use zaynor.Seal.Sealing.{
  verify_authoritative_result, seal_authoritative_result, attribute, other_schema,
}
use zaynor.Guard.Result.{value_of}
use zaynor.Guard.Examples.{machine, result, seal}
use zaynor.Investigation.Contracts.{check_text, check_sha256, is_text, is_sha256}
use zaynor.Investigation.Session.{InvestigationSession, check_session, distinct, one_case, bound}
use zaynor.Investigation.Facts.{
  AuthorizedFacts, facts_of, fresh_session, check_facts, bind_investigator,
  facts_from_sealed_result, investigator_from_sealed_result,
}
use zaynor.Investigation.Bound.{Bound, investigator_from_sealed_result-Bound}

abbrev made : InvestigationSession × AuthorizedFacts
made = (fresh_session "s-1" "INC-1" seal.sha256, facts_of result seal)

made_returned : investigator_from_sealed_result machine result seal "s-1" ≡ ok made
unfolding investigator_from_sealed_result facts_from_sealed_result bind_investigator check_facts
    check_session check_text check_sha256 value_of typed sort_pairs verify_authoritative_result
    seal_authoritative_result attribute other_schema text_length is_text is_sha256 is_blank distinct
    one_case bound
made_returned = refl

investigator_from_sealed_result-Bound_example : Bound machine result seal "s-1" made
investigator_from_sealed_result-Bound_example =
    investigator_from_sealed_result-Bound machine result seal "s-1" made made_returned
