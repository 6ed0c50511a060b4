-- ===== src/Investigation/Restored.antt =====
-- Envelopes that are sent as dictionaries and read back.
use zaynor.Prelude.{require-true, ◌≡◌, refl, sym, ap, ◌∙◌, ok, str_eq, bind-returned}
use zaynor.Investigation.Values.{freeze, thaw, freeze_value-thaw}
use zaynor.Investigation.Contracts.{
  Codec, not_untrusted, hash_mismatch, EpistemicAuthority, authorized, untrusted, ObservationStatus,
  observed, rejected, error, CapabilityEffect, read, derive, acquire, mutate, authorize, check_text,
  check_sha256, canonical_json,
}
use zaynor.Investigation.Proposal.{lookup, keys, has_fields, string_field, invalid_projection}
use zaynor.Investigation.Observation.{ObservationEnvelope, check_observation, is_untrusted}
use zaynor.Investigation.Envelope.{observation-inj}
use zaynor.Investigation.Projection.{
  effect_text, effect_named, status_text, status_named, authority_text, authority_named,
  observation_as_dict, observation_of, observation_from_dict, value_field, bool_field,
}

effect_named-text : (e : CapabilityEffect) → effect_named (effect_text e) ≡ ok e
unfolding effect_named
effect_named-text read = refl
effect_named-text derive = refl
effect_named-text acquire = refl
effect_named-text mutate = refl
effect_named-text authorize = refl

status_named-text : (s : ObservationStatus) → status_named (status_text s) ≡ ok s
unfolding status_named
status_named-text observed = refl
status_named-text rejected = refl
status_named-text error = refl

authority_named-text : (a : EpistemicAuthority) → authority_named (authority_text a) ≡ ok a
unfolding authority_named
authority_named-text authorized = refl
authority_named-text untrusted = refl

restores : (o : ObservationEnvelope) → invalid_projection {A = ObservationEnvelope} (ok o) ≡ ok o
unfolding invalid_projection
restores o = refl

module _ (c : Codec) where
  -- The constructor gives back the envelope with its payload frozen.
  check_observation-frozen :
      (raw o : ObservationEnvelope)
      → check_observation c raw ≡ ok o
      → record raw { payload = freeze raw.payload } ≡ o
  unfolding check_observation
  check_observation-frozen raw o h =
      let a1 = bind-returned (check_text raw.observation_id "observation_id") _ h in
      let a2 = bind-returned (check_text raw.case_id "case_id") _ a1.2 in
      let a3 = bind-returned (check_text raw.proposal_id "proposal_id") _ a2.2 in
      let a4 = bind-returned (check_text raw.tool_name "tool_name") _ a3.2 in
      let a5 = bind-returned (check_text raw.resource "resource") _ a4.2 in
      let a6 = bind-returned (check_text raw.provider "provider") _ a5.2 in
      let a7 = bind-returned (check_sha256 raw.arguments_digest "arguments_digest") _ a6.2 in
      let a8 = bind-returned (check_sha256 raw.payload_sha256 "payload_sha256") _ a7.2 in
      let a9 = require-true (is_untrusted raw.epistemic_authority) not_untrusted _ a8.2 in
      let b = bind-returned (canonical_json c (freeze raw.payload) "payload") _ a9.1 in
      let d = require-true (str_eq (c.sha256 b.0) raw.payload_sha256) hash_mismatch _ b.2 in
      observation-inj _ o refl d.1

  observation_of-as_dict :
      (o : ObservationEnvelope)
      → observation_of c (observation_as_dict o)
        ≡ check_observation c (record o { payload = thaw o.payload })
  unfolding observation_of observation_as_dict string_field value_field bool_field lookup
  observation_of-as_dict o = simp (effect_named-text, status_named-text, authority_named-text)

  recheck_observation :
      (raw : ObservationEnvelope)
      → check_observation c (record raw { payload = thaw (freeze raw.payload) })
        ≡ check_observation c raw
  unfolding check_observation
  recheck_observation raw = simp (freeze_value-thaw raw.payload)

  -- Reading back the dictionary of an envelope that the constructor made gives the same envelope.
  pub observation_from_dict-as_dict :
      (raw o : ObservationEnvelope)
      → check_observation c raw ≡ ok o
      → observation_from_dict c (observation_as_dict o) ≡ ok o
  unfolding observation_from_dict has_fields keys observation_as_dict
  observation_from_dict-as_dict raw o h =
      ap (λ q. invalid_projection (observation_of c (observation_as_dict q)))
        (sym (check_observation-frozen raw o h))
      ∙ ap (λ r. invalid_projection r)
          (observation_of-as_dict (record raw { payload = freeze raw.payload })
            ∙ recheck_observation raw
            ∙ h)
      ∙ restores o
