-- ===== src/Investigation/Envelope.antt =====
-- The envelope that `ObservationEnvelope.from_payload` puts around a tool's result.
use zaynor.Prelude.{
  require-true, String, ◌≡◌, refl, sym, subst, Bool, true, Outcome, ok, str_eq, eq_refl, eq_iff,
  bind-returned, arith, inl, inr, Bool-cases,
}
use zaynor.Investigation.Values.{
  Value, dict, proxy, freeze, freeze_entries, thaw, thaw-freeze_eq, float_free, float_free-freeze,
  is_json,
}
use zaynor.Investigation.Contracts.{
  Codec, ContractError, check_text, check_sha256, is_sha256, is_text, canonical_json,
  EpistemicAuthority, untrusted, CapabilityEffect, ObservationStatus, not_untrusted, hash_mismatch,
  authorized,
}
use zaynor.Investigation.Proposal.{InvestigationProposal, check_proposal, arguments_digest}
use zaynor.Investigation.Observation.{
  ObservationEnvelope, check_observation, from_payload, is_untrusted,
}
use zaynor.Investigation.RoundTrip.{ok-inj}

pub observation-inj :
    (o t : ObservationEnvelope) {r : Outcome ContractError ObservationEnvelope}
    → ok o ≡ r
    → r ≡ ok t
    → o ≡ t
observation-inj o t h k = cc

-- The texts that an envelope names are accepted by `_text`.
pub record Named (observation_id resource provider : String) : Type 0 where
  pub id_text : is_text observation_id ≡ true
  pub resource_text : is_text resource ≡ true
  pub provider_text : is_text provider ≡ true

module _ (c : Codec) where
  open c use {Bytes, sha256}

  canonical_json-freeze :
      (v : Value) (field : String)
      → is_json v ≡ true
      → canonical_json c (freeze v) field ≡ canonical_json c v field
  unfolding canonical_json
  canonical_json-freeze v field h = rw (float_free-freeze v, thaw-freeze_eq v h)

  -- What `check_proposal` has accepted.
  pub record Accepted (p : InvestigationProposal) : Type 0 where
    pub id_text : is_text p.proposal_id ≡ true
    pub case_text : is_text p.case_id ≡ true
    pub tool_text : is_text p.requested_tool ≡ true
    pub encoded : Bytes
    pub canonical : canonical_json c (dict p.arguments) "arguments" ≡ ok encoded

  unfoldable pub envelope :
      String
      → String
      → String
      → InvestigationProposal
      → CapabilityEffect
      → Value
      → Bool
      → ObservationStatus
      → Bytes
      → Bytes
      → ObservationEnvelope
  envelope observation_id resource provider p effect payload truncated status arguments encoded =
      record {
        observation_id = observation_id;
        case_id = p.case_id;
        proposal_id = p.proposal_id;
        tool_name = p.requested_tool;
        capability_effect = effect;
        resource = resource;
        arguments_digest = sha256 arguments;
        provider = provider;
        payload = freeze payload;
        truncated = truncated;
        status = status;
        payload_sha256 = sha256 encoded;
        epistemic_authority = untrusted;
      }

  pub from_payload_returns :
      (observation_id resource provider : String) (p : InvestigationProposal)
      (effect : CapabilityEffect) (payload : Value) (truncated : Bool) (status : ObservationStatus)
      (encoded : Bytes)
      → ((b : Bytes) → is_sha256 (sha256 b) ≡ true)
      → Named observation_id resource provider
      → (a : Accepted p) → is_json payload ≡ true
      → canonical_json c payload "payload" ≡ ok encoded
      → from_payload c observation_id p.case_id p effect resource provider payload truncated status
        ≡ ok (
            envelope observation_id resource provider p effect payload truncated status a.encoded
              encoded)
  unfolding from_payload check_observation arguments_digest check_text check_sha256 is_untrusted
      envelope
  from_payload_returns observation_id resource provider p effect payload truncated status encoded
        digest n a j e =
      simp (
        eq_refl,
        e,
        a.canonical,
        n.id_text,
        n.resource_text,
        n.provider_text,
        a.id_text,
        a.case_text,
        a.tool_text,
        digest,
        canonical_json-freeze payload "payload" j,
      )

  text-true : (s field : String) → check_text s field ≡ ok tt → is_text s ≡ true
  unfolding check_text
  text-true s field h = elim (Bool-cases (is_text s)) [ inl k ↦ k | inr k ↦ absurd (ground arith) ]

  pub check_proposal-Accepted :
      (raw p : InvestigationProposal) → check_proposal c raw ≡ ok p → Accepted p
  unfolding check_proposal canonical_json float_free thaw
  check_proposal-Accepted raw p h =
      let a = bind-returned (check_text raw.proposal_id "proposal_id") _ h in
      let b = bind-returned (check_text raw.case_id "case_id") _ a.2 in
      let d = bind-returned (check_text raw.question "question") _ b.2 in
      let e = bind-returned (check_text raw.rationale "rationale") _ d.2 in
      let f = bind-returned (check_text raw.requested_tool "requested_tool") _ e.2 in
      let g = bind-returned (check_text raw.information_sought "information_sought") _ f.2 in
      let i =
        bind-returned (canonical_json c (proxy (freeze_entries raw.arguments)) "arguments") _ g.2 in
      subst Accepted (ok-inj _ p refl i.2) (record {
        id_text = text-true raw.proposal_id "proposal_id" a.1;
        case_text = text-true raw.case_id "case_id" b.1;
        tool_text = text-true raw.requested_tool "requested_tool" f.1;
        encoded = i.0;
        canonical = i.1;
      })

  -- Around a JSON payload within the limit, for a proposal that its constructor has accepted and for
  -- texts that `_text` accepts, `from_payload` raises nothing: it returns the envelope that is bound
  -- to the proposal, with the digests of its arguments and of the payload, where the digests of
  -- `sha256` are 64 lower-case hexadecimal digits.
  pub from_payload-envelope :
      (observation_id resource provider : String) (raw p : InvestigationProposal)
      (effect : CapabilityEffect) (payload : Value) (truncated : Bool) (status : ObservationStatus)
      (encoded : Bytes)
      → ((b : Bytes) → is_sha256 (sha256 b) ≡ true)
      → Named observation_id resource provider
      → check_proposal c raw ≡ ok p
      → is_json payload ≡ true
      → canonical_json c payload "payload" ≡ ok encoded
      → (b : Bytes) × (arguments_digest c p ≡ ok (sha256 b))
        × (from_payload c observation_id p.case_id p effect resource provider payload truncated
              status
            ≡ ok (
                envelope observation_id resource provider p effect payload truncated status b
                  encoded))
  unfolding arguments_digest
  from_payload-envelope observation_id resource provider raw p effect payload truncated status
        encoded digest n h j e =
      let a = check_proposal-Accepted raw p h in
      (
        a.encoded,
        simp a.canonical,
        from_payload_returns observation_id resource provider p effect payload truncated status
            encoded digest n a j e,
      )

  -- What a constructor of an envelope has accepted.
  pub record Bound (o : ObservationEnvelope) : Type 0 where
    pub encoded : Bytes
    pub canonical : canonical_json c o.payload "payload" ≡ ok encoded
    pub hashed : o.payload_sha256 ≡ sha256 encoded
    pub authority : o.epistemic_authority ≡ untrusted

  untrusted-true : (a : EpistemicAuthority) → is_untrusted a ≡ true → a ≡ untrusted
  unfolding is_untrusted
  untrusted-true untrusted h = refl
  untrusted-true authorized h = ground arith

  -- However an envelope was built: once its constructor returns it, it is UNTRUSTED, and its digest
  -- is that of the canonical encoding of the payload that it holds.
  pub check_observation-Bound :
      (raw o : ObservationEnvelope) → check_observation c raw ≡ ok o → Bound o
  unfolding check_observation
  check_observation-Bound raw o h =
      let a1 = bind-returned (check_text raw.observation_id "observation_id") _ h in
      let a2 = bind-returned (check_text raw.case_id "case_id") _ a1.2 in
      let a3 = bind-returned (check_text raw.proposal_id "proposal_id") _ a2.2 in
      let a4 = bind-returned (check_text raw.tool_name "tool_name") _ a3.2 in
      let a5 = bind-returned (check_text raw.resource "resource") _ a4.2 in
      let a6 = bind-returned (check_text raw.provider "provider") _ a5.2 in
      let a7 = bind-returned (check_sha256 raw.arguments_digest "arguments_digest") _ a6.2 in
      let a8 = bind-returned (check_sha256 raw.payload_sha256 "payload_sha256") _ a7.2 in
      let a9 = require-true (is_untrusted raw.epistemic_authority) not_untrusted _ a8.2 in
      let b = bind-returned (canonical_json c (freeze raw.payload) "payload") _ a9.1 in
      let d = require-true (str_eq (sha256 b.0) raw.payload_sha256) hash_mismatch _ b.2 in
      subst Bound (observation-inj _ o refl d.1) (record {
        encoded = b.0;
        canonical = b.1;
        hashed = sym ((eq_iff (sha256 b.0) raw.payload_sha256).0 d.0);
        authority = untrusted-true raw.epistemic_authority a9.0;
      })
