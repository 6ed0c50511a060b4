-- ===== src/Investigation/Resumed.antt =====
-- Sessions that are stored as dictionaries and read back.
use zaynor.Prelude.{◌≡◌, refl, ap, ◌∙◌, List, [], ◌∷◌, Outcome, ok, All}
use zaynor.Investigation.Values.{Entries}
use zaynor.Investigation.Contracts.{
  Codec, ContractError, InvestigationStatus, «open», blocked, complete,
}
use zaynor.Investigation.Proposal.{
  InvestigationProposal, check_proposal, lookup, keys, has_fields, string_field, invalid_projection,
  proposal_as_dict, proposal_from_dict,
}
use zaynor.Investigation.Observation.{ObservationEnvelope, check_observation}
use zaynor.Investigation.Projection.{observation_as_dict, observation_from_dict}
use zaynor.Investigation.Session.{InvestigationSession, check_session}
use zaynor.Investigation.RoundTrip.{proposal_from_dict-as_dict}
use zaynor.Investigation.Restored.{observation_from_dict-as_dict}
use zaynor.Investigation.Snapshot.{
  session_status_text, session_status_named, dicts, session_as_dict, read_item, read_items,
  list_field, number_field, session_of, session_from_dict,
}

session_status_named-text :
    (s : InvestigationStatus) → session_status_named (session_status_text s) ≡ ok s
unfolding session_status_named
session_status_named-text «open» = refl
session_status_named-text blocked = refl
session_status_named-text complete = refl

read_items-dicts {ℓ} :
    {A : Type ℓ} (as_dict : A → Entries) (from_dict : Entries → Outcome ContractError A)
    (xs : List A)
    → All (λ x. from_dict (as_dict x) ≡ ok x) xs
    → read_items from_dict (dicts as_dict xs) ≡ ok xs
unfolding read_items read_item dicts
read_items-dicts as_dict from_dict [] h = refl
read_items-dicts as_dict from_dict (x ∷ xs) h =
    simp (h.0, read_items-dicts as_dict from_dict xs h.1)

session_restores :
    (s : InvestigationSession) → invalid_projection {A = InvestigationSession} (ok s) ≡ ok s
unfolding invalid_projection
session_restores s = refl

module _ (c : Codec) where
  -- What a constructor has returned.
  pub record MadeProposal (p : InvestigationProposal) : Type 0 where
    pub raw : InvestigationProposal
    pub made : check_proposal c raw ≡ ok p

  pub record MadeObservation (o : ObservationEnvelope) : Type 0 where
    pub raw : ObservationEnvelope
    pub made : check_observation c raw ≡ ok o

  read_proposals :
      (ps : List InvestigationProposal)
      → All MadeProposal ps
      → All (λ p. proposal_from_dict c (proposal_as_dict p) ≡ ok p) ps
  read_proposals [] h = tt
  read_proposals (p ∷ ps) h =
      (proposal_from_dict-as_dict c h.0.raw p h.0.made, read_proposals ps h.1)

  read_observations :
      (os : List ObservationEnvelope)
      → All MadeObservation os
      → All (λ o. observation_from_dict c (observation_as_dict o) ≡ ok o) os
  read_observations [] h = tt
  read_observations (o ∷ os) h =
      (observation_from_dict-as_dict c h.0.raw o h.0.made, read_observations os h.1)

  session_of-as_dict :
      (s : InvestigationSession)
      → All MadeProposal s.proposals
      → All MadeObservation s.observations
      → session_of c (session_as_dict s) ≡ check_session s
  unfolding session_of session_as_dict string_field list_field number_field lookup
  session_of-as_dict s ps os = simp (
    read_items-dicts proposal_as_dict (proposal_from_dict c) s.proposals
        (read_proposals s.proposals ps),
    read_items-dicts observation_as_dict (observation_from_dict c) s.observations
        (read_observations s.observations os),
    session_status_named-text,
  )

  -- Reading back the dictionary of a session that its constructor accepts, with proposals and
  -- envelopes that their constructors made, gives the same session.
  pub session_from_dict-as_dict :
      (s : InvestigationSession)
      → check_session s ≡ ok s
      → All MadeProposal s.proposals
      → All MadeObservation s.observations
      → session_from_dict c (session_as_dict s) ≡ ok s
  unfolding session_from_dict has_fields keys session_as_dict
  session_from_dict-as_dict s v ps os =
      ap (λ r. invalid_projection r) (session_of-as_dict s ps os ∙ v) ∙ session_restores s
