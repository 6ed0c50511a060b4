-- ===== src/Investigation/RoundTrip.antt =====
-- Proposals that are sent as dictionaries and read back, and the envelope around a tool's result.
use zaynor.Prelude.{◌≡◌, refl, sym, ap, ◌∙◌, Outcome, ok, ◌>>=◌, ◌>>◌, bind-returned}
use zaynor.Investigation.Values.{proxy, Entries, freeze_entries, thaw_entries, freeze-thaw}
use zaynor.Investigation.Contracts.{Codec, ContractError, check_text, canonical_json}
use zaynor.Investigation.Proposal.{
  InvestigationProposal, check_proposal, proposal_as_dict, proposal_of, proposal_from_dict, lookup,
  keys, has_fields, string_field, object_field, invalid_projection,
}

pub ok-inj :
    (p q : InvestigationProposal) {r : Outcome ContractError InvestigationProposal}
    → ok p ≡ r
    → r ≡ ok q
    → p ≡ q
ok-inj p q h k = cc

passes : (p : InvestigationProposal) → invalid_projection {A = InvestigationProposal} (ok p) ≡ ok p
unfolding invalid_projection
passes p = refl

module _ (c : Codec) where
  -- A frozen proposal that its constructor accepts is accepted again.
  proposal_of-as_dict :
      (p : InvestigationProposal)
      → proposal_of c (proposal_as_dict p)
        ≡ check_proposal c (record p { arguments = thaw_entries p.arguments })
  unfolding proposal_of proposal_as_dict string_field object_field lookup
  proposal_of-as_dict p = refl

  pub frozen :
      (raw p : InvestigationProposal)
      → check_proposal c raw ≡ ok p
      → record raw { arguments = freeze_entries raw.arguments } ≡ p
  unfolding check_proposal
  frozen raw p h =
      let a = bind-returned (check_text raw.proposal_id "proposal_id") _ h in
      let b = bind-returned (check_text raw.case_id "case_id") _ a.2 in
      let d = bind-returned (check_text raw.question "question") _ b.2 in
      let e = bind-returned (check_text raw.rationale "rationale") _ d.2 in
      let f = bind-returned (check_text raw.requested_tool "requested_tool") _ e.2 in
      let g = bind-returned (check_text raw.information_sought "information_sought") _ f.2 in
      let i =
        bind-returned (canonical_json c (proxy (freeze_entries raw.arguments)) "arguments") _ g.2 in
      ok-inj _ p refl i.2

  abbrev with_frozen : InvestigationProposal → Entries → Outcome ContractError InvestigationProposal
  with_frozen p es = do
    check_text p.proposal_id "proposal_id"
    check_text p.case_id "case_id"
    check_text p.question "question"
    check_text p.rationale "rationale"
    check_text p.requested_tool "requested_tool"
    check_text p.information_sought "information_sought"
    b ← canonical_json c (proxy es) "arguments"
    ok (record p { arguments = es })

  recheck :
      (raw : InvestigationProposal)
      → check_proposal c (record raw { arguments = thaw_entries (freeze_entries raw.arguments) })
        ≡ check_proposal c raw
  unfolding check_proposal
  recheck raw = ap (λ es. with_frozen raw es) (freeze-thaw raw.arguments)

  -- Reading back the dictionary of a proposal that the constructor made gives the same proposal.
  pub proposal_from_dict-as_dict :
      (raw p : InvestigationProposal)
      → check_proposal c raw ≡ ok p
      → proposal_from_dict c (proposal_as_dict p) ≡ ok p
  unfolding proposal_from_dict has_fields keys proposal_as_dict
  proposal_from_dict-as_dict raw p h =
      ap (λ q. invalid_projection (proposal_of c (proposal_as_dict q))) (sym (frozen raw p h))
      ∙ ap (λ r. invalid_projection r)
          (proposal_of-as_dict (record raw { arguments = freeze_entries raw.arguments })
            ∙ recheck raw
            ∙ h)
      ∙ passes p
