-- ===== src/Investigation/Proposal.antt =====
-- `InvestigationProposal`: its constructor, its digest, and its projection to a dictionary and back.
use zaynor.Prelude.{
  String, Bool, ◌&&◌, Option, none, some, List, [], ◌∷◌, Outcome, ok, raised, ◌>>=◌, ◌>>◌, require,
  str_eq, if◌then◌else◌, elem, all,
}
use zaynor.Investigation.Values.{
  Value, text, dict, proxy, Entries, end, entry, freeze_entries, thaw_entries,
}
use zaynor.Investigation.Contracts.{
  Codec, ContractError, bad_text, not_an_object, bad_projection, check_text, canonical_json,
}

-- `arguments` is a frozen mapping once the constructor has run.
pub record InvestigationProposal : Type 0 where
  pub proposal_id : String
  pub case_id : String
  pub question : String
  pub rationale : String
  pub requested_tool : String
  pub arguments : Entries
  pub information_sought : String

abbrev pub proposal_fields : List String
proposal_fields =
    "proposal_id" ∷ "case_id" ∷ "question" ∷ "rationale" ∷ "requested_tool" ∷ "arguments"
    ∷ "information_sought" ∷ []

-- raw[key]
unfoldable pub lookup : String → Entries → Option Value
lookup k end = none
lookup k (entry j v es) = if str_eq j k then some v else lookup k es

unfoldable pub keys : Entries → List String
keys end = []
keys (entry k v es) = k ∷ keys es

-- set(raw) == fields
unfoldable pub has_fields : List String → Entries → Bool
has_fields fields raw = all (λ k. elem k fields) (keys raw) && all (λ k. elem k (keys raw)) fields

-- A field that the constructor takes for a `str`.
unfoldable pub string_field : String → Entries → Outcome ContractError String
string_field k raw = elim (lookup k raw) [ some (text s) ↦ ok s | _ ↦ raised (bad_text k) ]

-- A field that the constructor takes for a mapping.
unfoldable pub object_field : String → Entries → Outcome ContractError Entries
object_field k raw = elim (lookup k raw) [
  | some (dict es) ↦ ok es
  | some (proxy es) ↦ ok es
  | _ ↦ raised not_an_object
]

-- `except (TypeError, InvestigationContractError)` around the constructor.
unfoldable pub invalid_projection {ℓ} :
    {A : Type ℓ} → Outcome ContractError A → Outcome ContractError A
invalid_projection (ok a) = ok a
invalid_projection (raised e) = raised bad_projection

unfoldable pub proposal_as_dict : InvestigationProposal → Entries
proposal_as_dict p = entry "proposal_id" (text p.proposal_id) (
    entry "case_id" (text p.case_id) (
      entry "question" (text p.question) (
        entry "rationale" (text p.rationale) (
          entry "requested_tool" (text p.requested_tool) (
            entry "arguments" (dict (thaw_entries p.arguments))
              (entry "information_sought" (text p.information_sought) end))))))

module _ (c : Codec) where
  open c use {Bytes, sha256}

  -- `__post_init__`: the proposal with its arguments frozen.
  unfoldable pub check_proposal :
      InvestigationProposal → Outcome ContractError InvestigationProposal
  check_proposal p = do
    check_text p.proposal_id "proposal_id"
    check_text p.case_id "case_id"
    check_text p.question "question"
    check_text p.rationale "rationale"
    check_text p.requested_tool "requested_tool"
    check_text p.information_sought "information_sought"
    b ← canonical_json c (proxy (freeze_entries p.arguments)) "arguments"
    ok (record p { arguments = freeze_entries p.arguments })

  unfoldable pub arguments_digest : InvestigationProposal → Outcome ContractError String
  arguments_digest p = do b ← canonical_json c (dict p.arguments) "arguments"; ok (sha256 b)

  -- cls(**raw)
  unfoldable pub proposal_of : Entries → Outcome ContractError InvestigationProposal
  unfolding string_field object_field check_proposal
  proposal_of raw = do
    proposal_id ← string_field "proposal_id" raw
    case_id ← string_field "case_id" raw
    question ← string_field "question" raw
    rationale ← string_field "rationale" raw
    requested_tool ← string_field "requested_tool" raw
    information_sought ← string_field "information_sought" raw
    arguments ← object_field "arguments" raw
    check_proposal (record {
      proposal_id = proposal_id;
      case_id = case_id;
      question = question;
      rationale = rationale;
      requested_tool = requested_tool;
      arguments = arguments;
      information_sought = information_sought;
    })

  unfoldable pub proposal_from_dict : Entries → Outcome ContractError InvestigationProposal
  unfolding has_fields invalid_projection proposal_of
  proposal_from_dict raw = do
    require (has_fields proposal_fields raw) bad_projection
    invalid_projection (proposal_of raw)
