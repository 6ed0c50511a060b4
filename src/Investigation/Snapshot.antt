-- ===== src/Investigation/Snapshot.antt =====
-- `InvestigationSession.as_dict` and `from_dict`: the ledger as a dictionary, and its reading, which
-- makes each proposal, each envelope and the session through their constructors.
use zaynor.Prelude.{
  ℕ, String, Bool, true, false, is_empty, List, [], ◌∷◌, Outcome, ok, raised, some, ◌>>=◌, ◌>>◌,
  require, str_eq, if◌then◌else◌,
}
use zaynor.Investigation.Values.{
  Value, num, text, list, tuple, dict, proxy, Elements, nil, cons, Entries, end, entry,
}
use zaynor.Investigation.Contracts.{
  Codec, ContractError, bad_projection, InvestigationStatus, «open», blocked, complete,
}
use zaynor.Investigation.Proposal.{
  lookup, has_fields, string_field, invalid_projection, proposal_as_dict, proposal_from_dict,
}
use zaynor.Investigation.Projection.{observation_as_dict, observation_from_dict}
use zaynor.Investigation.Session.{InvestigationSession, check_session}

abbrev pub session_status_text : InvestigationStatus → String
session_status_text «open» = "OPEN"
session_status_text blocked = "BLOCKED"
session_status_text complete = "COMPLETE"

unfoldable pub session_status_named : String → Outcome ContractError InvestigationStatus
session_status_named t =
    if str_eq t "OPEN"
    then ok «open»
    else if str_eq t "BLOCKED"
    then ok blocked
    else if str_eq t "COMPLETE"
    then ok complete
    else raised bad_projection

abbrev pub session_fields : List String
session_fields =
    "session_id" ∷ "case_id" ∷ "base_result_sha256" ∷ "proposals" ∷ "observations" ∷ "status"
    ∷ "max_steps" ∷ []

-- A list comprehension of dictionaries.
unfoldable pub dicts {ℓ} : {A : Type ℓ} → (A → Entries) → List A → Elements
dicts f [] = nil
dicts f (x ∷ xs) = cons (dict (f x)) (dicts f xs)

unfoldable pub session_as_dict : InvestigationSession → Entries
unfolding dicts
session_as_dict s = entry "session_id" (text s.session_id) (
    entry "case_id" (text s.case_id) (
      entry "base_result_sha256" (text s.base_result_sha256) (
        entry "proposals" (list (dicts proposal_as_dict s.proposals)) (
          entry "observations" (list (dicts observation_as_dict s.observations)) (
            entry "status" (text (session_status_text s.status))
              (entry "max_steps" (num s.max_steps) end))))))

-- An item that is a mapping, read by `from_dict`.
unfoldable pub read_item {ℓ} :
    {A : Type ℓ} → (Entries → Outcome ContractError A) → Value → Outcome ContractError A
read_item from_dict (dict es) = from_dict es
read_item from_dict (proxy es) = from_dict es
read_item from_dict _ = raised bad_projection

unfoldable pub read_items {ℓ} :
    {A : Type ℓ} → (Entries → Outcome ContractError A) → Elements → Outcome ContractError (List A)
read_items from_dict nil = ok []
read_items from_dict (cons v vs) =
    read_item from_dict v >>= λ x. read_items from_dict vs >>= λ xs. ok (x ∷ xs)

-- An iterable of another kind gives texts, which are no mappings, so that only an empty one is read.
empty_only : Bool → Outcome ContractError Elements
empty_only true = ok nil
empty_only false = raised bad_projection

no_entries : Entries → Bool
no_entries end = true
no_entries (entry k v es) = false

-- raw[key], iterated over.
unfoldable pub list_field : String → Entries → Outcome ContractError Elements
unfolding empty_only no_entries
list_field k raw = elim (lookup k raw) [
  | some (list vs) ↦ ok vs
  | some (tuple vs) ↦ ok vs
  | some (text s) ↦ empty_only (is_empty s)
  | some (dict es) ↦ empty_only (no_entries es)
  | some (proxy es) ↦ empty_only (no_entries es)
  | _ ↦ raised bad_projection
]

unfoldable pub number_field : String → Entries → Outcome ContractError ℕ
number_field k raw = elim (lookup k raw) [ some (num n) ↦ ok n | _ ↦ raised bad_projection ]

module _ (c : Codec) where
  unfoldable pub session_of : Entries → Outcome ContractError InvestigationSession
  unfolding string_field list_field number_field session_status_named read_items read_item
  session_of raw = do
    proposal_items ← list_field "proposals" raw
    proposals ← read_items (proposal_from_dict c) proposal_items
    observation_items ← list_field "observations" raw
    observations ← read_items (observation_from_dict c) observation_items
    status ← string_field "status" raw >>= λ t. session_status_named t
    session_id ← string_field "session_id" raw
    case_id ← string_field "case_id" raw
    base_result_sha256 ← string_field "base_result_sha256" raw
    max_steps ← number_field "max_steps" raw
    check_session (record {
      session_id = session_id;
      case_id = case_id;
      base_result_sha256 = base_result_sha256;
      proposals = proposals;
      observations = observations;
      status = status;
      max_steps = max_steps;
    })

  unfoldable pub session_from_dict : Entries → Outcome ContractError InvestigationSession
  unfolding has_fields invalid_projection session_of
  session_from_dict raw = do
    require (has_fields session_fields raw) bad_projection
    invalid_projection (session_of raw)
