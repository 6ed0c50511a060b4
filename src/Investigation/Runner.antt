-- ===== src/Investigation/Runner.antt =====
-- src/zaynor/agents/investigation_runner.py: reading a proposal from a model's reply, and one
-- bounded turn. `json.loads`, the tool's handler and the digest of a text are parameters.
use zaynor.Prelude.{
  ◌*◌, String, Bool, false, not, Option, none, some, List, [], ◌∷◌, Outcome, ok, raised, ◌>>=◌,
  ◌>>◌, require, leb, str_eq, elem, any, if◌then◌else◌, text_length,
}
use zaynor.Investigation.Values.{Value, text, dict, Entries, end, entry}
use zaynor.Investigation.Contracts.{Codec, ContractError, ObservationStatus, observed, error}
use zaynor.Investigation.Proposal.{
  InvestigationProposal, proposal_fields, keys, has_fields, proposal_of,
}
use zaynor.Investigation.Observation.{ObservationEnvelope, from_payload}
use zaynor.Investigation.Session.{
  InvestigationSession, proposal_ids, add_proposal, record_observation,
}
use zaynor.Investigation.Policy.{investigator, authorize_tool, declared_tool_capability}
use Prim.Native.String.{◌++◌ as append_text}

-- `InvestigationRunnerError`, or a contract's error that `execute` does not turn into one.
pub data RunnerError : Type 0 where
  missing_or_too_large invalid_json not_a_json_object authoritative_fields wrong_fields :
      RunnerError
  invalid_proposal other_case proposal_exists operation_rejected : RunnerError
  contract : ContractError → RunnerError

abbrev pub forbidden_authority_fields : List String
forbidden_authority_fields =
    "verdict" ∷ "finding" ∷ "findings" ∷ "hypothesis" ∷ "hypotheses" ∷ "score" ∷ "confidence"
    ∷ "seal" ∷ "result" ∷ []

-- What a handler does: it returns a payload, or it raises, with "<type>: <message>".
pub data Handled : Type 0 where
  returned : Value → Handled
  failed : String → Handled

-- The dictionary of handlers.
abbrev pub Handlers : Type 0
Handlers = List (String × (Entries → Handled))

-- self._handlers.get(tool)
unfoldable pub handler_of : String → Handlers → Option (Entries → Handled)
handler_of tool [] = none
handler_of tool (h ∷ hs) = if str_eq h.0 tool then some h.1 else handler_of tool hs

unfoldable pub payload_of : Handled → Value
payload_of (returned v) = v
payload_of (failed message) = dict (entry "error" (text (append_text "tool failed: " message)) end)

unfoldable pub status_of : Handled → ObservationStatus
status_of (returned v) = observed
status_of (failed message) = error

-- The object's fields that a turn uses.
pub record BoundedInvestigator : Type 0 where
  pub session : InvestigationSession
  pub handlers : Handlers
  pub human_approved : Bool
  pub provider : String

-- An exception of another type, raised anew as a runner's error.
unfoldable pub raise_as {ℓ} :
    {A : Type ℓ} {E : Type 0} → RunnerError → Outcome E A → Outcome RunnerError A
raise_as e (ok a) = ok a
raise_as e (raised x) = raised e

-- An exception that passes through.
unfoldable pub pass_on {ℓ} : {A : Type ℓ} → Outcome ContractError A → Outcome RunnerError A
pass_on (ok a) = ok a
pass_on (raised x) = raised (contract x)

unfoldable pub some_or {ℓ} : {A : Type ℓ} → RunnerError → Option A → Outcome RunnerError A
some_or e none = raised e
some_or e (some a) = ok a

unfoldable pub as_object : Value → Outcome RunnerError Entries
as_object v = elim v [ dict es ↦ ok es | _ ↦ raised not_a_json_object ]

module _ (c : Codec) (loads : String → Option Value) (hash_text : String → String) where
  open c use {Bytes, dumps, sha256}

  unfoldable pub parse_proposal :
      String → InvestigationSession → Outcome RunnerError InvestigationProposal
  unfolding some_or as_object has_fields raise_as
  parse_proposal raw_text s = do
    require (leb (text_length raw_text) (32 * 1024)) missing_or_too_large
    v ← some_or invalid_json (loads raw_text)
    raw ← as_object v
    require (not (any (λ k. elem k forbidden_authority_fields) (keys raw))) authoritative_fields
    require (has_fields proposal_fields raw) wrong_fields
    p ← raise_as invalid_proposal (proposal_of c raw)
    require (str_eq p.case_id s.case_id) other_case
    require (not (elem p.proposal_id (proposal_ids s.proposals))) proposal_exists
    ok p

  -- f"{session_id}\x00{proposal_id}\x00{digest}"
  unfoldable pub observation_key : InvestigationSession → InvestigationProposal → Bytes → String
  observation_key s p b =
      append_text s.session_id
        (append_text "\0" (append_text p.proposal_id (append_text "\0" (sha256 b))))

  -- The payload and its status, in the envelope.
  unfoldable pub observe :
      BoundedInvestigator
      → InvestigationSession
      → InvestigationProposal
      → Handled
      → Outcome RunnerError ObservationEnvelope
  unfolding payload_of status_of some_or raise_as observation_key
  observe r s p h = do
    e ← raise_as operation_rejected (declared_tool_capability p.requested_tool)
    b ← some_or operation_rejected (dumps (payload_of h))
    raise_as operation_rejected (
        from_payload c (hash_text (observation_key s p b)) s.case_id p e.0 e.1 r.provider
          (payload_of h) false (status_of h))

  -- `execute`: the investigator with its new session, and the observation.
  unfoldable pub execute :
      InvestigationProposal
      → BoundedInvestigator
      → Outcome RunnerError (BoundedInvestigator × ObservationEnvelope)
  unfolding handler_of raise_as some_or pass_on observe
  execute p r = do
    require (str_eq p.case_id r.session.case_id) other_case
    s ← pass_on (add_proposal p r.session)
    raise_as operation_rejected (authorize_tool investigator p.requested_tool r.human_approved)
    handler ← some_or operation_rejected (handler_of p.requested_tool r.handlers)
    o ← observe r s p (handler p.arguments)
    s' ← pass_on (record_observation o s)
    ok (record r { session = s' }, o)
