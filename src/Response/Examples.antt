-- ===== src/Response/Examples.antt =====
-- A response to one finding.
use zaynor.Prelude.{◌≡◌, refl, true, [], ◌∷◌, ok, is_blank, strip}
use zaynor.Response.{
  EvidenceRef, AuthoritativeFinding, ResponseAction, constructed, check_action, no_refs,
  authorized_refs, same_ref, check_refs, propose_response_action,
}
use zaynor.Response.Evidence.{Proposed, propose_response_action-Proposed}

abbrev event_log : EvidenceRef
event_log = record { artifact = "events.json"; lineage_id = "L1" }

abbrev logon : AuthoritativeFinding
logon = record { finding_id = "F1"; evidence_refs = event_log ∷ [] }

abbrev isolate : ResponseAction
isolate = record {
  action_id = "A1";
  category = "containment";
  reason = "isolate the host";
  evidence_refs = event_log ∷ [];
  risk = "LOW";
  reversibility = "REVERSIBLE";
  requires_human_approval = true;
  status = "proposed";
}

proposes :
    propose_response_action "A1" "containment" "isolate the host"
      (event_log ∷ [])
      "LOW"
      "REVERSIBLE"
      (logon ∷ [])
    ≡ ok isolate
unfolding propose_response_action constructed check_action no_refs authorized_refs same_ref
    check_refs is_blank strip
proposes = refl

propose_response_action-Proposed_example : Proposed (logon ∷ []) (event_log ∷ []) isolate
propose_response_action-Proposed_example =
    propose_response_action-Proposed "A1" "containment" "isolate the host" (event_log ∷ []) "LOW"
      "REVERSIBLE" (logon ∷ []) isolate proposes
