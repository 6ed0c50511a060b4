-- ===== src/Response.antt =====
-- src/zaynor/response_actions.py: a proposed response, which is constructed and never executed. Of
-- the sealed result the findings' evidence is modelled, which is what the module reads.
pub mod Evidence
pub mod Examples
use zaynor.Prelude.{
  String, Bool, true, false, ◌&&◌, ◌||◌, not, List, [], ◌∷◌, ◌++◌, Outcome, ok, raised, ◌>>=◌, ◌>>◌,
  require, str_eq, elem, is_blank, any, all,
}

pub record EvidenceRef : Type 0 where
  pub artifact : String
  pub lineage_id : String

pub record AuthoritativeFinding : Type 0 where
  pub finding_id : String
  pub evidence_refs : List EvidenceRef

pub record ResponseAction : Type 0 where
  pub action_id : String
  pub category : String
  pub reason : String
  pub evidence_refs : List EvidenceRef
  pub risk : String
  pub reversibility : String
  pub requires_human_approval : Bool
  pub status : String

pub data ResponseActionError : Type 0 where
  empty_action_id unknown_category empty_reason no_evidence unknown_risk unknown_reversibility :
      ResponseActionError
  unsupported : EvidenceRef → ResponseActionError

abbrev pub valid_categories : List String
valid_categories = "identification" ∷ "containment" ∷ "eradication" ∷ "recovery" ∷ []

abbrev pub valid_risk : List String
valid_risk = "LOW" ∷ "MEDIUM" ∷ "HIGH" ∷ []

abbrev pub valid_reversibility : List String
valid_reversibility = "REVERSIBLE" ∷ "PARTIALLY_REVERSIBLE" ∷ "IRREVERSIBLE" ∷ []

unfoldable pub no_refs : List EvidenceRef → Bool
no_refs [] = true
no_refs (r ∷ rs) = false

-- The generated constructor: the two fields with `init=False` have their defaults.
unfoldable pub constructed :
    String → String → String → List EvidenceRef → String → String → ResponseAction
constructed action_id category reason evidence_refs risk reversibility = record {
  action_id = action_id;
  category = category;
  reason = reason;
  evidence_refs = evidence_refs;
  risk = risk;
  reversibility = reversibility;
  requires_human_approval = true;
  status = "proposed";
}

-- `__post_init__`
unfoldable pub check_action : ResponseAction → Outcome ResponseActionError ResponseAction
unfolding no_refs
check_action a = do
  require (not (is_blank a.action_id)) empty_action_id
  require (elem a.category valid_categories) unknown_category
  require (not (is_blank a.reason)) empty_reason
  require (not (no_refs a.evidence_refs)) no_evidence
  require (elem a.risk valid_risk) unknown_risk
  require (elem a.reversibility valid_reversibility) unknown_reversibility
  ok a

-- The set of (artifact, lineage_id) of all findings.
unfoldable pub authorized_refs : List AuthoritativeFinding → List EvidenceRef
authorized_refs [] = []
authorized_refs (f ∷ fs) = f.evidence_refs ++ authorized_refs fs

unfoldable pub same_ref : EvidenceRef → EvidenceRef → Bool
same_ref r q = str_eq r.artifact q.artifact && str_eq r.lineage_id q.lineage_id

-- The loop over the cited references.
unfoldable pub check_refs :
    List EvidenceRef → List EvidenceRef → Outcome ResponseActionError (Unit {0})
check_refs refs [] = ok tt
check_refs refs (r ∷ rs) = require (any (same_ref r) refs) (unsupported r) >> check_refs refs rs

unfoldable pub propose_response_action :
    String
    → String
    → String
    → List EvidenceRef
    → String
    → String
    → List AuthoritativeFinding
    → Outcome ResponseActionError ResponseAction
propose_response_action action_id category reason evidence_refs risk reversibility findings = do
  check_refs (authorized_refs findings) evidence_refs
  check_action (constructed action_id category reason evidence_refs risk reversibility)
