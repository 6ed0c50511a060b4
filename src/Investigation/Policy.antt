-- ===== src/Investigation/Policy.antt =====
-- src/zaynor/agents/contracts.py, registry.py and policy.py: what an agent may call. The manifest
-- hash of an agent (`manifest_hash`, `sorted` tools, `data_classes`) is not modelled.
use zaynor.Prelude.{
  String, Bool, true, false, ◌&&◌, ◌||◌, not, Option, none, some, List, [], ◌∷◌, Outcome, ok,
  raised, ◌>>=◌, ◌>>◌, require, str_eq, elem, if◌then◌else◌,
}
use zaynor.Investigation.Contracts.{CapabilityEffect, read, derive, acquire, mutate, authorize}

pub data AgentRole : Type 0 where
  dispatcher endpoint_hunter persistence_hunter threat_intel detection_engineer : AgentRole
  investigator fleet_commander mentor : AgentRole

pub record Capability : Type 0 where
  pub effect : CapabilityEffect
  pub resource : String
  pub requires_human_approval : Bool

pub record AgentSpec : Type 0 where
  pub tools : List String
  pub capabilities : List Capability

pub data PolicyError : Type 0 where
  cannot_call no_declared_capability lacks_capability requires_approval : PolicyError

abbrev read_capability : String → Capability
read_capability r = record { effect = read; resource = r; requires_human_approval = false }

abbrev derive_capability : String → Capability
derive_capability r = record { effect = derive; resource = r; requires_human_approval = false }

abbrev acquire_capability : String → Capability
acquire_capability r = record { effect = acquire; resource = r; requires_human_approval = true }

abbrev pub approved : List String → List Capability → AgentSpec
approved tools capabilities = record { tools = tools; capabilities = capabilities }

-- The entry of `_SPECS` for a role, which has one each.
unfoldable pub spec_for : AgentRole → AgentSpec
spec_for dispatcher = approved ("list_hunts" ∷ []) (read_capability "hunt_catalog" ∷ [])
spec_for endpoint_hunter =
    approved ("collect_endpoint_window" ∷ []) (acquire_capability "endpoint_telemetry" ∷ [])
spec_for persistence_hunter =
    approved ("collect_persistence_window" ∷ []) (acquire_capability "persistence_artifacts" ∷ [])
spec_for threat_intel = approved ("enrich_indicators" ∷ []) (derive_capability "threat_intel" ∷ [])
spec_for detection_engineer =
    approved ("draft_sigma_rule" ∷ []) (derive_capability "detection_rule" ∷ [])
spec_for investigator =
    approved ("list_hunts" ∷ "collect_window" ∷ "request_adjudication" ∷ "verify_custody" ∷ []) (
      read_capability "hunt_catalog"
      ∷ acquire_capability "evidence_window"
      ∷ read_capability "sealed_results"
      ∷ read_capability "custody"
      ∷ [])
spec_for fleet_commander =
    approved
      ("read_mission" ∷ "task_specialist" ∷ "record_hypothesis_proposal" ∷ "schedule_review"
        ∷ "escalate_human" ∷ "stand_down" ∷ [])
      (read_capability "case_memory" ∷ derive_capability "investigation_plan" ∷ [])
spec_for mentor =
    approved ("explain_result" ∷ "explain_framework" ∷ "list_hunts" ∷ [])
      (read_capability "sealed_results" ∷ read_capability "reference_material" ∷ [])

abbrev pub Effects : Type 0
Effects = List (String × CapabilityEffect × String)

abbrev pub tool_effects : Effects
tool_effects =
    ("list_hunts", read, "hunt_catalog")
    ∷ ("collect_endpoint_window", acquire, "endpoint_telemetry")
    ∷ ("collect_persistence_window", acquire, "persistence_artifacts")
    ∷ ("enrich_indicators", derive, "threat_intel")
    ∷ ("draft_sigma_rule", derive, "detection_rule")
    ∷ ("collect_window", acquire, "evidence_window")
    ∷ ("request_adjudication", read, "sealed_results")
    ∷ ("verify_custody", read, "custody")
    ∷ ("read_mission", read, "case_memory")
    ∷ ("task_specialist", derive, "investigation_plan")
    ∷ ("record_hypothesis_proposal", derive, "investigation_plan")
    ∷ ("schedule_review", derive, "investigation_plan")
    ∷ ("escalate_human", derive, "investigation_plan")
    ∷ ("stand_down", derive, "investigation_plan")
    ∷ ("explain_result", read, "sealed_results")
    ∷ ("explain_framework", read, "reference_material")
    ∷ []

unfoldable pub effect_in : String → Effects → Option (CapabilityEffect × String)
effect_in tool [] = none
effect_in tool (e ∷ es) = if str_eq e.0 tool then some (e.1, e.2) else effect_in tool es

unfoldable pub declared_tool_capability : String → Outcome PolicyError (CapabilityEffect × String)
unfolding effect_in
declared_tool_capability tool = elim (effect_in tool tool_effects) [
  | none ↦ raised no_declared_capability
  | some e ↦ ok e
]

unfoldable pub same_effect : CapabilityEffect → CapabilityEffect → Bool
same_effect read read = true
same_effect derive derive = true
same_effect acquire acquire = true
same_effect mutate mutate = true
same_effect authorize authorize = true
same_effect _ _ = false

-- The first capability that matches. The source iterates over a set; no role has two capabilities
-- of one effect and resource.
unfoldable pub matching : CapabilityEffect × String → List Capability → Option Capability
matching e [] = none
matching e (k ∷ ks) =
    if same_effect k.effect e.0 && str_eq k.resource e.1 then some k else matching e ks

unfoldable pub permits : Bool → Option Capability → Outcome PolicyError (Unit {0})
permits human_approved none = raised lacks_capability
permits human_approved (some k) =
    require (not k.requires_human_approval || human_approved) requires_approval

-- `authorize_tool`, for arguments that are a dictionary.
unfoldable pub authorize_tool : AgentRole → String → Bool → Outcome PolicyError (Unit {0})
unfolding declared_tool_capability matching permits
authorize_tool role tool human_approved = do
  require (elem tool (spec_for role).tools) cannot_call
  e ← declared_tool_capability tool
  permits human_approved (matching e (spec_for role).capabilities)
