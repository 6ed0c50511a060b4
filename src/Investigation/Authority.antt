-- ===== src/Investigation/Authority.antt =====
-- What the policy of src/zaynor/agents/policy.py grants over the registry.
use zaynor.Prelude.{
  String, ◌≡◌, refl, sym, ap, ◌∙◌, Bool, true, false, ◌&&◌, ◌||◌, not, some, List, [], ◌∷◌, ok,
  raised, require, str_eq, elem, if◌then◌else◌, inl, inr, arith, all, All, bind-returned,
  Bool-cases,
}
use zaynor.Investigation.Contracts.{CapabilityEffect, read, derive, acquire, mutate, authorize}
use zaynor.Investigation.Policy.{
  AgentRole, dispatcher, endpoint_hunter, persistence_hunter, threat_intel, detection_engineer,
  investigator, fleet_commander, mentor, Capability, PolicyError, lacks_capability,
  requires_approval, cannot_call, spec_for, same_effect, matching, permits, authorize_tool,
  declared_tool_capability, effect_in,
}

-- No effect that changes or authorizes, and a person's approval wherever evidence is acquired.
unfoldable pub granted : CapabilityEffect → Bool → Bool
granted read approved = true
granted derive approved = true
granted acquire approved = approved
granted mutate approved = false
granted authorize approved = false

guarded : Capability → Bool
unfolding granted
guarded k = granted k.effect k.requires_human_approval

guarded-spec_for : (role : AgentRole) → all guarded (spec_for role).capabilities ≡ true
unfolding spec_for guarded
guarded-spec_for dispatcher = refl
guarded-spec_for endpoint_hunter = refl
guarded-spec_for persistence_hunter = refl
guarded-spec_for threat_intel = refl
guarded-spec_for detection_engineer = refl
guarded-spec_for investigator = refl
guarded-spec_for fleet_commander = refl
guarded-spec_for mentor = refl

same_effect-granted :
    (d e : CapabilityEffect) (r h : Bool)
    → same_effect d e ≡ true
    → granted d r ≡ true
    → (not r || h) ≡ true
    → granted e h ≡ true
unfolding same_effect granted
same_effect-granted read read r h p q s = refl
same_effect-granted derive derive r h p q s = refl
same_effect-granted acquire acquire r h p q s = ground arith
same_effect-granted mutate mutate r h p q s = q
same_effect-granted authorize authorize r h p q s = q
same_effect-granted read derive r h p q s = ground arith
same_effect-granted read acquire r h p q s = ground arith
same_effect-granted read mutate r h p q s = ground arith
same_effect-granted read authorize r h p q s = ground arith
same_effect-granted derive read r h p q s = ground arith
same_effect-granted derive acquire r h p q s = ground arith
same_effect-granted derive mutate r h p q s = ground arith
same_effect-granted derive authorize r h p q s = ground arith
same_effect-granted acquire read r h p q s = ground arith
same_effect-granted acquire derive r h p q s = ground arith
same_effect-granted acquire mutate r h p q s = ground arith
same_effect-granted acquire authorize r h p q s = ground arith
same_effect-granted mutate _ r h p q s = ground arith
same_effect-granted authorize _ r h p q s = ground arith

require-passed : (b : Bool) (e : PolicyError) → require b e ≡ ok tt → b ≡ true
require-passed true e h = refl
require-passed false e h = cc

permits-granted :
    (e : CapabilityEffect × String) (h : Bool) (ks : List Capability)
    → all guarded ks ≡ true
    → permits h (matching e ks) ≡ ok tt
    → granted e.0 h ≡ true
unfolding permits matching guarded
permits-granted e h [] g p = cc
permits-granted e h (k ∷ ks) g p =
    elim (Bool-cases (same_effect k.effect e.0 && str_eq k.resource e.1)) [
      | inr m ↦
          permits-granted e h ks (ground arith)
            (ap (λ b. permits h (if b then some k else matching e ks)) (sym m) ∙ p)
      | inl m ↦
          same_effect-granted k.effect e.0 k.requires_human_approval h (ground arith) (ground arith)
            (require-passed _ requires_approval
              (ap (λ b. permits h (if b then some k else matching e ks)) (sym m) ∙ p))
    ]

-- What the policy authorizes, for any role and tool: the tool is in the role's manifest and has a
-- declared effect, which neither mutates nor authorizes, and which acquires only with a person's
-- approval.
pub authorize_tool-granted :
    (role : AgentRole) (tool : String) (human_approved : Bool)
    → authorize_tool role tool human_approved ≡ ok tt
    → (elem tool (spec_for role).tools ≡ true)
      × (e : CapabilityEffect × String) × (declared_tool_capability tool ≡ ok e)
      × (granted e.0 human_approved ≡ true)
unfolding authorize_tool
authorize_tool-granted role tool human_approved h =
    let a = bind-returned (require (elem tool (spec_for role).tools) cannot_call) _ h in
    let b = bind-returned (declared_tool_capability tool) _ a.2 in
    (
      require-passed _ cannot_call a.1,
      b.0,
      b.1,
      permits-granted b.0 human_approved (spec_for role).capabilities (guarded-spec_for role) b.2,
    )

unfoldable pub is_mentor : AgentRole → Bool
is_mentor mentor = true
is_mentor _ = false

-- With a person's approval every tool of a role's manifest is authorized, but for `list_hunts` of
-- the mentor, whose capability the mentor does not have.
pub authorize_tool-approved :
    (role : AgentRole)
    → All
        (λ tool.
          authorize_tool role tool true
          ≡ (if is_mentor role && str_eq tool "list_hunts" then raised lacks_capability else ok tt))
        (spec_for role).tools
unfolding authorize_tool spec_for declared_tool_capability effect_in matching permits same_effect
    is_mentor
authorize_tool-approved dispatcher = (refl, tt)
authorize_tool-approved endpoint_hunter = (refl, tt)
authorize_tool-approved persistence_hunter = (refl, tt)
authorize_tool-approved threat_intel = (refl, tt)
authorize_tool-approved detection_engineer = (refl, tt)
authorize_tool-approved investigator = (refl, (refl, (refl, (refl, tt))))
authorize_tool-approved fleet_commander = (refl, (refl, (refl, (refl, (refl, (refl, tt))))))
authorize_tool-approved mentor = (refl, (refl, (refl, tt)))
