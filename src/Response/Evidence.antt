-- ===== src/Response/Evidence.antt =====
-- Where the evidence of a proposed response comes from.
use zaynor.Prelude.{
  String, ◌≡◌, refl, sym, ap, ap₂, Bool, true, false, not, List, [], ◌∷◌, Outcome, ok, ◌>>◌,
  require, eq_iff, elem, is_blank, any, All, any-append, bind-returned, inl, inr, Bool-cases, arith,
  ◌≢◌,
}
use mathlib.Core.List.{Memᴰ}
use zaynor.Response.{
  EvidenceRef, AuthoritativeFinding, ResponseAction, ResponseActionError, empty_action_id,
  unknown_category, empty_reason, no_evidence, unsupported, valid_categories, valid_risk,
  valid_reversibility, unknown_risk, unknown_reversibility, no_refs, constructed, check_action,
  authorized_refs, same_ref, check_refs, propose_response_action,
}

-- One of the findings cites the reference.
pub record Supported (findings : List AuthoritativeFinding) (r : EvidenceRef) : Type 0 where
  pub finding : AuthoritativeFinding
  pub among : Memᴰ finding findings
  pub cites : Memᴰ r finding.evidence_refs

same_ref-eq : (r q : EvidenceRef) → same_ref r q ≡ true → q ≡ r
unfolding same_ref
same_ref-eq r q h =
    let a : q.artifact ≡ r.artifact = sym ((eq_iff r.artifact q.artifact).0 (ground arith)) in
    let l : q.lineage_id ≡ r.lineage_id =
      sym ((eq_iff r.lineage_id q.lineage_id).0 (ground arith)) in
    ap₂ (λ x y. record { artifact = x; lineage_id = y }) a l

any-Memᴰ : (r : EvidenceRef) (qs : List EvidenceRef) → any (same_ref r) qs ≡ true → Memᴰ r qs
any-Memᴰ r [] h = ground arith
any-Memᴰ r (q ∷ qs) h = elim (Bool-cases (same_ref r q)) [
  | inl e ↦ Memᴰ.head (sym (same_ref-eq r q e))
  | inr n ↦ Memᴰ.tail (any-Memᴰ r qs (ground arith))
]

any-Supported :
    (r : EvidenceRef) (fs : List AuthoritativeFinding)
    → any (same_ref r) (authorized_refs fs) ≡ true
    → Supported fs r
unfolding authorized_refs
any-Supported r [] h = ground arith
any-Supported r (f ∷ fs) h = elim (Bool-cases (any (same_ref r) f.evidence_refs)) [
  | inl e ↦ record { finding = f; among = Memᴰ.head refl; cites = any-Memᴰ r f.evidence_refs e }
  | inr n ↦
      let s =
        any-Supported r fs
          (ground (arith, any-append (same_ref r) f.evidence_refs (authorized_refs fs))) in
      record { finding = s.finding; among = Memᴰ.tail s.among; cites = s.cites }
]

supported :
    (b : Bool) (e : ResponseActionError) (k : Outcome ResponseActionError (Unit {0}))
    → (require b e >> k) ≡ ok tt
    → (b ≡ true) × (k ≡ ok tt)
supported true e k h = (refl, h)
supported false e k h = cc

check_refs-Supported :
    (rs : List EvidenceRef) (fs : List AuthoritativeFinding)
    → check_refs (authorized_refs fs) rs ≡ ok tt
    → All (Supported fs) rs
unfolding check_refs
check_refs-Supported [] fs h = tt
check_refs-Supported (r ∷ rs) fs h =
    let a = supported (any (same_ref r) (authorized_refs fs)) (unsupported r) _ h in
    (any-Supported r fs a.0, check_refs-Supported rs fs a.1)

-- What a proposal is, once it is returned.
pub record Proposed (findings : List AuthoritativeFinding) (refs : List EvidenceRef)
    (a : ResponseAction) : Type 0 where
  pub approval : a.requires_human_approval ≡ true
  pub status : a.status ≡ "proposed"
  pub refs_kept : a.evidence_refs ≡ refs
  pub some_evidence : refs ≢ []
  pub supported_refs : All (Supported findings) refs

not-empty : (rs : List EvidenceRef) → require (not (no_refs rs)) no_evidence ≡ ok tt → rs ≢ []
unfolding no_refs
not-empty [] h e = cc
not-empty (r ∷ rs) h e = cc

action-inj :
    (a b : ResponseAction) (r : Outcome ResponseActionError ResponseAction)
    → r ≡ ok a
    → r ≡ ok b
    → a ≡ b
action-inj a b r h k = cc

check_action-returned :
    (a b : ResponseAction) → check_action a ≡ ok b → (a ≡ b) × (a.evidence_refs ≢ [])
unfolding check_action no_refs
check_action-returned a b h =
    let i = bind-returned (require (not (is_blank a.action_id)) empty_action_id) _ h in
    let j = bind-returned (require (elem a.category valid_categories) unknown_category) _ i.2 in
    let k = bind-returned (require (not (is_blank a.reason)) empty_reason) _ j.2 in
    let l = bind-returned (require (not (no_refs a.evidence_refs)) no_evidence) _ k.2 in
    let m = bind-returned (require (elem a.risk valid_risk) unknown_risk) _ l.2 in
    let n =
      bind-returned (require (elem a.reversibility valid_reversibility) unknown_reversibility) _
        m.2 in
    (action-inj a b _ refl n.2, λ e. not-empty a.evidence_refs l.1 e)

-- An action that `propose_response_action` returns is proposed, requires a person's approval, and
-- cites evidence, of which each reference is cited by a finding of the sealed result.
pub propose_response_action-Proposed :
    (action_id category reason : String) (refs : List EvidenceRef) (risk reversibility : String)
    (findings : List AuthoritativeFinding) (a : ResponseAction)
    → propose_response_action action_id category reason refs risk reversibility findings ≡ ok a
    → Proposed findings refs a
unfolding propose_response_action constructed
propose_response_action-Proposed action_id category reason refs risk reversibility findings a h =
    let b = bind-returned (check_refs (authorized_refs findings) refs) _ h in
    let d =
      check_action-returned (constructed action_id category reason refs risk reversibility) a b.2 in
    record {
      approval = ap (λ x. x.requires_human_approval) (sym d.0);
      status = ap (λ x. x.status) (sym d.0);
      refs_kept = ap (λ x. x.evidence_refs) (sym d.0);
      some_evidence = d.1;
      supported_refs = check_refs-Supported refs findings b.1;
    }
