-- ===== src/Guard/Result.antt =====
-- The authoritative result of src/zaynor/schemas.py, as a value that is sealed, and what the guard
-- reads from it.
use zaynor.Prelude.{
  String, Bool, ◌&&◌, Option, none, some, List, [], ◌∷◌, ◌++◌, map, if◌then◌else◌, str_eq, elem,
  all,
}
use zaynor.Seal.Values.{
  Value, nothing, text, instance_of, mapping, tuple, Elements, nil, cons, Pairs, end, pair,
}

pub record Ref : Type 0 where
  pub artifact : String
  pub lineage_id : String

pub record Finding : Type 0 where
  pub finding_id : String
  pub state : String
  pub evidence_refs : List Ref
  pub lineage_ids : List String
  pub rationale : String
  pub mitre : Option Pairs
  pub nist : Option Pairs

pub record Result : Type 0 where
  pub case_id : String
  pub engine : Pairs
  pub verdict : String
  pub observations : List Pairs
  pub timeline : List Pairs
  pub fractures : List Pairs
  pub hypotheses : List Pairs
  pub findings : List Finding
  pub unknowns : List String
  pub provenance : List Pairs
  pub integrity : Pairs
  pub audit_refs : List String
  pub schema_version : String

abbrev pub elements : List Value → Elements
elements [] = nil
elements (v ∷ vs) = cons v (elements vs)

abbrev texts : List String → Value
texts ss = tuple (elements (map (λ s. text s) ss))

abbrev mappings : List Pairs → Value
mappings ds = tuple (elements (map (λ d. mapping d) ds))

abbrev optional : Option Pairs → Value
optional none = nothing
optional (some d) = mapping d

abbrev ref_value : Ref → Value
ref_value r =
    instance_of "zaynor.evidence_ref" (elements (text r.artifact ∷ text r.lineage_id ∷ []))

abbrev finding_value : Finding → Value
finding_value f = instance_of "zaynor.authoritative_finding" (
    elements (
      text f.finding_id
      ∷ text f.state
      ∷ tuple (elements (map ref_value f.evidence_refs))
      ∷ texts f.lineage_ids
      ∷ text f.rationale
      ∷ optional f.mitre
      ∷ optional f.nist
      ∷ []))

-- The result as `_typed` meets it: its class and its fields in their order.
unfoldable pub value_of : Result → Value
value_of r = instance_of "zaynor.authoritative_result" (
    elements (
      text r.case_id
      ∷ mapping r.engine
      ∷ text r.verdict
      ∷ mappings r.observations
      ∷ mappings r.timeline
      ∷ mappings r.fractures
      ∷ mappings r.hypotheses
      ∷ tuple (elements (map finding_value r.findings))
      ∷ texts r.unknowns
      ∷ mappings r.provenance
      ∷ mapping r.integrity
      ∷ texts r.audit_refs
      ∷ text r.schema_version
      ∷ []))

-- d.get(key)
unfoldable pub item : String → Pairs → Option Value
item key end = none
item key (pair (text k) v ps) = let rest = item key ps in if str_eq k key then some v else rest
item key (pair k v ps) = item key ps

abbrev pub text_item : String → Pairs → List String
text_item key d = elim (item key d) [ none ↦ [] | some v ↦ elim v [ text s ↦ s ∷ [] | _ ↦ [] ] ]

abbrev pub record_ids : Pairs → List String
record_ids d =
    text_item "id" d
    ++ text_item "finding_id" d
    ++ text_item "hypothesis_id" d
    ++ text_item "fracture_id" d

-- `_ids`, a set as a list
unfoldable pub ids : List Pairs → List String
ids [] = []
ids (d ∷ ds) = record_ids d ++ ids ds

module _ (upper : String → String) where
  abbrev pub technique_of : Option Pairs → List String
  technique_of none = []
  technique_of (some d) = map upper (text_item "technique" d)

  -- `_techniques`, a set as a list
  unfoldable pub techniques : List Finding → List String
  techniques [] = []
  techniques (f ∷ fs) = technique_of f.mitre ++ techniques fs

-- `authorized_findings[id]`: of findings with one id, the last.
unfoldable pub authorized : String → List Finding → Option Finding
authorized id [] = none
authorized id (f ∷ fs) = elim (authorized id fs) [
  | some g ↦ some g
  | none ↦ if str_eq f.finding_id id then some f else none
]

-- The equality of two sets of texts.
abbrev pub within : List String → List String → Bool
within xs ys = all (λ x. elem x ys) xs

abbrev pub same_set : List String → List String → Bool
same_set xs ys = within xs ys && within ys xs
