-- ===== src/Guard/Checks.antt =====
-- `check_structured_output`. What it shows is a Python value; the sets that it builds are lists.
use zaynor.Prelude.{
  String, Bool, true, false, ◌&&◌, Option, none, some, List, [], ◌∷◌, map, str_eq, all, any,
  Outcome, ok, raised, ◌>>=◌, ◌>>◌, require,
}
use zaynor.Seal.Values.{
  Value, nothing, float, text, instance_of, mapping, tuple, list, Elements, nil, cons, Pairs, end,
  pair, Platform, SealError,
}
use zaynor.Seal.Sealing.{AuthoritySeal, verify_authoritative_result}
use zaynor.Guard.Result.{
  Ref, Finding, Result, value_of, item, ids, techniques, authorized, same_set,
}

pub data GuardError : Type 0 where
  not_an_object missing_fields float_claim wrong_case_id wrong_hash wrong_verdict no_findings_list
        finding_not_authorized wrong_state ref_not_authorized findings_dropped unknowns_altered
        wrong_scores wrong_confidence not_ids not_authorized technique_not_authorized unhashable :
      GuardError
  bad_seal : SealError → GuardError

-- The seal's own exceptions pass through.
abbrev pub sealed : Outcome SealError Bool → Outcome GuardError (Unit {0})
sealed (ok b) = ok tt
sealed (raised e) = raised (bad_seal e)

abbrev pub required_fields : List String
required_fields =
    "case_id" ∷ "result_sha256" ∷ "verdict" ∷ "findings" ∷ "unknowns" ∷ "scores" ∷ "confidence"
    ∷ "fractures" ∷ "hypotheses" ∷ "mitre_techniques" ∷ []

abbrev pub is_present : Option Value → Bool
is_present none = false
is_present (some v) = true

unfoldable mutual
  -- Whether `_reject_floats` lets a value pass; it does not look into a dataclass.
  pub float_free : Value → Bool
  float_free float = false
  float_free (mapping ps) = float_free_pairs ps
  float_free (tuple xs) = float_free_elements xs
  float_free (list xs) = float_free_elements xs
  float_free v = true

  pub float_free_elements : Elements → Bool
  float_free_elements nil = true
  float_free_elements (cons v xs) = float_free v && float_free_elements xs

  pub float_free_pairs : Pairs → Bool
  float_free_pairs end = true
  float_free_pairs (pair k v ps) = float_free k && (float_free v && float_free_pairs ps)

abbrev pub values : Elements → List Value
values nil = []
values (cons v xs) = v ∷ values xs

-- Whether a value equals a text.
abbrev pub is_text : String → Option Value → Bool
is_text s none = false
is_text s (some (text t)) = str_eq t s
is_text s (some v) = false

-- A list of texts, and nothing else.
abbrev pub text_list : List Value → Option (List String)
text_list [] = some []
text_list (text s ∷ vs) = elim (text_list vs) [ none ↦ none | some ss ↦ some (s ∷ ss) ]
text_list (_ ∷ vs) = none

abbrev pub texts_of : Option Value → Option (List String)
texts_of (some (list xs)) = text_list (values xs)
texts_of _ = none

abbrev pub texts_eq : List String → List String → Bool
texts_eq [] [] = true
texts_eq (x ∷ xs) (y ∷ ys) = str_eq x y && texts_eq xs ys
texts_eq _ _ = false

unfoldable mutual
  -- Whether hash() takes a value: no list and no dictionary in it.
  pub hashable : Value → Bool
  hashable (list xs) = false
  hashable (mapping ps) = false
  hashable (tuple xs) = hashable_elements xs
  hashable (instance_of name xs) = hashable_elements xs
  hashable v = true

  pub hashable_elements : Elements → Bool
  hashable_elements nil = true
  hashable_elements (cons v xs) = hashable v && hashable_elements xs

abbrev pub hashable_item : Option Value → Bool
hashable_item none = true
hashable_item (some v) = hashable v

abbrev pub hashable_ref : Value → Bool
hashable_ref (mapping d) = hashable_item (item "artifact" d) && hashable_item (item "lineage_id" d)
hashable_ref v = true

-- Whether a shown reference is this one.
unfoldable pub is_ref : Ref → Value → Bool
is_ref r (mapping d) =
    is_text r.artifact (item "artifact" d) && is_text r.lineage_id (item "lineage_id" d)
is_ref r v = false

-- The set of the shown references is that of the finding's, and each of them is a dictionary.
abbrev pub refs_match : List Ref → List Value → Bool
refs_match rs vs = all (λ v. any (λ r. is_ref r v) rs) vs && all (λ r. any (λ v. is_ref r v) vs) rs

unfoldable pub check_refs : Finding → Option Value → Outcome GuardError (Unit {0})
check_refs f (some (list xs)) = do
  require (all hashable_ref (values xs)) unhashable
  require (refs_match f.evidence_refs (values xs)) ref_not_authorized
check_refs f _ = raised ref_not_authorized

unfoldable pub check_known : Pairs → String → Option Finding → Outcome GuardError String
check_known d id none = raised finding_not_authorized
check_known d id (some f) = do
  require (is_text f.state (item "state" d)) wrong_state
  check_refs f (item "evidence_refs" d)
  ok id

unfoldable pub check_id : List Finding → Pairs → Option Value → Outcome GuardError String
check_id fs d (some (text id)) = check_known d id (authorized id fs)
check_id fs d _ = raised finding_not_authorized

-- The body of the loop over the shown findings.
unfoldable pub check_finding : List Finding → Value → Outcome GuardError String
check_finding fs (mapping d) =
    require (hashable_item (item "finding_id" d)) unhashable >> check_id fs d (item "finding_id" d)
check_finding fs v = raised finding_not_authorized

-- The loop, with the ids that it collects.
unfoldable pub check_findings : List Finding → List Value → Outcome GuardError (List String)
check_findings fs [] = ok []
check_findings fs (v ∷ vs) =
    check_finding fs v >>= λ id. check_findings fs vs >>= λ shown. ok (id ∷ shown)

unfoldable pub check_findings_list : List Finding → Option Value → Outcome GuardError (List String)
check_findings_list fs (some (list xs)) = check_findings fs (values xs)
check_findings_list fs _ = raised no_findings_list

abbrev pub check_set :
    GuardError → GuardError → List String → Option (List String) → Outcome GuardError (Unit {0})
check_set e e' allowed none = raised e
check_set e e' allowed (some shown) = require (same_set shown allowed) e'

abbrev pub or_none : Option Value → Value
or_none none = nothing
or_none (some v) = v

abbrev pub unknowns_match : List String → Option (List String) → Bool
unknowns_match us none = false
unknowns_match us (some vs) = texts_eq vs us

module _ (c : Platform) (upper : String → String) (str_of : Value → String) where
  abbrev pub same_text : Option Value → Option Value → Bool
  same_text v w = str_eq (str_of (or_none v)) (str_of (or_none w))

  -- What follows the check of the fields that are there.
  unfoldable pub check_projection : Result → AuthoritySeal → Pairs → Outcome GuardError (Unit {0})
  check_projection result seal d = do
    require (float_free_pairs d) float_claim
    sealed (verify_authoritative_result c (value_of result) seal)
    require (is_text result.case_id (item "case_id" d)) wrong_case_id
    require (is_text seal.sha256 (item "result_sha256" d)) wrong_hash
    require (is_text result.verdict (item "verdict" d)) wrong_verdict
    shown ← check_findings_list result.findings (item "findings" d)
    require (same_set shown (map (λ f. f.finding_id) result.findings)) findings_dropped
    require (unknowns_match result.unknowns (texts_of (item "unknowns" d))) unknowns_altered
    require (same_text (item "scores" d) (item "scores" result.integrity)) wrong_scores
    require (same_text (item "confidence" d) (item "confidence" result.integrity)) wrong_confidence
    check_set not_ids not_authorized (ids result.fractures) (texts_of (item "fractures" d))
    check_set not_ids not_authorized (ids result.hypotheses) (texts_of (item "hypotheses" d))
    check_set technique_not_authorized technique_not_authorized (techniques upper result.findings)
        (texts_of (item "mitre_techniques" d))

  unfoldable pub check_structured_output :
      Result → AuthoritySeal → Value → Outcome GuardError (Unit {0})
  unfolding check_projection
  check_structured_output result seal (mapping d) =
      require (all (λ key. is_present (item key d)) required_fields) missing_fields
      >> check_projection result seal d
  check_structured_output result seal v = raised not_an_object
