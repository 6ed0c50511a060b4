-- ===== src/Guard/Examples.antt =====
-- A result with one finding, what an agent shows of it, and the theorem applied to them.
use zaynor.Prelude.{String, ◌≡◌, refl, none, some, List, [], ◌∷◌, text_length, ok}
use zaynor.Seal.Values.{
  Value, nothing, text, mapping, list, Pairs, end, pair, Platform, typed, sort_pairs,
}
use zaynor.Seal.Sealing.{
  AuthoritySeal, canonicalize_version, result_schema_version, verify_authoritative_result,
  seal_authoritative_result, attribute, other_schema,
}
use zaynor.Seal.Examples.{platform, digest}
use zaynor.Guard.Result.{Result, value_of, item, ids, techniques, authorized, elements}
use zaynor.Guard.Checks.{
  check_structured_output, float_free_pairs, hashable, is_ref, check_refs, check_known, check_id,
  check_finding, check_findings, check_findings_list,
}
use zaynor.Guard.Presented.{Presented, check_structured_output-Presented}

-- The fields of the class of a result; those of the other classes are not read.
abbrev pub machine : Platform
machine = record platform {
  field_names = λ class.
      "case_id" ∷ "engine" ∷ "verdict" ∷ "observations" ∷ "timeline" ∷ "fractures" ∷ "hypotheses"
      ∷ "findings" ∷ "unknowns" ∷ "provenance" ∷ "integrity" ∷ "audit_refs" ∷ "schema_version" ∷ [];
}

abbrev same : String → String
same s = s

abbrev shape : Value → String
shape (text s) = s
shape v = "None"

abbrev pub result : Result
result = record {
  case_id = "INC-1";
  engine = end;
  verdict = "SUPPORTED";
  observations = [];
  timeline = [];
  fractures = pair (text "id") (text "fr-1") end ∷ [];
  hypotheses = [];
  findings =
      record {
        finding_id = "f-1";
        state = "SUPPORTED";
        evidence_refs = record { artifact = "auth.log"; lineage_id = "l-1" } ∷ [];
        lineage_ids = [];
        rationale = "";
        mitre = some (pair (text "technique") (text "T1021") end);
        nist = none;
      }
      ∷ [];
  unknowns = "initial access" ∷ [];
  provenance = [];
  integrity = end;
  audit_refs = [];
  schema_version = result_schema_version;
}

abbrev pub seal : AuthoritySeal
seal = record { version = canonicalize_version; sha256 = digest }

abbrev texts : List Value → Value
texts vs = list (elements vs)

abbrev shown_finding : Value
shown_finding = mapping (
    pair (text "finding_id") (text "f-1") (
      pair (text "state") (text "SUPPORTED") (
        pair (text "evidence_refs")
          (texts (
            mapping
              (pair (text "artifact") (text "auth.log") (pair (text "lineage_id") (text "l-1") end))
            ∷ []))
          end)))

abbrev shown_fields : String → List Value → Pairs
shown_fields verdict findings = pair (text "case_id") (text "INC-1") (
    pair (text "result_sha256") (text digest) (
      pair (text "verdict") (text verdict) (
        pair (text "findings") (texts findings) (
          pair (text "unknowns") (texts (text "initial access" ∷ [])) (
            pair (text "scores") nothing (
              pair (text "confidence") nothing (
                pair (text "fractures") (texts (text "fr-1" ∷ [])) (
                  pair (text "hypotheses") (texts [])
                    (pair (text "mitre_techniques") (texts (text "T1021" ∷ [])) end)))))))))

shown_passes :
    check_structured_output machine same shape result seal
      (mapping (shown_fields "SUPPORTED" (shown_finding ∷ [])))
    ≡ ok tt
unfolding check_structured_output item float_free_pairs value_of typed sort_pairs
    verify_authoritative_result seal_authoritative_result attribute other_schema text_length
    authorized hashable is_ref check_refs check_known check_id check_finding check_findings
    check_findings_list ids techniques
shown_passes = refl

-- A finding that is shown twice passes as well.
twice_passes :
    check_structured_output machine same shape result seal
      (mapping (shown_fields "SUPPORTED" (shown_finding ∷ shown_finding ∷ [])))
    ≡ ok tt
unfolding check_structured_output item float_free_pairs value_of typed sort_pairs
    verify_authoritative_result seal_authoritative_result attribute other_schema text_length
    authorized hashable is_ref check_refs check_known check_id check_finding check_findings
    check_findings_list ids techniques
twice_passes = refl

check_structured_output-Presented_example :
    (d : Pairs) × (mapping (shown_fields "SUPPORTED" (shown_finding ∷ [])) ≡ mapping d)
    × Presented machine same shape result seal d
check_structured_output-Presented_example =
    check_structured_output-Presented machine same shape result seal
      (mapping (shown_fields "SUPPORTED" (shown_finding ∷ []))) shown_passes
