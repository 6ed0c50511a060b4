-- ===== src/Guard/Presented.antt =====
-- What passes the guard: the sealed result, with nothing dropped and nothing added.
use zaynor.Prelude.{
  String, ◌≡◌, ◌∙◌, sym, ap, eq_iff, Option, none, [], ◌∷◌, Option-cases, inl, inr, refl, Bool,
  some, List, map, all, ok, ◌↔◌, require-true, bind-returned,
}
use zaynor.Seal.Values.{Value, text, mapping, list, Elements, nil, cons, Pairs, Platform}
use zaynor.Seal.Sealing.{AuthoritySeal, verify_authoritative_result}
use zaynor.Guard.Result.{Result, elements, value_of, item, ids, techniques, same_set}
use zaynor.Guard.Members.{some_inj, not_found, Some, Member, same_set-Member}
use zaynor.Guard.Sets.{HasId, Attributed, ids-Member, techniques-Member}
use zaynor.Guard.Checks.{
  missing_fields, float_claim, wrong_case_id, wrong_hash, wrong_verdict, findings_dropped,
  unknowns_altered, wrong_scores, wrong_confidence, not_ids, not_authorized,
  technique_not_authorized, sealed, required_fields, is_present, float_free_pairs, values, or_none,
  text_list, is_text, texts_of, check_findings_list, check_set, unknowns_match, same_text,
  check_projection, check_structured_output,
}
use zaynor.Guard.Shown.{
  AllShown, is_text-some, sealed_returned, unknowns_match-same, check_set-same,
  check_findings_list-AllShown,
}

↔-trans : {A B C : Type 0} → A ↔ B → B ↔ C → A ↔ C
↔-trans f g = (λ a. g.0 (f.0 a), λ b. f.1 (g.1 b))

-- The item is a list of just these texts.
abbrev pub IsTexts : Option Value → List String → Type 0
IsTexts o ss = o ≡ some (list (elements (map (λ s. text s) ss)))

text_list-map :
    (vs : List Value) (ss : List String) → text_list vs ≡ some ss → vs ≡ map (λ s. text s) ss
text_list-map [] ss h = ap (λ ts. map (λ s. text s) ts) (some_inj h)
text_list-map (text s ∷ vs) ss h = elim (Option-cases (text_list vs)) [
  | inl k ↦ let e : text_list (text s ∷ vs) ≡ none = rw k in absurd (not_found (sym e ∙ h))
  | inr k ↦
      let e : text_list (text s ∷ vs) ≡ some (s ∷ k.0) = rw (k.1) in
      ap (λ ws. text s ∷ ws) (text_list-map vs k.0 k.1)
      ∙ ap (λ ts. map (λ s. text s) ts) (some_inj (sym e ∙ h))
]
text_list-map (v ∷ vs) ss h = cc

elements-values : (xs : Elements) → elements (values xs) ≡ xs
elements-values nil = refl
elements-values (cons v xs) = ap (λ ys. cons v ys) (elements-values xs)

texts_of-IsTexts : (o : Option Value) (ss : List String) → texts_of o ≡ some ss → IsTexts o ss
texts_of-IsTexts none ss h = absurd (not_found h)
texts_of-IsTexts (some (list xs)) ss h =
    ap (λ ys. some (list ys))
      (sym (elements-values xs) ∙ ap elements (text_list-map (values xs) ss h))
texts_of-IsTexts (some v) ss h = cc

module _ (c : Platform) (upper : String → String) (str_of : Value → String) where
  -- What is shown has the case, the hash, the verdict and the unknowns of the sealed result, shows
  -- its findings and no others, and the sets of its fractures, hypotheses and techniques.
  pub record Presented (result : Result) (seal : AuthoritySeal) (d : Pairs) : Type 0 where
    pub sealed_result : (b : Bool) × (verify_authoritative_result c (value_of result) seal ≡ ok b)
    pub case_id : item "case_id" d ≡ some (text result.case_id)
    pub hash : item "result_sha256" d ≡ some (text seal.sha256)
    pub verdict : item "verdict" d ≡ some (text result.verdict)
    pub findings : Elements
    pub listed : item "findings" d ≡ some (list findings)
    pub shown : List String
    pub all_shown : AllShown result.findings (values findings) shown
    pub none_dropped :
        (x : String) → Member x shown ↔ Member x (map (λ f. f.finding_id) result.findings)
    pub unknowns : IsTexts (item "unknowns" d) result.unknowns
    pub scores :
        str_of (or_none (item "scores" d)) ≡ str_of (or_none (item "scores" result.integrity))
    pub confidence :
        str_of (or_none (item "confidence" d))
        ≡ str_of (or_none (item "confidence" result.integrity))
    pub fractures :
        (ss : List String) × IsTexts (item "fractures" d) ss
        × ((x : String) → Member x ss ↔ Some (HasId x) result.fractures)
    pub hypotheses :
        (ss : List String) × IsTexts (item "hypotheses" d) ss
        × ((x : String) → Member x ss ↔ Some (HasId x) result.hypotheses)
    pub shown_techniques :
        (ss : List String) × IsTexts (item "mitre_techniques" d) ss
        × ((x : String) → Member x ss ↔ Some (Attributed upper x) result.findings)

  check_projection-Presented :
      (result : Result) (seal : AuthoritySeal) (d : Pairs)
      → check_projection c upper str_of result seal d ≡ ok tt
      → Presented result seal d
  unfolding check_projection
  check_projection-Presented result seal d h =
      let floats = require-true (float_free_pairs d) float_claim _ h in
      let passes =
        bind-returned (sealed (verify_authoritative_result c (value_of result) seal)) _ floats.1 in
      let case =
        require-true (is_text result.case_id (item "case_id" d)) wrong_case_id _ passes.2 in
      let hash = require-true (is_text seal.sha256 (item "result_sha256" d)) wrong_hash _ case.1 in
      let verdict =
        require-true (is_text result.verdict (item "verdict" d)) wrong_verdict _ hash.1 in
      let shown =
        bind-returned (check_findings_list result.findings (item "findings" d)) _ verdict.1 in
      let kept =
        require-true (same_set shown.0 (map (λ f. f.finding_id) result.findings)) findings_dropped _
          shown.2 in
      let unknowns =
        require-true (unknowns_match result.unknowns (texts_of (item "unknowns" d)))
          unknowns_altered _ kept.1 in
      let scores =
        require-true (same_text c upper str_of (item "scores" d) (item "scores" result.integrity))
          wrong_scores _ unknowns.1 in
      let confidence =
        require-true
          (same_text c upper str_of (item "confidence" d) (item "confidence" result.integrity))
          wrong_confidence _ scores.1 in
      let fractures =
        bind-returned
          (check_set not_ids not_authorized (ids result.fractures) (texts_of (item "fractures" d)))
          _ confidence.1 in
      let hypotheses =
        bind-returned
          (check_set not_ids not_authorized (ids result.hypotheses)
            (texts_of (item "hypotheses" d)))
          _ fractures.2 in
      let all_of =
        check_findings_list-AllShown result.findings (item "findings" d) shown.0 shown.1 in
      record {
        sealed_result =
            sealed_returned (verify_authoritative_result c (value_of result) seal) passes.1;
        case_id = is_text-some result.case_id (item "case_id" d) case.0;
        hash = is_text-some seal.sha256 (item "result_sha256" d) hash.0;
        verdict = is_text-some result.verdict (item "verdict" d) verdict.0;
        findings = all_of.0;
        listed = all_of.1;
        shown = shown.0;
        all_shown = all_of.2;
        none_dropped = same_set-Member shown.0 (map (λ f. f.finding_id) result.findings) kept.0;
        unknowns =
            texts_of-IsTexts (item "unknowns" d) result.unknowns
              (unknowns_match-same result.unknowns (texts_of (item "unknowns" d)) unknowns.0);
        scores = (eq_iff _ _).0 scores.0;
        confidence = (eq_iff _ _).0 confidence.0;
        fractures =
            let s =
              check_set-same not_ids not_authorized (ids result.fractures)
                (texts_of (item "fractures" d)) fractures.1 in
            (
              s.0,
              texts_of-IsTexts (item "fractures" d) s.0 s.1,
              λ x. ↔-trans (s.2 x) (ids-Member x result.fractures),
            );
        hypotheses =
            let s =
              check_set-same not_ids not_authorized (ids result.hypotheses)
                (texts_of (item "hypotheses" d)) hypotheses.1 in
            (
              s.0,
              texts_of-IsTexts (item "hypotheses" d) s.0 s.1,
              λ x. ↔-trans (s.2 x) (ids-Member x result.hypotheses),
            );
        shown_techniques =
            let s =
              check_set-same technique_not_authorized technique_not_authorized
                (techniques upper result.findings) (texts_of (item "mitre_techniques" d))
                hypotheses.2 in
            (
              s.0,
              texts_of-IsTexts (item "mitre_techniques" d) s.0 s.1,
              λ x. ↔-trans (s.2 x) (techniques-Member upper x result.findings),
            );
      }

  -- Structured output that passes `check_structured_output` is a dictionary that shows the sealed
  -- result: its case, hash, verdict and unknowns, scores and confidence with the same str() as those
  -- of its integrity, each shown finding is one of its findings, in its
  -- state, with its references and no others, no finding is dropped, the shown fractures and hypotheses
  -- are the ids of the result's records, under any of the four names of an id, and the shown
  -- techniques are the upper-case forms of those of its findings.
  pub check_structured_output-Presented :
      (result : Result) (seal : AuthoritySeal) (shown : Value)
      → check_structured_output c upper str_of result seal shown ≡ ok tt
      → (d : Pairs) × (shown ≡ mapping d) × Presented result seal d
  unfolding check_structured_output
  check_structured_output-Presented result seal (mapping d) h =
      let fields =
        require-true (all (λ key. is_present (item key d)) required_fields) missing_fields _ h in
      (d, refl, check_projection-Presented result seal d fields.1)
  check_structured_output-Presented result seal shown h = cc
