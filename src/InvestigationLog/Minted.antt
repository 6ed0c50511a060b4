-- ===== src/InvestigationLog/Minted.antt =====
-- What the operations of the investigation log share: fresh ids, and the entries of the other kind.
use zaynor.Prelude.{
  ℕ, suc, ◌<◌, String, ◌≡◌, refl, sym, ap, ◌∙◌, subst, false, Option, none, some, List, [], ◌∷◌,
  ◌++◌, ok, str_eq, arith, value, value-decimal, is_blank, text_length, strip,
}
use zaynor.InvestigationLog.Defs.{
  Hypothesis, Question, of_hypothesis, of_question, JournalEntry, bounded_text, last_minted,
  hypothesis_id, question_id,
}
use zaynor.InvestigationLog.Operations.{id_of_hypothesis, id_of_question}
use zaynor.InvestigationLog.Verify.{hypothesis_details, question_details}
use zaynor.InvestigationLog.Summary.{Summary, Below}
use zaynor.InvestigationLog.Latest.{two-other}

drop_prefix : String → String
drop_prefix String.[] = String.[]
drop_prefix (String.◌∷◌ c s) = s

pub hypothesis_id-injective : (n k : ℕ) → hypothesis_id n ≡ hypothesis_id k → n ≡ k
unfolding hypothesis_id drop_prefix
hypothesis_id-injective n k h =
    sym (value-decimal n) ∙ ap (λ s. value (drop_prefix s)) h ∙ value-decimal k

pub question_id-injective : (n k : ℕ) → question_id n ≡ question_id k → n ≡ k
unfolding question_id drop_prefix
question_id-injective n k h =
    sym (value-decimal n) ∙ ap (λ s. value (drop_prefix s)) h ∙ value-decimal k

pub Below-minted :
    (counter : Option ℕ) (ids : List String) → Below counter (suc (last_minted counter ids))
unfolding last_minted
Below-minted none ids = tt
Below-minted (some m) ids = omega arith

pub Below-up :
    (counter : Option ℕ) (ids : List String) (k : ℕ)
    → suc (last_minted counter ids) < k
    → Below counter k
unfolding last_minted
Below-up none ids k h = tt
Below-up (some m) ids k h = omega arith

pub add_action : bounded_text 120 "add_hypothesis" ≡ ok "add_hypothesis"
unfolding bounded_text is_blank strip text_length
add_action = refl

pub update_action : bounded_text 120 "update_hypothesis" ≡ ok "update_hypothesis"
unfolding bounded_text is_blank strip text_length
update_action = refl

pub note_action : bounded_text 120 "note_open_question" ≡ ok "note_open_question"
unfolding bounded_text is_blank strip text_length
note_action = refl

pub resolve_action : bounded_text 120 "resolve_open_question" ≡ ok "resolve_open_question"
unfolding bounded_text is_blank strip text_length
resolve_action = refl

-- An entry about the one summary leaves the other as it was.
pub questions_other :
    (counter : Option ℕ) (qs : List Question) (es : List JournalEntry) (e : JournalEntry)
    → Summary id_of_question of_question question_id counter (question_details es) qs
    → str_eq e.action "note_open_question" ≡ false
    → str_eq e.action "resolve_open_question" ≡ false
    → Summary id_of_question of_question question_id counter (question_details (es ++ e ∷ [])) qs
unfolding question_details
questions_other counter qs es e s p q =
    subst (λ ds. Summary id_of_question of_question question_id counter ds qs)
      (sym (two-other "note_open_question" "resolve_open_question" es e p q)) s

pub hypotheses_other :
    (counter : Option ℕ) (hs : List Hypothesis) (es : List JournalEntry) (e : JournalEntry)
    → Summary id_of_hypothesis of_hypothesis hypothesis_id counter (hypothesis_details es) hs
    → str_eq e.action "add_hypothesis" ≡ false
    → str_eq e.action "update_hypothesis" ≡ false
    → Summary id_of_hypothesis of_hypothesis hypothesis_id counter
        (hypothesis_details (es ++ e ∷ []))
        hs
unfolding hypothesis_details
hypotheses_other counter hs es e s p q =
    subst (λ ds. Summary id_of_hypothesis of_hypothesis hypothesis_id counter ds hs)
      (sym (two-other "add_hypothesis" "update_hypothesis" es e p q)) s
