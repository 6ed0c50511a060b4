-- ===== src/InvestigationLog/Preservation.antt =====
-- The operations of the investigation log keep it sound; a sound log is accepted.
use zaynor.Prelude.{
  suc, String, ◌≡◌, refl, ap, ◌∙◌, subst, true, false, none, some, [], ◌∷◌, ◌++◌, inl, inr, ok,
  arith, Outcome-cases, Option-cases, map,
}
use zaynor.Crypto.{Crypto}
use zaynor.InvestigationLog.Defs.{
  Hypothesis, Question, of_hypothesis, of_question, Log, bounded_text, last_minted, hypothesis_id,
  question_id, trim, sealed_entry, add_entry,
}
use zaynor.InvestigationLog.Operations.{
  id_of_hypothesis, id_of_question, mint_hypothesis, mint_question, find_item, replace_item,
  add_hypothesis, move_hypothesis, update_hypothesis, new_question, note_open_question,
  settle_question, resolve_open_question, same_question,
}
use zaynor.InvestigationLog.Verify.{hypothesis_details, question_details, detail_id}
use zaynor.InvestigationLog.Summary.{Summary-append, Summary-replace, found-Backed}
use zaynor.InvestigationLog.Latest.{latest-same, latest-first, latest-second}
use zaynor.InvestigationLog.Soundness.{Sound, Sound-trim, Sound-add_entry, recorded-ok}
use zaynor.InvestigationLog.Minted.{
  Below-minted, Below-up, add_action, update_action, note_action, resolve_action, questions_other,
  hypotheses_other, hypothesis_id-injective, question_id-injective,
}

module _ (c : Crypto) where
  pub add_hypothesis-Sound :
      (actor statement now : String) (log l : Log) (r : Hypothesis)
      → Sound c log
      → add_hypothesis c actor statement now log ≡ (ok r, l)
      → Sound c l
  unfolding add_hypothesis mint_hypothesis hypothesis_details question_details sealed_entry
      detail_id
  add_hypothesis-Sound actor statement now log l r s h =
      elim (Outcome-cases (bounded_text 2000 statement)) [
        | inr (x, p) ↦ absurd (ground arith)
        | inl (t, p) ↦
            let ids = map id_of_hypothesis log.hypotheses in
            let n = suc (last_minted log.next_hypothesis ids) in
            let x : Hypothesis = record {
              id = hypothesis_id n;
              statement = t;
              status = "open";
              rationale = none;
            } in
            let mid : Log = record log {
              next_hypothesis = some n;
              hypotheses = log.hypotheses ++ x ∷ [];
            } in
            let (a, q) =
              recorded-ok c trim x r mid l actor "add_hypothesis" (of_hypothesis x) now add_action
                (rw (p, add_hypothesis) at h) in
            let e = sealed_entry c mid none a "add_hypothesis" (of_hypothesis x) now in
            rw q (
              Sound-trim c (add_entry c e none mid) (
                Sound-add_entry c mid a "add_hypothesis" (of_hypothesis x) now s.chained s.headed
                  (Summary-append id_of_hypothesis of_hypothesis hypothesis_id log.next_hypothesis
                    (hypothesis_details log.journal) (hypothesis_details (log.journal ++ e ∷ []))
                    log.hypotheses n x s.hypotheses_backed (Below-minted log.next_hypothesis ids)
                    (Below-up log.next_hypothesis ids) (hypothesis_id-injective n) refl
                    (latest-first "add_hypothesis" "update_hypothesis" log.journal e refl refl
                      (s.hypotheses_backed.fresh n (Below-minted log.next_hypothesis ids)))
                    (λ k ne. latest-same "add_hypothesis" "update_hypothesis" k log.journal e ne))
                  (questions_other log.next_question log.open_questions log.journal e
                    s.questions_backed refl refl)))
      ]

  move_hypothesis-Sound :
      (actor status rationale now : String) (log l : Log) (x r : Hypothesis)
      → Sound c log
      → find_item id_of_hypothesis x.id log.hypotheses ≡ some x
      → move_hypothesis c actor status rationale now log x ≡ (ok r, l)
      → Sound c l
  unfolding move_hypothesis hypothesis_details sealed_entry detail_id
  move_hypothesis-Sound actor status rationale now log l x r s f h =
      elim (Outcome-cases (bounded_text 2000 rationale)) [
        | inr (y, p) ↦ absurd (ground arith)
        | inl (t, p) ↦
            let x' : Hypothesis = record x { status = status; rationale = some t } in
            let mid : Log = record log {
              hypotheses = replace_item id_of_hypothesis x.id x' log.hypotheses;
            } in
            let (a, q) =
              recorded-ok c trim x' r mid l actor "update_hypothesis" (of_hypothesis x') now
                update_action (rw (p, move_hypothesis) at h) in
            let e = sealed_entry c mid none a "update_hypothesis" (of_hypothesis x') now in
            rw q (
              Sound-trim c (add_entry c e none mid) (
                Sound-add_entry c mid a "update_hypothesis" (of_hypothesis x') now s.chained
                  s.headed
                  (Summary-replace id_of_hypothesis of_hypothesis hypothesis_id log.next_hypothesis
                    (hypothesis_details log.journal) (hypothesis_details (log.journal ++ e ∷ []))
                    log.hypotheses x.id x x' s.hypotheses_backed f refl
                    (latest-second "add_hypothesis" "update_hypothesis" log.journal e refl)
                    (λ k ne. latest-same "add_hypothesis" "update_hypothesis" k log.journal e ne))
                  (questions_other log.next_question log.open_questions log.journal e
                    s.questions_backed refl refl)))
      ]

  pub update_hypothesis-Sound :
      (actor i status rationale now : String) (log l : Log) (r : Hypothesis)
      → Sound c log
      → update_hypothesis c actor i status rationale now log ≡ (ok r, l)
      → Sound c l
  unfolding update_hypothesis
  update_hypothesis-Sound actor i status rationale now log l r s h =
      elim (Option-cases (find_item id_of_hypothesis i log.hypotheses)) [
        | inl p ↦ absurd (ground arith)
        | inr (x, p) ↦
            let same =
              (found-Backed id_of_hypothesis of_hypothesis hypothesis_id
                (hypothesis_details log.journal) i x log.hypotheses p
                s.hypotheses_backed.backed).0 in
            move_hypothesis-Sound actor status rationale now log l x r s
              (ap (λ k. find_item id_of_hypothesis k log.hypotheses) same ∙ p) (ground arith)
      ]

  new_question-Sound :
      (actor question would now : String) (log l : Log) (r : Question)
      → Sound c log
      → new_question c actor question would now log ≡ (ok r, l)
      → Sound c l
  unfolding new_question mint_question hypothesis_details question_details sealed_entry detail_id
  new_question-Sound actor question would now log l r s h =
      elim (Outcome-cases (bounded_text 2000 would)) [
        | inr (x, p) ↦ absurd (ground arith)
        | inl (t, p) ↦
            let ids = map id_of_question log.open_questions in
            let n = suc (last_minted log.next_question ids) in
            let x : Question = record {
              id = question_id n;
              question = question;
              what_would_resolve = t;
              resolved = false;
              resolved_how = none;
            } in
            let mid : Log = record log {
              next_question = some n;
              open_questions = log.open_questions ++ x ∷ [];
            } in
            let (a, q) =
              recorded-ok c trim x r mid l actor "note_open_question" (of_question x) now
                note_action (rw (p, new_question) at h) in
            let e = sealed_entry c mid none a "note_open_question" (of_question x) now in
            rw q (
              Sound-trim c (add_entry c e none mid) (
                Sound-add_entry c mid a "note_open_question" (of_question x) now s.chained s.headed
                  (hypotheses_other log.next_hypothesis log.hypotheses log.journal e
                    s.hypotheses_backed refl refl)
                  (Summary-append id_of_question of_question question_id log.next_question
                    (question_details log.journal) (question_details (log.journal ++ e ∷ []))
                    log.open_questions n x s.questions_backed (Below-minted log.next_question ids)
                    (Below-up log.next_question ids) (question_id-injective n) refl
                    (latest-first "note_open_question" "resolve_open_question" log.journal e refl
                      refl (s.questions_backed.fresh n (Below-minted log.next_question ids)))
                    (λ k ne.
                      latest-same "note_open_question" "resolve_open_question" k log.journal e
                        ne))))
      ]

  pub note_open_question-Sound :
      (actor question would now : String) (log l : Log) (r : Question)
      → Sound c log
      → note_open_question c actor question would now log ≡ (ok r, l)
      → Sound c l
  unfolding note_open_question
  note_open_question-Sound actor question would now log l r s h =
      elim (Outcome-cases (bounded_text 2000 question)) [
        | inr (x, p) ↦ absurd (ground arith)
        | inl (t, p) ↦ elim (Option-cases (same_question t log.open_questions)) [
          | inl q ↦ new_question-Sound actor t would now log l r s (ground arith)
          | inr (x, q) ↦ let e : log ≡ l = ground arith in subst (Sound c) e s
        ]
      ]

  settle_question-Sound :
      (actor how now : String) (log l : Log) (x r : Question)
      → Sound c log
      → find_item id_of_question x.id log.open_questions ≡ some x
      → settle_question c actor how now log x ≡ (ok r, l)
      → Sound c l
  unfolding settle_question question_details sealed_entry detail_id
  settle_question-Sound actor how now log l x r s f h =
      elim (Outcome-cases (bounded_text 2000 how)) [
        | inr (y, p) ↦ absurd (ground arith)
        | inl (t, p) ↦
            let x' : Question = record x { resolved = true; resolved_how = some t } in
            let mid : Log = record log {
              open_questions = replace_item id_of_question x.id x' log.open_questions;
            } in
            let (a, q) =
              recorded-ok c (λ k. k) x' r mid l actor "resolve_open_question" (of_question x') now
                resolve_action (rw (p, settle_question) at h) in
            let e = sealed_entry c mid none a "resolve_open_question" (of_question x') now in
            rw q (
              Sound-add_entry c mid a "resolve_open_question" (of_question x') now s.chained
                s.headed
                (hypotheses_other log.next_hypothesis log.hypotheses log.journal e
                  s.hypotheses_backed refl refl)
                (Summary-replace id_of_question of_question question_id log.next_question
                  (question_details log.journal) (question_details (log.journal ++ e ∷ []))
                  log.open_questions x.id x x' s.questions_backed f refl
                  (latest-second "note_open_question" "resolve_open_question" log.journal e refl)
                  (λ k ne.
                    latest-same "note_open_question" "resolve_open_question" k log.journal e ne)))
      ]

  pub resolve_open_question-Sound :
      (actor i how now : String) (log l : Log) (r : Question)
      → Sound c log
      → resolve_open_question c actor i how now log ≡ (ok r, l)
      → Sound c l
  unfolding resolve_open_question
  resolve_open_question-Sound actor i how now log l r s h =
      elim (Option-cases (find_item id_of_question i log.open_questions)) [
        | inl p ↦ absurd (ground arith)
        | inr (x, p) ↦
            let same =
              (found-Backed id_of_question of_question question_id (question_details log.journal) i
                x log.open_questions p s.questions_backed.backed).0 in
            settle_question-Sound actor how now log l x r s
              (ap (λ k. find_item id_of_question k log.open_questions) same ∙ p) (ground arith)
      ]
