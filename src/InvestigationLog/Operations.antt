-- ===== src/InvestigationLog/Operations.antt =====
-- What the investigator may write: src/zaynor/investigation_log.py, from `add_hypothesis` on.
use zaynor.Prelude.{
  ℕ, suc, String, true, false, Option, none, some, List, [], ◌∷◌, ◌++◌, Outcome, ok, raised, map,
  if◌then◌else◌, str_eq,
}
use zaynor.Crypto.{Crypto}
use zaynor.InvestigationLog.Defs.{
  Hypothesis, Question, of_hypothesis, of_question, JournalEntry, Log, LogError, unknown_status,
  unknown_hypothesis, unknown_question, is_state, bounded_text, last_minted, hypothesis_id,
  question_id, trim, record_entry,
}

abbrev pub id_of_hypothesis : Hypothesis → String
id_of_hypothesis h = h.id

abbrev pub id_of_question : Question → String
id_of_question q = q.id

-- `_mint_id(log, "_next_hypothesis", "H")`: the number that it counts to.
unfoldable pub mint_hypothesis : Log → ℕ
mint_hypothesis log = suc (last_minted log.next_hypothesis (map id_of_hypothesis log.hypotheses))

unfoldable pub mint_question : Log → ℕ
mint_question log = suc (last_minted log.next_question (map id_of_question log.open_questions))

module _ {ℓ} {A : Type ℓ} (id_of : A → String) where
  -- The first item with an id, and the list with that one replaced.
  unfoldable pub find_item : String → List A → Option A
  find_item i [] = none
  find_item i (x ∷ xs) = if str_eq (id_of x) i then some x else find_item i xs

  unfoldable pub replace_item : String → A → List A → List A
  replace_item i x' [] = []
  replace_item i x' (x ∷ xs) = if str_eq (id_of x) i then x' ∷ xs else x ∷ replace_item i x' xs

unfoldable pub same_question : String → List Question → Option Question
same_question t [] = none
same_question t (q ∷ qs) = if str_eq q.question t then some q else same_question t qs

module _ {A : Type 0} where
  -- A change that is recorded, trimmed and returned; an exception of `record` leaves the change.
  abbrev pub recorded :
      (Log → Log) → A → Outcome LogError JournalEntry × Log → Outcome LogError A × Log
  recorded after a (ok e, log) = (ok a, after log)
  recorded after a (raised x, log) = (raised x, log)

module _ (c : Crypto) where
  unfoldable pub add_hypothesis : String → String → String → Log → Outcome LogError Hypothesis × Log
  add_hypothesis actor statement now log =
      let n = mint_hypothesis log in
      let counted = record log { next_hypothesis = some n } in
      elim (bounded_text 2000 statement) [
        | raised e ↦ (raised e, counted)
        | ok t ↦
            let h : Hypothesis = record {
              id = hypothesis_id n;
              statement = t;
              status = "open";
              rationale = none;
            } in
            recorded trim h (
              record_entry c none actor "add_hypothesis" (of_hypothesis h) now
                (record counted { hypotheses = log.hypotheses ++ h ∷ [] }))
      ]

  -- The loop's body for the hypothesis that is found: the status is written first.
  unfoldable pub move_hypothesis :
      String → String → String → String → Log → Hypothesis → Outcome LogError Hypothesis × Log
  move_hypothesis actor status rationale now log h =
      let moved = record h { status = status } in
      elim (bounded_text 2000 rationale) [
        | raised e ↦ (
          raised e,
          record log { hypotheses = replace_item id_of_hypothesis h.id moved log.hypotheses },
        )
        | ok r ↦
            let h' = record moved { rationale = some r } in
            recorded trim h' (
              record_entry c none actor "update_hypothesis" (of_hypothesis h') now
                (record log { hypotheses = replace_item id_of_hypothesis h.id h' log.hypotheses }))
      ]

  unfoldable pub update_hypothesis :
      String → String → String → String → String → Log → Outcome LogError Hypothesis × Log
  update_hypothesis actor hypothesis_id status rationale now log =
      if is_state status
      then (elim (find_item id_of_hypothesis hypothesis_id log.hypotheses) [
        | none ↦ (raised unknown_hypothesis, log)
        | some h ↦ move_hypothesis actor status rationale now log h
      ])
      else (raised unknown_status, log)

  -- A question that is not there yet.
  unfoldable pub new_question :
      String → String → String → String → Log → Outcome LogError Question × Log
  new_question actor question what_would_resolve now log =
      let n = mint_question log in
      let counted = record log { next_question = some n } in
      elim (bounded_text 2000 what_would_resolve) [
        | raised e ↦ (raised e, counted)
        | ok w ↦
            let q : Question = record {
              id = question_id n;
              question = question;
              what_would_resolve = w;
              resolved = false;
              resolved_how = none;
            } in
            recorded trim q (
              record_entry c none actor "note_open_question" (of_question q) now
                (record counted { open_questions = log.open_questions ++ q ∷ [] }))
      ]

  unfoldable pub note_open_question :
      String → String → String → String → Log → Outcome LogError Question × Log
  note_open_question actor question what_would_resolve now log = elim (bounded_text 2000 question) [
    | raised e ↦ (raised e, log)
    | ok t ↦ elim (same_question t log.open_questions) [
      | some q ↦ (ok q, log)
      | none ↦ new_question actor t what_would_resolve now log
    ]
  ]

  unfoldable pub settle_question :
      String → String → String → Log → Question → Outcome LogError Question × Log
  settle_question actor how now log q =
      let settled = record q { resolved = true } in
      elim (bounded_text 2000 how) [
        | raised e ↦ (
          raised e,
          record log {
            open_questions = replace_item id_of_question q.id settled log.open_questions;
          },
        )
        | ok t ↦
            let q' = record settled { resolved_how = some t } in
            recorded (λ l. l) q'
              (record_entry c none actor "resolve_open_question" (of_question q') now (record log {
                open_questions = replace_item id_of_question q.id q' log.open_questions;
              }))
      ]

  unfoldable pub resolve_open_question :
      String → String → String → String → Log → Outcome LogError Question × Log
  resolve_open_question actor question_id how now log =
      elim (find_item id_of_question question_id log.open_questions) [
        | none ↦ (raised unknown_question, log)
        | some q ↦ settle_question actor how now log q
      ]
