-- ===== src/InvestigationLog/Soundness.antt =====
-- Every change that the module's operations make to a log keeps it one that `verify_log` accepts.
use zaynor.Prelude.{
  ℕ, suc, ◌+◌, String, ◌≡◌, refl, sym, ap, ◌∙◌, none, List, [], ◌∷◌, ◌++◌, inl, inr, Outcome, ok,
  raised, eq_iff, arith, Outcome-cases, length,
}
use zaynor.Crypto.{Crypto}
use zaynor.InvestigationLog.Defs.{
  Detail, of_hypothesis, of_question, JournalEntry, Log, LogError, genesis, bounded_text,
  hypothesis_id, question_id, trim, is_settled, hypothesis_limit, question_limit, seal,
  sealed_entry, add_entry, record_entry,
}
use zaynor.InvestigationLog.Operations.{id_of_hypothesis, id_of_question, recorded}
use zaynor.InvestigationLog.Verify.{chain_breaks, chain_end, hypothesis_details, question_details}
use zaynor.InvestigationLog.Summary.{Summary, Summary-cap}

module _ (c : Crypto) where
  -- The journal chains up to its head, and both summaries agree with it.
  pub record Sound (log : Log) : Type 0 where
    pub chained : chain_breaks c none 0 genesis log.journal ≡ []
    pub headed : chain_end genesis log.journal ≡ log.memory_head
    pub hypotheses_backed :
        Summary id_of_hypothesis of_hypothesis hypothesis_id log.next_hypothesis
          (hypothesis_details log.journal)
          log.hypotheses
    pub questions_backed :
        Summary id_of_question of_question question_id log.next_question
          (question_details log.journal)
          log.open_questions

  chain_end-append :
      (prev : String) (es : List JournalEntry) (e : JournalEntry)
      → chain_end prev (es ++ e ∷ []) ≡ e.entry_hash
  unfolding chain_end
  chain_end-append prev [] e = refl
  chain_end-append prev (x ∷ es) e = chain_end-append x.entry_hash es e

  chain_breaks-append :
      (i : ℕ) (prev : String) (es : List JournalEntry) (e : JournalEntry)
      → chain_breaks c none i prev es ≡ []
      → e.seq ≡ i + length es
      → e.prev_hash ≡ chain_end prev es
      → seal c e ≡ e.entry_hash
      → chain_breaks c none i prev (es ++ e ∷ []) ≡ []
  unfolding chain_breaks chain_end
  chain_breaks-append i prev [] e h n p s =
      ground (arith, n, eq_iff e.prev_hash prev, eq_iff (seal c e) e.entry_hash)
  chain_breaks-append i prev (x ∷ es) e h n p s =
      ground (arith, chain_breaks-append (suc i) x.entry_hash es e)

  pub Sound-trim : (log : Log) → Sound log → Sound (trim log)
  unfolding trim
  Sound-trim log s = record {
    chained = s.chained;
    headed = s.headed;
    hypotheses_backed =
        Summary-cap id_of_hypothesis of_hypothesis hypothesis_id is_settled hypothesis_limit _ _
          log.hypotheses s.hypotheses_backed;
    questions_backed =
        Summary-cap id_of_question of_question question_id _ question_limit _ _ log.open_questions
          s.questions_backed;
  }

  -- The log with one more sealed entry, where its summaries agree with that entry.
  pub Sound-add_entry :
      (log : Log) (actor action : String) (d : Detail) (now : String)
      → chain_breaks c none 0 genesis log.journal ≡ []
      → chain_end genesis log.journal ≡ log.memory_head
      → let e = sealed_entry c log none actor action d now in
        Summary id_of_hypothesis of_hypothesis hypothesis_id log.next_hypothesis
          (hypothesis_details (log.journal ++ e ∷ []))
          log.hypotheses
        → Summary id_of_question of_question question_id log.next_question
            (question_details (log.journal ++ e ∷ []))
            log.open_questions
        → Sound (add_entry c e none log)
  unfolding add_entry sealed_entry seal
  Sound-add_entry log actor action d now h k hs qs = record {
    chained =
        chain_breaks-append 0 genesis log.journal (sealed_entry c log none actor action d now) h
          (omega arith) (sym k) refl;
    headed = chain_end-append genesis log.journal (sealed_entry c log none actor action d now);
    hypotheses_backed = hs;
    questions_backed = qs;
  }

  record_entry-ok :
      (log : Log) (actor action : String) (d : Detail) (now : String) (e : JournalEntry) (l : Log)
      → bounded_text 120 action ≡ ok action
      → record_entry c none actor action d now log ≡ (ok e, l)
      → (a : String) × (l ≡ add_entry c (sealed_entry c log none a action d now) none log)
  unfolding record_entry
  record_entry-ok log actor action d now e l b h = elim (Outcome-cases (bounded_text 120 actor)) [
    | inl (a, p) ↦ (a, ground arith)
    | inr (x, p) ↦ ground arith
  ]

  recorded_done :
      {A : Type 0} (after : Log → Log) (x r : A) (m : Outcome LogError JournalEntry × Log) (l : Log)
      → recorded after x m ≡ (ok r, l)
      → (e : JournalEntry) × (k : Log) × (m ≡ (ok e, k)) × (l ≡ after k)
  recorded_done after x r (ok e, k) l h = (e, k, refl, ground arith)
  recorded_done after x r (raised y, k) l h = ground arith

  pub recorded-ok :
      {A : Type 0} (after : Log → Log) (x r : A) (log l : Log) (actor action : String) (d : Detail)
      (now : String)
      → bounded_text 120 action ≡ ok action
      → recorded after x (record_entry c none actor action d now log) ≡ (ok r, l)
      → (a : String) × (l ≡ after (add_entry c (sealed_entry c log none a action d now) none log))
  recorded-ok after x r log l actor action d now b h =
      let (e, k, p, q) = recorded_done after x r (record_entry c none actor action d now log) l h in
      let (a, u) = record_entry-ok log actor action d now e k b p in (a, q ∙ ap after u)
