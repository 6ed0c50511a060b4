-- ===== src/InvestigationLog/History.antt =====
-- The logs that successful operations reach from a new one, and what `verify_log` says of them.
use zaynor.Prelude.{
  ℕ, String, ◌≡◌, refl, Bool, true, false, Option, none, some, List, [], ◌∷◌, ok, eq_refl,
}
use zaynor.Crypto.{Crypto}
use zaynor.InvestigationLog.Defs.{
  Hypothesis, Question, Detail, of_hypothesis, of_question, Log, hypothesis_id, question_id,
  new_investigation_log,
}
use zaynor.InvestigationLog.Operations.{
  add_hypothesis, update_hypothesis, note_open_question, resolve_open_question, id_of_hypothesis,
  id_of_question,
}
use zaynor.InvestigationLog.Verify.{
  chain_breaks, chain_end, head_breaks, log_errors, journal_backing, hypothesis_backing,
  question_backing, hypothesis_details, question_details, details, latest, hypothesis_eq,
  question_eq, opt_eq, bool_eq, verify_log, is_nil, hmac_good,
}
use zaynor.InvestigationLog.Summary.{Backed}
use zaynor.InvestigationLog.Soundness.{Sound}
use zaynor.InvestigationLog.Preservation.{
  add_hypothesis-Sound, update_hypothesis-Sound, note_open_question-Sound,
  resolve_open_question-Sound,
}

pub opt_eq_refl : (o : Option String) → opt_eq o o ≡ true
unfolding opt_eq
opt_eq_refl none = refl
opt_eq_refl (some s) = eq_refl s

bool_eq_refl : (b : Bool) → bool_eq b b ≡ true
unfolding bool_eq
bool_eq_refl true = refl
bool_eq_refl false = refl

pub hypothesis_eq_refl : (h : Hypothesis) → hypothesis_eq h (of_hypothesis h) ≡ true
unfolding hypothesis_eq
hypothesis_eq_refl h = simp (eq_refl, opt_eq_refl)

question_eq_refl : (q : Question) → question_eq q (of_question q) ≡ true
unfolding question_eq
question_eq_refl q = simp (eq_refl, opt_eq_refl, bool_eq_refl)

pub hypothesis_backing-Backed :
    (mk : ℕ → String) (ds : List Detail) (hs : List Hypothesis)
    → Backed id_of_hypothesis of_hypothesis mk ds hs
    → hypothesis_backing ds hs ≡ []
unfolding hypothesis_backing
hypothesis_backing-Backed mk ds [] b = refl
hypothesis_backing-Backed mk ds (h ∷ hs) b =
    simp (b.0, hypothesis_eq_refl h, hypothesis_backing-Backed mk ds hs b.1)

pub question_backing-Backed :
    (mk : ℕ → String) (ds : List Detail) (qs : List Question)
    → Backed id_of_question of_question mk ds qs
    → question_backing ds qs ≡ []
unfolding question_backing
question_backing-Backed mk ds [] b = refl
question_backing-Backed mk ds (q ∷ qs) b =
    simp (b.0, question_eq_refl q, question_backing-Backed mk ds qs b.1)

module _ (c : Crypto) where
  -- One call of an operation that returns.
  pub data Writes (log l : Log) : Type 0 where
    adds :
        (actor statement now : String) (h : Hypothesis)
        → add_hypothesis c actor statement now log ≡ (ok h, l)
        → Writes log l
    moves :
        (actor i status rationale now : String) (h : Hypothesis)
        → update_hypothesis c actor i status rationale now log ≡ (ok h, l)
        → Writes log l
    notes :
        (actor question would now : String) (q : Question)
        → note_open_question c actor question would now log ≡ (ok q, l)
        → Writes log l
    resolves :
        (actor i how now : String) (q : Question)
        → resolve_open_question c actor i how now log ≡ (ok q, l)
        → Writes log l

  pub data History (start : Log) : Log → Type 0 where
    here : History start start
    next : {log l : Log} → History start log → Writes log l → History start l

  pub Writes-Sound : {log l : Log} → Writes log l → Sound c log → Sound c l
  Writes-Sound {log} {l} (adds actor statement now h e) s =
      add_hypothesis-Sound c actor statement now log l h s e
  Writes-Sound {log} {l} (moves actor i status rationale now h e) s =
      update_hypothesis-Sound c actor i status rationale now log l h s e
  Writes-Sound {log} {l} (notes actor question would now q e) s =
      note_open_question-Sound c actor question would now log l q s e
  Writes-Sound {log} {l} (resolves actor i how now q e) s =
      resolve_open_question-Sound c actor i how now log l q s e

  pub Sound-new : (id : String) → Sound c (new_investigation_log id)
  unfolding new_investigation_log chain_breaks chain_end hypothesis_details question_details details
      latest
  Sound-new id = record {
    chained = refl;
    headed = refl;
    hypotheses_backed = record { backed = tt; distinct = tt; fresh = λ n h. refl };
    questions_backed = record { backed = tt; distinct = tt; fresh = λ n h. refl };
  }

  pub History-Sound : {start l : Log} → Sound c start → History start l → Sound c l
  History-Sound s here = s
  History-Sound s (next r w) = Writes-Sound w (History-Sound s r)

  pub journal_backing-Sound : (log : Log) → Sound c log → journal_backing log ≡ []
  unfolding journal_backing
  journal_backing-Sound log s =
      rw
        (hypothesis_backing-Backed hypothesis_id (hypothesis_details log.journal) log.hypotheses
          s.hypotheses_backed.backed)
        (question_backing-Backed question_id (question_details log.journal) log.open_questions
          s.questions_backed.backed)

  pub log_errors-Sound : (log : Log) → Sound c log → log_errors c none log ≡ []
  unfolding log_errors head_breaks hmac_good
  log_errors-Sound log s = simp (s.chained, s.headed, eq_refl, journal_backing-Sound log s)

  -- Whatever operations return, one after the other, from a new log on: `verify_log` finds no break
  -- in the log that they leave.
  pub verify_log-History :
      (id : String) (l : Log)
      → History (new_investigation_log id) l
      → ((verify_log c none l).log_ok ≡ true) × ((verify_log c none l).errors ≡ [])
  unfolding verify_log is_nil
  verify_log-History id l h =
      let e = log_errors-Sound l (History-Sound (Sound-new id) h) in (rw e, e)
