-- ===== src/InvestigationLog/Divergence.antt =====
-- Calls that raise after they have written, and a head signature that nothing renews: what
-- `verify_log` says of the log that they leave.
use zaynor.Prelude.{
  ℕ, String, ◌≡◌, ◌≢◌, refl, sym, ap, ◌∙◌, true, false, ◌&&◌, Option, none, some, List, [], ◌∷◌,
  ◌++◌, Outcome, ok, raised, str_eq, eq_iff, eq_refl, arith, is_blank, Bool-cases, inl, inr,
  Option-cases, Outcome-cases, map,
}
use zaynor.Crypto.{Crypto}
use zaynor.InvestigationLog.Defs.{
  Hypothesis, Question, Detail, of_hypothesis, JournalEntry, Log, LogError, blank, genesis,
  hypothesis_id, bounded_text, record_entry, is_state, trim, add_entry, head_hmac,
}
use zaynor.InvestigationLog.Operations.{
  add_hypothesis, update_hypothesis, note_open_question, resolve_open_question, id_of_hypothesis,
  id_of_question, find_item, replace_item, move_hypothesis, mint_hypothesis, recorded, new_question,
  settle_question,
}
use zaynor.InvestigationLog.Verify.{
  Break, chain_breaks, chain_end, head_breaks, log_errors, journal_backing, hypothesis_backing,
  question_backing, hypothesis_details, question_details, latest, hypothesis_eq, verify_log, is_nil,
  hmac_good,
}
use zaynor.InvestigationLog.Summary.{found-Backed}
use zaynor.InvestigationLog.Soundness.{Sound}
use zaynor.InvestigationLog.Minted.{Below-minted}
use zaynor.InvestigationLog.History.{Writes, adds, moves, notes, resolves, Writes-Sound}

is_nil-append : (xs ys : List Break) → is_nil (xs ++ ys) ≡ (is_nil xs && is_nil ys)
unfolding is_nil
is_nil-append [] ys = refl
is_nil-append (x ∷ xs) ys = refl

bounded_text-blank : (n : ℕ) (s : String) → is_blank s ≡ true → bounded_text n s ≡ raised blank
unfolding bounded_text
bounded_text-blank n s h = rw h

-- A state that differs from the last recorded one is a break.
replace-breaks :
    (ds : List Detail) (i : String) (x x' : Hypothesis) (hs : List Hypothesis)
    → find_item id_of_hypothesis i hs ≡ some x
    → x'.id ≡ i
    → latest i ds ≡ some (of_hypothesis x)
    → hypothesis_eq x' (of_hypothesis x) ≡ false
    → is_nil (hypothesis_backing ds (replace_item id_of_hypothesis i x' hs)) ≡ false
unfolding hypothesis_backing find_item replace_item is_nil
replace-breaks ds i x x' [] f e l n = cc
replace-breaks ds i x x' (h ∷ hs) f e l n = elim (Bool-cases (str_eq h.id i)) [
  | inl p ↦ simp (p, e, l, n)
  | inr p ↦ rw p (ground (arith, replace-breaks ds i x x' hs (rw p at f) e l n))
]

module _ (c : Crypto) where
  broken_summary :
      (key : Option c.Bytes) (log : Log)
      → is_nil (hypothesis_backing (hypothesis_details log.journal) log.hypotheses) ≡ false
      → (verify_log c key log).log_ok ≡ false
  unfolding verify_log log_errors journal_backing
  broken_summary key log h = ground (
    arith,
    is_nil-append (chain_breaks c key 0 genesis log.journal)
        (head_breaks c key (chain_end genesis log.journal) log ++ journal_backing log),
    is_nil-append (head_breaks c key (chain_end genesis log.journal) log) (journal_backing log),
    is_nil-append (hypothesis_backing (hypothesis_details log.journal) log.hypotheses)
        (question_backing (question_details log.journal) log.open_questions),
  )

  update_hypothesis-blank_result :
      (actor i status rationale now : String) (log : Log) (h : Hypothesis)
      → is_state status ≡ true
      → find_item id_of_hypothesis i log.hypotheses ≡ some h
      → is_blank rationale ≡ true
      → update_hypothesis c actor i status rationale now log ≡ (
        raised blank,
        record log {
          hypotheses =
              replace_item id_of_hypothesis h.id (record h { status = status }) log.hypotheses;
        },
      )
  unfolding update_hypothesis move_hypothesis
  update_hypothesis-blank_result actor i status rationale now log h e f b =
      ground (arith, bounded_text-blank 2000 rationale b)

  moved_differs :
      (h : Hypothesis) (status : String)
      → h.status ≢ status
      → hypothesis_eq (record h { status = status }) (of_hypothesis h) ≡ false
  unfolding hypothesis_eq
  moved_differs h status n =
      ground (arith, n, eq_iff status h.status, eq_refl h.id, eq_refl h.statement)

  -- `update_hypothesis` with a new status and a blank rationale raises, and leaves a log that
  -- `verify_log` rejects: the status is written before the rationale is read.
  pub update_hypothesis-blank :
      (key : Option c.Bytes) (actor i status rationale now : String) (log : Log) (h : Hypothesis)
      → Sound c log
      → is_state status ≡ true
      → find_item id_of_hypothesis i log.hypotheses ≡ some h
      → h.status ≢ status
      → is_blank rationale ≡ true
      → let r = update_hypothesis c actor i status rationale now log in
        (r.0 ≡ raised blank) × ((verify_log c key r.1).log_ok ≡ false)
  unfolding update_hypothesis move_hypothesis
  update_hypothesis-blank key actor i status rationale now log h s e f n b =
      let hs = log.hypotheses in
      let ds = hypothesis_details log.journal in
      let (same, last) =
        found-Backed id_of_hypothesis of_hypothesis hypothesis_id ds i h hs f
          s.hypotheses_backed.backed in
      let moved : Hypothesis = record h { status = status } in
      let l : Log = record log { hypotheses = replace_item id_of_hypothesis h.id moved hs } in
      rw (update_hypothesis-blank_result actor i status rationale now log h e f b) (
        refl,
        broken_summary key l (
            replace-breaks ds h.id h moved hs (ap (λ k. find_item id_of_hypothesis k hs) same ∙ f)
              refl (ap (λ k. latest k ds) same ∙ last) (moved_differs h status n)),
      )

  unrecorded_breaks :
      (ds : List Detail) (hs : List Hypothesis) (x : Hypothesis)
      → latest x.id ds ≡ none
      → is_nil (hypothesis_backing ds (hs ++ x ∷ [])) ≡ false
  unfolding hypothesis_backing is_nil
  unrecorded_breaks ds [] x h = rw h
  unrecorded_breaks ds (y ∷ hs) x h = ground (arith, unrecorded_breaks ds hs x h)

  add_hypothesis-blank_actor_result :
      (actor statement now t : String) (log : Log)
      → bounded_text 2000 statement ≡ ok t
      → is_blank actor ≡ true
      → let n = mint_hypothesis log in
        add_hypothesis c actor statement now log ≡ (
          raised blank,
          record log {
            next_hypothesis = some n;
            hypotheses =
                log.hypotheses
                ++ record { id = hypothesis_id n; statement = t; status = "open"; rationale = none }
                  ∷ [];
          },
        )
  unfolding add_hypothesis record_entry
  add_hypothesis-blank_actor_result actor statement now t log e b =
      ground (arith, bounded_text-blank 120 actor b)

  -- `add_hypothesis` with a blank actor raises, and leaves a log that `verify_log` rejects: the
  -- hypothesis is in the summary, and no journal entry stands behind it.
  pub add_hypothesis-blank_actor :
      (key : Option c.Bytes) (actor statement now t : String) (log : Log)
      → Sound c log
      → bounded_text 2000 statement ≡ ok t
      → is_blank actor ≡ true
      → let r = add_hypothesis c actor statement now log in
        (r.0 ≡ raised blank) × ((verify_log c key r.1).log_ok ≡ false)
  unfolding mint_hypothesis
  add_hypothesis-blank_actor key actor statement now t log s e b =
      let n = mint_hypothesis log in
      let h : Hypothesis = record {
        id = hypothesis_id n;
        statement = t;
        status = "open";
        rationale = none;
      } in
      let l : Log = record log {
        next_hypothesis = some n;
        hypotheses = log.hypotheses ++ h ∷ [];
      } in
      rw (add_hypothesis-blank_actor_result actor statement now t log e b) (
        refl,
        broken_summary key l (
            unrecorded_breaks (hypothesis_details log.journal) log.hypotheses h (
              s.hypotheses_backed.fresh n
                (Below-minted log.next_hypothesis (map id_of_hypothesis log.hypotheses)))),
      )

  record_entry-head_hmac :
      (actor action : String) (d : Detail) (now : String) (log : Log)
      → (record_entry c none actor action d now log).1.memory_head_hmac ≡ log.memory_head_hmac
  unfolding record_entry add_entry head_hmac
  record_entry-head_hmac actor action d now log = ground arith

  recorded-head_hmac :
      {A : Type 0} (after : Log → Log) (x : A) (m : Outcome LogError JournalEntry × Log)
      → ((k : Log) → (after k).memory_head_hmac ≡ k.memory_head_hmac)
      → (recorded after x m).1.memory_head_hmac ≡ m.1.memory_head_hmac
  recorded-head_hmac after x (ok e, k) h = h k
  recorded-head_hmac after x (raised y, k) h = refl

  trim-head_hmac : (k : Log) → (trim k).memory_head_hmac ≡ k.memory_head_hmac
  unfolding trim
  trim-head_hmac k = refl

  written-head_hmac :
      {A : Type 0} (after : Log → Log) (x : A) (actor action : String) (d : Detail) (now : String)
      (log : Log)
      → ((k : Log) → (after k).memory_head_hmac ≡ k.memory_head_hmac)
      → (recorded after x (record_entry c none actor action d now log)).1.memory_head_hmac
        ≡ log.memory_head_hmac
  written-head_hmac after x actor action d now log h =
      recorded-head_hmac after x (record_entry c none actor action d now log) h
      ∙ record_entry-head_hmac actor action d now log

  add_hypothesis-head_hmac :
      (actor statement now : String) (log : Log)
      → (add_hypothesis c actor statement now log).1.memory_head_hmac ≡ log.memory_head_hmac
  unfolding add_hypothesis
  add_hypothesis-head_hmac actor statement now log =
      elim (Outcome-cases (bounded_text 2000 statement)) [
        | inl (t, p) ↦
            rw (p, add_hypothesis)
              (written-head_hmac trim _ actor "add_hypothesis" _ now _ trim-head_hmac)
        | inr (x, p) ↦ rw (p, add_hypothesis) refl
      ]

  move_hypothesis-head_hmac :
      (actor status rationale now : String) (log : Log) (h : Hypothesis)
      → (move_hypothesis c actor status rationale now log h).1.memory_head_hmac
        ≡ log.memory_head_hmac
  unfolding move_hypothesis
  move_hypothesis-head_hmac actor status rationale now log h =
      elim (Outcome-cases (bounded_text 2000 rationale)) [
        | inl (t, p) ↦
            rw (p, move_hypothesis)
              (written-head_hmac trim _ actor "update_hypothesis" _ now _ trim-head_hmac)
        | inr (x, p) ↦ rw (p, move_hypothesis) refl
      ]

  new_question-head_hmac :
      (actor question would now : String) (log : Log)
      → (new_question c actor question would now log).1.memory_head_hmac ≡ log.memory_head_hmac
  unfolding new_question
  new_question-head_hmac actor question would now log =
      elim (Outcome-cases (bounded_text 2000 would)) [
        | inl (t, p) ↦
            rw (p, new_question)
              (written-head_hmac trim _ actor "note_open_question" _ now _ trim-head_hmac)
        | inr (x, p) ↦ rw (p, new_question) refl
      ]

  settle_question-head_hmac :
      (actor how now : String) (log : Log) (q : Question)
      → (settle_question c actor how now log q).1.memory_head_hmac ≡ log.memory_head_hmac
  unfolding settle_question
  settle_question-head_hmac actor how now log q = elim (Outcome-cases (bounded_text 2000 how)) [
    | inl (t, p) ↦
        rw (p, settle_question)
          (written-head_hmac (λ k. k) _ actor "resolve_open_question" _ now _ (λ k. refl))
    | inr (x, p) ↦ rw (p, settle_question) refl
  ]

  Writes-head_hmac : {log l : Log} → Writes c log l → l.memory_head_hmac ≡ log.memory_head_hmac
  unfolding update_hypothesis note_open_question resolve_open_question
  Writes-head_hmac {log} {l} (adds actor statement now h e) =
      ground (arith, e, add_hypothesis-head_hmac actor statement now log)
  Writes-head_hmac {log} {l} (moves actor i status rationale now h e) =
      elim (Option-cases (find_item id_of_hypothesis i log.hypotheses)) [
        | inl p ↦ absurd (ground arith)
        | inr (x, p) ↦ ground (arith, e, move_hypothesis-head_hmac actor status rationale now log x)
      ]
  Writes-head_hmac {log} {l} (notes actor question would now q e) =
      elim (Outcome-cases (bounded_text 2000 question)) [
        | inl (t, p) ↦ ground (arith, e, new_question-head_hmac actor t would now log)
        | inr (x, p) ↦ absurd (ground arith)
      ]
  Writes-head_hmac {log} {l} (resolves actor i how now q e) =
      elim (Option-cases (find_item id_of_question i log.open_questions)) [
        | inl p ↦ absurd (ground arith)
        | inr (x, p) ↦ ground (arith, e, settle_question-head_hmac actor how now log x)
      ]

  broken_head :
      (key : Option c.Bytes) (log : Log)
      → is_nil (head_breaks c key (chain_end genesis log.journal) log) ≡ false
      → (verify_log c key log).log_ok ≡ false
  unfolding verify_log log_errors
  broken_head key log h = ground (
    arith,
    is_nil-append (chain_breaks c key 0 genesis log.journal)
        (head_breaks c key (chain_end genesis log.journal) log ++ journal_backing log),
    is_nil-append (head_breaks c key (chain_end genesis log.journal) log) (journal_backing log),
  )

  stale_breaks :
      (key : c.Bytes) (m prev : String) (l : Log)
      → l.memory_head_hmac ≡ some m
      → c.hmac key (c.encode prev) ≢ m
      → is_nil (head_breaks c (some key) prev l) ≡ false
  unfolding head_breaks hmac_good is_nil
  stale_breaks key m prev l e n = ground (arith, n, eq_iff (c.hmac key (c.encode prev)) m)

  -- No operation renews the head's signature: a log whose head was signed, and whose head an
  -- operation has moved to a hash with another signature, is rejected under the key.
  pub verify_log-stale_head :
      (key : c.Bytes) (m : String) (log l : Log)
      → Sound c log
      → Writes c log l
      → log.memory_head_hmac ≡ some m
      → c.hmac key (c.encode l.memory_head) ≢ m
      → (verify_log c (some key) l).log_ok ≡ false
  verify_log-stale_head key m log l s w e n =
      let headed = (Writes-Sound c w s).headed in
      broken_head (some key) l (
        stale_breaks key m (chain_end genesis l.journal) l (Writes-head_hmac w ∙ e)
          (λ p. n (ap (λ h. c.hmac key (c.encode h)) (sym headed) ∙ p)))
