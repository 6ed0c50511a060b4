-- ===== src/InvestigationLog/Verify.antt =====
-- `verify_log` and `_journal_backing` of src/zaynor/investigation_log.py: every break is listed.
use zaynor.Prelude.{
  ℕ, suc, String, Bool, true, false, ◌&&◌, not, Option, none, some, List, [], ◌∷◌, ◌++◌, ◌==◌,
  if◌then◌else◌, str_eq, length,
}
use zaynor.Crypto.{Crypto}
use zaynor.InvestigationLog.Defs.{
  Hypothesis, Question, Detail, of_hypothesis, of_question, JournalEntry, Log, genesis, seal,
}

pub data Break : Type 0 where
  wrong_seq unlinked altered bad_hmac : ℕ → Break
  wrong_head wrong_head_hmac : Break
  unrecorded differs : String → Break

pub data LogCaveat : Type 0 where
  hash_only not_verified_hmac some_without_hmac : LogCaveat

pub record LogReport : Type 0 where
  pub log_ok : Bool
  pub journal_entries : ℕ
  pub head : String
  pub errors : List Break
  pub caveats : List LogCaveat

-- errors.append(e) unless the test holds
abbrev pub unless : Bool → Break → List Break → List Break
unless true e rest = rest
unless false e rest = e ∷ rest

unfoldable pub opt_eq : Option String → Option String → Bool
opt_eq none none = true
opt_eq (some a) (some b) = str_eq a b
opt_eq _ _ = false

unfoldable pub bool_eq : Bool → Bool → Bool
bool_eq true b = b
bool_eq false b = not b

-- item == latest[item_id]
unfoldable pub hypothesis_eq : Hypothesis → Detail → Bool
unfolding opt_eq
hypothesis_eq h (of_hypothesis g) =
    str_eq h.id g.id
    && str_eq h.statement g.statement
    && str_eq h.status g.status
    && opt_eq h.rationale g.rationale
hypothesis_eq h (of_question q) = false

unfoldable pub question_eq : Question → Detail → Bool
unfolding opt_eq bool_eq
question_eq q (of_question p) =
    str_eq q.id p.id
    && str_eq q.question p.question
    && str_eq q.what_would_resolve p.what_would_resolve
    && bool_eq q.resolved p.resolved
    && opt_eq q.resolved_how p.resolved_how
question_eq q (of_hypothesis h) = false

unfoldable pub detail_id : Detail → String
detail_id (of_hypothesis h) = h.id
detail_id (of_question q) = q.id

-- The details of the entries with an action.
unfoldable pub details : String → List JournalEntry → List Detail
details action [] = []
details action (e ∷ es) =
    let rest = details action es in if str_eq e.action action then e.detail ∷ rest else rest

-- `latest[id]` after `latest[detail["id"]] = detail` for each detail in turn.
unfoldable pub latest : String → List Detail → Option Detail
unfolding detail_id
latest i [] = none
latest i (d ∷ ds) = elim (latest i ds) [
  | some x ↦ some x
  | none ↦ if str_eq (detail_id d) i then some d else none
]

unfoldable pub hypothesis_details : List JournalEntry → List Detail
hypothesis_details es = details "add_hypothesis" es ++ details "update_hypothesis" es

unfoldable pub question_details : List JournalEntry → List Detail
question_details es = details "note_open_question" es ++ details "resolve_open_question" es

backing_break : String → Option Detail → (Detail → Bool) → List Break → List Break
backing_break i none same rest = unrecorded i ∷ rest
backing_break i (some d) same rest = unless (same d) (differs i) rest

unfoldable pub hypothesis_backing : List Detail → List Hypothesis → List Break
unfolding backing_break
hypothesis_backing ds [] = []
hypothesis_backing ds (h ∷ hs) =
    backing_break h.id (latest h.id ds) (hypothesis_eq h) (hypothesis_backing ds hs)

unfoldable pub question_backing : List Detail → List Question → List Break
unfolding backing_break
question_backing ds [] = []
question_backing ds (q ∷ qs) =
    backing_break q.id (latest q.id ds) (question_eq q) (question_backing ds qs)

unfoldable pub journal_backing : Log → List Break
journal_backing log =
    hypothesis_backing (hypothesis_details log.journal) log.hypotheses
    ++ question_backing (question_details log.journal) log.open_questions

unfoldable pub chain_end : String → List JournalEntry → String
chain_end prev [] = prev
chain_end prev (e ∷ es) = chain_end e.entry_hash es

present : Option String → Bool
present none = false
present (some h) = true

any_hmac : List JournalEntry → Bool
any_hmac [] = false
any_hmac (e ∷ es) = let rest = any_hmac es in if present e.entry_hmac then true else rest

any_missing : List JournalEntry → Bool
any_missing [] = false
any_missing (e ∷ es) = let rest = any_missing es in if present e.entry_hmac then rest else true

unfoldable pub is_nil : List Break → Bool
is_nil [] = true
is_nil (e ∷ es) = false

module _ (c : Crypto) where
  open c use {Bytes, hmac, encode}

  unfoldable pub hmac_good : Option Bytes → String → Option String → Bool
  hmac_good (some key) h (some m) = str_eq (hmac key (encode h)) m
  hmac_good _ h _ = true

  -- The breaks of the entries from the `i`-th on, after the hash `prev`.
  unfoldable pub chain_breaks : Option Bytes → ℕ → String → List JournalEntry → List Break
  unfolding hmac_good
  chain_breaks key i prev [] = []
  chain_breaks key i prev (e ∷ es) = unless (e.seq == i) (wrong_seq i) (
      unless (str_eq e.prev_hash prev) (unlinked i) (
        unless (str_eq (seal c e) e.entry_hash) (altered i) (
          unless (hmac_good key e.entry_hash e.entry_hmac) (bad_hmac i)
            (chain_breaks key (suc i) e.entry_hash es))))

  unfoldable pub head_breaks : Option Bytes → String → Log → List Break
  unfolding hmac_good
  head_breaks key prev log =
      unless (str_eq prev log.memory_head) wrong_head
        (unless (hmac_good key prev log.memory_head_hmac) wrong_head_hmac [])

  no_key : Option Bytes → List LogCaveat → List LogCaveat
  no_key none rest = not_verified_hmac ∷ rest
  no_key (some key) rest = rest

  log_caveats : Option Bytes → Log → List LogCaveat
  unfolding any_hmac any_missing present no_key
  log_caveats key log =
      if any_hmac log.journal
      then no_key key (if any_missing log.journal then some_without_hmac ∷ [] else [])
      else if present log.memory_head_hmac
      then no_key key (if any_missing log.journal then some_without_hmac ∷ [] else [])
      else hash_only ∷ []

  unfoldable pub log_errors : Option Bytes → Log → List Break
  log_errors key log =
      chain_breaks key 0 genesis log.journal
      ++ head_breaks key (chain_end genesis log.journal) log
      ++ journal_backing log

  unfoldable pub verify_log : Option Bytes → Log → LogReport
  unfolding log_caveats is_nil
  verify_log key log = record {
    log_ok = is_nil (log_errors key log);
    journal_entries = length log.journal;
    head = log.memory_head;
    errors = log_errors key log;
    caveats = log_caveats key log;
  }
