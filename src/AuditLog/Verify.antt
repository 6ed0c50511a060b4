-- ===== src/AuditLog/Verify.antt =====
-- `verify_with_report`, `_resume` and the constructor of src/zaynor/audit_log.py.
use zaynor.Prelude.{
  ℕ, String, Bool, true, false, Option, none, some, List, [], ◌∷◌, Outcome, ok, raised, ◌>>=◌, ◌>>◌,
  require, not, ◌==◌, ◌&&◌, if◌then◌else◌, is_blank, str_eq, all,
}
use zaynor.Crypto.{Crypto}
use zaynor.AuditLog.Defs.{
  AuditEntry, TailAnchor, Disk, is_action, Report, no_log_file, empty_log, no_tail_anchor, grafted,
  unknown_action, no_reason, chain_break, hash_mismatch, hmac_mismatch, missing_hmac, tail_mismatch,
  tail_hmac_mismatch, no_hmac_values, mixed_hmac, valid, passed, hash_only, hmac_not_verified,
  AuditError, foreign_log, not_verified, effective_key, reject_symlink, genesis_hash,
  compute_entry_hmac, body_hash, reject_oversized, AuditLog,
}

-- The variables of the loop over the lines.
pub record Walk : Type 0 where
  pub prev_hash : String
  pub last_seq : ℕ
  pub last_hash : String
  pub saw_any : Bool
  pub saw_any_hmac : Bool
  pub saw_any_missing_hmac : Bool

-- `prev_hash`, `last_seq` and `last_hash` at the end of the loop's body.
move_to : AuditEntry → Walk → Walk
move_to e w = record w { prev_hash = e.entry_hash; last_seq = e.seq; last_hash = e.entry_hash }

abbrev pub start : String → Walk
start genesis = record {
  prev_hash = genesis;
  last_seq = 0;
  last_hash = genesis;
  saw_any = false;
  saw_any_hmac = false;
  saw_any_missing_hmac = false;
}

tail_matches : Walk → TailAnchor → Bool
tail_matches w t = t.seq == w.last_seq && str_eq t.entry_hash w.last_hash

unfoldable pub last_of : ℕ × String → List AuditEntry → ℕ × String
last_of s [] = s
last_of s (e ∷ es) = last_of (e.seq, e.entry_hash) es

module _ (c : Crypto) where
  open c use {Bytes}

  -- The checks of one line's signature, and the flags that they set.
  check_hmac : Option Bytes → Walk → AuditEntry → Option String → Outcome Report Walk
  check_hmac none w e none = ok (record w { saw_any_missing_hmac = true })
  check_hmac none w e (some h) = ok (record w { saw_any_hmac = true })
  check_hmac (some key) w e none =
      if w.saw_any_hmac
      then raised (missing_hmac e.seq)
      else ok (record w { saw_any_missing_hmac = true })
  check_hmac (some key) w e (some h) =
      if str_eq (compute_entry_hmac c key (body_hash c e)) h
      then ok (record w { saw_any_hmac = true })
      else raised (hmac_mismatch e.seq)

  -- One round of the loop. `raised` is an early `return False, …`.
  unfoldable pub check_entry : Option Bytes → String → Walk → AuditEntry → Outcome Report Walk
  unfolding check_hmac move_to
  check_entry key case_id w e = do
    require (str_eq e.case_id case_id) (grafted e.seq)
    require (is_action e.action) (unknown_action e.seq)
    require (not (is_blank e.reason)) (no_reason e.seq)
    require (str_eq e.prev_hash w.prev_hash) (chain_break e.seq)
    require (str_eq (body_hash c e) e.entry_hash) (hash_mismatch e.seq)
    w' ← check_hmac key (record w { saw_any = true }) e e.entry_hmac
    ok (move_to e w')

  unfoldable pub walk : Option Bytes → String → Walk → List AuditEntry → Outcome Report Walk
  walk key case_id w [] = ok w
  walk key case_id w (e ∷ es) = check_entry key case_id w e >>= λ w'. walk key case_id w' es

  tail_signed : Option Bytes → Walk → Option String → Bool
  tail_signed (some key) w (some h) = str_eq (compute_entry_hmac c key w.last_hash) h
  tail_signed _ _ _ = true

  -- The caveats and the verdict on mixed or missing signatures.
  verdict : Option Bytes → Walk → Report
  verdict none w =
      if w.saw_any_hmac
      then if w.saw_any_missing_hmac then mixed_hmac else valid (hmac_not_verified ∷ [])
      else valid (hash_only ∷ [])
  verdict (some key) w =
      if w.saw_any_hmac
      then if w.saw_any_missing_hmac then mixed_hmac else valid []
      else if w.saw_any
      then no_hmac_values
      else valid (hash_only ∷ [])

  -- What follows the loop.
  unfoldable pub finish : Option Bytes → Option TailAnchor → Walk → Report
  unfolding tail_matches tail_signed verdict
  finish key none w = if w.saw_any then no_tail_anchor else empty_log
  finish key (some t) w =
      if tail_matches w t
      then if tail_signed key w t.chain_tip_hmac then verdict key w else tail_hmac_mismatch
      else tail_mismatch

  -- An early return of the loop is the result; else the tail is read.
  unfoldable pub conclude : Option Bytes → Disk → Outcome Report Walk → Outcome AuditError Report
  conclude key d (raised report) = ok report
  conclude key d (ok w) = reject_symlink d.tail_is_symlink >>= λ _. ok (finish key d.tail w)

  verify_lines : Option Bytes → String → Disk → List AuditEntry → Outcome AuditError Report
  unfolding conclude genesis_hash reject_oversized
  verify_lines key case_id d es = do
    reject_oversized c es
    genesis ← genesis_hash c case_id
    conclude key d (walk key case_id (start genesis) es)

  verify_existing :
      Option Bytes → String → Disk → Option (List AuditEntry) → Outcome AuditError Report
  unfolding verify_lines
  verify_existing key case_id d none = ok no_log_file
  verify_existing key case_id d (some es) = verify_lines key case_id d es

  -- `env` is what `resolve_hmac_key()` returns, `hmac_key` the caller's argument.
  unfoldable pub verify_with_report :
      Option Bytes → Option Bytes → String → Disk → Outcome AuditError Report
  unfolding reject_symlink verify_existing
  verify_with_report env hmac_key case_id d = do
    reject_symlink d.log_is_symlink
    verify_existing (effective_key env hmac_key) case_id d d.log

  unfoldable pub verify : Option Bytes → Option Bytes → String → Disk → Outcome AuditError Bool
  unfolding verify_with_report
  verify env hmac_key case_id d = do
    report ← verify_with_report env hmac_key case_id d
    ok (passed report)

  resume_lines :
      Option Bytes
      → String
      → String
      → Disk
      → Option (List AuditEntry)
      → Outcome AuditError (ℕ × String)
  unfolding last_of
  resume_lines env case_id genesis d none = ok (0, genesis)
  resume_lines env case_id genesis d (some es) = do
    require (all (λ e. str_eq e.case_id case_id) es) foreign_log
    report ← verify_with_report env none case_id d
    require (passed report) (not_verified report)
    ok (last_of (0, genesis) es)

  -- `_resume`: where the writer goes on. The chain is verified with `hmac_key=None`.
  unfoldable pub resume : Option Bytes → String → String → Disk → Outcome AuditError (ℕ × String)
  unfolding reject_symlink resume_lines
  resume env case_id genesis d = do
    reject_symlink d.log_is_symlink
    resume_lines env case_id genesis d d.log

  -- `AuditLog(log_path, case_id=…, hmac_key=…)`
  unfoldable pub open_log :
      Option Bytes → String → Option Bytes → Disk → Outcome AuditError (AuditLog c)
  unfolding genesis_hash resume
  open_log env case_id hmac_key d = do
    genesis ← genesis_hash c case_id
    at ← resume env case_id genesis d
    ok (record {
      case_id = case_id;
      hmac_key = effective_key env hmac_key;
      seq = at.0;
      prev_hash = at.1;
    })
