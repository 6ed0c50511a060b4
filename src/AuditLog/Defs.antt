-- ===== src/AuditLog/Defs.antt =====
-- src/zaynor/audit_log.py and src/zaynor/hmac_chain.py: what the log and its tail anchor hold on
-- disk, the writer's object, and `append`. A line of the file is the record that it decodes to; a
-- line of another shape makes the code raise where it reads the line, and has no model here.
use zaynor.Prelude.{
  ℕ, ◌+◌, ◌*◌, String, Bool, true, false, Option, none, some, List, [], ◌∷◌, ◌++◌, Outcome, ok,
  raised, ◌>>◌, require, not, leb, if◌then◌else◌, elem, is_blank, is_empty,
}
use zaynor.Json.{Json, num, text, obj, Fields, field, end}
use zaynor.Crypto.{Crypto}
use Prim.Native.String.{◌++◌ as append_text}

-- The decoded line, which is also what `append` returns.
pub record AuditEntry : Type 0 where
  pub seq : ℕ
  pub case_id : String
  pub action : String
  pub detail : Fields
  pub reason : String
  pub created_at : String
  pub prev_hash : String
  pub entry_hash : String
  pub entry_hmac : Option String
  pub key_id : Option String

-- The sidecar `<log>.tail`.
pub record TailAnchor : Type 0 where
  pub seq : ℕ
  pub entry_hash : String
  pub chain_tip_hmac : Option String
  pub key_id : Option String

-- The two paths. `log` is `none` where the file does not exist.
pub record Disk : Type 0 where
  pub log : Option (List AuditEntry)
  pub log_is_symlink : Bool
  pub tail : Option TailAnchor
  pub tail_is_symlink : Bool

abbrev pub audit_actions : List String
audit_actions =
    "CASE_FROZEN" ∷ "SNAPSHOT_MATERIALIZED" ∷ "ENGINE_INVOKED" ∷ "RESULT_SEALED" ∷ "TOOL_INVOKED"
    ∷ "TOOL_SUCCEEDED" ∷ "TOOL_FAILED" ∷ []

-- action in _ACTIONS
unfoldable pub is_action : String → Bool
is_action action = elem action audit_actions

abbrev pub max_audit_log_bytes : ℕ
max_audit_log_bytes = 16 * 1024 * 1024

-- What a read of the chain reports: the messages of `verify_with_report`, with the `seq` that a
-- message names.
pub data Caveat : Type 0 where
  hash_only : Caveat
  hmac_not_verified : Caveat

pub data Report : Type 0 where
  no_log_file empty_log no_tail_anchor : Report
  grafted unknown_action no_reason chain_break hash_mismatch : ℕ → Report
  hmac_mismatch missing_hmac : ℕ → Report
  tail_mismatch tail_hmac_mismatch no_hmac_values mixed_hmac : Report
  valid : List Caveat → Report

-- The first component of the pair that `verify_with_report` returns.
abbrev pub passed : Report → Bool
passed no_log_file = true
passed empty_log = true
passed no_tail_anchor = true
passed (valid caveats) = true
passed _ = false

pub data AuditError : Type 0 where
  empty_case_id symlink oversized foreign_log unknown_vocabulary unreasoned : AuditError
  not_verified : Report → AuditError

-- `hmac_key if hmac_key is not None else resolve_hmac_key()`, where `env` is what the environment
-- resolves to.
abbrev pub effective_key {ℓ} : {A : Type ℓ} → Option A → Option A → Option A
effective_key env (some k) = some k
effective_key env none = env

unfoldable pub reject_symlink : Bool → Outcome AuditError (Unit {0})
reject_symlink is_symlink = require (not is_symlink) symlink

abbrev pub lines : Option (List AuditEntry) → List AuditEntry
lines none = []
lines (some es) = es

-- The first write of `append`: one line, at the end of the log file.
unfoldable pub write_line : AuditEntry → Disk → Disk
write_line e d = record d { log = some (lines d.log ++ e ∷ []) }

-- The second write: the tail anchor is replaced.
unfoldable pub write_tail : AuditEntry → Disk → Disk
write_tail e d = record d {
  tail = some (record {
    seq = e.seq;
    entry_hash = e.entry_hash;
    chain_tip_hmac = e.entry_hmac;
    key_id = e.key_id;
  });
}

abbrev optional : String → Option String → Fields → Fields
optional k none d = d
optional k (some v) d = field k (text v) d

module _ (c : Crypto) where
  open c use {Bytes, encode, dumps, sha256, hmac, size, key_prefix}

  unfoldable pub compute_entry_hmac : Bytes → String → String
  compute_entry_hmac key entry_hash = hmac key (encode entry_hash)

  -- sha256(key).hexdigest()[:16]
  pub key_id : Bytes → String
  key_id key = key_prefix (sha256 key)

  abbrev pub genesis_of : String → String
  genesis_of case_id = sha256 (encode (append_text "ZAYNOR_AUDIT_GENESIS:" case_id))

  unfoldable pub genesis_hash : String → Outcome AuditError String
  genesis_hash case_id = if is_empty case_id then raised empty_case_id else ok (genesis_of case_id)

  -- The dictionary that is hashed.
  abbrev pub entry_body : AuditEntry → Json
  entry_body e = obj (
      field "seq" (num e.seq) (
        field "case_id" (text e.case_id) (
          field "action" (text e.action) (
            field "detail" (obj e.detail) (
              field "reason" (text e.reason) (
                field "created_at" (text e.created_at)
                  (field "prev_hash" (text e.prev_hash) end)))))))

  -- hashlib.sha256(_canonical(body).encode("utf-8")).hexdigest()
  unfoldable pub body_hash : AuditEntry → String
  body_hash e = sha256 (dumps (entry_body e))

  -- The line that is written, without its line break.
  abbrev pub record_json : AuditEntry → Json
  record_json e = obj (
      field "seq" (num e.seq) (
        field "case_id" (text e.case_id) (
          field "action" (text e.action) (
            field "detail" (obj e.detail) (
              field "reason" (text e.reason) (
                field "created_at" (text e.created_at) (
                  field "prev_hash" (text e.prev_hash) (
                    field "entry_hash" (text e.entry_hash)
                      (optional "entry_hmac" e.entry_hmac (optional "key_id" e.key_id end))))))))))

  -- path.stat().st_size
  unfoldable pub file_size : List AuditEntry → ℕ
  file_size [] = 0
  file_size (e ∷ es) = size (dumps (record_json e)) + 1 + file_size es

  unfoldable pub reject_oversized : List AuditEntry → Outcome AuditError (Unit {0})
  reject_oversized es = require (leb (file_size es) max_audit_log_bytes) oversized

  -- The writer: the fields of `AuditLog`.
  pub record AuditLog : Type 0 where
    pub case_id : String
    pub hmac_key : Option Bytes
    pub seq : ℕ
    pub prev_hash : String

  unfoldable pub sign : Option Bytes → String → Option String
  sign none h = none
  sign (some key) h = some (compute_entry_hmac key h)

  unfoldable pub sign_id : Option Bytes → Option String
  sign_id none = none
  sign_id (some key) = some (key_id key)

  -- The entry that `append` builds, `now` being `format_argentina()`.
  unfoldable pub new_entry : AuditLog → String → Fields → String → String → AuditEntry
  unfolding sign sign_id body_hash
  new_entry log action detail reason now =
      let body : AuditEntry = record {
        seq = log.seq + 1;
        case_id = log.case_id;
        action = action;
        detail = detail;
        reason = reason;
        created_at = now;
        prev_hash = log.prev_hash;
        entry_hash = "";
        entry_hmac = none;
        key_id = none;
      } in
      let entry_hash = body_hash body in
      record body {
        entry_hash = entry_hash;
        entry_hmac = sign log.hmac_key entry_hash;
        key_id = sign_id log.hmac_key;
      }

  -- The object after both writes.
  unfoldable pub advance : AuditLog → AuditEntry → AuditLog
  advance log e = record log { seq = e.seq; prev_hash = e.entry_hash }

  -- The guards of `append`, before anything is written.
  unfoldable pub append_guards : Disk → String → String → Outcome AuditError (Unit {0})
  unfolding reject_symlink
  append_guards d action reason = do
    require (is_action action) unknown_vocabulary
    require (not (is_blank reason)) unreasoned
    reject_symlink d.log_is_symlink
    reject_symlink d.tail_is_symlink

  unfoldable pub append :
      AuditLog
      → Disk
      → String
      → Fields
      → String
      → String
      → Outcome AuditError (AuditEntry × AuditLog × Disk)
  unfolding append_guards new_entry write_line write_tail advance
  append log d action detail reason now = do
    append_guards d action reason
    let e = new_entry log action detail reason now
    ok (e, advance log e, write_tail e (write_line e d))

  -- Reads without verifying.
  unfoldable pub load_entries : Disk → Outcome AuditError (List AuditEntry)
  unfolding reject_symlink reject_oversized
  load_entries d = do
    reject_symlink d.log_is_symlink
    reject_oversized (lines d.log)
    ok (lines d.log)
