-- ===== src/AuditLog/RoundTrip.antt =====
-- Writing, verifying and reopening a log.
use zaynor.Prelude.{◌≤◌, String, ◌≡◌, sym, false, Option, none, List, ◌∷◌, ok, is_empty, All}
use zaynor.Crypto.{Crypto}
use zaynor.AuditLog.Defs.{
  Disk, valid, AuditLog, genesis_of, lines, file_size, max_audit_log_bytes, effective_key,
}
use zaynor.AuditLog.Verify.{walk, verify_with_report, open_log}
use zaynor.AuditLog.Session.{
  Event, Admissible, NoSymlink, append_each, InStep, InStep-append_each, writer_after, run_disk,
  open_log-fresh, verify-InStep, open_log-InStep, caveats_of, writer_after-same,
}

module _ (c : Crypto) where
  -- The object that `AuditLog(…)` makes where there is no log yet.
  abbrev pub fresh_writer : Option c.Bytes → String → AuditLog c
  fresh_writer key id = record {
    case_id = id;
    hmac_key = key;
    seq = 0;
    prev_hash = genesis_of c id;
  }

  pub InStep-fresh :
      (key : Option c.Bytes) (id : String) (d : Disk)
      → NoSymlink d
      → d.log ≡ none
      → InStep c (fresh_writer key id) d false
  unfolding walk
  InStep-fresh key id d p l = record {
    plain = p;
    walked = rw l;
    anchored = λ h. cc;
    exists = λ h. cc;
    numbered = rw l tt;
    counted = rw l;
  }

  module _ (env arg : Option c.Bytes) (id : String) (d : Disk) (v : Event) (vs : List Event) where
    abbrev pub writer : AuditLog c
    writer = writer_after c (fresh_writer (effective_key env arg) id) (v ∷ vs)

    abbrev pub disk : Disk
    disk = run_disk c (fresh_writer (effective_key env arg) id) d (v ∷ vs)

  -- From a path with no log, a run of admissible appends, at least one, succeeds; with the writer's
  -- key configuration the log that it leaves verifies, its only caveat being the missing key where
  -- there is none. This holds while the file stays within its limit of bytes.
  pub verify-append_each :
      (env arg : Option c.Bytes) (id : String) (d : Disk) (v : Event) (vs : List Event)
      → is_empty id ≡ false
      → NoSymlink d
      → d.log ≡ none
      → All Admissible (v ∷ vs)
      → file_size c (lines (disk env arg id d v vs).log) ≤ max_audit_log_bytes
      → (open_log c env id arg d ≡ ok (fresh_writer (effective_key env arg) id))
        × (append_each c (fresh_writer (effective_key env arg) id) d (v ∷ vs)
            ≡ ok (writer env arg id d v vs, disk env arg id d v vs))
        × (verify_with_report c env arg id (disk env arg id d v vs)
            ≡ ok (valid (caveats_of c (effective_key env arg))))
  verify-append_each env arg id d v vs named plain absent admissible fits =
      let key = effective_key env arg in
      let fresh = fresh_writer key id in
      let (done, s) =
        InStep-append_each c fresh d false (v ∷ vs) admissible
          (InStep-fresh key id d plain absent) in
      let same = writer_after-same c fresh (v ∷ vs) in
      (
        open_log-fresh c env arg id d named absent plain.0,
        done,
        verify-InStep c env arg id (writer env arg id d v vs) (disk env arg id d v vs) s
            (sym same.1) same.0 named fits,
      )

  -- From a path with no log, with no symlinks and a non-empty case id: opening the log that a run of
  -- admissible appends has left within the limit of 16 MiB, with the same environment and no other key,
  -- gives the writer that wrote it: the case, the key, the last `seq` and the last hash.
  pub open_log-append_each :
      (env : Option c.Bytes) (id : String) (d : Disk) (v : Event) (vs : List Event)
      → is_empty id ≡ false
      → NoSymlink d
      → d.log ≡ none
      → All Admissible (v ∷ vs)
      → file_size c (lines (disk env none id d v vs).log) ≤ max_audit_log_bytes
      → open_log c env id none (disk env none id d v vs) ≡ ok (writer env none id d v vs)
  open_log-append_each env id d v vs named plain absent admissible fits =
      let fresh = fresh_writer env id in
      let (done, s) =
        InStep-append_each c fresh d false (v ∷ vs) admissible
          (InStep-fresh env id d plain absent) in
      let same = writer_after-same c fresh (v ∷ vs) in
      open_log-InStep c env none id (writer env none id d v vs) (disk env none id d v vs) s
        (sym same.1) (sym same.1) same.0 named fits
