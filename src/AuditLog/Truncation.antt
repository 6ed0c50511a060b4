-- ===== src/AuditLog/Truncation.antt =====
-- What a cut, a graft or a crash leaves on disk, and what the reader says of it.
use zaynor.Prelude.{
  ℕ, suc, ◌+◌, ◌≤◌, String, ◌≡◌, ◌≢◌, refl, ap, ◌∙◌, sym, true, false, Option, none, some, List, [],
  ◌∷◌, ◌++◌, ok, raised, is_empty, arith, length, length-append, eq_iff, str_eq, leb,
}
use zaynor.Crypto.{Crypto}
use zaynor.AuditLog.Defs.{
  AuditEntry, passed, Disk, Report, tail_mismatch, grafted, foreign_log, not_verified, AuditLog,
  genesis_of, genesis_hash, lines, write_line, file_size, max_audit_log_bytes, effective_key,
  reject_symlink, reject_oversized, advance,
}
use zaynor.AuditLog.Verify.{
  Walk, check_entry, walk, start, verify_with_report, resume, open_log, last_of, finish,
}
use zaynor.AuditLog.Appending.{tip, walk-append}
use zaynor.AuditLog.Passed.{
  walk_step, verify-passed, check_entry-Checked, walk-last_of, walk-own_case,
}
use zaynor.AuditLog.Session.{
  Event, Admissible, InStep, Numbered, verify-walked, open_log-refused, advance-seq,
  check_entry-step_of, anchor, step_of,
}

module _ (c : Crypto) where
  walk_prefix :
      (key : Option c.Bytes) (id : String) (w : Walk) (es fs : List AuditEntry) (t : Walk)
      → walk c key id w (es ++ fs) ≡ ok t
      → (s : Walk) × (walk c key id w es ≡ ok s)
  unfolding walk
  walk_prefix key id w [] fs t h = (w, refl)
  walk_prefix key id w (e ∷ es) fs t h =
      let (w', p, q) = walk_step c key id w e (es ++ fs) t h in
      let (s, r) = walk_prefix key id w' es fs t q in (s, rw p r)

  last_of-Numbered :
      (k : ℕ) (h : String) (es : List AuditEntry)
      → Numbered k es
      → (last_of (k, h) es).0 ≡ k + length es
  unfolding last_of
  last_of-Numbered k h [] n = omega arith
  last_of-Numbered k h (e ∷ es) n =
      rw n.0 (last_of-Numbered (suc k) e.entry_hash es n.1 ∙ omega arith)

  Numbered-prefix : (k : ℕ) (es fs : List AuditEntry) → Numbered k (es ++ fs) → Numbered k es
  Numbered-prefix k [] fs n = tt
  Numbered-prefix k (e ∷ es) fs n = (n.0, Numbered-prefix (suc k) es fs n.1)

  finish-other_seq :
      (key : Option c.Bytes) (log : AuditLog c) (w : Walk)
      → w.last_seq ≢ log.seq
      → finish c key (some (anchor c log)) w ≡ tail_mismatch
  unfolding finish
  finish-other_seq key log w n = ground arith

  -- A log that a writer has left, in step with its tail, is refused with `tail_mismatch` once any
  -- number of its last lines, at least one, is cut off and the tail is left, read with the writer's key.
  pub verify_truncated :
      (env arg : Option c.Bytes) (id : String) (log : AuditLog c) (d : Disk)
      (es fs : List AuditEntry) (e : AuditEntry)
      → InStep c log d true
      → effective_key env arg ≡ log.hmac_key
      → log.case_id ≡ id
      → is_empty id ≡ false
      → lines d.log ≡ es ++ e ∷ fs
      → file_size c es ≤ max_audit_log_bytes
      → verify_with_report c env arg id (record d { log = some es }) ≡ ok tail_mismatch
  verify_truncated env arg id log d es fs e s k q h l b =
      let g = start (genesis_of c id) in
      let whole : walk c log.hmac_key id g (es ++ e ∷ fs) ≡ ok (tip c log true) =
        rw (← l, ← q) s.walked in
      let (w, p) = walk_prefix log.hmac_key id g es (e ∷ fs) (tip c log true) whole in
      let seqs =
        last_of-Numbered 0 (genesis_of c id) es
          (Numbered-prefix 0 es (e ∷ fs) (rw l at s.numbered)) in
      let last = ap (λ (r : ℕ × String). r.0) (walk-last_of c log.hmac_key id g es w p) in
      let all : log.seq ≡ length es + suc (length fs) =
        s.counted ∙ ap length l ∙ length-append es (e ∷ fs) in
      verify-walked c env arg id (record d { log = some es }) es w s.plain refl h b (rw k p)
      ∙ rw (s.anchored refl) (ap ok (finish-other_seq (effective_key env arg) log w (omega arith)))

  -- If the writer of a log in step, within the limit of bytes, stops between the two writes of an
  -- admissible append, the log is refused
  -- with `tail_mismatch`, and a new writer with the same key configuration is refused as well.
  pub crash_between_writes :
      (env : Option c.Bytes) (id : String) (log : AuditLog c) (d : Disk) (v : Event)
      → InStep c log d true
      → env ≡ log.hmac_key
      → log.case_id ≡ id
      → is_empty id ≡ false
      → Admissible v
      → file_size c (lines d.log ++ step_of c log v ∷ []) ≤ max_audit_log_bytes
      → let d' = write_line (step_of c log v) d in
        (verify_with_report c env none id d' ≡ ok tail_mismatch)
        × (open_log c env id none d' ≡ raised (not_verified tail_mismatch))
  unfolding write_line
  crash_between_writes env id log d v s k q h a b =
      let e = step_of c log v in
      let g = start (genesis_of c id) in
      let d' = write_line e d in
      let es = lines d.log ++ e ∷ [] in
      let log' = advance c log e in
      let walked : walk c log.hmac_key id g es ≡ ok (tip c log' true) = rw (← q) (
        walk-append c log.hmac_key log.case_id (start (genesis_of c log.case_id)) (lines d.log) e
        ∙ rw s.walked (check_entry-step_of c log true v a)) in
      let seen : verify_with_report c env none id d' ≡ ok tail_mismatch =
        verify-walked c env none id d' es (tip c log' true) s.plain refl h b (rw k walked)
        ∙ rw (s.anchored refl) (
            ap ok
              (finish-other_seq env log (tip c log' true) (omega (arith, advance-seq c log v)))) in
      (
        seen,
        open_log-refused c env none id d' es tail_mismatch s.plain.0 refl h
            (walk-own_case c log.hmac_key id g es (tip c log' true) walked) seen refl,
      )

  verify-guards :
      (env arg : Option c.Bytes) (id : String) (d : Disk) (es : List AuditEntry) (r : Report)
      → d.log ≡ some es
      → verify_with_report c env arg id d ≡ ok r
      → (d.log_is_symlink ≡ false) × (leb (file_size c es) max_audit_log_bytes ≡ true)
  unfolding verify_with_report reject_symlink reject_oversized
  verify-guards env arg id d es r l h = ground arith

  check_entry-foreign :
      (key : Option c.Bytes) (id : String) (w : Walk) (e : AuditEntry)
      → e.case_id ≢ id
      → check_entry c key id w e ≡ raised (grafted e.seq)
  unfolding check_entry
  check_entry-foreign key id w e n = ground (arith, eq_iff e.case_id id)

  verify-foreign :
      (env arg : Option c.Bytes) (id : String) (d : Disk) (e : AuditEntry) (es : List AuditEntry)
      → d.log_is_symlink ≡ false
      → d.log ≡ some (e ∷ es)
      → leb (file_size c (e ∷ es)) max_audit_log_bytes ≡ true
      → is_empty id ≡ false
      → e.case_id ≢ id
      → verify_with_report c env arg id d ≡ ok (grafted e.seq)
  unfolding verify_with_report reject_symlink reject_oversized genesis_hash walk
  verify-foreign env arg id d e es p l b h n =
      simp
        (p, l, b, h, check_entry-foreign (effective_key env arg) id (start (genesis_of c id)) e n)

  open_log-foreign :
      (env arg : Option c.Bytes) (id : String) (d : Disk) (e : AuditEntry) (es : List AuditEntry)
      → d.log_is_symlink ≡ false
      → d.log ≡ some (e ∷ es)
      → is_empty id ≡ false
      → str_eq e.case_id id ≡ false
      → open_log c env id arg d ≡ raised foreign_log
  unfolding open_log genesis_hash resume reject_symlink
  open_log-foreign env arg id d e es p l h n = simp (p, l, h, n)

  -- A log with lines that passes for one case is refused for every other, at its first line, and no
  -- writer for another case opens it.
  pub verify_grafted :
      (env arg env' arg' : Option c.Bytes) (id id' : String) (d : Disk) (e : AuditEntry)
      (es : List AuditEntry) (r : Report)
      → d.log ≡ some (e ∷ es)
      → verify_with_report c env arg id d ≡ ok r
      → passed r ≡ true
      → id ≢ id'
      → is_empty id' ≡ false
      → (verify_with_report c env' arg' id' d ≡ ok (grafted e.seq))
        × (open_log c env' id' arg' d ≡ raised foreign_log)
  verify_grafted env arg env' arg' id id' d e es r l v p n h =
      let (s, walked, f) = verify-passed c env arg id d (e ∷ es) r l v p in
      let (w, first, more) =
        walk_step c (effective_key env arg) id (start (genesis_of c id)) e es s walked in
      let own =
        (check_entry-Checked c (effective_key env arg) id (start (genesis_of c id)) e w
          first).own_case in
      let (plain, fits) = verify-guards env arg id d (e ∷ es) r l v in
      let other : e.case_id ≢ id' = λ q. n (sym own ∙ q) in
      (
        verify-foreign env' arg' id' d e es plain l fits h other,
        open_log-foreign env' arg' id' d e es plain l h
            (ground (arith, other, eq_iff e.case_id id')),
      )
