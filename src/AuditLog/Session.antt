-- ===== src/AuditLog/Session.antt =====
-- A writer's session: the log and its tail stay in step with the writer over any number of appends.
use zaynor.Prelude.{
  ℕ, suc, ◌+◌, ◌≤◌, length, length-append, String, ◌≡◌, refl, ap, sym, all, ◌∙◌, Bool, true, false,
  Option, none, some, List, [], ◌∷◌, ◌++◌, Option-cases, inl, inr, Outcome, ok, raised, ◌>>=◌,
  is_blank, is_empty, str_eq, eq_refl, arith, All, ==_refl, le→leb, subst,
}
use zaynor.Json.{Fields}
use zaynor.Crypto.{Crypto}
use zaynor.AuditLog.Defs.{
  AuditEntry, TailAnchor, Disk, is_action, Report, valid, passed, Caveat, hash_only, AuditError,
  AuditLog, new_entry, write_line, write_tail, advance, append, append_guards, reject_symlink,
  genesis_of, genesis_hash, lines, file_size, max_audit_log_bytes, effective_key, sign, sign_id,
  reject_oversized, not_verified,
}
use zaynor.AuditLog.Verify.{
  last_of, Walk, check_entry, walk, start, verify_with_report, finish, resume, open_log,
}
use zaynor.AuditLog.Passed.{walk-last_of, walk-own_case}
use zaynor.AuditLog.Appending.{tip, walk-append, check_entry-new_entry}

-- The arguments of one call of `append`, and the clock's answer.
pub record Event : Type 0 where
  pub action : String
  pub detail : Fields
  pub reason : String
  pub now : String

-- What `append` asks of its arguments.
abbrev pub Admissible : Event → Type 0
Admissible v = (is_action v.action ≡ true) × (is_blank v.reason ≡ false)

abbrev pub NoSymlink : Disk → Type 0
NoSymlink d = (d.log_is_symlink ≡ false) × (d.tail_is_symlink ≡ false)

-- The lines are numbered from 1 on, or from after `k`.
abbrev pub Numbered : ℕ → List AuditEntry → Type 0
Numbered k [] = Unit
Numbered k (e ∷ es) = (e.seq ≡ suc k) × Numbered (suc k) es

Numbered-append :
    (k : ℕ) (es : List AuditEntry) (e : AuditEntry)
    → Numbered k es
    → e.seq ≡ suc (k + length es)
    → Numbered k (es ++ e ∷ [])
Numbered-append k [] e n h = (omega arith, tt)
Numbered-append k (x ∷ es) e n h = (n.0, Numbered-append (suc k) es e n.1 (omega arith))

module _ (c : Crypto) where
  -- Calls of `append`, one after the other, up to the first that raises.
  pub append_each : AuditLog c → Disk → List Event → Outcome AuditError (AuditLog c × Disk)
  append_each log d [] = ok (log, d)
  append_each log d (v ∷ vs) =
      append c log d v.action v.detail v.reason v.now >>= λ r. append_each r.1 r.2 vs

  abbrev pub anchor : AuditLog c → TailAnchor
  anchor log = record {
    seq = log.seq;
    entry_hash = log.prev_hash;
    chain_tip_hmac = sign c log.hmac_key log.prev_hash;
    key_id = sign_id c log.hmac_key;
  }

  pub record InStep (log : AuditLog c) (d : Disk) (any : Bool) : Type 0 where
    pub plain : NoSymlink d
    pub walked :
        walk c log.hmac_key log.case_id (start (genesis_of c log.case_id)) (lines d.log)
        ≡ ok (tip c log any)
    pub anchored : any ≡ true → d.tail ≡ some (anchor log)
    pub exists : any ≡ true → d.log ≡ some (lines d.log)
    pub numbered : Numbered 0 (lines d.log)
    pub counted : log.seq ≡ length (lines d.log)

  unfoldable pub step_of : AuditLog c → Event → AuditEntry
  step_of log v = new_entry c log v.action v.detail v.reason v.now

  pub check_entry-step_of :
      (log : AuditLog c) (any : Bool) (v : Event)
      → Admissible v
      → check_entry c log.hmac_key log.case_id (tip c log any) (step_of log v)
        ≡ ok (tip c (advance c log (step_of log v)) true)
  unfolding step_of
  check_entry-step_of log any v a =
      check_entry-new_entry c log any v.action v.detail v.reason v.now a.0 a.1

  pub advance-seq :
      (log : AuditLog c) (v : Event) → (advance c log (step_of log v)).seq ≡ suc log.seq
  unfolding step_of advance new_entry
  advance-seq log v = omega arith

  -- An admissible event is written, to the line and to the tail.
  append-Admissible :
      (log : AuditLog c) (d : Disk) (v : Event)
      → Admissible v
      → NoSymlink d
      → append c log d v.action v.detail v.reason v.now
        ≡ ok (
          step_of log v,
          advance c log (step_of log v),
          write_tail (step_of log v) (write_line (step_of log v) d),
        )
  unfolding append append_guards reject_symlink step_of
  append-Admissible log d v a p = simp (a.0, a.1, p.0, p.1)

  InStep-advance :
      (log : AuditLog c) (d : Disk) (any : Bool) (v : Event)
      → Admissible v
      → InStep log d any
      → InStep
          (advance c log (step_of log v))
          (write_tail (step_of log v) (write_line (step_of log v) d))
          true
  unfolding write_tail write_line advance step_of sign new_entry
  InStep-advance log d any v a s = record {
    plain = s.plain;
    walked =
        rw
          (
            walk-append c log.hmac_key log.case_id (start (genesis_of c log.case_id)) (lines d.log)
                (step_of log v),
            s.walked,
          )
          (check_entry-step_of log any v a);
    anchored = λ _. refl;
    exists = λ _. refl;
    numbered =
        Numbered-append 0 (lines d.log) (step_of log v) s.numbered (omega (arith, s.counted));
    counted = omega (arith, s.counted, length-append {0} (lines d.log) (step_of log v ∷ []));
  }

  unfoldable pub with_step : AuditLog c → Event → AuditLog c
  with_step log v = advance c log (step_of log v)

  unfoldable pub disk_after : AuditLog c → Disk → Event → Disk
  disk_after log d v = write_tail (step_of log v) (write_line (step_of log v) d)

  -- The writer and the disk after a run of appends.
  unfoldable pub writer_after : AuditLog c → List Event → AuditLog c
  unfolding with_step step_of
  writer_after log [] = log
  writer_after log (v ∷ vs) = writer_after (with_step log v) vs

  unfoldable pub run_disk : AuditLog c → Disk → List Event → Disk
  unfolding with_step disk_after step_of
  run_disk log d [] = d
  run_disk log d (v ∷ vs) = run_disk (with_step log v) (disk_after log d v) vs

  abbrev pub some_written : Bool → List Event → Bool
  some_written any [] = any
  some_written any (v ∷ vs) = true

  some_written-true : (vs : List Event) → some_written true vs ≡ true
  some_written-true [] = refl
  some_written-true (v ∷ vs) = refl

  pub InStep-append_each :
      (log : AuditLog c) (d : Disk) (any : Bool) (vs : List Event)
      → All Admissible vs
      → InStep log d any
      → (append_each log d vs ≡ ok (writer_after log vs, run_disk log d vs))
        × InStep (writer_after log vs) (run_disk log d vs) (some_written any vs)
  unfolding append_each writer_after run_disk with_step disk_after
  InStep-append_each log d any [] a s = (refl, s)
  InStep-append_each log d any (v ∷ vs) a s =
      let s' = InStep-advance log d any v a.0 s in
      let rest = InStep-append_each (with_step log v) (disk_after log d v) true vs a.1 s' in
      (
        rw (append-Admissible log d v a.0 s.plain) rest.0,
        subst
            (λ b.
              InStep (writer_after (with_step log v) vs)
                (run_disk (with_step log v) (disk_after log d v) vs) b)
            (some_written-true vs) rest.1,
      )

  pub writer_after-same :
      (log : AuditLog c) (vs : List Event)
      → ((writer_after log vs).case_id ≡ log.case_id)
        × ((writer_after log vs).hmac_key ≡ log.hmac_key)
  unfolding writer_after with_step advance
  writer_after-same log [] = (refl, refl)
  writer_after-same log (v ∷ vs) = writer_after-same (with_step log v) vs

  -- `AuditLog(…)` over a path where nothing has been written.
  pub open_log-fresh :
      (env arg : Option c.Bytes) (id : String) (d : Disk)
      → is_empty id ≡ false
      → d.log ≡ none
      → d.log_is_symlink ≡ false
      → open_log c env id arg d
        ≡ ok (record {
          case_id = id;
          hmac_key = effective_key env arg;
          seq = 0;
          prev_hash = genesis_of c id;
        })
  unfolding open_log genesis_hash resume reject_symlink
  open_log-fresh env arg id d h l p = simp (h, l, p)

  unfoldable pub caveats_of : Option c.Bytes → List Caveat
  caveats_of none = hash_only ∷ []
  caveats_of (some k) = []

  -- Where the loop ends normally, the report is that of the tail and of the signatures.
  pub verify-walked :
      (env arg : Option c.Bytes) (id : String) (d : Disk) (es : List AuditEntry) (w : Walk)
      → NoSymlink d
      → d.log ≡ some es
      → is_empty id ≡ false
      → file_size c es ≤ max_audit_log_bytes
      → walk c (effective_key env arg) id (start (genesis_of c id)) es ≡ ok w
      → verify_with_report c env arg id d ≡ ok (finish c (effective_key env arg) d.tail w)
  unfolding verify_with_report reject_symlink reject_oversized genesis_hash
  verify-walked env arg id d es w p l h b e =
      simp (p.0, l, le→leb (file_size c es) max_audit_log_bytes b, h, e, p.1)

  finish-tip :
      (log : AuditLog c)
      → finish c log.hmac_key (some (anchor log)) (tip c log true) ≡ valid (caveats_of log.hmac_key)
  unfolding finish caveats_of sign
  finish-tip log = elim (Option-cases log.hmac_key) [
    | inl e ↦ simp (e, eq_refl, ==_refl)
    | inr (key, e) ↦ simp (e, eq_refl, ==_refl)
  ]

  -- What is in step verifies, with the writer's own key.
  pub verify-InStep :
      (env arg : Option c.Bytes) (id : String) (log : AuditLog c) (d : Disk)
      → InStep log d true
      → effective_key env arg ≡ log.hmac_key
      → log.case_id ≡ id
      → is_empty id ≡ false
      → file_size c (lines d.log) ≤ max_audit_log_bytes
      → verify_with_report c env arg id d ≡ ok (valid (caveats_of (effective_key env arg)))
  verify-InStep env arg id log d s k q h b =
      verify-walked env arg id d (lines d.log) (tip c log true) s.plain (s.exists refl) h b
        (rw (k, ← q) s.walked)
      ∙ rw (k, s.anchored refl) (ap ok (finish-tip log))

  open_log-walked :
      (env arg : Option c.Bytes) (id : String) (d : Disk) (es : List AuditEntry) (report : Report)
      (at : ℕ × String)
      → d.log_is_symlink ≡ false
      → d.log ≡ some es
      → is_empty id ≡ false
      → all (λ e. str_eq e.case_id id) es ≡ true
      → verify_with_report c env none id d ≡ ok report
      → passed report ≡ true
      → last_of (0, genesis_of c id) es ≡ at
      → open_log c env id arg d
        ≡ ok (record {
          case_id = id;
          hmac_key = effective_key env arg;
          seq = at.0;
          prev_hash = at.1;
        })
  unfolding open_log genesis_hash resume reject_symlink
  open_log-walked env arg id d es report at p l h own seen good last =
      simp (p, l, h, own, seen, good, last)

  pub open_log-refused :
      (env arg : Option c.Bytes) (id : String) (d : Disk) (es : List AuditEntry) (report : Report)
      → d.log_is_symlink ≡ false
      → d.log ≡ some es
      → is_empty id ≡ false
      → all (λ e. str_eq e.case_id id) es ≡ true
      → verify_with_report c env none id d ≡ ok report
      → passed report ≡ false
      → open_log c env id arg d ≡ raised (not_verified report)
  unfolding open_log genesis_hash resume reject_symlink
  open_log-refused env arg id d es report p l h own seen bad = simp (p, l, h, own, seen, bad)

  -- Reopening what is in step gives the writer back.
  pub open_log-InStep :
      (env arg : Option c.Bytes) (id : String) (log : AuditLog c) (d : Disk)
      → InStep log d true
      → effective_key env arg ≡ log.hmac_key
      → effective_key env none ≡ log.hmac_key
      → log.case_id ≡ id
      → is_empty id ≡ false
      → file_size c (lines d.log) ≤ max_audit_log_bytes
      → open_log c env id arg d ≡ ok log
  open_log-InStep env arg id log d s k k' q h b =
      let key = log.hmac_key in
      let genesis = genesis_of c log.case_id in
      open_log-walked env arg id d (lines d.log) (valid (caveats_of (effective_key env none)))
        (log.seq, log.prev_hash) s.plain.0 (s.exists refl) h
        (rw (← q)
          (walk-own_case c key log.case_id (start genesis) (lines d.log) (tip c log true) s.walked))
        (verify-InStep env none id log d s k' q h b) refl
        (rw (← q)
          (walk-last_of c key log.case_id (start genesis) (lines d.log) (tip c log true) s.walked))
      ∙ λ i.
          ok
            (record { case_id = sym q i; hmac_key = k i; seq = log.seq; prev_hash = log.prev_hash })
