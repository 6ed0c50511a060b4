-- ===== src/AuditLog/Keys.antt =====
-- What the key adds to the chain, and where it is not asked for.
use zaynor.Prelude.{
  ◌≤◌, String, ◌≡◌, ◌≢◌, refl, ap, ◌∙◌, true, false, Option, none, some, List, [], ◌∷◌, inl, inr,
  ok, raised, is_empty, arith, All, eq_iff,
}
use zaynor.Crypto.{Crypto}
use zaynor.AuditLog.Defs.{
  AuditEntry, Disk, Report, no_tail_anchor, no_hmac_values, not_verified, passed, AuditLog,
  genesis_of, lines, file_size, max_audit_log_bytes, effective_key, compute_entry_hmac, TailAnchor,
  sign,
}
use zaynor.AuditLog.Verify.{Walk, check_entry, walk, start, verify_with_report, open_log, finish}
use zaynor.AuditLog.Appending.{tip}
use zaynor.AuditLog.Passed.{
  walk_step, verify-passed, check_entry-Checked, check_entry-Signed, walk-own_case,
}
use zaynor.AuditLog.Session.{NoSymlink, InStep, verify-walked, open_log-refused, anchor}

abbrev pub Unsigned : AuditEntry → Type 0
Unsigned e = e.entry_hmac ≡ none

module _ (c : Crypto) where
  abbrev pub SignedBy : c.Bytes → AuditEntry → Type 0
  SignedBy k e = e.entry_hmac ≡ some (compute_entry_hmac c k e.entry_hash)

  -- The flag of a missing signature is set by an unsigned line, and stays set.
  check_entry-missing :
      (key : Option c.Bytes) (id : String) (w : Walk) (e : AuditEntry) (w' : Walk)
      → check_entry c key id w e ≡ ok w'
      → w'.saw_any_missing_hmac ≡ false
      → (w.saw_any_missing_hmac ≡ false) × (e.entry_hmac ≢ none)
  unfolding check_entry
  check_entry-missing none id w e w' h m = ground arith
  check_entry-missing (some k) id w e w' h m = ground arith

  walk-SignedBy :
      (k : c.Bytes) (id : String) (w : Walk) (es : List AuditEntry) (t : Walk)
      → walk c (some k) id w es ≡ ok t
      → t.saw_any_missing_hmac ≡ false
      → All (SignedBy k) es × (w.saw_any_missing_hmac ≡ false)
  unfolding walk
  walk-SignedBy k id w [] t h m = (tt, cc)
  walk-SignedBy k id w (e ∷ es) t h m =
      let (w', p, q) = walk_step c (some k) id w e es t h in
      let (rest, m') = walk-SignedBy k id w' es t q m in
      let (m'', signed) = check_entry-missing (some k) id w e w' p m' in
      let one : SignedBy k e = elim (check_entry-Signed c (some k) id w e w' p) [
        | inl x ↦ x
        | inr x ↦ absurd (signed x.0)
      ] in
      ((one, rest), m'')

  walk-saw_any :
      (key : Option c.Bytes) (id : String) (w : Walk) (e : AuditEntry) (es : List AuditEntry)
      (t : Walk)
      → walk c key id w (e ∷ es) ≡ ok t
      → t.saw_any ≡ true
  walk-saw_any key id w e [] t h =
      let (w', p, q) = walk_step c key id w e [] t h in
      unfold walk in (let k = check_entry-Checked c key id w e w' p in cc (k.saw, q))
  walk-saw_any key id w e (f ∷ fs) t h =
      let (w', p, q) = walk_step c key id w e (f ∷ fs) t h in walk-saw_any key id w' f fs t q

  finish-signed :
      (k : c.Bytes) (a : TailAnchor) (t : Walk)
      → passed (finish c (some k) (some a) t) ≡ true
      → t.saw_any ≡ true
      → t.saw_any_missing_hmac ≡ false
  unfolding finish
  finish-signed k a t p s = ground arith

  -- If a log with lines passes under a key and its tail anchor is there, then every line carries
  -- the HMAC of its own hash under that key.
  pub verify-SignedBy :
      (env arg : Option c.Bytes) (k : c.Bytes) (id : String) (d : Disk) (a : TailAnchor)
      (e : AuditEntry) (es : List AuditEntry) (r : Report)
      → effective_key env arg ≡ some k
      → d.log ≡ some (e ∷ es)
      → d.tail ≡ some a
      → verify_with_report c env arg id d ≡ ok r
      → passed r ≡ true
      → All (SignedBy k) (e ∷ es)
  verify-SignedBy env arg k id d a e es r key l tail v p =
      let (t, walked, f) = verify-passed c env arg id d (e ∷ es) r l v p in
      let walked' = rw key at walked in
      let good : passed (finish c (some k) (some a) t) ≡ true =
        rw (← key, ← tail) (ap passed f ∙ p) in
      (walk-SignedBy k id (start (genesis_of c id)) (e ∷ es) t walked' (
        finish-signed k a t good
          (walk-saw_any (some k) id (start (genesis_of c id)) e es t walked'))).0

  check_entry-Unsigned :
      (k : c.Bytes) (id : String) (w : Walk) (e : AuditEntry) (w' : Walk)
      → Unsigned e
      → w.saw_any_hmac ≡ false
      → check_entry c none id w e ≡ ok w'
      → (check_entry c (some k) id w e ≡ ok w') × (w'.saw_any_hmac ≡ false)
  unfolding check_entry
  check_entry-Unsigned k id w e w' u s h = (ground arith, ground arith)

  walk-Unsigned :
      (k : c.Bytes) (id : String) (w : Walk) (es : List AuditEntry) (t : Walk)
      → All Unsigned es
      → w.saw_any_hmac ≡ false
      → walk c none id w es ≡ ok t
      → (walk c (some k) id w es ≡ ok t) × (t.saw_any_hmac ≡ false)
  unfolding walk
  walk-Unsigned k id w [] t u s h = (h, cc)
  walk-Unsigned k id w (e ∷ es) t u s h =
      let (w', p, q) = walk_step c none id w e es t h in
      let (p', s') = check_entry-Unsigned k id w e w' u.0 s p in
      let rest = walk-Unsigned k id w' es t u.1 s' q in (rw p' rest.0, rest.1)

  finish-Unsigned :
      (k : c.Bytes) (a : TailAnchor) (w : Walk)
      → w.last_seq ≡ a.seq
      → w.last_hash ≡ a.entry_hash
      → a.chain_tip_hmac ≡ none
      → w.saw_any ≡ true
      → w.saw_any_hmac ≡ false
      → finish c (some k) (some a) w ≡ no_hmac_values
  unfolding finish
  finish-Unsigned k a w n h t s u = ground (arith, eq_iff a.entry_hash w.last_hash)

  finish-no_tail :
      (key : Option c.Bytes) (w : Walk) → w.saw_any ≡ true → finish c key none w ≡ no_tail_anchor
  unfolding finish
  finish-no_tail key w s = rw s

  -- A chain with no signatures that passes without a key passes under every key, with
  -- `no_tail_anchor`, once its tail file is removed.
  pub verify_downgraded :
      (env : Option c.Bytes) (k : c.Bytes) (id : String) (d : Disk) (e : AuditEntry)
      (es : List AuditEntry) (r : Report)
      → NoSymlink d
      → is_empty id ≡ false
      → d.log ≡ some (e ∷ es)
      → file_size c (e ∷ es) ≤ max_audit_log_bytes
      → All Unsigned (e ∷ es)
      → verify_with_report c none none id d ≡ ok r
      → passed r ≡ true
      → verify_with_report c env (some k) id (record d { tail = none }) ≡ ok no_tail_anchor
  verify_downgraded env k id d e es r plain h l b u v p =
      let g = start (genesis_of c id) in
      let (t, walked, f) = verify-passed c none none id d (e ∷ es) r l v p in
      let (walked', s) = walk-Unsigned k id g (e ∷ es) t u refl walked in
      verify-walked c env (some k) id (record d { tail = none }) (e ∷ es) t plain l h b walked'
      ∙ ap ok (finish-no_tail (some k) t (walk-saw_any (some k) id g e es t walked'))

  -- A log that was written without a key, in step with its tail and within the limit of bytes, is refused with `no_hmac_values`
  -- where the environment has a key, and no writer opens it there, whatever key it is given.
  pub open_log-Unsigned :
      (k : c.Bytes) (arg : Option c.Bytes) (id : String) (log : AuditLog c) (d : Disk)
      → InStep c log d true
      → log.hmac_key ≡ none
      → log.case_id ≡ id
      → is_empty id ≡ false
      → All Unsigned (lines d.log)
      → file_size c (lines d.log) ≤ max_audit_log_bytes
      → (verify_with_report c (some k) none id d ≡ ok no_hmac_values)
        × (open_log c (some k) id arg d ≡ raised (not_verified no_hmac_values))
  unfolding sign
  open_log-Unsigned k arg id log d s n q h u b =
      let g = start (genesis_of c id) in
      let es = lines d.log in
      let walked : walk c none id g es ≡ ok (tip c log true) = rw (← n, ← q) s.walked in
      let (walked', flag) = walk-Unsigned k id g es (tip c log true) u refl walked in
      let seen : verify_with_report c (some k) none id d ≡ ok no_hmac_values =
        verify-walked c (some k) none id d es (tip c log true) s.plain (s.exists refl) h b walked'
        ∙ rw (s.anchored refl) (
            ap ok (finish-Unsigned k (anchor c log) (tip c log true) refl refl (rw n) refl flag)) in
      (
        seen,
        open_log-refused c (some k) arg id d es no_hmac_values s.plain.0 (s.exists refl) h
            (walk-own_case c none id g es (tip c log true) walked) seen refl,
      )
