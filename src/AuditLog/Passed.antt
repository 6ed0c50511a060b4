-- ===== src/AuditLog/Passed.antt =====
-- What it says of a line, and of a list of lines, that the loop of `verify_with_report` passed it.
use zaynor.Prelude.{
  String, ◌≡◌, refl, ◌∙◌, Bool, true, false, Option, none, some, List, [], ◌∷◌, inl, inr, ◌⊎◌,
  Option-cases, Outcome-cases, Outcome, ok, raised, bind-returned, str_eq, eq_iff, arith, all,
}
use zaynor.Crypto.{Crypto}
use zaynor.AuditLog.Defs.{
  AuditEntry, TailAnchor, is_action, Report, body_hash, compute_entry_hmac, passed, Disk,
  genesis_of, genesis_hash, reject_symlink, reject_oversized, effective_key,
}
use zaynor.AuditLog.Verify.{
  Walk, check_entry, walk, last_of, conclude, finish, start, verify_with_report,
}

abbrev pub Signed : (c : Crypto) → Option c.Bytes → Bool → AuditEntry → Type 0
Signed c none before e = Unit
Signed c (some k) before e =
    (e.entry_hmac ≡ some (compute_entry_hmac c k e.entry_hash))
    ⊎ ((e.entry_hmac ≡ none) × (before ≡ false))

module _ (c : Crypto) where
  open c use {Bytes}

  pub record Checked (key : Option Bytes) (id : String) (w : Walk) (e : AuditEntry) (w' : Walk)
      : Type 0 where
    pub own_case : e.case_id ≡ id
    pub known : is_action e.action ≡ true
    pub linked : e.prev_hash ≡ w.prev_hash
    pub hashed : body_hash c e ≡ e.entry_hash
    pub moved : w'.prev_hash ≡ e.entry_hash
    pub moved_seq : w'.last_seq ≡ e.seq
    pub moved_hash : w'.last_hash ≡ e.entry_hash
    pub saw : w'.saw_any ≡ true

  pub check_entry-Checked :
      (key : Option Bytes) (id : String) (w : Walk) (e : AuditEntry) (w' : Walk)
      → check_entry c key id w e ≡ ok w'
      → Checked key id w e w'
  unfolding check_entry
  check_entry-Checked key id w e w' h = ground (
    arith,
    eq_iff e.case_id id,
    eq_iff e.prev_hash w.prev_hash,
    eq_iff (body_hash c e) e.entry_hash,
  )

  -- With a key, a line that passes is signed by it, or stands before every signed line.
  pub check_entry-Signed :
      (key : Option Bytes) (id : String) (w : Walk) (e : AuditEntry) (w' : Walk)
      → check_entry c key id w e ≡ ok w'
      → Signed c key w.saw_any_hmac e
  unfolding check_entry
  check_entry-Signed none id w e w' h = tt
  check_entry-Signed (some k) id w e w' h = elim (Option-cases e.entry_hmac) [
    | inl p ↦ inr (p, ground arith)
    | inr (x, p) ↦
        let signed : compute_entry_hmac c k (body_hash c e) ≡ x =
          ground (arith, eq_iff (compute_entry_hmac c k (body_hash c e)) x) in
        let hashed = (check_entry-Checked (some k) id w e w' h).hashed in inl (cc)
  ]

  pub walk_step :
      (key : Option Bytes) (id : String) (w : Walk) (e : AuditEntry) (es : List AuditEntry)
      (t : Walk)
      → walk c key id w (e ∷ es) ≡ ok t
      → (w' : Walk) × (check_entry c key id w e ≡ ok w') × (walk c key id w' es ≡ ok t)
  unfolding walk
  walk_step key id w e es t h =
      bind-returned (check_entry c key id w e) (λ w'. walk c key id w' es) h

  -- Where the loop ends, `last_seq` and `last_hash` are those of the last line.
  pub walk-last_of :
      (key : Option Bytes) (id : String) (w : Walk) (es : List AuditEntry) (t : Walk)
      → walk c key id w es ≡ ok t
      → last_of (w.last_seq, w.last_hash) es ≡ (t.last_seq, t.last_hash)
  unfolding walk last_of
  walk-last_of key id w [] t h = cc
  walk-last_of key id w (e ∷ es) t h =
      let (w', p, q) = walk_step key id w e es t h in
      let k = check_entry-Checked key id w e w' p in
      let ih = walk-last_of key id w' es t q in cc (k.moved_seq, k.moved_hash, ih)

  pub walk-own_case :
      (key : Option Bytes) (id : String) (w : Walk) (es : List AuditEntry) (t : Walk)
      → walk c key id w es ≡ ok t
      → all (λ e. str_eq e.case_id id) es ≡ true
  unfolding walk
  walk-own_case key id w [] t h = refl
  walk-own_case key id w (e ∷ es) t h =
      let (w', p, q) = walk_step key id w e es t h in
      let k = check_entry-Checked key id w e w' p in
      rw ((eq_iff e.case_id id).1 k.own_case) (walk-own_case key id w' es t q)

  check_entry_refuses :
      (key : Option Bytes) (id : String) (w : Walk) (e : AuditEntry) (r : Report)
      → check_entry c key id w e ≡ raised r
      → passed r ≡ false
  unfolding check_entry
  check_entry_refuses key id w e r h = ground arith

  -- An early return of the loop never passes.
  walk_refuses :
      (key : Option Bytes) (id : String) (w : Walk) (es : List AuditEntry) (r : Report)
      → walk c key id w es ≡ raised r
      → passed r ≡ false
  unfolding walk
  walk_refuses key id w [] r h = cc
  walk_refuses key id w (e ∷ es) r h = elim (Outcome-cases (check_entry c key id w e)) [
    | inl (w', p) ↦ walk_refuses key id w' es r (rw p at h)
    | inr (x, p) ↦ check_entry_refuses key id w e r (p ∙ (rw p at h))
  ]

  conclude-passed :
      (key : Option Bytes) (d : Disk) (m : Outcome Report Walk) (r : Report)
      → ((x : Report) → m ≡ raised x → passed x ≡ false)
      → conclude c key d m ≡ ok r
      → passed r ≡ true
      → (t : Walk) × (m ≡ ok t) × (finish c key d.tail t ≡ r)
  unfolding conclude reject_symlink
  conclude-passed key d (ok t) r no_pass h p = (t, refl, ground arith)
  conclude-passed key d (raised x) r no_pass h p = cc (no_pass x refl)

  -- Where the report passes, the loop has ended normally.
  pub verify-passed :
      (env arg : Option Bytes) (id : String) (d : Disk) (es : List AuditEntry) (r : Report)
      → d.log ≡ some es
      → verify_with_report c env arg id d ≡ ok r
      → passed r ≡ true
      → (t : Walk) × (walk c (effective_key env arg) id (start (genesis_of c id)) es ≡ ok t)
        × (finish c (effective_key env arg) d.tail t ≡ r)
  unfolding verify_with_report genesis_hash reject_oversized
  verify-passed env arg id d es r l h p =
      let key = effective_key env arg in
      let w = start (genesis_of c id) in
      conclude-passed key d (walk c key id w es) r (walk_refuses key id w es) (ground arith) p

  pub walk-prev_hash :
      (key : Option Bytes) (id : String) (w : Walk) (es : List AuditEntry) (t : Walk)
      → walk c key id w es ≡ ok t
      → w.prev_hash ≡ w.last_hash
      → t.prev_hash ≡ t.last_hash
  unfolding walk
  walk-prev_hash key id w [] t h p = cc
  walk-prev_hash key id w (e ∷ es) t h p =
      let (w', q, h') = walk_step key id w e es t h in
      let k = check_entry-Checked key id w e w' q in
      walk-prev_hash key id w' es t h' (cc (k.moved, k.moved_hash))

  -- A report that passes beside a tail anchor has found the anchor's hash.
  pub finish-anchored :
      (key : Option Bytes) (a : TailAnchor) (t : Walk) (r : Report)
      → finish c key (some a) t ≡ r
      → passed r ≡ true
      → t.last_hash ≡ a.entry_hash
  unfolding finish
  finish-anchored key a t r h p = ground (arith, eq_iff a.entry_hash t.last_hash)
