-- ===== src/AuditLog/Appending.antt =====
-- A chain that `append` has written verifies: the loop of `verify_with_report` over the lines ends
-- in the state that the writer holds.
use zaynor.Prelude.{
  String, ◌≡◌, sym, ap, ◌∙◌, Bool, true, false, Option, none, some, List, [], ◌∷◌, ◌++◌, fun_ext,
  Option-cases, inl, inr, ok, ◌>>=◌, >>=_assoc, >>=-pure, not, ◌&&◌, is_blank, eq_refl,
}
use zaynor.Json.{Fields}
use zaynor.Crypto.{Crypto}
use zaynor.AuditLog.Defs.{AuditEntry, is_action, AuditLog, new_entry, advance}
use zaynor.AuditLog.Verify.{Walk, check_entry, walk}

abbrev is_signed {ℓ} : {A : Type ℓ} → Option A → Bool
is_signed none = false
is_signed (some k) = true

module _ (c : Crypto) where
  open c use {Bytes}

  pub walk-append :
      (key : Option Bytes) (id : String) (w : Walk) (es : List AuditEntry) (e : AuditEntry)
      → walk c key id w (es ++ e ∷ []) ≡ (walk c key id w es >>= λ v. check_entry c key id v e)
  unfolding walk
  walk-append key id w [] e = >>=-pure (check_entry c key id w e)
  walk-append key id w (d ∷ es) e =
      ap (λ f. check_entry c key id w d >>= f) (fun_ext λ v. walk-append key id v es e)
      ∙ sym (>>=_assoc (check_entry c key id w d) (λ v. walk c key id v es) _)

  -- What the loop knows after the lines that `log` has written; `any` says whether there are some.
  abbrev pub tip : AuditLog c → Bool → Walk
  tip log any = record {
    prev_hash = log.prev_hash;
    last_seq = log.seq;
    last_hash = log.prev_hash;
    saw_any = any;
    saw_any_hmac = any && is_signed log.hmac_key;
    saw_any_missing_hmac = any && not (is_signed log.hmac_key);
  }

  pub check_entry-new_entry :
      (log : AuditLog c) (any : Bool) (action : String) (detail : Fields) (reason now : String)
      → is_action action ≡ true
      → is_blank reason ≡ false
      → let e = new_entry c log action detail reason now in
        check_entry c log.hmac_key log.case_id (tip log any) e ≡ ok (tip (advance c log e) true)
  unfolding check_entry new_entry advance
  check_entry-new_entry log true action detail reason now h k = elim (Option-cases log.hmac_key) [
    | inl e ↦ simp (e, eq_refl, h, k)
    | inr (key, e) ↦ simp (e, eq_refl, h, k)
  ]
  check_entry-new_entry log false action detail reason now h k = elim (Option-cases log.hmac_key) [
    | inl e ↦ simp (e, eq_refl, h, k)
    | inr (key, e) ↦ simp (e, eq_refl, h, k)
  ]
