-- ===== src/AuditLog/Examples.antt =====
-- A toy digest in the place of SHA-256 and HMAC, a small session, and the theorems applied to it.
use zaynor.Prelude.{
  ◌≡◌, ◌⊎◌, ap, string_discrete, refl, true, false, Option, none, some, List, [], ◌∷◌, ok, raised,
  arith, is_empty, is_blank, All, eq_iff, false≢true,
}
use native.Mathlib.Decide.{ℕ_discrete}
use zaynor.Json.{Json, text, obj, end, get}
use zaynor.Toy.{toy}
use zaynor.AuditLog.Defs.{
  AuditEntry, entry_body, sign, is_action, Disk, AuditLog, lines, write_line, write_tail, new_entry,
  advance, valid, hash_only, tail_mismatch, no_tail_anchor, no_hmac_values, grafted, not_verified,
  foreign_log, file_size,
}
use zaynor.AuditLog.Verify.{verify_with_report, open_log}
use zaynor.AuditLog.Session
use zaynor.AuditLog.Session.{
  Event, InStep, InStep-append_each, step_of, append_each, writer_after, run_disk,
}
use zaynor.AuditLog.RoundTrip
use zaynor.AuditLog.RoundTrip.{fresh_writer, InStep-fresh, verify-append_each, open_log-append_each}
use zaynor.AuditLog.Truncation.{verify_truncated, crash_between_writes, verify_grafted}
use zaynor.AuditLog.Keys
use zaynor.AuditLog.Keys.{verify-SignedBy, verify_downgraded, open_log-Unsigned}
use zaynor.AuditLog.Tamper.{DumpsReadable, Collision, contents, verify_tamper_evident}

abbrev no_disk : Disk
no_disk = record { log = none; log_is_symlink = false; tail = none; tail_is_symlink = false }

abbrev frozen : Event
frozen = record { action = "CASE_FROZEN"; detail = end; reason = "freeze"; now = "t0" }

abbrev sealed : Event
sealed = record { action = "RESULT_SEALED"; detail = end; reason = "seal"; now = "t1" }

abbrev two : List Event
two = frozen ∷ sealed ∷ []

abbrev signing : Option Json
signing = some (text "key")

verify-append_each_example :
    (open_log toy signing "INC-1" none no_disk ≡ ok (fresh_writer toy signing "INC-1"))
    × (append_each toy (fresh_writer toy signing "INC-1") no_disk two
        ≡ ok (
          RoundTrip.writer toy signing none "INC-1" no_disk frozen (sealed ∷ []),
          RoundTrip.disk toy signing none "INC-1" no_disk frozen (sealed ∷ []),
        ))
    × (verify_with_report toy signing none "INC-1"
          (RoundTrip.disk toy signing none "INC-1" no_disk frozen (sealed ∷ []))
        ≡ ok (valid []))
unfolding Session.caveats_of Session.run_disk file_size is_empty is_action is_blank write_line
    write_tail new_entry advance
verify-append_each_example =
    verify-append_each toy signing none "INC-1" no_disk frozen (sealed ∷ []) refl (refl, refl) refl
      ((refl, refl), ((refl, refl), tt)) (omega arith)

open_log-append_each_example :
    open_log toy none "INC-1" none
      (RoundTrip.disk toy none none "INC-1" no_disk frozen (sealed ∷ []))
    ≡ ok (RoundTrip.writer toy none none "INC-1" no_disk frozen (sealed ∷ []))
unfolding Session.run_disk file_size is_empty is_action is_blank write_line write_tail new_entry
    advance
open_log-append_each_example =
    open_log-append_each toy none "INC-1" no_disk frozen (sealed ∷ []) refl (refl, refl) refl
      ((refl, refl), ((refl, refl), tt)) (omega arith)

abbrev written : Option Json → Disk
written key = RoundTrip.disk toy key none "INC-1" no_disk frozen (sealed ∷ [])

abbrev wrote : Option Json → AuditLog toy
wrote key = RoundTrip.writer toy key none "INC-1" no_disk frozen (sealed ∷ [])

written-InStep : (key : Option Json) → InStep toy (wrote key) (written key) true
unfolding is_action is_blank
written-InStep key =
    (InStep-append_each toy (fresh_writer toy key "INC-1") no_disk false two
      ((refl, refl), ((refl, refl), tt)) (InStep-fresh toy key "INC-1" no_disk (refl, refl) refl)).1

abbrev first_line : Option Json → AuditEntry
first_line key = step_of toy (fresh_writer toy key "INC-1") frozen

abbrev second_line : Option Json → AuditEntry
second_line key = step_of toy (advance toy (fresh_writer toy key "INC-1") (first_line key)) sealed

verify_truncated_example :
    verify_with_report toy signing none "INC-1"
      (record (written signing) { log = some (first_line signing ∷ []) })
    ≡ ok tail_mismatch
unfolding Session.run_disk Session.writer_after file_size is_empty write_line write_tail new_entry
    advance
verify_truncated_example =
    verify_truncated toy signing none "INC-1" (wrote signing) (written signing)
      (first_line signing ∷ []) [] (second_line signing) (written-InStep signing) refl refl refl
      refl (omega arith)

crash_between_writes_example :
    (verify_with_report toy signing none "INC-1"
        (write_line (step_of toy (wrote signing) sealed) (written signing))
      ≡ ok tail_mismatch)
    × (open_log toy signing "INC-1" none
          (write_line (step_of toy (wrote signing) sealed) (written signing))
        ≡ raised (not_verified tail_mismatch))
unfolding Session.run_disk Session.writer_after file_size is_empty is_action is_blank write_line
    write_tail new_entry advance
crash_between_writes_example =
    crash_between_writes toy signing "INC-1" (wrote signing) (written signing) sealed
      (written-InStep signing) refl refl refl (refl, refl) (omega arith)

abbrev signed_disk : Disk
signed_disk = written signing

verify_grafted_example :
    (verify_with_report toy none none "INC-2" (written signing) ≡ ok (grafted 1))
    × (open_log toy none "INC-2" none (written signing) ≡ raised foreign_log)
unfolding Session.run_disk Session.writer_after file_size is_empty is_action is_blank write_line
    write_tail new_entry advance Session.caveats_of
verify_grafted_example =
    verify_grafted toy signing none none none "INC-1" "INC-2" (written signing) (first_line signing)
      (second_line signing ∷ []) (valid []) refl verify-append_each_example.2 refl
      (λ p. false≢true ((eq_iff "INC-1" "INC-2").1 p)) refl

verify-SignedBy_example : All (Keys.SignedBy toy (text "key")) (lines (written signing).log)
unfolding Session.run_disk Session.writer_after file_size is_empty is_action is_blank write_line
    write_tail new_entry advance Session.caveats_of
verify-SignedBy_example =
    verify-SignedBy toy signing none (text "key") "INC-1" (written signing)
      (Session.anchor toy (wrote signing)) (first_line signing) (second_line signing ∷ [])
      (valid []) refl refl refl verify-append_each_example.2 refl

unsigned_passes :
    verify_with_report toy none none "INC-1" (written none) ≡ ok (valid (hash_only ∷ []))
unfolding Session.run_disk file_size is_empty is_action is_blank write_line write_tail new_entry
    advance Session.caveats_of
unsigned_passes =
    (verify-append_each toy none none "INC-1" no_disk frozen (sealed ∷ []) refl (refl, refl) refl
      ((refl, refl), ((refl, refl), tt)) (omega arith)).2

verify_downgraded_example :
    verify_with_report toy none signing "INC-1" (record (written none) { tail = none })
    ≡ ok no_tail_anchor
unfolding Session.run_disk Session.writer_after file_size is_empty is_action is_blank write_line
    write_tail new_entry advance sign
verify_downgraded_example =
    verify_downgraded toy none (text "key") "INC-1" (written none) (first_line none)
      (second_line none ∷ []) (valid (hash_only ∷ [])) (refl, refl) refl refl (omega arith)
      (refl, (refl, tt)) unsigned_passes refl

open_log-Unsigned_example :
    (verify_with_report toy signing none "INC-1" (written none) ≡ ok no_hmac_values)
    × (open_log toy signing "INC-1" none (written none) ≡ raised (not_verified no_hmac_values))
unfolding Session.run_disk Session.writer_after file_size is_empty is_action is_blank write_line
    write_tail new_entry advance sign
open_log-Unsigned_example =
    open_log-Unsigned toy (text "key") none "INC-1" (wrote none) (written none)
      (written-InStep none) refl refl refl (refl, (refl, tt)) (omega arith)

-- What `prev_hash_of` reads of a body.
prev_hash_of : Json → Option Json
unfolding get
prev_hash_of (obj d) = get "prev_hash" d
prev_hash_of _ = none

toy_prev_hash_kept :
    (a b : AuditEntry) → entry_body toy a ≡ entry_body toy b → a.prev_hash ≡ b.prev_hash
unfolding prev_hash_of
toy_prev_hash_kept a b h = cc (ap prev_hash_of h)

abbrev toy_readable : DumpsReadable toy
toy_readable = record { prev_hash_kept = toy_prev_hash_kept; not_genesis = λ id a h. cc }

Json_discrete : Discrete Json
Json_discrete = hlevel (ℕ_discrete, string_discrete)

verify_tamper_evident_example :
    (contents toy (lines (written none).log) ≡ contents toy (lines (written none).log))
    ⊎ Collision toy
unfolding Session.run_disk Session.writer_after file_size is_empty is_action is_blank write_line
    write_tail new_entry advance
verify_tamper_evident_example =
    verify_tamper_evident toy Json_discrete toy_readable none none none none "INC-1" (written none)
      (written none) (Session.anchor toy (wrote none)) (lines (written none).log)
      (lines (written none).log) (valid (hash_only ∷ [])) (valid (hash_only ∷ [])) refl refl refl
      refl unsigned_passes unsigned_passes refl refl
