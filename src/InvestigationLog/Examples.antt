-- ===== src/InvestigationLog/Examples.antt =====
-- A log with one hypothesis, and the theorems applied to it.
use zaynor.Prelude.{
  ◌≡◌, refl, true, false, none, some, [], raised, is_blank, decimal, false≢true, eq_iff, strip,
  text_length,
}
use zaynor.Json.{text}
use zaynor.Toy.{toy, toy_digest, toy_hmac}
use zaynor.InvestigationLog.Defs.{
  Hypothesis, Log, blank, new_investigation_log, bounded_text, record_entry, is_state, last_minted,
  hypothesis_id, trim, sealed_entry, add_entry, head_hmac, seal, cap,
}
use zaynor.InvestigationLog.Operations.{
  add_hypothesis, update_hypothesis, mint_hypothesis, find_item,
}
use zaynor.InvestigationLog.Verify.{verify_log}
use zaynor.InvestigationLog.History.{
  here, next, Writes, adds, Sound-new, Writes-Sound, verify_log-History,
}
use zaynor.InvestigationLog.Soundness.{Sound}
use zaynor.InvestigationLog.Divergence.{
  update_hypothesis-blank, add_hypothesis-blank_actor, verify_log-stale_head,
}

abbrev empty : Log
empty = new_investigation_log "INC-1"

abbrev one : Log
one = (add_hypothesis toy "ana" " lateral movement" "t0" empty).1

abbrev first : Hypothesis
first = record { id = "H1"; statement = "lateral movement"; status = "open"; rationale = none }

one-Writes : Writes toy empty one
unfolding add_hypothesis mint_hypothesis last_minted bounded_text is_blank text_length hypothesis_id
    decimal record_entry sealed_entry add_entry head_hmac seal trim cap new_investigation_log strip
one-Writes = adds "ana" " lateral movement" "t0" first refl

one-Sound : Sound toy one
one-Sound = Writes-Sound toy one-Writes (Sound-new toy "INC-1")

verify_log-History_example :
    ((verify_log toy none one).log_ok ≡ true) × ((verify_log toy none one).errors ≡ [])
verify_log-History_example = verify_log-History toy "INC-1" one (next here one-Writes)

update_hypothesis-blank_example :
    ((update_hypothesis toy "ana" "H1" "refuted" " " "t1" one).0 ≡ raised blank)
    × ((verify_log toy none (update_hypothesis toy "ana" "H1" "refuted" " " "t1" one).1).log_ok
        ≡ false)
unfolding add_hypothesis mint_hypothesis last_minted bounded_text is_blank text_length hypothesis_id
    decimal record_entry sealed_entry add_entry head_hmac seal trim cap new_investigation_log strip
    is_state find_item
update_hypothesis-blank_example =
    update_hypothesis-blank toy none "ana" "H1" "refuted" " " "t1" one first one-Sound refl refl
      (λ p. false≢true ((eq_iff "open" "refuted").1 p)) refl

add_hypothesis-blank_actor_example :
    ((add_hypothesis toy "" "exfiltration" "t1" one).0 ≡ raised blank)
    × ((verify_log toy none (add_hypothesis toy "" "exfiltration" "t1" one).1).log_ok ≡ false)
unfolding bounded_text is_blank text_length strip
add_hypothesis-blank_actor_example =
    add_hypothesis-blank_actor toy none "" "exfiltration" "t1" "exfiltration" one one-Sound refl
      refl

-- A log whose empty journal's head was signed.
abbrev headed : Log
headed = record (new_investigation_log "INC-1") { memory_head_hmac = some "mac" }

abbrev moved : Log
moved = (add_hypothesis toy "ana" "lateral movement" "t0" headed).1

verify_log-stale_head_example : (verify_log toy (some (text "key")) moved).log_ok ≡ false
unfolding add_hypothesis mint_hypothesis last_minted bounded_text is_blank text_length hypothesis_id
    decimal record_entry sealed_entry add_entry head_hmac seal trim cap new_investigation_log strip
    toy_digest toy_hmac
verify_log-stale_head_example =
    let s = Sound-new toy "INC-1" in
    verify_log-stale_head toy (text "key") "mac" headed moved
      (record {
        chained = s.chained;
        headed = s.headed;
        hypotheses_backed = s.hypotheses_backed;
        questions_backed = s.questions_backed;
      })
      (adds "ana" "lateral movement" "t0" first refl) refl
      (λ p. false≢true ((eq_iff (toy_hmac (text "key") (text moved.memory_head)) "mac").1 p))
