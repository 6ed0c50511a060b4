-- ===== src/Seal/Examples.antt =====
-- A small result, sealed and verified with its mapping in another order, and the theorems applied.
use zaynor.Prelude.{
  String, ◌≡◌, refl, Bool, true, false, [], ◌∷◌, some, ◌⊎◌, leb, text_length, decimal, ok, raised,
  string_discrete,
}
use native.Mathlib.Decide.{ℕ_discrete}
use zaynor.Seal.Values.{
  Value, num, negative, float, text, instance_of, mapping, tuple, nil, cons, end, pair, t_str,
  Document, key_document, Platform, float_not_allowed, sort_pairs, typed,
}
use zaynor.Seal.Sealing.{
  AuthoritySeal, canonicalize_version, result_schema_version, other_schema, attribute,
  seal_authoritative_result, verify_authoritative_result,
}
use zaynor.Seal.Same.{Same}
use zaynor.Seal.Binding.{is_exact, Collision, KeepsPayload, seal-is_exact, verify-seal, verify-Same}

-- Keys are in the order of their lengths.
abbrev shorter : Document → Document → Bool
shorter (key_document (t_str a)) (key_document (t_str b)) = leb (text_length a) (text_length b)
shorter _ _ = true

abbrev pub digest : String
digest = "0000000000000000000000000000000000000000000000000000000000000000"

abbrev pub platform : Platform
platform = record {
  Bytes = Document;
  json = λ d. some d;
  has_text = λ n. true;
  bytes_le = shorter;
  sha256 = λ b. digest;
  field_names = λ class. "case_id" ∷ "integrity" ∷ "schema_version" ∷ [];
}

abbrev result_with : Value → Value
result_with integrity =
    instance_of "zaynor.authoritative_result"
      (cons (text "INC-1") (cons integrity (cons (text result_schema_version) nil)))

abbrev written : Value
written = result_with (mapping (pair (text "a") (num 1) (pair (text "bb") (negative 0) end)))

abbrev reordered : Value
reordered = result_with (mapping (pair (text "bb") (negative 0) (pair (text "a") (num 1) end)))

abbrev seal : AuthoritySeal
seal = record { version = canonicalize_version; sha256 = digest }

written_sealed : seal_authoritative_result platform written ≡ ok seal
unfolding seal_authoritative_result typed
written_sealed = refl

same_typed_form : typed platform written ≡ typed platform reordered
unfolding typed sort_pairs text_length decimal
same_typed_form = refl

float_refused : typed platform (tuple (cons (num 1) (cons float nil))) ≡ raised float_not_allowed
unfolding typed
float_refused = refl

reordered_passes : verify_authoritative_result platform reordered seal ≡ ok true
unfolding verify_authoritative_result other_schema attribute seal_authoritative_result typed
    text_length
reordered_passes = refl

payload_kept : KeepsPayload platform
payload_kept t u b h k = cc

Document_discrete : Discrete Document
Document_discrete = hlevel (ℕ_discrete, string_discrete)

current_schema : other_schema platform (attribute platform "schema_version" written) ≡ false
unfolding other_schema attribute
current_schema = refl

seal-is_exact_example : is_exact written ≡ true
seal-is_exact_example = seal-is_exact platform written seal written_sealed

verify-seal_example : verify_authoritative_result platform written seal ≡ ok true
unfolding text_length
verify-seal_example = verify-seal platform written seal written_sealed current_schema (λ b. refl)

verify-Same_example : Same written reordered ⊎ Collision platform
verify-Same_example =
    verify-Same platform Document_discrete payload_kept written reordered seal written_sealed
      reordered_passes
