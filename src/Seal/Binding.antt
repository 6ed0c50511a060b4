-- ===== src/Seal/Binding.antt =====
-- What a seal binds: the result that was sealed passes, and no other result does.
use zaynor.Prelude.{
  ◌≡◌, ◌≢◌, refl, sym, ap, ◌∙◌, Bool, true, false, ◌&&◌, not, Option, none, some, ◌⊎◌, inl, inr,
  str_eq, eq_iff, eq_refl, ◌==◌, text_length, Outcome, ok, raised, bind-returned, require-true,
}
use zaynor.Seal.Values.{
  Value, nothing, bool, num, negative, fraction, float, text, instance_of, mapping, tuple, list,
  other, Elements, nil, cons, Pairs, end, pair, Typed, TypedElements, TypedPairs, payload, Platform,
  SealError, unsupported_version, schema_version_mismatch, invalid_seal, seal_mismatch, typed,
  typed_elements, typed_pairs,
}
use zaynor.Seal.Sealing.{
  AuthoritySeal, canonicalize_version, attribute, other_schema, encoded, canonical_bytes,
  seal_authoritative_result, verify_authoritative_result,
}
use zaynor.Seal.Same.{Same}
use zaynor.Seal.Faithful.{typed-Same}

-- Whether no float and no value of a foreign type stands anywhere in a value.
unfoldable mutual
  pub is_exact : Value → Bool
  is_exact float = false
  is_exact (other name) = false
  is_exact (instance_of name xs) = exact_elements xs
  is_exact (mapping ps) = exact_pairs ps
  is_exact (tuple xs) = exact_elements xs
  is_exact (list xs) = exact_elements xs
  is_exact v = true

  pub exact_elements : Elements → Bool
  exact_elements nil = true
  exact_elements (cons v xs) = is_exact v && exact_elements xs

  pub exact_pairs : Pairs → Bool
  exact_pairs end = true
  exact_pairs (pair k v ps) = is_exact k && (is_exact v && exact_pairs ps)

all_true : (a b : Bool) → a ≡ true → b ≡ true → (a && b) ≡ true
all_true a b h k = rw (h, k)

module _ (c : Platform) where
  got : {A : Type 0} {a b : A} {o : Outcome SealError A} → ok a ≡ o → o ≡ ok b → a ≡ b
  got h k = cc

  never : {A : Type 0} {e : SealError} {b : A} → raised e ≡ ok b → ⊥
  never h = cc

  mutual
    unfolding typed is_exact

    typed-is_exact : (v : Value) (t : Typed) → typed c v ≡ ok t → is_exact v ≡ true
    typed-is_exact nothing t h = refl
    typed-is_exact (bool b) t h = refl
    typed-is_exact (num n) t h = refl
    typed-is_exact (negative n) t h = refl
    typed-is_exact (fraction minus n d) t h = refl
    typed-is_exact float t h = absurd (never h)
    typed-is_exact (text s) t h = refl
    typed-is_exact (instance_of name xs) t h =
        let b = bind-returned (typed_elements c xs) _ h in typed_elements-exact xs b.0 b.1
    typed-is_exact (mapping ps) t h =
        let b = bind-returned (typed_pairs c ps) _ h in typed_pairs-exact ps b.0 b.1
    typed-is_exact (tuple xs) t h =
        let b = bind-returned (typed_elements c xs) _ h in typed_elements-exact xs b.0 b.1
    typed-is_exact (list xs) t h =
        let b = bind-returned (typed_elements c xs) _ h in typed_elements-exact xs b.0 b.1
    typed-is_exact (other name) t h = absurd (never h)

    typed_elements-exact :
        (xs : Elements) (ts : TypedElements)
        → typed_elements c xs ≡ ok ts
        → exact_elements xs ≡ true
    typed_elements-exact nil ts h = refl
    typed_elements-exact (cons v xs) ts h =
        let a = bind-returned (typed c v) _ h in
        let b = bind-returned (typed_elements c xs) _ a.2 in
        all_true _ _ (typed-is_exact v a.0 a.1) (typed_elements-exact xs b.0 b.1)

    typed_pairs-exact :
        (ps : Pairs) (ts : TypedPairs) → typed_pairs c ps ≡ ok ts → exact_pairs ps ≡ true
    typed_pairs-exact end ts h = refl
    typed_pairs-exact (pair k v ps) ts h =
        let a = bind-returned (typed c k) _ h in
        let d = bind-returned (typed c v) _ a.2 in
        let b = bind-returned (typed_pairs c ps) _ d.2 in
        all_true _ _ (typed-is_exact k a.0 a.1)
          (all_true _ _ (typed-is_exact v d.0 d.1) (typed_pairs-exact ps b.0 b.1))

  -- Two byte strings with one digest.
  abbrev pub Collision : Type 0
  Collision = (x y : c.Bytes) × (x ≢ y) × (c.sha256 x ≡ c.sha256 y)

  -- json.dumps keeps the payload: documents with the same bytes have the same typed result.
  abbrev pub KeepsPayload : Type 0
  KeepsPayload =
      (t u : Typed) (b : c.Bytes)
      → c.json (payload canonicalize_version t) ≡ some b
      → c.json (payload canonicalize_version u) ≡ some b
      → t ≡ u

  abbrev sealed_of : c.Bytes → AuthoritySeal
  sealed_of b = record { version = canonicalize_version; sha256 = c.sha256 b }

  -- A seal comes from the typed form.
  record SealedFrom (result : Value) (s : AuthoritySeal) : Type 0 where
    form : Typed
    bytes : c.Bytes
    is_form : typed c result ≡ ok form
    written : c.json (payload canonicalize_version form) ≡ some bytes
    is_seal : sealed_of bytes ≡ s

  encoded-some : (o : Option c.Bytes) (b : c.Bytes) → encoded c o ≡ ok b → o ≡ some b
  unfolding encoded
  encoded-some none b h = absurd (never h)
  encoded-some (some a) b h = ap some (got refl h)

  seal-SealedFrom :
      (result : Value) (s : AuthoritySeal)
      → seal_authoritative_result c result ≡ ok s
      → SealedFrom result s
  unfolding seal_authoritative_result canonical_bytes
  seal-SealedFrom result s h =
      let b = bind-returned (canonical_bytes c result) _ h in
      let t = bind-returned (typed c result) _ b.1 in
      record {
        form = t.0;
        bytes = b.0;
        is_form = t.1;
        written = encoded-some (c.json (payload canonicalize_version t.0)) b.0 t.2;
        is_seal = got refl b.2;
      }

  -- Whatever can be sealed has no float and no value of a foreign type anywhere in it.
  pub seal-is_exact :
      (result : Value) (s : AuthoritySeal)
      → seal_authoritative_result c result ≡ ok s
      → is_exact result ≡ true
  seal-is_exact result s h =
      let f = seal-SealedFrom result s h in typed-is_exact result f.form f.is_form

  version-eq :
      {b : c.Bytes} (s : AuthoritySeal)
      → sealed_of b ≡ s
      → str_eq s.version canonicalize_version ≡ true
  version-eq s h =
      ap (λ u. str_eq u.version canonicalize_version) (sym h) ∙ eq_refl canonicalize_version

  -- A seal that was just made passes, for a result of the current schema, where digests have 64
  -- characters.
  pub verify-seal :
      (result : Value) (s : AuthoritySeal)
      → seal_authoritative_result c result ≡ ok s
      → other_schema c (attribute c "schema_version" result) ≡ false
      → ((b : c.Bytes) → text_length (c.sha256 b) ≡ 64)
      → verify_authoritative_result c result s ≡ ok true
  unfolding verify_authoritative_result
  verify-seal result s h current long =
      let f = seal-SealedFrom result s h in
      let digest = ap (λ u. u.sha256) (sym f.is_seal) in
      rw
        (version-eq s f.is_seal, current, h, ap text_length digest ∙ long f.bytes, eq_refl s.sha256)

  Same-digest :
      Discrete c.Bytes
      → KeepsPayload
      → (result shown : Value) (s u : AuthoritySeal) → SealedFrom result s
      → SealedFrom shown u
      → s.sha256 ≡ u.sha256
      → Same result shown ⊎ Collision
  Same-digest same? keeps result shown s u f g e = elim (same? f.bytes g.bytes) [
    | yes r ↦ inl (
        typed-Same c result shown f.form f.is_form (
          g.is_form
          ∙ ap ok (sym (keeps f.form g.form f.bytes f.written (g.written ∙ ap some (sym r))))))
    | no r ↦ inr (_, _, r, ap (λ v. v.sha256) f.is_seal ∙ e ∙ sym (ap (λ v. v.sha256) g.is_seal))
  ]

  -- Whatever passes with the seal of a result is that result, but for the order of the items of its
  -- mappings, or two byte strings with one digest are at hand.
  pub verify-Same :
      Discrete c.Bytes
      → KeepsPayload
      → (result shown : Value) (s : AuthoritySeal) → seal_authoritative_result c result ≡ ok s
      → verify_authoritative_result c shown s ≡ ok true
      → Same result shown ⊎ Collision
  unfolding verify_authoritative_result
  verify-Same same? keeps result shown s h v =
      let versioned =
        require-true (str_eq s.version canonicalize_version) unsupported_version _ v in
      let current =
        require-true (not (other_schema c (attribute c "schema_version" shown)))
          schema_version_mismatch _ versioned.1 in
      let expected = bind-returned (seal_authoritative_result c shown) _ current.1 in
      let long = require-true (text_length s.sha256 == 64) invalid_seal _ expected.2 in
      let match = require-true (str_eq expected.0.sha256 s.sha256) seal_mismatch _ long.1 in
      Same-digest same? keeps result shown s expected.0 (seal-SealedFrom result s h)
        (seal-SealedFrom shown expected.0 expected.1)
        (sym ((eq_iff expected.0.sha256 s.sha256).0 match.0))
