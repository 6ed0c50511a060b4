-- ===== src/Seal/Faithful.antt =====
-- What a typed form tells of the value: everything but the order of a mapping's items.
use zaynor.Prelude.{
  ℕ, suc, String, ◌≡◌, refl, sym, ap, ◌∙◌, Bool, true, false, false≢true, arith, Outcome, ok,
  raised, Bool-cases, inl, inr, require, bind-returned, decimal, decimal-inj, decimal-minus, subst,
}
use zaynor.Seal.Values.{
  Value, nothing, bool, num, negative, fraction, float, text, instance_of, mapping, tuple, list,
  other, Elements, nil, cons, Pairs, end, pair, Typed, t_null, t_bool, t_int, t_fraction, t_str,
  t_dataclass, t_mapping, t_tuple, t_list, TypedElements, t_nil, t_cons, TypedPairs, t_end, t_pair,
  Platform, SealError, too_many_digits, not_encodable, int_text, keys_encoded, signed, sort_pairs,
  typed, typed_elements, typed_pairs,
}
use zaynor.Seal.Rearranged.{
  Picked, here, there, Rearranged, none_left, one_more, sort_pairs-Rearranged,
}
use zaynor.Seal.Same.{
  Chosen, first, later, Same, SameElements, SamePairs, same_nothing, same_bool, same_num,
  same_negative, same_fraction, same_text, same_instance, same_mapping, same_tuple, same_list,
  same_nil, same_cons, same_end, same_pair,
}

without_sign : String → String
without_sign String.[] = String.[]
without_sign (String.◌∷◌ c s) = s

signed-inj : (a b : Bool) (m n : ℕ) → signed a m ≡ signed b n → (a ≡ b) × (m ≡ n)
unfolding without_sign
signed-inj true true m n h = (refl, decimal-inj m n (ap without_sign h))
signed-inj true false m n h = absurd (decimal-minus n _ (sym h))
signed-inj false true m n h = absurd (decimal-minus m _ h)
signed-inj false false m n h = (refl, decimal-inj m n h)

module _ (c : Platform) where
  mutual
    data TypedAs : Value → Typed → Type 0 where
      as_null : TypedAs nothing t_null
      as_bool : (b : Bool) → TypedAs (bool b) (t_bool b)
      as_num : (n : ℕ) {s : String} → s ≡ signed false n → TypedAs (num n) (t_int s)
      as_negative : (n : ℕ) {s : String} → s ≡ signed true (suc n) → TypedAs (negative n) (t_int s)
      as_fraction :
          (minus : Bool) (n d : ℕ) {s t : String}
          → s ≡ signed minus n
          → t ≡ decimal d
          → TypedAs (fraction minus n d) (t_fraction s t)
      as_text : (s : String) → TypedAs (text s) (t_str s)
      as_instance :
          (name : String) {xs : Elements} {ts : TypedElements}
          → ElementsAs xs ts
          → TypedAs (instance_of name xs) (t_dataclass name ts)
      as_mapping :
          {ps : Pairs} {ts us : TypedPairs}
          → PairsAs ps ts
          → us ≡ sort_pairs c ts
          → TypedAs (mapping ps) (t_mapping us)
      as_tuple :
          {xs : Elements} {ts : TypedElements} → ElementsAs xs ts → TypedAs (tuple xs) (t_tuple ts)
      as_list :
          {xs : Elements} {ts : TypedElements} → ElementsAs xs ts → TypedAs (list xs) (t_list ts)

    data ElementsAs : Elements → TypedElements → Type 0 where
      as_nil : ElementsAs nil t_nil
      as_cons :
          {v : Value} {t : Typed} {xs : Elements} {ts : TypedElements}
          → TypedAs v t
          → ElementsAs xs ts
          → ElementsAs (cons v xs) (t_cons t ts)

    data PairsAs : Pairs → TypedPairs → Type 0 where
      as_end : PairsAs end t_end
      as_pair :
          {k v : Value} {t u : Typed} {ps : Pairs} {ts : TypedPairs}
          → TypedAs k t
          → TypedAs v u
          → PairsAs ps ts
          → PairsAs (pair k v ps) (t_pair t u ts)

  Picked-Chosen :
      {t u : Typed} {qs : Pairs} {us rest : TypedPairs}
      → PairsAs qs us
      → Picked t u us rest
      → (k v : Value) × (ps : Pairs) × Chosen k v qs ps
        × TypedAs k t
        × TypedAs v u
        × PairsAs ps rest
  Picked-Chosen as_end p = elim p [ ]
  Picked-Chosen (as_pair a b ps) here = (_, _, _, first, a, b, ps)
  Picked-Chosen (as_pair a b ps) (there p) =
      let s = Picked-Chosen ps p in (_, _, _, later s.3, s.4, s.5, as_pair a b s.6)

  mutual
    TypedAs-Same : {v w : Value} {t : Typed} → TypedAs v t → TypedAs w t → Same v w
    TypedAs-Same as_null as_null = same_nothing
    TypedAs-Same (as_bool b) (as_bool _) = same_bool b
    TypedAs-Same (as_num m p) (as_num n q) =
        subst (λ k. Same (num m) (num k)) (signed-inj false false m n (sym p ∙ q)).1 (same_num m)
    TypedAs-Same (as_num m p) (as_negative n q) =
        absurd (false≢true (signed-inj false true m (suc n) (sym p ∙ q)).0)
    TypedAs-Same (as_negative m p) (as_num n q) =
        absurd (false≢true (sym (signed-inj true false (suc m) n (sym p ∙ q)).0))
    TypedAs-Same (as_negative m p) (as_negative n q) =
        let e : m ≡ n = omega (arith, (signed-inj true true (suc m) (suc n) (sym p ∙ q)).1) in
        subst (λ k. Same (negative m) (negative k)) e (same_negative m)
    TypedAs-Same (as_fraction a m d p p') (as_fraction b n e q q') =
        let s = signed-inj a b m n (sym p ∙ q) in
        rw (sym s.0, sym s.1, sym (decimal-inj d e (sym p' ∙ q'))) (same_fraction a m d)
    TypedAs-Same (as_text s) (as_text _) = same_text s
    TypedAs-Same (as_instance name xs) (as_instance _ ys) =
        same_instance name (ElementsAs-Same xs ys)
    TypedAs-Same (as_mapping ps p) (as_mapping qs q) =
        same_mapping (PairsAs-Same ps qs (sort_pairs-Rearranged c _ _ (sym p ∙ q)))
    TypedAs-Same (as_tuple xs) (as_tuple ys) = same_tuple (ElementsAs-Same xs ys)
    TypedAs-Same (as_list xs) (as_list ys) = same_list (ElementsAs-Same xs ys)

    ElementsAs-Same :
        {xs ys : Elements} {ts : TypedElements}
        → ElementsAs xs ts
        → ElementsAs ys ts
        → SameElements xs ys
    ElementsAs-Same as_nil as_nil = same_nil
    ElementsAs-Same (as_cons a xs) (as_cons b ys) =
        same_cons (TypedAs-Same a b) (ElementsAs-Same xs ys)

    PairsAs-Same :
        {ps qs : Pairs} {ts us : TypedPairs}
        → PairsAs ps ts
        → PairsAs qs us
        → Rearranged ts us
        → SamePairs ps qs
    PairsAs-Same as_end as_end none_left = same_end
    PairsAs-Same as_end (as_pair a b ps) r = elim r [ ]
    PairsAs-Same (as_pair a b ps) qs (one_more p r) =
        let s = Picked-Chosen qs p in
        same_pair s.3 (TypedAs-Same a s.4) (TypedAs-Same b s.5) (PairsAs-Same ps s.6 r)

  got : {A : Type 0} {a b : A} {o : Outcome SealError A} → ok a ≡ o → o ≡ ok b → a ≡ b
  got h k = cc

  not_returned :
      {A : Type 0} {e : SealError} {b : A} {o : Outcome SealError A} → raised e ≡ o → o ≡ ok b → ⊥
  not_returned h k = cc

  int_text-signed :
      (minus : Bool) (n : ℕ) (s : String) → int_text c minus n ≡ ok s → s ≡ signed minus n
  unfolding int_text
  int_text-signed minus n s h = elim (Bool-cases (c.has_text n)) [
    | inl k ↦ sym (got (sym (rw (k, int_text))) h)
    | inr k ↦ absurd (not_returned {e = too_many_digits} (sym (rw (k, int_text))) h)
  ]

  mutual
    unfolding typed typed_elements typed_pairs

    typed-TypedAs : (v : Value) (t : Typed) → typed c v ≡ ok t → TypedAs v t
    typed-TypedAs nothing t h = subst (TypedAs nothing) (got refl h) as_null
    typed-TypedAs (bool b) t h = subst (TypedAs (bool b)) (got refl h) (as_bool b)
    typed-TypedAs (num n) t h =
        let b = bind-returned (int_text c false n) _ h in
        subst (TypedAs (num n)) (got refl b.2) (as_num n (int_text-signed false n b.0 b.1))
    typed-TypedAs (negative n) t h =
        let b = bind-returned (int_text c true (suc n)) _ h in
        subst (TypedAs (negative n)) (got refl b.2)
          (as_negative n (int_text-signed true (suc n) b.0 b.1))
    typed-TypedAs (fraction minus n d) t h =
        let a = bind-returned (int_text c minus n) _ h in
        let b = bind-returned (int_text c false d) _ a.2 in
        subst (TypedAs (fraction minus n d)) (got refl b.2) (
          as_fraction minus n d (int_text-signed minus n a.0 a.1) (int_text-signed false d b.0 b.1))
    typed-TypedAs float t h = absurd (not_returned refl h)
    typed-TypedAs (text s) t h = subst (TypedAs (text s)) (got refl h) (as_text s)
    typed-TypedAs (instance_of name xs) t h =
        let b = bind-returned (typed_elements c xs) _ h in
        subst (TypedAs (instance_of name xs)) (got refl b.2)
          (as_instance name (typed_elements-ElementsAs xs b.0 b.1))
    typed-TypedAs (mapping ps) t h =
        let b = bind-returned (typed_pairs c ps) _ h in
        let k = bind-returned (require (keys_encoded c b.0) not_encodable) _ b.2 in
        subst (TypedAs (mapping ps)) (got refl k.2)
          (as_mapping (typed_pairs-PairsAs ps b.0 b.1) refl)
    typed-TypedAs (tuple xs) t h =
        let b = bind-returned (typed_elements c xs) _ h in
        subst (TypedAs (tuple xs)) (got refl b.2) (as_tuple (typed_elements-ElementsAs xs b.0 b.1))
    typed-TypedAs (list xs) t h =
        let b = bind-returned (typed_elements c xs) _ h in
        subst (TypedAs (list xs)) (got refl b.2) (as_list (typed_elements-ElementsAs xs b.0 b.1))
    typed-TypedAs (other name) t h = absurd (not_returned refl h)

    typed_elements-ElementsAs :
        (xs : Elements) (ts : TypedElements) → typed_elements c xs ≡ ok ts → ElementsAs xs ts
    typed_elements-ElementsAs nil ts h = subst (ElementsAs nil) (got refl h) as_nil
    typed_elements-ElementsAs (cons v xs) ts h =
        let a = bind-returned (typed c v) _ h in
        let b = bind-returned (typed_elements c xs) _ a.2 in
        subst (ElementsAs (cons v xs)) (got refl b.2)
          (as_cons (typed-TypedAs v a.0 a.1) (typed_elements-ElementsAs xs b.0 b.1))

    typed_pairs-PairsAs : (ps : Pairs) (ts : TypedPairs) → typed_pairs c ps ≡ ok ts → PairsAs ps ts
    typed_pairs-PairsAs end ts h = subst (PairsAs end) (got refl h) as_end
    typed_pairs-PairsAs (pair k v ps) ts h =
        let a = bind-returned (typed c k) _ h in
        let d = bind-returned (typed c v) _ a.2 in
        let b = bind-returned (typed_pairs c ps) _ d.2 in
        subst (PairsAs (pair k v ps)) (got refl b.2) (
          as_pair (typed-TypedAs k a.0 a.1) (typed-TypedAs v d.0 d.1)
            (typed_pairs-PairsAs ps b.0 b.1))

  -- Values with the same typed form are the same, but for the order of the items of their mappings.
  pub typed-Same : (v w : Value) (t : Typed) → typed c v ≡ ok t → typed c w ≡ ok t → Same v w
  typed-Same v w t p q = TypedAs-Same (typed-TypedAs v t p) (typed-TypedAs w t q)
