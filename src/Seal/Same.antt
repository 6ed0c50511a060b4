-- ===== src/Seal/Same.antt =====
-- The same value, where the order of a mapping's items does not count.
use zaynor.Prelude.{ℕ, String, Bool}
use zaynor.Seal.Values.{
  Value, nothing, bool, num, negative, fraction, text, instance_of, mapping, tuple, list, Elements,
  nil, cons, Pairs, end, pair,
}

-- `Chosen k v ps rest`: the item stands somewhere in `ps`, and `rest` is what is left without it.
pub data Chosen (k v : Value) : Pairs → Pairs → Type 0 where
  first : {ps : Pairs} → Chosen k v (pair k v ps) ps
  later :
      {j w : Value} {ps rest : Pairs}
      → Chosen k v ps rest
      → Chosen k v (pair j w ps) (pair j w rest)

-- The same value, where mappings have the same items in any order.
mutual
  pub data Same : Value → Value → Type 0 where
    same_nothing : Same nothing nothing
    same_bool : (b : Bool) → Same (bool b) (bool b)
    same_num : (n : ℕ) → Same (num n) (num n)
    same_negative : (n : ℕ) → Same (negative n) (negative n)
    same_fraction : (minus : Bool) (n d : ℕ) → Same (fraction minus n d) (fraction minus n d)
    same_text : (s : String) → Same (text s) (text s)
    same_instance :
        (name : String) {xs ys : Elements}
        → SameElements xs ys
        → Same (instance_of name xs) (instance_of name ys)
    same_mapping : {ps qs : Pairs} → SamePairs ps qs → Same (mapping ps) (mapping qs)
    same_tuple : {xs ys : Elements} → SameElements xs ys → Same (tuple xs) (tuple ys)
    same_list : {xs ys : Elements} → SameElements xs ys → Same (list xs) (list ys)

  pub data SameElements : Elements → Elements → Type 0 where
    same_nil : SameElements nil nil
    same_cons :
        {v w : Value} {xs ys : Elements}
        → Same v w
        → SameElements xs ys
        → SameElements (cons v xs) (cons w ys)

  pub data SamePairs : Pairs → Pairs → Type 0 where
    same_end : SamePairs end end
    same_pair :
        {k v j w : Value} {ps qs rest : Pairs}
        → Chosen j w qs rest
        → Same k j
        → Same v w
        → SamePairs ps rest
        → SamePairs (pair k v ps) qs
