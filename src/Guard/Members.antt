-- ===== src/Guard/Members.antt =====
-- Membership in lists, and what the tests of lists and of sets of texts say about it.
use zaynor.Prelude.{
  arith, String, ◌≡◌, refl, ap, ◌∙◌, Bool, true, false, ◌&&◌, none, some, List, [], ◌∷◌, ◌++◌, ◌⊎◌,
  ◌↔◌, inl, inr, str_eq, eq_iff, elem, all, any, Bool-cases,
}
use zaynor.Guard.Result.{within, same_set}

-- One at least of the list has the property.
abbrev pub Some : {A : Type 0} → (A → Type 0) → List A → Type 0
Some P [] = ⊥
Some P (x ∷ xs) = P x ⊎ Some P xs

abbrev pub Member : {A : Type 0} → A → List A → Type 0
Member x xs = Some (λ y. x ≡ y) xs

module _ {A : Type 0} where
  pub Some-append : (P : A → Type 0) (xs ys : List A) → Some P (xs ++ ys) → Some P xs ⊎ Some P ys
  Some-append P [] ys h = inr h
  Some-append P (x ∷ xs) ys (inl h) = inl (inl h)
  Some-append P (x ∷ xs) ys (inr h) = elim (Some-append P xs ys h) [
    | inl k ↦ inl (inr k)
    | inr k ↦ inr k
  ]

  pub append-Some : (P : A → Type 0) (xs ys : List A) → Some P xs ⊎ Some P ys → Some P (xs ++ ys)
  append-Some P [] ys (inl h) = absurd h
  append-Some P [] ys (inr h) = h
  append-Some P (x ∷ xs) ys (inl (inl h)) = inl h
  append-Some P (x ∷ xs) ys (inl (inr h)) = inr (append-Some P xs ys (inl h))
  append-Some P (x ∷ xs) ys (inr h) = inr (append-Some P xs ys (inr h))

both_true : (a b : Bool) → (a && b) ≡ true → (a ≡ true) × (b ≡ true)
both_true true b h = (refl, h)
both_true false b h = cc

pub all-Member :
    {A : Type 0} (p : A → Bool) (xs : List A) → all p xs ≡ true → (x : A) → Member x xs → p x ≡ true
all-Member p [] h x k = absurd k
all-Member p (y ∷ xs) h x (inl k) = ap p k ∙ (both_true (p y) _ h).0
all-Member p (y ∷ xs) h x (inr k) = all-Member p xs (both_true (p y) _ h).1 x k

pub any-Some :
    {A : Type 0} (p : A → Bool) (P : A → Type 0)
    → ((x : A) → p x ≡ true → P x)
    → (xs : List A) → any p xs ≡ true
    → Some P xs
any-Some p P f [] h = cc
any-Some p P f (x ∷ xs) h = elim (Bool-cases (p x)) [
  | inl k ↦ inl (f x k)
  | inr k ↦ inr (any-Some p P f xs (ground arith))
]

pub some_inj : {A : Type 0} {a b : A} → some a ≡ some b → a ≡ b
some_inj h = cc

pub not_found : {A : Type 0} {a : A} → none ≡ some a → ⊥
not_found h = cc

elem-Member : (x : String) (ys : List String) → elem x ys ≡ true → Member x ys
elem-Member x [] h = cc
elem-Member x (y ∷ ys) h = elim (Bool-cases (str_eq x y)) [
  | inl k ↦ inl ((eq_iff x y).0 k)
  | inr k ↦ inr (elem-Member x ys (ground arith))
]

within-Member :
    (xs ys : List String) → within xs ys ≡ true → (x : String) → Member x xs → Member x ys
within-Member [] ys h x k = absurd k
within-Member (z ∷ xs) ys h x (inl k) =
    elem-Member x ys (ap (λ w. elem w ys) k ∙ (both_true (elem z ys) _ h).0)
within-Member (z ∷ xs) ys h x (inr k) = within-Member xs ys (both_true (elem z ys) _ h).1 x k

-- Equal sets have the same members.
pub same_set-Member :
    (xs ys : List String) → same_set xs ys ≡ true → (x : String) → Member x xs ↔ Member x ys
same_set-Member xs ys h x =
    let b = both_true (within xs ys) _ h in (within-Member xs ys b.0 x, within-Member ys xs b.1 x)
