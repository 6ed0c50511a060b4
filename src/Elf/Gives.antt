-- ===== src/Elf/Gives.antt =====
-- What a method of the parser gives, whatever issues there were before it, and the cap on the
-- issues: a postcondition with a rule for each way to build a method.
use zaynor.Prelude.{
  ◌+◌, ◌≤◌, String, ◌≡◌, refl, sym, subst, Bool, true, false, [], ◌∷◌, if◌then◌else◌, leb, length,
  length-append, arith, Bool-cases, inl, inr, ◌⊎◌, Outcome, ok, raised,
}
use zaynor.Elf.Image.{
  StructError, struct_error, Issues, Place, nowhere, M, go_on, ◌>>=◌, ◌>>◌, return, raise, issue,
  issue_if, max_issues, unpacked,
}

-- At most `MAX_ISSUES` issues, and one more once the limit has been reported.
abbrev pub Capped : Issues → Type 0
Capped log = length log.listed ≤ max_issues + (if log.overflow then 1 else 0)

-- What a method ends with: a result with its property, or a raise, for which there is a reason.
abbrev pub Ends :
    {A : Type 0} → Type 0 → (A → Type 0) → Issues → Outcome StructError (A × Issues) → Type 0
Ends R P log (ok r) = P r.0 × (Capped log → Capped r.1)
Ends R P log (raised e) = R

pub record GivesOr {A : Type 0} (R : Type 0) (m : M A) (P : A → Type 0) : Type 0 where
  pub result : (log : Issues) → Ends R P log (m log)

-- The method never raises.
abbrev pub Gives : {A : Type 0} → M A → (A → Type 0) → Type 0
Gives m P = GivesOr ⊥ m P

issue-Ends :
    (R : Type 0) (code : String) (place : Place) (log : Issues)
    → Ends R (λ u. Unit {0}) log (issue code place log)
unfolding issue
issue-Ends R code place log =
    let e = length-append log.listed (record { code = code; place = place } ∷ []) in
    let e' =
      length-append log.listed (record { code = "issue_limit_reached"; place = nowhere } ∷ []) in
    elim (Bool-cases (leb max_issues (length log.listed))) [
      | inr below ↦ rw below (tt, λ h. ground arith)
      | inl full ↦ elim (Bool-cases log.overflow) [
        | inl o ↦ rw (full, o) (tt, λ h. ground arith)
        | inr o ↦ rw (full, o) (tt, λ h. ground arith)
      ]
    ]

after :
    (R : Type 0) {B : Type 0} (Q : B → Type 0) (log mid : Issues)
    (o : Outcome StructError (B × Issues))
    → (Capped log → Capped mid)
    → Ends R Q mid o
    → Ends R Q log o
after R Q log mid (ok r) c p = (p.0, λ h. p.1 (c h))
after R Q log mid (raised e) c p = p

Ends-weaken :
    (R : Type 0) {A : Type 0} (P Q : A → Type 0) (log : Issues)
    (o : Outcome StructError (A × Issues))
    → ((a : A) → P a → Q a)
    → Ends R P log o
    → Ends R Q log o
Ends-weaken R P Q log (ok r) f p = (f r.0 p.0, p.1)
Ends-weaken R P Q log (raised e) f p = p

module _ {R : Type 0} where
  module _ {A : Type 0} where
    pub return-Gives : {P : A → Type 0} (a : A) → P a → GivesOr R (return a) P
    unfolding return
    return-Gives a p = record { result = λ log. (p, λ h. h) }

    pub Gives-weaken :
        {m : M A} {P Q : A → Type 0} → GivesOr R m P → ((a : A) → P a → Q a) → GivesOr R m Q
    Gives-weaken {m} {P} {Q} g f = record {
      result = λ log. Ends-weaken R P Q log (m log) f (g.result log);
    }

    pub Gives-if :
        {m k : M A} {P : A → Type 0} (b : Bool)
        → (b ≡ true → GivesOr R m P)
        → (b ≡ false → GivesOr R k P)
        → GivesOr R (if b then m else k) P
    Gives-if true f g = f refl
    Gives-if false f g = g refl

    -- A raise for which there is the reason.
    pub raise-Gives : {P : A → Type 0} (e : StructError) → R → GivesOr R (raise e) P
    unfolding raise
    raise-Gives e r = record { result = λ log. r }

    Ends-go_on :
        {B : Type 0} (f : A → M B) (P : A → Type 0) (Q : B → Type 0) (log : Issues)
        (o : Outcome StructError (A × Issues))
        → Ends R P log o
        → ((a : A) → P a → GivesOr R (f a) Q)
        → Ends R Q log (go_on o f)
    Ends-go_on f P Q log (ok r) p k = after R Q log r.1 (f r.0 r.1) p.1 ((k r.0 p.0).result r.1)
    Ends-go_on f P Q log (raised e) p k = p

    pub >>=-Gives :
        {B : Type 0} {m : M A} {f : A → M B} {P : A → Type 0} {Q : B → Type 0}
        → GivesOr R m P
        → ((a : A) → P a → GivesOr R (f a) Q)
        → GivesOr R (m >>= f) Q
    unfolding ◌>>=◌
    >>=-Gives {m = m} {f} {P} {Q} g k = record {
      result = λ log. Ends-go_on f P Q log (m log) (g.result log) k;
    }

  -- Bytes that `struct` can unpack.
  pub unpacked-Gives :
      {A : Type 0} {P : A → Type 0} {o : Outcome StructError A} {a : A}
      → o ≡ ok a
      → P a
      → GivesOr R (unpacked o) P
  unfolding unpacked
  unpacked-Gives {P = P} {a = a} h p =
      subst (λ o. GivesOr R (unpacked o) P) (sym h) (record { result = λ log. (p, λ k. k) })

  pub issue-Gives : (code : String) (place : Place) → GivesOr R (issue code place) (λ a. Unit {0})
  issue-Gives code place = record { result = issue-Ends R code place }

  pub issue_if-Gives :
      (b : Bool) (code : String) (place : Place) → GivesOr R (issue_if b code place) (λ a. Unit {0})
  unfolding issue_if
  issue_if-Gives true code place = issue-Gives code place
  issue_if-Gives false code place = return-Gives tt tt

  pub >>-Gives :
      {B : Type 0} {m : M (Unit {0})} {k : M B} {Q : B → Type 0}
      → GivesOr R m (λ a. Unit {0})
      → GivesOr R k Q
      → GivesOr R (m >> k) Q
  unfolding ◌>>◌
  >>-Gives {m = m} {k} {Q} g h = record {
    result = λ log. Ends-go_on (λ u. k) (λ a. Unit {0}) Q log (m log) (g.result log) (λ u p. h);
  }

  -- The two ways in which the code reports an issue and goes on.
  pub report-Gives :
      {B : Type 0} {k : M B} {Q : B → Type 0} (code : String) (place : Place)
      → GivesOr R k Q
      → GivesOr R (issue code place >> k) Q
  report-Gives code place g = >>-Gives (issue-Gives code place) g

  pub report_if-Gives :
      {B : Type 0} {k : M B} {Q : B → Type 0} (b : Bool) (code : String) (place : Place)
      → GivesOr R k Q
      → GivesOr R (issue_if b code place >> k) Q
  report_if-Gives b code place g = >>-Gives (issue_if-Gives b code place) g

ended :
    {A : Type 0} (P : A → Type 0) (log : Issues) (o : Outcome StructError (A × Issues))
    {out : Outcome StructError (A × Issues)}
    → Ends ⊥ P log o
    → out ≡ o
    → (r : A × Issues) × (out ≡ ok r) × P r.0 × (Capped log → Capped r.1)
ended P log (ok r) p h = (r, h, p.0, p.1)
ended P log (raised e) p h = absurd p

-- A method that never raises, on the issues so far.
pub Gives-ok :
    {A : Type 0} {m : M A} {P : A → Type 0}
    → Gives m P
    → (log : Issues) → (r : A × Issues) × (m log ≡ ok r) × P r.0 × (Capped log → Capped r.1)
Gives-ok {m = m} {P} g log = ended P log (m log) (g.result log) refl

ends :
    {A R : Type 0} (P : A → Type 0) (log : Issues) (o : Outcome StructError (A × Issues))
    {out : Outcome StructError (A × Issues)}
    → Ends R P log o
    → out ≡ o
    → ((r : A × Issues) × (out ≡ ok r) × P r.0) ⊎ ((out ≡ raised struct_error) × R)
ends P log (ok r) p h = inl (r, h, p.0)
ends P log (raised struct_error) p h = inr (h, p)

-- A method returns, or it raises and there is the reason.
pub Gives-cases :
    {A R : Type 0} {m : M A} {P : A → Type 0}
    → GivesOr R m P
    → (log : Issues)
    → ((r : A × Issues) × (m log ≡ ok r) × P r.0) ⊎ ((m log ≡ raised struct_error) × R)
Gives-cases {m = m} {P} g log = ends P log (m log) (g.result log) refl
