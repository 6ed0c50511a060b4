-- ===== src/InvestigationLog/Summary.antt =====
-- A summary list against the details that the journal holds: each item is the last recorded state
-- of its id, no id stands twice, and no number above the counter has been given out.
use zaynor.Prelude.{
  ℕ, suc, ◌<◌, String, ◌≡◌, ◌≢◌, refl, sym, ap, ◌∙◌, Bool, false, ◌||◌, leb, length, Option, none,
  some, List, [], ◌∷◌, ◌++◌, inl, inr, All, All-append, elem, if◌then◌else◌, str_eq, eq_iff, arith,
  map, Bool-cases,
}
use zaynor.InvestigationLog.Defs.{Detail, among, cap, without}
use zaynor.InvestigationLog.Operations.{find_item, replace_item}
use zaynor.InvestigationLog.Verify.{latest, detail_id}

abbrev pub or_else {ℓ} : {A : Type ℓ} → Option A → Option A → Option A
or_else (some x) y = some x
or_else none y = y

pub latest-append :
    (i : String) (xs ys : List Detail) → latest i (xs ++ ys) ≡ or_else (latest i ys) (latest i xs)
unfolding latest
latest-append i [] ys = ground arith
latest-append i (x ∷ xs) ys = ground (arith, latest-append i xs ys)

pub latest-one :
    (i : String) (d : Detail)
    → latest i (d ∷ []) ≡ (if str_eq (detail_id d) i then some d else none)
unfolding latest detail_id
latest-one i d = refl

abbrev pub Below : Option ℕ → ℕ → Type 0
Below none n = Unit
Below (some m) n = m < n

elem-append :
    (i : String) (xs : List String) (x : String) → elem i (xs ++ x ∷ []) ≡ (elem i xs || str_eq i x)
elem-append i [] x = ground arith
elem-append i (y ∷ xs) x = ground (arith, elem-append i xs x)

module _ {A : Type 0} (id_of : A → String) (as_detail : A → Detail) (mk : ℕ → String) where
  abbrev pub Distinct : List A → Type 0
  Distinct [] = Unit
  Distinct (x ∷ xs) = (elem (id_of x) (map id_of xs) ≡ false) × Distinct xs

  abbrev pub Backed : List Detail → List A → Type 0
  Backed ds xs = All (λ x. latest (id_of x) ds ≡ some (as_detail x)) xs

  pub record Summary (counter : Option ℕ) (ds : List Detail) (xs : List A) : Type 0 where
    pub backed : Backed ds xs
    pub distinct : Distinct xs
    pub fresh : (n : ℕ) → Below counter n → latest (mk n) ds ≡ none

  elem-without :
      (i : String) (drop : List ℕ) (k : ℕ) (xs : List A)
      → elem i (map id_of xs) ≡ false
      → elem i (map id_of (without drop k xs)) ≡ false
  unfolding without
  elem-without i drop k [] h = refl
  elem-without i drop k (x ∷ xs) h = ground (arith, elem-without i drop (suc k) xs)

  Distinct-without :
      (drop : List ℕ) (k : ℕ) (xs : List A) → Distinct xs → Distinct (without drop k xs)
  unfolding without
  Distinct-without drop k [] h = tt
  Distinct-without drop k (x ∷ xs) h = elim (Bool-cases (among k drop)) [
    | inl b ↦ rw b (Distinct-without drop (suc k) xs h.1)
    | inr b ↦
        rw b (elem-without (id_of x) drop (suc k) xs h.0, Distinct-without drop (suc k) xs h.1)
  ]

  All-without :
      (P : A → Type 0) (drop : List ℕ) (k : ℕ) (xs : List A) → All P xs → All P (without drop k xs)
  unfolding without
  All-without P drop k [] h = tt
  All-without P drop k (x ∷ xs) h = elim (Bool-cases (among k drop)) [
    | inl b ↦ rw b (All-without P drop (suc k) xs h.1)
    | inr b ↦ rw b (h.0, All-without P drop (suc k) xs h.1)
  ]

  -- Dropping items keeps the summary.
  pub Summary-cap :
      (settled : A → Bool) (limit : ℕ) (counter : Option ℕ) (ds : List Detail) (xs : List A)
      → Summary counter ds xs
      → Summary counter ds (cap settled limit xs)
  unfolding cap
  Summary-cap settled limit counter ds xs s = elim (Bool-cases (leb (length xs) limit)) [
    | inl b ↦ rw b s
    | inr b ↦ rw b (record {
      backed = All-without (λ x. latest (id_of x) ds ≡ some (as_detail x)) _ 0 xs s.backed;
      distinct = Distinct-without _ 0 xs s.distinct;
      fresh = s.fresh;
    })
  ]

  map_one : (xs : List A) (x : A) → map id_of (xs ++ x ∷ []) ≡ map id_of xs ++ id_of x ∷ []
  map_one [] x = refl
  map_one (y ∷ xs) x = rw (map_one xs x)

  Distinct-append :
      (xs : List A) (x : A)
      → Distinct xs
      → elem (id_of x) (map id_of xs) ≡ false
      → Distinct (xs ++ x ∷ [])
  Distinct-append [] x d h = (refl, tt)
  Distinct-append (y ∷ xs) x d h = (
    ground (
      arith,
      elem-append (id_of y) (map id_of xs) (id_of x),
      eq_iff (id_of y) (id_of x),
      eq_iff (id_of x) (id_of y),
      map_one xs x,
      d.0,
    ),
    Distinct-append xs x d.1 (ground arith),
  )

  -- An id whose last detail is missing is none of the items'.
  not-Backed :
      (i : String) (ds : List Detail) (xs : List A)
      → Backed ds xs
      → latest i ds ≡ none
      → elem i (map id_of xs) ≡ false
  not-Backed i ds [] b h = refl
  not-Backed i ds (x ∷ xs) b h = elim (Bool-cases (str_eq i (id_of x))) [
    | inl p ↦ cc (b.0, ap (λ k. latest k ds) ((eq_iff i (id_of x)).0 p), h)
    | inr p ↦ rw p (not-Backed i ds xs b.1 h)
  ]

  -- A detail with an id of its own leaves the last details of other ids.
  All-other :
      (ds ds' : List Detail) (xs : List A) (i : String)
      → ((k : String) → k ≢ i → latest k ds' ≡ latest k ds)
      → elem i (map id_of xs) ≡ false
      → Backed ds xs
      → Backed ds' xs
  All-other ds ds' [] i same h b = tt
  All-other ds ds' (x ∷ xs) i same h b =
      let apart : id_of x ≢ i = λ p. ground (arith, h, eq_iff i (id_of x), p) in
      (same (id_of x) apart ∙ b.0, All-other ds ds' xs i same (ground arith) b.1)

  -- A new item with a new id.
  pub Summary-append :
      (counter : Option ℕ) (ds ds' : List Detail) (xs : List A) (n : ℕ) (x : A)
      → Summary counter ds xs
      → Below counter n
      → ((k : ℕ) → n < k → Below counter k)
      → ((k : ℕ) → mk n ≡ mk k → n ≡ k)
      → id_of x ≡ mk n
      → latest (mk n) ds' ≡ some (as_detail x)
      → ((k : String) → k ≢ mk n → latest k ds' ≡ latest k ds)
      → Summary (some n) ds' (xs ++ x ∷ [])
  Summary-append counter ds ds' xs n x s b up inj e own same =
      let new = not-Backed (mk n) ds xs s.backed (s.fresh n b) in
      record {
        backed =
            All-append (λ y. latest (id_of y) ds' ≡ some (as_detail y)) xs (x ∷ [])
              (All-other ds ds' xs (mk n) same new s.backed) (rw e own, tt);
        distinct = Distinct-append xs x s.distinct (rw e new);
        fresh = λ k h. same (mk k) (λ p. ground (arith, inj k (sym p))) ∙ s.fresh k (up k h);
      }

  replaced_ids :
      (i : String) (x' : A) (xs : List A)
      → id_of x' ≡ i
      → map id_of (replace_item id_of i x' xs) ≡ map id_of xs
  unfolding replace_item
  replaced_ids i x' [] e = refl
  replaced_ids i x' (x ∷ xs) e = ground (arith, eq_iff (id_of x) i, replaced_ids i x' xs e)

  Distinct-ids : (xs ys : List A) → map id_of xs ≡ map id_of ys → Distinct ys → Distinct xs
  Distinct-ids [] ys h d = tt
  Distinct-ids (x ∷ xs) [] h d = cc
  Distinct-ids (x ∷ xs) (y ∷ ys) h d = (
    let a : id_of x ≡ id_of y = cc in let b : map id_of xs ≡ map id_of ys = cc in rw (a, b) d.0,
    Distinct-ids xs ys (ground arith) d.1,
  )

  Backed-replace :
      (ds ds' : List Detail) (i : String) (x' : A) (xs : List A)
      → Distinct xs
      → id_of x' ≡ i
      → latest i ds' ≡ some (as_detail x')
      → ((k : String) → k ≢ i → latest k ds' ≡ latest k ds)
      → Backed ds xs
      → Backed ds' (replace_item id_of i x' xs)
  unfolding replace_item
  Backed-replace ds ds' i x' [] d e own same b = tt
  Backed-replace ds ds' i x' (x ∷ xs) d e own same b = elim (Bool-cases (str_eq (id_of x) i)) [
    | inl p ↦
        let q = (eq_iff (id_of x) i).0 p in
        rw p (rw e own, All-other ds ds' xs i same (rw (← q) d.0) b.1)
    | inr p ↦ rw p (
      same (id_of x) (λ q. ground (arith, p, eq_iff (id_of x) i, q)) ∙ b.0,
      Backed-replace ds ds' i x' xs d.1 e own same b.1,
    )
  ]

  pub found-Backed :
      (ds : List Detail) (i : String) (x : A) (xs : List A)
      → find_item id_of i xs ≡ some x
      → Backed ds xs
      → (id_of x ≡ i) × (latest i ds ≡ some (as_detail x))
  unfolding find_item
  found-Backed ds i x [] h b = cc
  found-Backed ds i x (y ∷ xs) h b = elim (Bool-cases (str_eq (id_of y) i)) [
    | inl p ↦
        let q : y ≡ x = ground arith in
        (
          ap id_of (sym q) ∙ (eq_iff (id_of y) i).0 p,
          ap (λ k. latest k ds) (sym ((eq_iff (id_of y) i).0 p))
              ∙ b.0
              ∙ ap (λ z. some (as_detail z)) q,
        )
    | inr p ↦ found-Backed ds i x xs (rw p at h) b.1
  ]

  -- A new state for an item that is there.
  pub Summary-replace :
      (counter : Option ℕ) (ds ds' : List Detail) (xs : List A) (i : String) (x x' : A)
      → Summary counter ds xs
      → find_item id_of i xs ≡ some x
      → id_of x' ≡ i
      → latest i ds' ≡ some (as_detail x')
      → ((k : String) → k ≢ i → latest k ds' ≡ latest k ds)
      → Summary counter ds' (replace_item id_of i x' xs)
  Summary-replace counter ds ds' xs i x x' s f e own same =
      let there = (found-Backed ds i x xs f s.backed).1 in
      record {
        backed = Backed-replace ds ds' i x' xs s.distinct e own same s.backed;
        distinct = Distinct-ids _ xs (replaced_ids i x' xs e) s.distinct;
        fresh = λ n h.
            same (mk n) (λ p. cc (s.fresh n h, there, ap (λ k. latest k ds) p)) ∙ s.fresh n h;
      }
