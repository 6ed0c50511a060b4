-- ===== src/Elf/Names.antt =====
-- The names that `cstring` reads from a string table.
use zaynor.Prelude.{
  ℕ, ok, zero, suc, ◌+◌, ◌-◌, ◌≤◌, ◌<◌, ◌≡◌, refl, sym, ap, ◌∙◌, subst, true, false, Option, none,
  some, List, [], ◌∷◌, leb, ltb, ◌==◌, length, take, drop, slice, get_or, All, All-take, arith,
  Option-cases, inl, inr,
}
use zaynor.Elf.Image.{
  Elf, Issues, Place, Name, absent, named, find_nul, max_name_bytes, ended_name, cstring,
}
use zaynor.Elf.Gives.{Gives, Gives-ok, return-Gives, Gives-if, report-Gives}
use Prim.Native.Nat.{min}

abbrev pub NoNul : List ℕ → Type 0
NoNul bs = All (λ b. (b == 0) ≡ false) bs

-- A name of the table from `start` to `end`: none, the bytes up to the first NUL byte of the table,
-- or the bytes up to the limit, where none of them is NUL.
pub data NameIn (bytes : List ℕ) (start end : ℕ) : Name → Type 0 where
  unread : NameIn bytes start end absent
  ended :
      (n : ℕ) (bs : List ℕ)
      → bs ≡ slice start (start + n) bytes
      → n ≤ max_name_bytes
      → start + n < end
      → NoNul bs
      → get_or bytes (start + n) 1 ≡ 0
      → NameIn bytes start end (named bs false)
  cut :
      (bs : List ℕ)
      → bs ≡ slice start (start + max_name_bytes) bytes
      → start + max_name_bytes < end
      → NoNul bs
      → NameIn bytes start end (named bs true)

find_nul-zero : (b : ℕ) (bs : List ℕ) → find_nul (b ∷ bs) ≡ some 0 → b ≡ 0
unfolding find_nul
find_nul-zero b bs h = elim (Option-cases (find_nul bs)) [
  | inl e ↦ ground arith
  | inr r ↦ ground (arith, r.1)
]

find_nul-suc :
    (b m : ℕ) (bs : List ℕ)
    → find_nul (b ∷ bs) ≡ some (suc m)
    → ((b == 0) ≡ false) × (find_nul bs ≡ some m)
unfolding find_nul
find_nul-suc b m bs h = elim (Option-cases (find_nul bs)) [
  | inl e ↦ ground arith
  | inr r ↦ ground (arith, r.1)
]

find_nul-cons_none :
    (b : ℕ) (bs : List ℕ) → find_nul (b ∷ bs) ≡ none → ((b == 0) ≡ false) × (find_nul bs ≡ none)
unfolding find_nul
find_nul-cons_none b bs h = elim (Option-cases (find_nul bs)) [
  | inl e ↦ ground arith
  | inr r ↦ ground (arith, r.1)
]

-- The first NUL byte, and what stands before it.
empty_none : (n : ℕ) → find_nul [] ≡ some n → ⊥
unfolding find_nul
empty_none n h = ground arith

find_nul-some :
    (bs : List ℕ) (n : ℕ)
    → find_nul bs ≡ some n
    → NoNul (take n bs) × (get_or bs n 1 ≡ 0) × (n < length bs)
find_nul-some [] n h = absurd (empty_none n h)
find_nul-some (b ∷ bs) zero h = (tt, find_nul-zero b bs h, omega arith)
find_nul-some (b ∷ bs) (suc n) h =
    let s = find_nul-suc b n bs h in
    let ih = find_nul-some bs n s.1 in ((s.0, ih.0), ih.1, omega (arith, ih.2))

find_nul-none : (bs : List ℕ) → find_nul bs ≡ none → NoNul bs
find_nul-none [] h = tt
find_nul-none (b ∷ bs) h = let s = find_nul-cons_none b bs h in (s.0, find_nul-none bs s.1)

module _ {A : Type 0} where
  take_of_take : (a b : ℕ) (xs : List A) → a ≤ b → take a (take b xs) ≡ take a xs
  take_of_take zero b xs h = refl
  take_of_take (suc a) zero xs h = absurd (omega arith)
  take_of_take (suc a) (suc b) [] h = refl
  take_of_take (suc a) (suc b) (x ∷ xs) h = ap (λ ys. x ∷ ys) (take_of_take a b xs (omega arith))

  length-take-min :
      (n : ℕ) (xs : List A) → (length (take n xs) ≤ n) × (length (take n xs) ≤ length xs)
  length-take-min zero xs = (omega arith, omega arith)
  length-take-min (suc n) [] = (omega arith, omega arith)
  length-take-min (suc n) (x ∷ xs) =
      let ih = length-take-min n xs in (omega (arith, ih.0), omega (arith, ih.1))

  get_or-take : (n i : ℕ) (xs : List A) (d : A) → i < n → get_or (take n xs) i d ≡ get_or xs i d
  get_or-take zero i xs d h = absurd (omega arith)
  get_or-take (suc n) i [] d h = refl
  get_or-take (suc n) zero (x ∷ xs) d h = refl
  get_or-take (suc n) (suc i) (x ∷ xs) d h = get_or-take n i xs d (omega arith)

  get_or-drop : (n i : ℕ) (xs : List A) (d : A) → get_or (drop n xs) i d ≡ get_or xs (n + i) d
  get_or-drop zero i xs d = let e : 0 + i ≡ i = omega arith in rw e
  get_or-drop (suc n) i [] d = refl
  get_or-drop (suc n) i (x ∷ xs) d =
      let e : suc n + i ≡ suc (n + i) = omega arith in rw e (get_or-drop n i xs d)

module _ (e : Elf) where
  -- The part of the table in which `find` looks.
  abbrev searched : ℕ → ℕ → List ℕ
  searched start end = slice start (min end (start + max_name_bytes + 1)) e.bytes

  found_name :
      (start end n : ℕ)
      → find_nul (searched start end) ≡ some n
      → NameIn e.bytes start end (named (slice start (start + n) e.bytes) false)
  found_name start end n h =
      let f = find_nul-some (searched start end) n h in
      let m = min end (start + max_name_bytes + 1) - start in
      let rest = drop start e.bytes in
      let l = length-take-min m rest in
      let a : start + n - start ≡ n = omega arith in
      let lt : n < m = omega (arith, f.2, l.0) in
      ended n _ refl (omega arith) (omega arith)
        (rw a (subst NoNul (take_of_take n m rest (omega arith)) f.0))
        (sym (get_or-drop start n e.bytes 1) ∙ sym (get_or-take m n rest 1 lt) ∙ f.1)

  cut_name :
      (start end : ℕ)
      → find_nul (searched start end) ≡ none
      → max_name_bytes < end - start
      → NameIn e.bytes start end (named (slice start (start + max_name_bytes) e.bytes) true)
  cut_name start end h k =
      let m = min end (start + max_name_bytes + 1) - start in
      let rest = drop start e.bytes in
      let a : start + max_name_bytes - start ≡ max_name_bytes = omega arith in
      cut _ refl (omega arith) (
        rw a (
          subst NoNul (take_of_take max_name_bytes m rest (omega arith)) (
            All-take _ max_name_bytes (searched start end) (find_nul-none (searched start end) h))))

  ended_name-NameIn :
      (start end : ℕ) (place : Place) (o : Option ℕ)
      → find_nul (searched start end) ≡ o
      → Gives (ended_name e start end place o) (NameIn e.bytes start end)
  unfolding ended_name
  ended_name-NameIn start end place (some n) h = return-Gives _ (found_name start end n h)
  ended_name-NameIn start end place none h =
      Gives-if (ltb max_name_bytes (end - start))
        (λ k. report-Gives _ _ (return-Gives _ (cut_name start end h (ground arith))))
        (λ k. report-Gives _ _ (return-Gives _ unread))

  cstring-Name :
      (offset len index : ℕ) (place : Place)
      → Gives (cstring e offset len index place) (NameIn e.bytes (offset + index) (offset + len))
  unfolding cstring
  cstring-Name offset len index place =
      Gives-if (leb len index) (λ h. report-Gives _ _ (return-Gives _ unread))
        (λ h. ended_name-NameIn (offset + index) (offset + len) place _ refl)

  -- `cstring` gives no name, or what stands in the table from the index on up to the first NUL byte,
  -- or the first 1,024 bytes of it where none of them is NUL; it never reads past the table.
  pub cstring-NameIn :
      (offset len index : ℕ) (place : Place) (log : Issues)
      → (r : Name × Issues) × (cstring e offset len index place log ≡ ok r)
        × NameIn e.bytes (offset + index) (offset + len) r.0
  cstring-NameIn offset len index place log =
      let g = Gives-ok (cstring-Name offset len index place) log in (g.0, g.1, g.2)
