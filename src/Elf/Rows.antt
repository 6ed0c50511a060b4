-- ===== src/Elf/Rows.antt =====
-- The two ways in which `_symbol_tables` reads its rows.
use zaynor.Prelude.{
  ℕ, zero, suc, ◌+◌, ◌*◌, ◌-◌, ◌/◌, ◌%◌, ◌≤◌, true, subst, ok, length, length-take, length-drop,
  ◌≡◌, refl, sym, ap, ap₂, ◌∙◌, List, [], ◌∷◌, ◌==◌, ==_iff, take, drop, slice, arith, Bool-cases,
  inl, inr,
}
use zaynor.Elf.Image.{Endian, Elf, size, uint, fields, widths, total}
use zaynor.Elf.SymbolRows.{
  symbol_format, symbol_entsize, chunks, row_before, iter_unpack, strided_rows, symbol_rows,
}
use zaynor.Elf.Tables.{unpack-in_bounds}

module _ {A : Type 0} where
  take-take : (a b : ℕ) (xs : List A) → take a (take (a + b) xs) ≡ take a xs
  take-take zero b xs = refl
  take-take (suc a) b [] = let e : suc a + b ≡ suc (a + b) = omega arith in rw e
  take-take (suc a) b (x ∷ xs) =
      let e : suc a + b ≡ suc (a + b) = omega arith in rw e (ap (λ ys. x ∷ ys) (take-take a b xs))

  drop-take : (a b : ℕ) (xs : List A) → drop a (take (a + b) xs) ≡ take b (drop a xs)
  drop-take zero b xs = let e : 0 + b ≡ b = omega arith in rw e
  drop-take (suc a) zero [] = let e : suc a + 0 ≡ suc a = omega arith in rw e
  drop-take (suc a) (suc b) [] = let e : suc a + suc b ≡ suc (suc (a + b)) = omega arith in rw e
  drop-take (suc a) b (x ∷ xs) =
      let e : suc a + b ≡ suc (a + b) = omega arith in rw e (drop-take a b xs)

  pub drop-drop : (a b : ℕ) (xs : List A) → drop a (drop b xs) ≡ drop (b + a) xs
  drop-drop a zero xs = let e : 0 + a ≡ a = omega arith in rw e
  drop-drop zero (suc b) [] = let e : suc b + 0 ≡ suc b = omega arith in rw e
  drop-drop (suc a) (suc b) [] = let e : suc b + suc a ≡ suc (b + suc a) = omega arith in rw e
  drop-drop a (suc b) (x ∷ xs) =
      let e : suc b + a ≡ suc (b + a) = omega arith in rw e (drop-drop a b xs)

module _ {A : Type 0} where
  pub length-slice :
      (start n : ℕ) (xs : List A) → start + n ≤ length xs → length (slice start (start + n) xs) ≡ n
  length-slice start n xs h =
      let a : start + n - start ≡ n = omega arith in
      let d = length-drop start xs in rw a (length-take n (drop start xs) (omega arith))

-- A row is read from its own bytes alone.
fields-take : (en : Endian) (ws bs : List ℕ) → fields en ws (take (total ws) bs) ≡ fields en ws bs
unfolding fields
fields-take en [] bs = refl
fields-take en (w ∷ ws) bs =
    ap₂ ◌∷◌ (ap (uint en) (take-take w (total ws) bs))
      (ap (fields en ws) (drop-take w (total ws) bs) ∙ fields-take en ws (drop w bs))

module _ (e : Elf) where
  total-symbol_format : total (widths (symbol_format e)) ≡ symbol_entsize e
  total-symbol_format = elim (Bool-cases e.is64) [ inl h ↦ rw h | inr h ↦ rw h ]

  fields-symbol :
      (bs : List ℕ)
      → fields e.endian (widths (symbol_format e)) (take (symbol_entsize e) bs)
        ≡ fields e.endian (widths (symbol_format e)) bs
  fields-symbol bs =
      ap (λ n. fields e.endian (widths (symbol_format e)) (take n bs)) (sym total-symbol_format)
      ∙ fields-take e.endian (widths (symbol_format e)) bs

  -- The rows at their own offsets in the image, from row `i` on.
  abbrev pub rows_at : ℕ → ℕ → ℕ → ℕ → List (List ℕ)
  rows_at base stride zero i = []
  rows_at base stride (suc n) i =
      fields e.endian (widths (symbol_format e)) (drop (base + i * stride) e.bytes)
      ∷ rows_at base stride n (suc i)

  chunks-rows_at :
      (base n i : ℕ)
      → chunks e n (take (n * symbol_entsize e) (drop (base + i * symbol_entsize e) e.bytes))
        ≡ rows_at base (symbol_entsize e) n i
  unfolding chunks
  chunks-rows_at base zero i = refl
  chunks-rows_at base (suc n) i =
      let w = symbol_entsize e in
      let bs = drop (base + i * w) e.bytes in
      let d : suc n * w ≡ w + n * w = grind arith in
      let p : base + i * w + w ≡ base + suc i * w = grind arith in
      rw d (
        ap₂ ◌∷◌
          (ap (fields e.endian (widths (symbol_format e))) (take-take w (n * w) bs)
            ∙ fields-symbol bs)
          (ap (chunks e n) (drop-take w (n * w) bs)
            ∙ ap (λ ys. chunks e n (take (n * w) ys)) (drop-drop w (base + i * w) e.bytes)
            ∙ ap (λ q. chunks e n (take (n * w) (drop q e.bytes))) p
            ∙ chunks-rows_at base n (suc i)))

  chunks-slice :
      (base n : ℕ)
      → chunks e n (slice base (base + n * symbol_entsize e) e.bytes)
        ≡ rows_at base (symbol_entsize e) n 0
  chunks-slice base n =
      let w = symbol_entsize e in
      let a : base + n * w - base ≡ n * w = omega arith in
      let b : base ≡ base + 0 * w = omega arith in
      ap (λ m. chunks e n (take m (drop base e.bytes))) a
      ∙ ap (λ m. chunks e n (take (n * w) (drop m e.bytes))) b
      ∙ chunks-rows_at base n 0

  whole_rows : (n : ℕ) → (n * symbol_entsize e % symbol_entsize e == 0) ≡ true
  whole_rows n = elim (Bool-cases e.is64) [
    | inl h ↦ rw h (ground arith)
    | inr h ↦ rw h (ground arith)
  ]

  number_of_rows : (n : ℕ) → n * symbol_entsize e / symbol_entsize e ≡ n
  number_of_rows n = elim (Bool-cases e.is64) [
    | inl h ↦ rw h (omega arith)
    | inr h ↦ rw h (omega arith)
  ]

  iter_unpack-rows_at :
      (base n : ℕ)
      → base + n * symbol_entsize e ≤ size e
      → iter_unpack e (slice base (base + n * symbol_entsize e) e.bytes)
        ≡ ok (rows_at base (symbol_entsize e) n 0)
  unfolding iter_unpack
  iter_unpack-rows_at base n h =
      rw
        (
          length-slice base (n * symbol_entsize e) e.bytes h,
          whole_rows n,
          number_of_rows n,
          iter_unpack,
        )
        (ap ok (chunks-slice base n))

  row_inside :
      (base stride n i : ℕ)
      → symbol_entsize e ≤ stride
      → base + (i + suc n) * stride ≤ size e
      → base + i * stride + total (widths (symbol_format e)) ≤ size e
  row_inside base stride n i h k =
      let t = total-symbol_format in
      let d : (i + suc n) * stride ≡ i * stride + stride + n * stride = grind arith in omega arith

  strided_rows-rows_at :
      (base stride n i : ℕ)
      → symbol_entsize e ≤ stride
      → base + (i + n) * stride ≤ size e
      → strided_rows e base stride n i ≡ ok (rows_at base stride n i)
  unfolding strided_rows row_before
  strided_rows-rows_at base stride zero i h k = refl
  strided_rows-rows_at base stride (suc n) i h k =
      let q : suc i + n ≡ i + suc n = omega arith in
      rw (
        unpack-in_bounds e (symbol_format e) (base + i * stride) (row_inside base stride n i h k),
        strided_rows-rows_at base stride n (suc i) h (rw q k),
        strided_rows,
      )

  -- The rows of a table that the image holds are read without an exception, and whichever path the
  -- stride selects, they are those that are read one by one at their own offsets in the image.
  pub symbol_rows-eq-strided_rows :
      (base stride scanned : ℕ)
      → symbol_entsize e ≤ stride
      → base + scanned * stride ≤ size e
      → (symbol_rows e base stride scanned ≡ ok (rows_at base stride scanned 0))
        × (strided_rows e base stride scanned 0 ≡ ok (rows_at base stride scanned 0))
  unfolding symbol_rows
  symbol_rows-eq-strided_rows base stride scanned h k =
      let z : 0 + scanned ≡ scanned = omega arith in
      let one_by_one = strided_rows-rows_at base stride scanned 0 h (rw z k) in
      elim (Bool-cases (stride == symbol_entsize e)) [
        | inr l ↦ (rw (l, symbol_rows) one_by_one, one_by_one)
        | inl l ↦
            let q = (==_iff stride (symbol_entsize e)).0 l in
            (
              rw (l, symbol_rows)
                  (ap (λ t. iter_unpack e (slice base (base + scanned * t) e.bytes)) q
                    ∙ iter_unpack-rows_at base scanned
                        (subst (λ t. base + scanned * t ≤ size e) q k)
                    ∙ ap (λ t. ok (rows_at base t scanned 0)) (sym q)),
              one_by_one,
            )
      ]
