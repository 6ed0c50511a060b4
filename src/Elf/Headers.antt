-- ===== src/Elf/Headers.antt =====
-- The program headers: every segment is read in full, inside the image and within the limit; and an
-- address that a loaded segment holds lies inside the image.
use zaynor.Prelude.{
  ℕ, zero, suc, ◌+◌, ◌*◌, ◌-◌, ◌/◌, ◌≤◌, ◌<◌, ◌≡◌, refl, ◌∙◌, ◌||◌, none, some, List, [], ◌∷◌, leb,
  ltb, ◌==◌, length, drop, All, ◌⊎◌, inl, inr, arith, Bool-cases,
}
use zaynor.Elf.Image.{Elf, return, size, in_bounds, fields, widths, total}
use zaynor.Elf.Segments.{
  Segment, max_segments, segment_format, segment_entsize, segment_of, segment_rows, segment_count,
  read_segments, parse_segments, vaddr_to_offset,
}
use zaynor.Elf.Gives.{
  Gives, return-Gives, Gives-weaken, Gives-if, >>=-Gives, report-Gives, report_if-Gives,
}
use zaynor.Elf.Tables.{unpack-in_bounds}
use Prim.Native.Nat.{min}

module _ (e : Elf) where
  total-segment_format : total (widths (segment_format e)) ≡ segment_entsize e
  total-segment_format = elim (Bool-cases e.is64) [ inl h ↦ rw h | inr h ↦ rw h ]

  abbrev pub segment_raw : ℕ → ℕ → ℕ → List ℕ
  segment_raw phoff entsize i =
      fields e.endian (widths (segment_format e)) (drop (phoff + i * entsize) e.bytes)

  abbrev pub unmeasured : Segment → Segment
  unmeasured g = record g { measurement = none }

  abbrev pub SegmentRowsAt : ℕ → ℕ → ℕ → List Segment → Type 0
  SegmentRowsAt phoff entsize i [] = Unit {0}
  SegmentRowsAt phoff entsize i (g ∷ gs) =
      ((unmeasured g ≡ segment_of e i (segment_raw phoff entsize i))
        × (phoff + i * entsize + total (widths (segment_format e)) ≤ size e))
      × SegmentRowsAt phoff entsize (suc i) gs

  abbrev pub SegmentIn : Segment → Type 0
  SegmentIn g = g.in_file ≡ in_bounds e g.offset g.filesz

  segment_of-SegmentIn : (i : ℕ) (raw : List ℕ) → SegmentIn (segment_of e i raw)
  unfolding segment_of
  segment_of-SegmentIn i raw = elim (Bool-cases e.is64) [ inl h ↦ rw h | inr h ↦ rw h ]

  segment_of-unmeasured :
      (i : ℕ) (raw : List ℕ) → unmeasured (segment_of e i raw) ≡ segment_of e i raw
  unfolding segment_of
  segment_of-unmeasured i raw = elim (Bool-cases e.is64) [ inl h ↦ rw h | inr h ↦ rw h ]

  row_inside :
      (phoff entsize n i : ℕ)
      → segment_entsize e ≤ entsize
      → phoff + (i + suc n) * entsize ≤ size e
      → phoff + i * entsize + total (widths (segment_format e)) ≤ size e
  row_inside phoff entsize n i h k =
      let t = total-segment_format in
      let d : (i + suc n) * entsize ≡ i * entsize + entsize + n * entsize = grind arith in
      omega arith

  segment_rows-Gives :
      (phoff entsize n i : ℕ)
      → segment_entsize e ≤ entsize
      → phoff + (i + n) * entsize ≤ size e
      → Gives
          (segment_rows e phoff entsize n i)
          (λ gs. (length gs ≡ n) × SegmentRowsAt phoff entsize i gs × All SegmentIn gs)
  unfolding segment_rows
  segment_rows-Gives phoff entsize zero i h k = return-Gives [] (refl, tt, tt)
  segment_rows-Gives phoff entsize (suc n) i h k =
      rw
        (
          unpack-in_bounds e (segment_format e) (phoff + i * entsize)
              (row_inside phoff entsize n i h k),
          segment_rows,
        )
        (report_if-Gives _ _ _ (
          >>=-Gives
            (segment_rows-Gives phoff entsize n (suc i) h
              (let q : suc i + n ≡ i + suc n = omega arith in rw q k))
            (λ gs r. return-Gives _ (
              omega (arith, r.0),
              (
                (
                  segment_of-unmeasured i (segment_raw phoff entsize i),
                  row_inside phoff entsize n i h k,
                ),
                r.1,
              ),
              (segment_of-SegmentIn i (segment_raw phoff entsize i), r.2),
            ))))

  segment_count-Gives :
      (phnum available : ℕ)
      → Gives (segment_count e phnum available) (λ n. n ≡ min (min phnum available) max_segments)
  unfolding segment_count
  segment_count-Gives phnum available =
      report_if-Gives _ _ _ (report_if-Gives _ _ _ (return-Gives _ refl))

  pub record SegmentsIn (phoff entsize phnum : ℕ) (gs : List Segment) : Type 0 where
    pub rows : SegmentRowsAt phoff entsize 0 gs
    pub placed : All SegmentIn gs
    pub complete :
        (gs ≡ []) ⊎ (length gs ≡ min (min phnum ((size e - phoff) / entsize)) max_segments)

  no_segments : (phoff entsize phnum : ℕ) → Gives (return []) (SegmentsIn phoff entsize phnum)
  no_segments phoff entsize phnum =
      return-Gives [] (record { rows = tt; placed = tt; complete = inl refl })

  table_inside :
      (phoff entsize n : ℕ)
      → segment_entsize e ≤ entsize
      → phoff ≤ size e
      → n ≤ (size e - phoff) / entsize
      → phoff + (0 + n) * entsize ≤ size e
  table_inside phoff entsize n p h k = let q : 0 < entsize = ground arith in grind arith

  read_segments-Gives :
      (phoff entsize phnum : ℕ)
      → segment_entsize e ≤ entsize
      → Gives (read_segments e phoff entsize phnum) (SegmentsIn phoff entsize phnum)
  unfolding read_segments
  read_segments-Gives phoff entsize phnum h = report_if-Gives _ _ _ (
      Gives-if (leb (size e) phoff) (λ k. report-Gives _ _ (no_segments phoff entsize phnum))
        (λ k. >>=-Gives (segment_count-Gives phnum ((size e - phoff) / entsize)) λ n c.
          Gives-weaken
            (segment_rows-Gives phoff entsize n 0 h
              (table_inside phoff entsize n h (ground arith) (omega arith)))
            (λ gs r. record { rows = r.1; placed = r.2; complete = inr (r.0 ∙ c) })))

  pub parse_segments-Gives :
      (phoff entsize phnum : ℕ)
      → Gives (parse_segments e phoff entsize phnum) (SegmentsIn phoff entsize phnum)
  unfolding parse_segments
  parse_segments-Gives phoff entsize phnum =
      Gives-if (phoff == 0 || phnum == 0)
        (λ h. report_if-Gives _ _ _ (no_segments phoff entsize phnum))
        (λ h.
          Gives-if (ltb entsize (segment_entsize e))
            (λ k. report-Gives _ _ (no_segments phoff entsize phnum))
            (λ k. read_segments-Gives phoff entsize phnum (ground arith)))

  -- Among segments whose `in_file` tells whether the image holds them, the offset that
  -- `_vaddr_to_offset` gives lies inside the image.
  pub vaddr_to_offset-lt-size :
      (gs : List Segment) (vaddr offset : ℕ)
      → All SegmentIn gs
      → vaddr_to_offset gs vaddr ≡ some offset
      → offset < size e
  unfolding vaddr_to_offset in_bounds
  vaddr_to_offset-lt-size [] vaddr offset h k = absurd (ground arith)
  vaddr_to_offset-lt-size (g ∷ gs) vaddr offset h k =
      ground (arith, vaddr_to_offset-lt-size gs vaddr offset h.1)
