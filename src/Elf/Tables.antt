-- ===== src/Elf/Tables.antt =====
-- The section table and the program headers: what is read, that it is read inside the image, and
-- that no row of a counted loop is missing.
use zaynor.Prelude.{
  ℕ, zero, suc, ◌+◌, ◌*◌, ◌-◌, ◌/◌, ◌≤◌, ◌<◌, String, ◌≡◌, refl, ◌∙◌, false, ◌&&◌, ◌||◌, Option,
  none, some, List, [], ◌∷◌, leb, ltb, ◌==◌, length, get_elem?, drop, slice, All, ◌⊎◌, inl, inr,
  arith, Bool-cases, le→leb, leb→le,
}
use zaynor.Elf.Image.{
  Elf, return, Place, section_at, absent, size, in_bounds, unpack, cstring, ended_name,
  max_name_bytes, find_nul, fields, widths, total,
}
use zaynor.Elf.Sections.{
  Section, Table, max_sections, section_of, has_file_data, section_format, section_entsize,
  section_rows, names_of, names_table, names_at, section_name, finish_section, finish_sections,
  row_count, read_table, no_table, first_row, parse_sections,
}
use zaynor.Elf.Gives.{Gives, return-Gives, Gives-if, >>=-Gives, report-Gives, report_if-Gives}
use Prim.Native.Nat.{min}

module _ (e : Elf) where
  -- The image is long enough for a row at `offset`, whose fields are then read there.
  pub unpack-in_bounds :
      (fmt : String) (offset : ℕ)
      → offset + total (widths fmt) ≤ size e
      → unpack e fmt offset ≡ some (fields e.endian (widths fmt) (drop offset e.bytes))
  unfolding unpack in_bounds
  unpack-in_bounds fmt offset h = rw (le→leb (offset + total (widths fmt)) (size e) h)

  pub unpack-out_of_bounds :
      (fmt : String) (offset : ℕ)
      → leb (offset + total (widths fmt)) (size e) ≡ false
      → unpack e fmt offset ≡ none
  unfolding unpack in_bounds
  unpack-out_of_bounds fmt offset h = rw h

  total-section_format : total (widths (section_format e)) ≡ section_entsize e
  total-section_format = elim (Bool-cases e.is64) [ inl h ↦ rw h | inr h ↦ rw h ]

  -- The fields of row `i`, as the image has them.
  abbrev pub section_raw : ℕ → ℕ → ℕ → List ℕ
  section_raw shoff entsize i =
      fields e.endian (widths (section_format e)) (drop (shoff + i * entsize) e.bytes)

  -- A section without what is found out about it after its row is read.
  abbrev pub as_read : Section → Section
  as_read s = record s {
    name = absent;
    in_file = false;
    measurement = none;
    matches_load_segment = none;
  }

  abbrev pub RowsAt : ℕ → ℕ → ℕ → List Section → Type 0
  RowsAt shoff entsize i [] = Unit {0}
  RowsAt shoff entsize i (s ∷ ss) =
      ((as_read s ≡ section_of i (section_raw shoff entsize i))
        × (shoff + i * entsize + total (widths (section_format e)) ≤ size e))
      × RowsAt shoff entsize (suc i) ss

  row_inside :
      (shoff entsize n i : ℕ)
      → section_entsize e ≤ entsize
      → shoff + (i + suc n) * entsize ≤ size e
      → shoff + i * entsize + total (widths (section_format e)) ≤ size e
  row_inside shoff entsize n i h k =
      let t = total-section_format in
      let d : (i + suc n) * entsize ≡ i * entsize + entsize + n * entsize = grind arith in
      omega arith

  section_rows-Gives :
      (shoff entsize n i : ℕ)
      → section_entsize e ≤ entsize
      → shoff + (i + n) * entsize ≤ size e
      → Gives (section_rows e shoff entsize n i) (λ ss. (length ss ≡ n) × RowsAt shoff entsize i ss)
  unfolding section_rows section_of
  section_rows-Gives shoff entsize zero i h k = return-Gives [] (refl, tt)
  section_rows-Gives shoff entsize (suc n) i h k =
      rw
        (
          unpack-in_bounds (section_format e) (shoff + i * entsize)
              (row_inside shoff entsize n i h k),
          section_rows,
        )
        (>>=-Gives
          (section_rows-Gives shoff entsize n (suc i) h
            (let q : suc i + n ≡ i + suc n = omega arith in rw q k))
          (λ ss r.
            return-Gives _ (omega (arith, r.0), ((refl, row_inside shoff entsize n i h k), r.1))))

  -- What the last loop has made of a section.
  abbrev pub SectionIn : Section → Type 0
  SectionIn s = s.in_file ≡ (has_file_data s && in_bounds e s.offset s.size)

  ended_name-Gives :
      (start end : ℕ) (place : Place) (o : Option ℕ)
      → Gives (ended_name e start end place o) (λ name. Unit {0})
  unfolding ended_name
  ended_name-Gives start end place (some n) = return-Gives _ tt
  ended_name-Gives start end place none =
      Gives-if (ltb max_name_bytes (end - start)) (λ h. report-Gives _ _ (return-Gives _ tt))
        (λ h. report-Gives _ _ (return-Gives _ tt))

  pub cstring-Gives :
      (offset len index : ℕ) (place : Place)
      → Gives (cstring e offset len index place) (λ name. Unit {0})
  unfolding cstring ended_name
  cstring-Gives offset len index place =
      Gives-if (leb len index) (λ h. report-Gives _ _ (return-Gives absent tt))
        (λ h. ended_name-Gives (offset + index) (offset + len) place (
          find_nul (
            slice (offset + index) (min (offset + len) (offset + index + max_name_bytes + 1))
              e.bytes)))

  section_name-Gives :
      (names : Option (ℕ × ℕ)) (s : Section) → Gives (section_name e names s) (λ name. Unit {0})
  unfolding section_name
  section_name-Gives none s = return-Gives absent tt
  section_name-Gives (some t) s = cstring-Gives t.0 t.1 s.name_offset (section_at s.index)

  finish_section-Gives :
      (names : Option (ℕ × ℕ)) (s : Section)
      → Gives (finish_section e names s) (λ t. (as_read t ≡ as_read s) × SectionIn t)
  unfolding finish_section
  finish_section-Gives names s =
      >>=-Gives (section_name-Gives names s)
        λ name u. report_if-Gives _ _ _ (return-Gives _ (refl, refl))

  finish_sections-Gives :
      (names : Option (ℕ × ℕ)) (shoff entsize i : ℕ) (ss : List Section)
      → RowsAt shoff entsize i ss
      → Gives
          (finish_sections e names ss)
          (λ ts. (length ts ≡ length ss) × RowsAt shoff entsize i ts × All SectionIn ts)
  unfolding finish_sections
  finish_sections-Gives names shoff entsize i [] r = return-Gives [] (refl, tt, tt)
  finish_sections-Gives names shoff entsize i (s ∷ ss) r =
      >>=-Gives (finish_section-Gives names s) λ t p.
        >>=-Gives (finish_sections-Gives names shoff entsize (suc i) ss r.1)
          λ ts q. return-Gives _ (omega (arith, q.0), ((p.0 ∙ r.0.0, r.0.1), q.1), (p.1, q.2))

  names_of-Gives : (shstrndx : ℕ) (s : Section) → Gives (names_of e shstrndx s) (λ t. Unit {0})
  unfolding names_of
  names_of-Gives shstrndx s = report_if-Gives _ _ _ (
      Gives-if (in_bounds e s.offset s.size) (λ h. return-Gives _ tt)
        (λ h. report-Gives _ _ (return-Gives _ tt)))

  names_at-Gives :
      (shstrndx : ℕ) (o : Option Section) → Gives (names_at e shstrndx o) (λ t. Unit {0})
  unfolding names_at
  names_at-Gives shstrndx none = report-Gives _ _ (return-Gives none tt)
  names_at-Gives shstrndx (some s) = names_of-Gives shstrndx s

  names_table-Gives :
      (ss : List Section) (shstrndx : ℕ) → Gives (names_table e ss shstrndx) (λ t. Unit {0})
  unfolding names_table
  names_table-Gives ss shstrndx =
      Gives-if ((length ss == 0) || (shstrndx == 0)) (λ h. return-Gives none tt)
        (λ h. names_at-Gives shstrndx (get_elem? ss shstrndx))

  row_count-Gives :
      (shnum available : ℕ)
      → Gives (row_count e shnum available) (λ n. n ≡ min (min shnum available) max_sections)
  unfolding row_count
  row_count-Gives shnum available =
      report_if-Gives _ _ _ (report_if-Gives _ _ _ (return-Gives _ refl))

  -- What is known of the table: its rows are those of the image, in order and inside it, and each
  -- section's `in_file` tells whether it has data that lies inside the image.
  pub record TableIn (shoff entsize : ℕ) (t : Table) : Type 0 where
    pub rows : RowsAt shoff entsize 0 t.sections
    pub placed : All SectionIn t.sections
    pub complete :
        (t.sections ≡ [])
        ⊎ (length t.sections ≡ min (min t.shnum ((size e - shoff) / entsize)) max_sections)

  no_table-Gives :
      (shoff entsize a b c : ℕ) → Gives (return (no_table e a b c)) (TableIn shoff entsize)
  no_table-Gives shoff entsize a b c =
      return-Gives _ (record { rows = tt; placed = tt; complete = inl refl })

  entsize_pos : (entsize : ℕ) → section_entsize e ≤ entsize → 0 < entsize
  entsize_pos entsize h = ground arith

  table_inside :
      (shoff entsize n : ℕ)
      → 0 < entsize
      → shoff ≤ size e
      → n ≤ (size e - shoff) / entsize
      → shoff + (0 + n) * entsize ≤ size e
  table_inside shoff entsize n p h k = grind arith

  read_table-Gives :
      (shoff entsize shnum shstrndx phnum : ℕ) (first : List ℕ)
      → section_entsize e ≤ entsize
      → shoff ≤ size e
      → Gives (read_table e shoff entsize shnum shstrndx phnum first) (TableIn shoff entsize)
  unfolding read_table
  read_table-Gives shoff entsize shnum shstrndx phnum first h k =
      >>=-Gives (row_count-Gives _ ((size e - shoff) / entsize)) λ n c.
        >>=-Gives
          (section_rows-Gives shoff entsize n 0 h
            (table_inside shoff entsize n (entsize_pos entsize h) k (omega arith)))
          λ ss r. >>=-Gives (names_table-Gives ss _) λ names u.
            >>=-Gives (finish_sections-Gives names shoff entsize 0 ss r.1) λ ts q.
              return-Gives _ (record { rows = q.1; placed = q.2; complete = inr (q.0 ∙ r.0 ∙ c) })

  first_row-Gives :
      (shoff entsize shnum shstrndx phnum : ℕ)
      → section_entsize e ≤ entsize
      → Gives (first_row e shoff entsize shnum shstrndx phnum) (TableIn shoff entsize)
  unfolding first_row
  first_row-Gives shoff entsize shnum shstrndx phnum h =
      elim (Bool-cases (leb (shoff + total (widths (section_format e))) (size e))) [
        | inl k ↦
            rw (unpack-in_bounds (section_format e) shoff (leb→le _ _ k), first_row)
              (read_table-Gives shoff entsize shnum shstrndx phnum
                (fields e.endian (widths (section_format e)) (drop shoff e.bytes)) h
                (let q = leb→le _ _ k in omega arith))
        | inr k ↦
            rw (unpack-out_of_bounds (section_format e) shoff k, first_row)
              (report-Gives _ _ (no_table-Gives shoff entsize shnum shstrndx phnum))
      ]

  pub parse_sections-Gives :
      (shoff entsize shnum shstrndx phnum : ℕ)
      → Gives (parse_sections e shoff entsize shnum shstrndx phnum) (TableIn shoff entsize)
  unfolding parse_sections
  parse_sections-Gives shoff entsize shnum shstrndx phnum =
      Gives-if (shoff == 0)
        (λ h. report_if-Gives _ _ _ (no_table-Gives shoff entsize shnum shstrndx phnum))
        (λ h.
          Gives-if (ltb entsize (section_entsize e))
            (λ k. report-Gives _ _ (no_table-Gives shoff entsize shnum shstrndx phnum))
            (λ k.
              report_if-Gives _ _ _
                (first_row-Gives shoff entsize shnum shstrndx phnum (ground arith))))
