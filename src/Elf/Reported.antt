-- ===== src/Elf/Reported.antt =====
-- What `parse_elf` reports of an image is what the layout of its tables asks for.
use zaynor.Prelude.{
  ℕ, suc, ◌+◌, ◌*◌, ◌≤◌, ◌≡◌, ap, ◌∙◌, subst, Bool, true, false, List, [], ◌∷◌, if◌then◌else◌,
  length, get_or, drop, All, arith,
}
use zaynor.Elf.Image.{Endian, fields, widths, total, in_bounds}
use zaynor.Elf.Sections.{Section, section_of, section_format}
use zaynor.Elf.Segments.{Segment, segment_of, segment_format}
use zaynor.Elf.Parse.{Parsed, header_format, image_of}
use zaynor.Elf.Bytes.{fields-words}
use zaynor.Elf.Tables.{RowsAt, SectionIn, as_read}
use zaynor.Elf.Headers.{SegmentRowsAt, SegmentIn, unmeasured}
use zaynor.Elf.Whole.{ReadsImage}
use zaynor.Elf.Fields.{
  encoding, is_64, SectionRow, SegmentRow, SectionHeld, SegmentHeld, SectionTable, SegmentTable,
  phoff, shoff, phentsize, shentsize, ReportsImage,
}

module _ (bytes : List ℕ) where
  section_row :
      (en : Endian) (wide : Bool) (row i : ℕ) (s : Section)
      → row + 0 + total (widths (if wide then "IIQQQQIIQQ" else "IIIIIIIIII")) ≤ length bytes
      → as_read (image_of bytes) s
        ≡ section_of i (
            fields en (widths (if wide then "IIQQQQIIQQ" else "IIIIIIIIII")) (drop (row + 0) bytes))
      → (s.index ≡ i) × SectionRow bytes en wide row s
  unfolding section_of
  section_row en true row i s h k =
      let q = k ∙ ap (section_of i) (fields-words en bytes row 0 (widths "IIQQQQIIQQ") h) in
      (
        ap (λ t. t.index) q,
        record {
          name_offset = ap (λ t. t.name_offset) q;
          kind = ap (λ t. t.kind) q;
          flags = ap (λ t. t.flags) q;
          addr = ap (λ t. t.addr) q;
          offset = ap (λ t. t.offset) q;
          size = ap (λ t. t.size) q;
          link = ap (λ t. t.link) q;
          info = ap (λ t. t.info) q;
          addralign = ap (λ t. t.addralign) q;
          entsize = ap (λ t. t.entsize) q;
        },
      )
  section_row en false row i s h k =
      let q = k ∙ ap (section_of i) (fields-words en bytes row 0 (widths "IIIIIIIIII") h) in
      (
        ap (λ t. t.index) q,
        record {
          name_offset = ap (λ t. t.name_offset) q;
          kind = ap (λ t. t.kind) q;
          flags = ap (λ t. t.flags) q;
          addr = ap (λ t. t.addr) q;
          offset = ap (λ t. t.offset) q;
          size = ap (λ t. t.size) q;
          link = ap (λ t. t.link) q;
          info = ap (λ t. t.info) q;
          addralign = ap (λ t. t.addralign) q;
          entsize = ap (λ t. t.entsize) q;
        },
      )

  segment_row :
      (en : Endian) (wide : Bool) (row i : ℕ) (g : Segment)
      → row + 0 + total (widths (if wide then "IIQQQQQQ" else "IIIIIIII")) ≤ length bytes
      → unmeasured (image_of bytes) g
        ≡ segment_of
            (record { bytes = bytes; endian = en; is64 = wide })
            i
            (fields en (widths (if wide then "IIQQQQQQ" else "IIIIIIII")) (drop (row + 0) bytes))
      → (g.index ≡ i) × SegmentRow bytes en wide row g
  unfolding segment_of
  segment_row en true row i g h k =
      let q =
        k
        ∙ ap (segment_of (record { bytes = bytes; endian = en; is64 = true }) i)
            (fields-words en bytes row 0 (widths "IIQQQQQQ") h) in
      (
        ap (λ t. t.index) q,
        record {
          kind = ap (λ t. t.kind) q;
          flags = ap (λ t. t.flags) q;
          offset = ap (λ t. t.offset) q;
          vaddr = ap (λ t. t.vaddr) q;
          paddr = ap (λ t. t.paddr) q;
          filesz = ap (λ t. t.filesz) q;
          memsz = ap (λ t. t.memsz) q;
          align = ap (λ t. t.align) q;
        },
      )
  segment_row en false row i g h k =
      let q =
        k
        ∙ ap (segment_of (record { bytes = bytes; endian = en; is64 = false }) i)
            (fields-words en bytes row 0 (widths "IIIIIIII") h) in
      (
        ap (λ t. t.index) q,
        record {
          kind = ap (λ t. t.kind) q;
          flags = ap (λ t. t.flags) q;
          offset = ap (λ t. t.offset) q;
          vaddr = ap (λ t. t.vaddr) q;
          paddr = ap (λ t. t.paddr) q;
          filesz = ap (λ t. t.filesz) q;
          memsz = ap (λ t. t.memsz) q;
          align = ap (λ t. t.align) q;
        },
      )

  section_table :
      (table stride i : ℕ) (ss : List Section)
      → RowsAt (image_of bytes) table stride i ss
      → SectionTable bytes table stride i ss
  section_table table stride i [] r = tt
  section_table table stride i (s ∷ ss) r =
      let z : table + i * stride ≡ table + i * stride + 0 = omega arith in
      let row =
        section_row (encoding bytes) (is_64 bytes) (table + i * stride) i s (omega (arith, r.0.1)) (
          r.0.0
          ∙ ap
              (λ n.
                section_of i (
                  fields (encoding bytes) (widths (section_format (image_of bytes)))
                    (drop n bytes)))
              z) in
      (row.0, row.1, section_table table stride (suc i) ss r.1)

  segment_table :
      (table stride i : ℕ) (gs : List Segment)
      → SegmentRowsAt (image_of bytes) table stride i gs
      → SegmentTable bytes table stride i gs
  segment_table table stride i [] r = tt
  segment_table table stride i (g ∷ gs) r =
      let z : table + i * stride ≡ table + i * stride + 0 = omega arith in
      let row =
        segment_row (encoding bytes) (is_64 bytes) (table + i * stride) i g (omega (arith, r.0.1)) (
          r.0.0
          ∙ ap
              (λ n.
                segment_of (image_of bytes) i (
                  fields (encoding bytes) (widths (segment_format (image_of bytes)))
                    (drop n bytes)))
              z) in
      (row.0, row.1, segment_table table stride (suc i) gs r.1)

  sections_placed :
      (ss : List Section) → All (SectionIn (image_of bytes)) ss → All (SectionHeld bytes) ss
  unfolding in_bounds
  sections_placed [] p = tt
  sections_placed (s ∷ ss) p = (
    (
      λ h. (λ k. ground (arith, p.0), λ k. ground (arith, p.0), ground (arith, p.0)),
      λ h. let a = h.0 in let b = h.1 in let c = h.2 in ground (arith, p.0),
    ),
    sections_placed ss p.1,
  )

  segments_placed :
      (gs : List Segment) → All (SegmentIn (image_of bytes)) gs → All (SegmentHeld bytes) gs
  unfolding in_bounds
  segments_placed [] p = tt
  segments_placed (g ∷ gs) p =
      ((λ h. ground (arith, p.0), λ h. ground (arith, p.0)), segments_placed gs p.1)

  -- The header's fields are the numbers that stand there.
  header_words :
      (en : Endian) (wide : Bool) (raw : List ℕ)
      → raw
        ≡ fields en
            (widths (if wide then "HHIQQQIHHHHHH" else "HHIIIIIHHHHHH"))
            (drop (16 + 0) bytes)
      → 16 + 0 + total (widths (if wide then "HHIQQQIHHHHHH" else "HHIIIIIHHHHHH")) ≤ length bytes
      → (get_or raw 4 0 ≡ phoff bytes en wide)
        × (get_or raw 5 0 ≡ shoff bytes en wide)
        × (get_or raw 8 0 ≡ phentsize bytes en wide)
        × (get_or raw 10 0 ≡ shentsize bytes en wide)
  header_words en true raw h k =
      let q = h ∙ fields-words en bytes 16 0 (widths "HHIQQQIHHHHHH") k in
      (
        ap (λ r. get_or r 4 0) q,
        ap (λ r. get_or r 5 0) q,
        ap (λ r. get_or r 8 0) q,
        ap (λ r. get_or r 10 0) q,
      )
  header_words en false raw h k =
      let q = h ∙ fields-words en bytes 16 0 (widths "HHIIIIIHHHHHH") k in
      (
        ap (λ r. get_or r 4 0) q,
        ap (λ r. get_or r 5 0) q,
        ap (λ r. get_or r 8 0) q,
        ap (λ r. get_or r 10 0) q,
      )

  pub ReadsImage-ReportsImage :
      (raw : List ℕ) (p : Parsed)
      → raw ≡ fields (encoding bytes) (widths (header_format (image_of bytes))) (drop 16 bytes)
      → 16 + total (widths (header_format (image_of bytes))) ≤ length bytes
      → ReadsImage (image_of bytes) raw p
      → ReportsImage bytes p
  ReadsImage-ReportsImage raw p h k r =
      let w = header_words (encoding bytes) (is_64 bytes) raw h k in
      record {
        sections = section_table _ _ 0 p.sections (
            subst
              (λ n.
                RowsAt (image_of bytes) n (shentsize bytes (encoding bytes) (is_64 bytes)) 0
                  p.sections)
              w.1
              (subst (λ n. RowsAt (image_of bytes) (get_or raw 5 0) n 0 p.sections) w.3
                r.sections));
        sections_held = sections_placed p.sections r.sections_placed;
        segments = segment_table _ _ 0 p.segments (
            subst
              (λ n.
                SegmentRowsAt (image_of bytes) n (phentsize bytes (encoding bytes) (is_64 bytes)) 0
                  p.segments)
              w.0
              (subst (λ n. SegmentRowsAt (image_of bytes) (get_or raw 4 0) n 0 p.segments) w.2
                r.segments));
        segments_held = segments_placed p.segments r.segments_placed;
      }
