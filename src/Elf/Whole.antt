-- ===== src/Elf/Whole.antt =====
-- The parser as a whole: what `parse_elf` accepts, and what holds of everything that it returns.
use zaynor.Prelude.{
  ℕ, suc, ◌+◌, ◌*◌, ◌≤◌, String, ◌≡◌, refl, sym, ap, ◌∙◌, subst, true, List, [], ◌∷◌, length,
  get_or, map, All, arith, inl, inr, length-map,
}
use zaynor.Elf.Image.{Elf, size, in_bounds}
use zaynor.Elf.Sections.{Section, Table, max_sections}
use zaynor.Elf.Segments.{Segment, max_segments}
use zaynor.Elf.Layout.{loads_of}
use zaynor.Elf.Versions.{max_version_needs}
use zaynor.Elf.Notes.{max_notes}
use zaynor.Elf.Texts.{max_modinfo_records, max_comment_strings}
use zaynor.Elf.Parse.{Parsed, parse_body}
use zaynor.Elf.Gives.{Gives, return-Gives, >>=-Gives, report_if-Gives}
use zaynor.Elf.Tables.{RowsAt, SectionIn, TableIn, parse_sections-Gives}
use zaynor.Elf.Headers.{SegmentRowsAt, SegmentIn, SegmentsIn, unmeasured, parse_segments-Gives}
use zaynor.Elf.Measured.{
  measure-Gives, section_bytes, segment_bytes, sections_held, segments_held, is_some, erase,
}
use zaynor.Elf.Mapping.{with_match, layout_checks-Gives, interpreter-Gives}
use zaynor.Elf.Listings.{
  FewDynamic, length_of, parse_dynamic-Gives, version_needs-Gives, modinfo-Gives, comment-Gives,
}
use zaynor.Elf.Counting.{SymbolLimits, symbol_tables-Gives}
use zaynor.Elf.Walking.{parse_notes-Gives}
use Prim.Native.Nat.{max}

module _ (e : Elf) where
  -- What is found out later about a row does not change what was read.

  RowsAt-erase :
      (shoff entsize i : ℕ) (ss : List Section)
      → RowsAt e shoff entsize i (map erase ss)
      → RowsAt e shoff entsize i ss
  RowsAt-erase shoff entsize i [] r = tt
  RowsAt-erase shoff entsize i (s ∷ ss) r = (r.0, RowsAt-erase shoff entsize (suc i) ss r.1)

  erase-RowsAt :
      (shoff entsize i : ℕ) (ss : List Section)
      → RowsAt e shoff entsize i ss
      → RowsAt e shoff entsize i (map erase ss)
  erase-RowsAt shoff entsize i [] r = tt
  erase-RowsAt shoff entsize i (s ∷ ss) r = (r.0, erase-RowsAt shoff entsize (suc i) ss r.1)

  SectionIn-erase : (ss : List Section) → All (SectionIn e) (map erase ss) → All (SectionIn e) ss
  SectionIn-erase [] r = tt
  SectionIn-erase (s ∷ ss) r = (r.0, SectionIn-erase ss r.1)

  erase-SectionIn : (ss : List Section) → All (SectionIn e) ss → All (SectionIn e) (map erase ss)
  erase-SectionIn [] r = tt
  erase-SectionIn (s ∷ ss) r = (r.0, erase-SectionIn ss r.1)

  SegmentRowsAt-unmeasured :
      (phoff entsize i : ℕ) (gs : List Segment)
      → SegmentRowsAt e phoff entsize i (map (unmeasured e) gs)
      → SegmentRowsAt e phoff entsize i gs
  SegmentRowsAt-unmeasured phoff entsize i [] r = tt
  SegmentRowsAt-unmeasured phoff entsize i (g ∷ gs) r =
      (r.0, SegmentRowsAt-unmeasured phoff entsize (suc i) gs r.1)

  unmeasured-SegmentRowsAt :
      (phoff entsize i : ℕ) (gs : List Segment)
      → SegmentRowsAt e phoff entsize i gs
      → SegmentRowsAt e phoff entsize i (map (unmeasured e) gs)
  unmeasured-SegmentRowsAt phoff entsize i [] r = tt
  unmeasured-SegmentRowsAt phoff entsize i (g ∷ gs) r =
      (r.0, unmeasured-SegmentRowsAt phoff entsize (suc i) gs r.1)

  SegmentIn-unmeasured :
      (gs : List Segment) → All (SegmentIn e) (map (unmeasured e) gs) → All (SegmentIn e) gs
  SegmentIn-unmeasured [] r = tt
  SegmentIn-unmeasured (g ∷ gs) r = (r.0, SegmentIn-unmeasured gs r.1)

  unmeasured-SegmentIn :
      (gs : List Segment) → All (SegmentIn e) gs → All (SegmentIn e) (map (unmeasured e) gs)
  unmeasured-SegmentIn [] r = tt
  unmeasured-SegmentIn (g ∷ gs) r = (r.0, unmeasured-SegmentIn gs r.1)

  erase-with_match :
      (loads : List Segment) (ss : List Section)
      → map erase (map (with_match loads) ss) ≡ map erase ss
  erase-with_match loads [] = refl
  erase-with_match loads (s ∷ ss) = ap (λ ts. erase s ∷ ts) (erase-with_match loads ss)

  section_bytes-with_match :
      (loads : List Segment) (ss : List Section)
      → section_bytes (map (with_match loads) ss) ≡ section_bytes ss
  section_bytes-with_match loads [] = refl
  section_bytes-with_match loads (s ∷ ss) = omega (arith, section_bytes-with_match loads ss)

  sections_held-with_match :
      (loads : List Segment) (ss : List Section)
      → sections_held (map (with_match loads) ss) ≡ sections_held ss
  sections_held-with_match loads [] = refl
  sections_held-with_match loads (s ∷ ss) = rw (sections_held-with_match loads ss)

  module _ (ss ts : List Section) (same : map erase ts ≡ map erase ss) where
    RowsAt-same : (shoff entsize : ℕ) → RowsAt e shoff entsize 0 ss → RowsAt e shoff entsize 0 ts
    RowsAt-same shoff entsize r =
        RowsAt-erase shoff entsize 0 ts
          (subst (RowsAt e shoff entsize 0) (sym same) (erase-RowsAt shoff entsize 0 ss r))

    SectionIn-same : All (SectionIn e) ss → All (SectionIn e) ts
    SectionIn-same r =
        SectionIn-erase ts (subst (λ us. All (SectionIn e) us) (sym same) (erase-SectionIn ss r))

    length-same : length ts ≡ length ss
    length-same = sym (length-map erase ts) ∙ ap length same ∙ length-map erase ss

  module _ (gs hs : List Segment) (same : map (unmeasured e) hs ≡ map (unmeasured e) gs) where
    SegmentRowsAt-same :
        (phoff entsize : ℕ)
        → SegmentRowsAt e phoff entsize 0 gs
        → SegmentRowsAt e phoff entsize 0 hs
    SegmentRowsAt-same phoff entsize r = SegmentRowsAt-unmeasured phoff entsize 0 hs (
        subst (SegmentRowsAt e phoff entsize 0) (sym same)
          (unmeasured-SegmentRowsAt phoff entsize 0 gs r))

    SegmentIn-same : All (SegmentIn e) gs → All (SegmentIn e) hs
    SegmentIn-same r =
        SegmentIn-unmeasured hs
          (subst (λ us. All (SegmentIn e) us) (sym same) (unmeasured-SegmentIn gs r))

    length-same_segments : length hs ≡ length gs
    length-same_segments =
        sym (length-map (unmeasured e) hs) ∙ ap length same ∙ length-map (unmeasured e) gs

  few_sections :
      (shoff entsize : ℕ) (t : Table) → TableIn e shoff entsize t → length t.sections ≤ max_sections
  few_sections shoff entsize t h = elim h.complete [
    | inl q ↦ rw q (omega arith)
    | inr q ↦ omega (arith, q)
  ]

  few_segments :
      (phoff entsize phnum : ℕ) (gs : List Segment)
      → SegmentsIn e phoff entsize phnum gs
      → length gs ≤ max_segments
  few_segments phoff entsize phnum gs h = elim h.complete [
    | inl q ↦ rw q (omega arith)
    | inr q ↦ omega (arith, q)
  ]

  -- Every row that is reported is the row that the image has at its place in the table, and each
  -- section and segment tells whether the image holds its bytes.
  pub record ReadsImage (raw : List ℕ) (p : Parsed) : Type 0 where
    pub image : p.elf ≡ e
    pub header : p.header_fields ≡ raw
    pub sections : RowsAt e (get_or raw 5 0) (get_or raw 10 0) 0 p.sections
    pub sections_placed : All (SectionIn e) p.sections
    pub segments : SegmentRowsAt e (get_or raw 4 0) (get_or raw 8 0) 0 p.segments
    pub segments_placed : All (SegmentIn e) p.segments

  pub record Measures (p : Parsed) : Type 0 where
    pub within : section_bytes p.sections + segment_bytes p.segments ≤ 4 * max (size e) 1
    pub sections : All (λ s. is_some s.measurement ≡ true → s.offset + s.size ≤ size e) p.sections
    pub segments : All (λ g. is_some g.measurement ≡ true → g.offset + g.filesz ≤ size e) p.segments

  held_sections :
      (ss : List Section)
      → All (SectionIn e) ss
      → sections_held ss ≡ true
      → All (λ s. is_some s.measurement ≡ true → s.offset + s.size ≤ size e) ss
  unfolding in_bounds
  held_sections [] p h = tt
  held_sections (s ∷ ss) p h = (λ k. ground (arith, p.0), held_sections ss p.1 (ground arith))

  held_segments :
      (gs : List Segment)
      → All (SegmentIn e) gs
      → segments_held gs ≡ true
      → All (λ g. is_some g.measurement ≡ true → g.offset + g.filesz ≤ size e) gs
  unfolding in_bounds
  held_segments [] p h = tt
  held_segments (g ∷ gs) p h = (λ k. ground (arith, p.0), held_segments gs p.1 (ground arith))

pub record Limits (p : Parsed) : Type 0 where
  pub sections : length p.sections ≤ max_sections
  pub segments : length p.segments ≤ max_segments
  pub dynamic : FewDynamic p.elf p.dynamic_table
  pub symbols : SymbolLimits p.elf p.tables
  pub needs : length_of p.needs ≤ max_version_needs
  pub notes : length p.notes ≤ max_notes
  pub comments : length p.comments ≤ max_comment_strings
  pub modinfo_records : length_of p.modinfo_records ≤ max_modinfo_records

module _ (sha256 : List ℕ → String) where
  pub parse_body-Gives :
      (e : Elf) (raw : List ℕ)
      → Gives (parse_body sha256 e raw) (λ p. ReadsImage e raw p × Measures e p × Limits p)
  unfolding parse_body
  parse_body-Gives e raw =
      let at = λ (i : ℕ). get_or raw i 0 in
      report_if-Gives _ _ _ (
        report_if-Gives _ _ _ (
          >>=-Gives (parse_sections-Gives e (at 5) (at 10) (at 11) (at 12) (at 9)) λ table t.
            >>=-Gives (parse_segments-Gives e (at 4) (at 8) table.phnum) λ segments g.
              >>=-Gives (measure-Gives sha256 e table.sections segments) λ measured m.
                >>=-Gives (layout_checks-Gives e (at 5) (at 4) measured.0 measured.1) λ sections l.
                  let loads = loads_of measured.1 in
                  let same =
                    ap (map erase) l ∙ erase-with_match e loads measured.0 ∙ m.sections_same in
                  let gsame = m.segments_same in
                  let placed = SectionIn-same e table.sections sections same t.placed in
                  let gplaced = SegmentIn-same e segments measured.1 gsame g.placed in
                  >>=-Gives (interpreter-Gives e measured.1) λ path u.
                    >>=-Gives (parse_dynamic-Gives e sections measured.1) λ dyn d.
                      >>=-Gives (symbol_tables-Gives e sections placed) λ tables s.
                        >>=-Gives (version_needs-Gives e sections) λ needs v.
                          >>=-Gives (parse_notes-Gives e sections measured.1 placed gplaced)
                            λ notes n. >>=-Gives (comment-Gives e sections) λ comments c.
                              >>=-Gives (modinfo-Gives e sections) λ records r. return-Gives _ (
                                record {
                                  image = refl;
                                  header = refl;
                                  sections =
                                      RowsAt-same e table.sections sections same (at 5) (at 10)
                                        t.rows;
                                  sections_placed =
                                      SectionIn-same e table.sections sections same t.placed;
                                  segments =
                                      SegmentRowsAt-same e segments measured.1 gsame (at 4) (at 8)
                                        g.rows;
                                  segments_placed =
                                      SegmentIn-same e segments measured.1 gsame g.placed;
                                },
                                record {
                                  within = omega (
                                    arith,
                                    m.within,
                                    ap section_bytes l,
                                    section_bytes-with_match e loads measured.0,
                                  );
                                  sections = held_sections e sections placed (
                                      ap sections_held l
                                      ∙ sections_held-with_match e loads measured.0
                                      ∙ m.held.0);
                                  segments = held_segments e measured.1 gplaced m.held.1;
                                },
                                record {
                                  sections = omega (
                                    arith,
                                    length-same e table.sections sections same,
                                    few_sections e (at 5) (at 10) table t,
                                  );
                                  segments = omega (
                                    arith,
                                    length-same_segments e segments measured.1 gsame,
                                    few_segments e (at 4) (at 8) table.phnum segments g,
                                  );
                                  dynamic = d;
                                  symbols = s;
                                  needs = v;
                                  notes = n;
                                  comments = c;
                                  modinfo_records = r;
                                },
                              )))
