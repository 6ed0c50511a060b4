-- ===== src/Elf/Measured.antt =====
-- The budget of `_measure`, and what measuring leaves as it was.
use zaynor.Prelude.{
  ℕ, ◌+◌, ◌*◌, ◌≤◌, String, ◌≡◌, refl, ap₂, Bool, true, false, ◌||◌, not, Option, none, some, List,
  [], ◌∷◌, if◌then◌else◌, map, all, arith, Bool-cases, inl, inr,
}
use zaynor.Elf.Image.{Elf, size}
use zaynor.Elf.Sections.{Section, Measurement}
use zaynor.Elf.Segments.{Segment}
use zaynor.Elf.Measure.{
  MeasurementBudget, take_budget, measured_section, measured_segment, measure_section,
  measure_segment, measure_sections, measure_segments, full_budget, measure,
}
use zaynor.Elf.Headers.{unmeasured}
use zaynor.Elf.Gives.{Gives, return-Gives, report_if-Gives}
use Prim.Native.Nat.{max}

abbrev pub is_some : Option Measurement → Bool
is_some none = false
is_some (some m) = true

-- The bytes that were hashed and counted.
abbrev pub section_bytes : List Section → ℕ
section_bytes [] = 0
section_bytes (s ∷ ss) = (if is_some s.measurement then s.size else 0) + section_bytes ss

abbrev pub segment_bytes : List Segment → ℕ
segment_bytes [] = 0
segment_bytes (g ∷ gs) = (if is_some g.measurement then g.filesz else 0) + segment_bytes gs

-- Only what the image holds is measured.
abbrev pub sections_held : List Section → Bool
sections_held ss = all (λ s. not (is_some s.measurement) || s.in_file) ss

abbrev pub segments_held : List Segment → Bool
segments_held gs = all (λ g. not (is_some g.measurement) || g.in_file) gs

abbrev pub erase : Section → Section
erase s = record s { measurement = none; matches_load_segment = none }

module _ (sha256 : List ℕ → String) (e : Elf) where
  section_budget :
      (s : Section) (b : MeasurementBudget)
      → section_bytes ((measure_section sha256 e s b).0 ∷ [])
          + (measure_section sha256 e s b).1.remaining
        ≡ b.remaining
  unfolding measure_section take_budget
  section_budget s b = ground arith

  segment_budget :
      (g : Segment) (b : MeasurementBudget)
      → segment_bytes ((measure_segment sha256 e g b).0 ∷ [])
          + (measure_segment sha256 e g b).1.remaining
        ≡ b.remaining
  unfolding measure_segment take_budget
  segment_budget g b = ground arith

  sections_budget :
      (ss : List Section) (b : MeasurementBudget)
      → section_bytes (measure_sections sha256 e ss b).0
          + (measure_sections sha256 e ss b).1.remaining
        ≡ b.remaining
  unfolding measure_sections
  sections_budget [] b = omega arith
  sections_budget (s ∷ ss) b =
      omega (arith, section_budget s b, sections_budget ss (measure_section sha256 e s b).1)

  segments_budget :
      (gs : List Segment) (b : MeasurementBudget)
      → segment_bytes (measure_segments sha256 e gs b).0
          + (measure_segments sha256 e gs b).1.remaining
        ≡ b.remaining
  unfolding measure_segments
  segments_budget [] b = omega arith
  segments_budget (g ∷ gs) b =
      omega (arith, segment_budget g b, segments_budget gs (measure_segment sha256 e g b).1)

  section_erased :
      (s : Section) (b : MeasurementBudget) → erase (measure_section sha256 e s b).0 ≡ erase s
  unfolding measure_section
  section_erased s b = elim (Bool-cases (measured_section sha256 e s)) [
    | inl h ↦ rw h
    | inr h ↦ rw h
  ]

  segment_erased :
      (g : Segment) (b : MeasurementBudget)
      → unmeasured e (measure_segment sha256 e g b).0 ≡ unmeasured e g
  unfolding measure_segment
  segment_erased g b = elim (Bool-cases (measured_segment sha256 e g)) [
    | inl h ↦ rw h
    | inr h ↦ rw h
  ]

  sections_erased :
      (ss : List Section) (b : MeasurementBudget)
      → map erase (measure_sections sha256 e ss b).0 ≡ map erase ss
  unfolding measure_sections
  sections_erased [] b = refl
  sections_erased (s ∷ ss) b =
      ap₂ ◌∷◌ (section_erased s b) (sections_erased ss (measure_section sha256 e s b).1)

  segments_erased :
      (gs : List Segment) (b : MeasurementBudget)
      → map (unmeasured e) (measure_segments sha256 e gs b).0 ≡ map (unmeasured e) gs
  unfolding measure_segments
  segments_erased [] b = refl
  segments_erased (g ∷ gs) b =
      ap₂ ◌∷◌ (segment_erased g b) (segments_erased gs (measure_segment sha256 e g b).1)

  section_held :
      (s : Section) (b : MeasurementBudget)
      → sections_held ((measure_section sha256 e s b).0 ∷ []) ≡ true
  unfolding measure_section
  section_held s b = ground arith

  segment_held :
      (g : Segment) (b : MeasurementBudget)
      → segments_held ((measure_segment sha256 e g b).0 ∷ []) ≡ true
  unfolding measure_segment
  segment_held g b = ground arith

  sections_all_held :
      (ss : List Section) (b : MeasurementBudget)
      → sections_held (measure_sections sha256 e ss b).0 ≡ true
  unfolding measure_sections
  sections_all_held [] b = refl
  sections_all_held (s ∷ ss) b =
      ground (arith, section_held s b, sections_all_held ss (measure_section sha256 e s b).1)

  segments_all_held :
      (gs : List Segment) (b : MeasurementBudget)
      → segments_held (measure_segments sha256 e gs b).0 ≡ true
  unfolding measure_segments
  segments_all_held [] b = refl
  segments_all_held (g ∷ gs) b =
      ground (arith, segment_held g b, segments_all_held gs (measure_segment sha256 e g b).1)

  pub record MeasuredIn (ss : List Section) (gs : List Segment) (r : List Section × List Segment)
      : Type 0 where
    pub within : section_bytes r.0 + segment_bytes r.1 ≤ 4 * max (size e) 1
    pub sections_same : map erase r.0 ≡ map erase ss
    pub segments_same : map (unmeasured e) r.1 ≡ map (unmeasured e) gs
    pub held : (sections_held r.0 ≡ true) × (segments_held r.1 ≡ true)

  pub measure-Gives :
      (ss : List Section) (gs : List Segment) → Gives (measure sha256 e ss gs) (MeasuredIn ss gs)
  unfolding measure
  measure-Gives ss gs =
      let b = full_budget sha256 e in
      let b' = (measure_sections sha256 e ss b).1 in
      report_if-Gives _ _ _ (
        return-Gives _ (record {
          within = omega (arith, sections_budget ss b, segments_budget gs b');
          sections_same = sections_erased ss b;
          segments_same = segments_erased gs b';
          held = (sections_all_held ss b, segments_all_held gs b');
        }))
