-- ===== src/Elf/Measure.antt =====
-- src/tools/binary_static/measure.py, the budget and `measure_range`, and `_measure` of elf.py. The
-- entropy of a histogram, which needs `decimal`, is left out: a measurement keeps the histogram.
use zaynor.Prelude.{
  ℕ, zero, suc, ◌+◌, ◌*◌, ◌-◌, String, Bool, true, false, ◌&&◌, not, none, some, List, [], ◌∷◌,
  ◌++◌, if◌then◌else◌, ltb, ◌==◌, slice,
}
use zaynor.Elf.Image.{Elf, M, ◌>>◌, return, issue_if, file, size}
use zaynor.Elf.Sections.{Section, Measurement}
use zaynor.Elf.Segments.{Segment, pt_load}
use Prim.Native.Nat.{max}

pub record MeasurementBudget : Type 0 where
  pub remaining : ℕ
  pub exhausted : Bool

unfoldable pub take_budget : ℕ → MeasurementBudget → Bool × MeasurementBudget
take_budget len b =
    if ltb b.remaining len
    then (false, record b { exhausted = true })
    else (true, record b { remaining = b.remaining - len })

occurrences : ℕ → List ℕ → ℕ
occurrences v [] = 0
occurrences v (b ∷ bs) = (if b == v then 1 else 0) + occurrences v bs

counts_below : ℕ → List ℕ → List ℕ
unfolding occurrences
counts_below zero bs = []
counts_below (suc n) bs = counts_below n bs ++ occurrences n bs ∷ []

unfoldable pub byte_histogram : List ℕ → List ℕ
unfolding counts_below
byte_histogram bs = counts_below 256 bs

module _ (sha256 : List ℕ → String) (e : Elf) where
  unfoldable pub measure_range : ℕ → ℕ → Measurement
  unfolding byte_histogram
  measure_range offset len =
      let view = slice offset (offset + len) e.bytes in
      record { sha256 = sha256 view; histogram = byte_histogram view }

  abbrev pub measured_section : Section → Bool
  measured_section s = s.in_file && not (s.size == 0)

  abbrev pub measured_segment : Segment → Bool
  measured_segment g = g.kind == pt_load && g.in_file && not (g.filesz == 0)

  unfoldable pub measure_section : Section → MeasurementBudget → Section × MeasurementBudget
  measure_section s b =
      if measured_section s
      then (let t = take_budget s.size b in
          (
            record s { measurement = if t.0 then some (measure_range s.offset s.size) else none },
            t.1,
          ))
      else (record s { measurement = none }, b)

  unfoldable pub measure_segment : Segment → MeasurementBudget → Segment × MeasurementBudget
  measure_segment g b =
      if measured_segment g
      then (let t = take_budget g.filesz b in
          (
            record g { measurement = if t.0 then some (measure_range g.offset g.filesz) else none },
            t.1,
          ))
      else (record g { measurement = none }, b)

  unfoldable pub measure_sections :
      List Section → MeasurementBudget → List Section × MeasurementBudget
  measure_sections [] b = ([], b)
  measure_sections (s ∷ ss) b =
      let r = measure_section s b in let rest = measure_sections ss r.1 in (r.0 ∷ rest.0, rest.1)

  unfoldable pub measure_segments :
      List Segment → MeasurementBudget → List Segment × MeasurementBudget
  measure_segments [] b = ([], b)
  measure_segments (g ∷ gs) b =
      let r = measure_segment g b in let rest = measure_segments gs r.1 in (r.0 ∷ rest.0, rest.1)

  -- `MeasurementBudget(4 * max(self.size, 1))`
  abbrev pub full_budget : MeasurementBudget
  full_budget = record { remaining = 4 * max (size e) 1; exhausted = false }

  -- `_measure`, with the budget that `parse` makes for it.
  unfoldable pub measure : List Section → List Segment → M (List Section × List Segment)
  measure sections segments = do
    let r = measure_sections sections full_budget
    let t = measure_segments segments r.1
    issue_if t.1.exhausted "measurement_budget_exhausted" file
    return (r.0, t.0)
