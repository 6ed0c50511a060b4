-- ===== src/Elf/Mapping.antt =====
-- What `_layout_checks` decides for each section, and what the loader-facing methods give.
use zaynor.Prelude.{
  ℕ, ◌+◌, ◌≡◌, refl, ap₂, Option, none, some, List, [], ◌∷◌, if◌then◌else◌, ◌==◌, map, filter,
  slice,
}
use zaynor.Elf.Image.{Elf, find_nul}
use zaynor.Elf.Sections.{Section}
use zaynor.Elf.Segments.{Segment}
use zaynor.Elf.Layout.{
  is_compared, mapped, check_section, check_sections, loads_of, layout_checks, interpreter_name,
  interpreter_of, interpreter, pt_interp,
}
use zaynor.Elf.Gives.{Gives, return-Gives, Gives-if, >>=-Gives, report-Gives, report_if-Gives}

-- A section that is compared tells whether a loaded segment maps it where its header puts it.
abbrev pub with_match : List Segment → Section → Section
with_match loads s = record s {
  matches_load_segment = if is_compared loads s then some (mapped loads s) else none;
}

check_section-Gives :
    (loads : List Segment) (s : Section)
    → Gives (check_section loads s) (λ t. t ≡ with_match loads s)
unfolding check_section
check_section-Gives loads s = report_if-Gives _ _ _ (
    Gives-if (is_compared loads s) (λ h. report_if-Gives _ _ _ (return-Gives _ (rw h)))
      (λ h. return-Gives _ (rw h)))

check_sections-Gives :
    (loads : List Segment) (ss : List Section)
    → Gives (check_sections loads ss) (λ ts. ts ≡ map (with_match loads) ss)
unfolding check_sections
check_sections-Gives loads [] = return-Gives [] refl
check_sections-Gives loads (s ∷ ss) =
    >>=-Gives (check_section-Gives loads s)
      λ t p. >>=-Gives (check_sections-Gives loads ss) λ ts q. return-Gives _ (ap₂ ◌∷◌ p q)

pub layout_checks-Gives :
    (e : Elf) (shoff phoff : ℕ) (ss : List Section) (gs : List Segment)
    → Gives (layout_checks e shoff phoff ss gs) (λ ts. ts ≡ map (with_match (loads_of gs)) ss)
unfolding layout_checks
layout_checks-Gives e shoff phoff ss gs =
    report_if-Gives _ _ _ (report_if-Gives _ _ _ (check_sections-Gives (loads_of gs) ss))

interpreter_name-Gives :
    (g : Segment) (raw : List ℕ) (o : Option ℕ) → Gives (interpreter_name g raw o) (λ n. Unit {0})
unfolding interpreter_name
interpreter_name-Gives g raw none = report-Gives _ _ (report_if-Gives _ _ _ (return-Gives _ tt))
interpreter_name-Gives g raw (some n) = report_if-Gives _ _ _ (return-Gives _ tt)

interpreter_of-Gives : (e : Elf) (gs : List Segment) → Gives (interpreter_of e gs) (λ n. Unit {0})
unfolding interpreter_of
interpreter_of-Gives e [] = return-Gives none tt
interpreter_of-Gives e (g ∷ gs) = report_if-Gives _ _ _ (
    Gives-if g.in_file
      (λ h.
        >>=-Gives
          (interpreter_name-Gives g (slice g.offset (g.offset + g.filesz) e.bytes)
            (find_nul (slice g.offset (g.offset + g.filesz) e.bytes)))
          (λ n u. return-Gives (some n) tt))
      (λ h. return-Gives _ tt))

pub interpreter-Gives : (e : Elf) (gs : List Segment) → Gives (interpreter e gs) (λ n. Unit {0})
unfolding interpreter
interpreter-Gives e gs = interpreter_of-Gives e (filter (λ g. g.kind == pt_interp) gs)
