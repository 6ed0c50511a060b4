-- ===== src/Elf/Examples.antt =====
-- Tests of the parser on a small image, and the theorems applied to it.
use zaynor.Prelude.{
  ℕ, zero, suc, ◌+◌, ◌≤◌, ◌<◌, String, ◌≡◌, refl, true, none, some, List, [], ◌∷◌, length, ◌↔◌, inl,
  ◌⊎◌, raised, ok, arith,
}
use zaynor.Elf.Image.{
  Name, struct_error, Issues, no_issues, max_issues, section_at, cstring, size, in_bounds,
}
use zaynor.Elf.Segments.{Segment, pt_load, vaddr_to_offset}
use zaynor.Elf.SymbolRows.{symbol_rows, strided_rows}
use zaynor.Elf.Notes.{NoteContainer, NoteScan, scan_containers}
use zaynor.Elf.Parse.{Parsed, image_of, parse_elf}
use zaynor.Elf.Fields.{ReportsImage}
use zaynor.Elf.Whole.{Measures, Limits}
use zaynor.Elf.Accepts.{
  IsElf, parse_elf-IsElf, parse_elf-ReadsImage, parse_elf-Measures, parse_elf-Limits,
}
use zaynor.Elf.Rows.{symbol_rows-eq-strided_rows, rows_at}
use zaynor.Elf.Walking.{FewNotes, Beyond, scan_containers-ends}
use zaynor.Elf.Names.{NameIn, cstring-NameIn}
use zaynor.Elf.Headers.{SegmentIn, vaddr_to_offset-lt-size}

abbrev no_digest : List ℕ → String
no_digest bytes = ""

abbrev zeros : ℕ → List ℕ → List ℕ
zeros zero tail = tail
zeros (suc n) tail = 0 ∷ zeros n tail

-- A section header of class 32 with a name, a kind, an offset, a size and an alignment.
abbrev row : ℕ → ℕ → ℕ → ℕ → List ℕ → List ℕ
row name kind offset len tail =
    name ∷ zeros 3 (kind ∷ zeros 11 (offset ∷ zeros 3 (len ∷ zeros 11 (1 ∷ zeros 7 tail))))

-- An image of class 32 whose two sections are the null section and the names.
abbrev image : List ℕ
image =
    0x7f
    ∷ 0x45
    ∷ 0x4c
    ∷ 0x46
    ∷ 1
    ∷ 1
    ∷ 1
    ∷ zeros 9 (
        2
        ∷ 0
        ∷ 3
        ∷ 0
        ∷ 1
        ∷ zeros 3 (
            zeros 8 (
              52
              ∷ zeros 7 (
                  52
                  ∷ 0
                  ∷ 0
                  ∷ 0
                  ∷ 0
                  ∷ 0
                  ∷ 40
                  ∷ 0
                  ∷ 2
                  ∷ 0
                  ∷ 1
                  ∷ 0
                  ∷ row 0 0 0 0 (
                      row 1 3 132 11
                        (0 ∷ 46 ∷ 115 ∷ 104 ∷ 115 ∷ 116 ∷ 114 ∷ 116 ∷ 97 ∷ 98 ∷ 0 ∷ []))))))

image_length : length image ≡ 143
image_length = refl

image-IsElf : IsElf image
image-IsElf = record {
  identified = omega arith;
  magic = refl;
  class = inl refl;
  encoding = inl refl;
  complete = omega arith;
}

returned : (r : Parsed × Issues) × (parse_elf no_digest image ≡ ok r)
returned = (parse_elf-IsElf no_digest image).1 image-IsElf

parse_elf-IsElf_example : ((r : Parsed × Issues) × (parse_elf no_digest image ≡ ok r)) ↔ IsElf image
parse_elf-IsElf_example = parse_elf-IsElf no_digest image

parse_elf-ReadsImage_example : ReportsImage image returned.0.0
parse_elf-ReadsImage_example = parse_elf-ReadsImage no_digest image returned.0 returned.1

parse_elf-Measures_example : Measures (image_of image) returned.0.0
parse_elf-Measures_example = parse_elf-Measures no_digest image returned.0 returned.1

parse_elf-Limits_example : Limits returned.0.0 × (length returned.0.1.listed ≤ max_issues + 1)
parse_elf-Limits_example = parse_elf-Limits no_digest image returned.0 returned.1

symbol_rows-eq-strided_rows_example :
    (symbol_rows (image_of image) 52 16 3 ≡ ok (rows_at (image_of image) 52 16 3 0))
    × (strided_rows (image_of image) 52 16 3 0 ≡ ok (rows_at (image_of image) 52 16 3 0))
symbol_rows-eq-strided_rows_example =
    symbol_rows-eq-strided_rows (image_of image) 52 16 3 (omega arith) (omega arith)

-- The notes of a container that is not one: a row of the table.
abbrev container : NoteContainer
container = record { place = section_at 1; offset = 92; size = 40; in_file = true; align = 4 }

scan_containers-ends_example :
    ((r : NoteScan × Issues) × (scan_containers (image_of image) (container ∷ []) [] no_issues
        ≡ ok r)
      × FewNotes (image_of image) r.0)
    ⊎ ((scan_containers (image_of image) (container ∷ []) [] no_issues ≡ raised struct_error)
        × Beyond (image_of image) (container ∷ []))
scan_containers-ends_example = scan_containers-ends (image_of image) (container ∷ []) no_issues

cstring-NameIn_example :
    (r : Name × Issues) × (cstring (image_of image) 132 11 1 (section_at 1) no_issues ≡ ok r)
    × NameIn image (132 + 1) (132 + 11) r.0
cstring-NameIn_example = cstring-NameIn (image_of image) 132 11 1 (section_at 1) no_issues

abbrev loaded : Segment
loaded = record {
  index = 0;
  kind = pt_load;
  flags = 5;
  offset = 52;
  vaddr = 4096;
  paddr = 0;
  filesz = 80;
  memsz = 80;
  align = 4096;
  in_file = true;
  measurement = none;
}

loaded-SegmentIn : SegmentIn (image_of image) loaded
unfolding in_bounds
loaded-SegmentIn = refl

vaddr_to_offset_found : vaddr_to_offset (loaded ∷ []) 4100 ≡ some 56
unfolding vaddr_to_offset
vaddr_to_offset_found = refl

vaddr_to_offset-lt-size_example : 56 < size (image_of image)
vaddr_to_offset-lt-size_example =
    vaddr_to_offset-lt-size (image_of image) (loaded ∷ []) 4100 56 (loaded-SegmentIn, tt)
      vaddr_to_offset_found
