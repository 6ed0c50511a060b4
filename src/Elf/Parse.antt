-- ===== src/Elf/Parse.antt =====
-- The header and the whole: `parse` and `parse_elf`. The result's dictionaries, with the words for
-- the numbers of kinds and machines, are the records that the methods return.
use zaynor.Prelude.{
  ℕ, String, ◌||◌, not, Option, none, some, List, [], ◌∷◌, if◌then◌else◌, ltb, ◌==◌, length, get_or,
  take, Outcome, ok, raised,
}
use zaynor.Elf.Image.{
  StructError, little, big, Elf, Issues, no_issues, M, ◌>>=◌, ◌>>◌, return, issue_if, header, Name,
  unpack,
}
use zaynor.Elf.Sections.{Section, Table, parse_sections}
use zaynor.Elf.Segments.{Segment, parse_segments}
use zaynor.Elf.Measure.{measure}
use zaynor.Elf.Layout.{layout_checks, EntryPoint, entry_point, interpreter}
use zaynor.Elf.Dynamic.{DynamicResult, parse_dynamic}
use zaynor.Elf.Symbols.{symbol_tables}
use zaynor.Elf.SymbolRows.{SymbolTable}
use zaynor.Elf.Versions.{VersionNeed, version_needs}
use zaynor.Elf.Notes.{Note, parse_notes, bytes_eq}
use zaynor.Elf.Texts.{ModinfoRecord, modinfo, comment}

pub data ElfFormatError : Type 0 where
  not_elf unsupported_elf_class unsupported_elf_data_encoding truncated_elf_header : ElfFormatError

-- What `parse_elf` raises: its own error, or one of `struct` that nothing catches.
pub data ParseError : Type 0 where
  bad_format : ElfFormatError → ParseError
  bad_struct : StructError → ParseError

pub record Parsed : Type 0 where
  pub elf : Elf
  pub osabi : ℕ
  pub abiversion : ℕ
  pub header_fields : List ℕ
  pub table : Table
  pub sections : List Section
  pub segments : List Segment
  pub entry : Option EntryPoint
  pub interpreter_path : Option Name
  pub dynamic_table : DynamicResult
  pub tables : List SymbolTable
  pub needs : Option (List VersionNeed)
  pub notes : List Note
  pub comments : List Name
  pub modinfo_records : Option (List ModinfoRecord)

abbrev pub elf_magic : List ℕ
elf_magic = 0x7f ∷ 0x45 ∷ 0x4c ∷ 0x46 ∷ []

-- data[i], within the first sixteen bytes
abbrev pub ident : List ℕ → ℕ → ℕ
ident data' i = get_or data' i 0

abbrev pub header_format : Elf → String
header_format e = if e.is64 then "HHIQQQIHHHHHH" else "HHIIIIIHHHHHH"

abbrev pub image_of : List ℕ → Elf
image_of data' = record {
  bytes = data';
  endian = if ident data' 5 == 1 then little else big;
  is64 = ident data' 4 == 2;
}

abbrev pub finished : Outcome StructError (Parsed × Issues) → Outcome ParseError (Parsed × Issues)
finished (ok r) = ok r
finished (raised e) = raised (bad_struct e)

module _ (sha256 : List ℕ → String) where
  -- What follows the header, whose fields are `raw`.
  unfoldable pub parse_body : Elf → List ℕ → M Parsed
  parse_body e raw = do
    let at = λ (i : ℕ). get_or raw i 0
    issue_if (not (ident e.bytes 6 == 1) || not (at 2 == 1)) "unexpected_elf_version" header
    issue_if (not (at 7 == (if e.is64 then 64 else 52))) "nonstandard_header_size" header
    table ← parse_sections e (at 5) (at 10) (at 11) (at 12) (at 9)
    segments ← parse_segments e (at 4) (at 8) table.phnum
    measured ← measure sha256 e table.sections segments
    sections ← layout_checks e (at 5) (at 4) measured.0 measured.1
    path ← interpreter e measured.1
    dyn ← parse_dynamic e sections measured.1
    tables ← symbol_tables e sections
    needs ← version_needs e sections
    notes ← parse_notes e sections measured.1
    comments ← comment e sections
    records ← modinfo e sections
    return (record {
      elf = e;
      osabi = ident e.bytes 7;
      abiversion = ident e.bytes 8;
      header_fields = raw;
      table = table;
      sections = sections;
      segments = measured.1;
      entry = entry_point (at 0) (at 3) sections measured.1;
      interpreter_path = path;
      dynamic_table = dyn;
      tables = tables;
      needs = needs;
      notes = notes;
      comments = comments;
      modinfo_records = records;
    })

  parse_header : Elf → Option (List ℕ) → Outcome ParseError (Parsed × Issues)
  unfolding parse_body
  parse_header e none = raised (bad_format truncated_elf_header)
  parse_header e (some raw) = finished (parse_body e raw no_issues)

  -- `parse_elf`
  unfoldable pub parse_elf : List ℕ → Outcome ParseError (Parsed × Issues)
  unfolding parse_header
  parse_elf data' =
      if ltb (length data') 16 || not (bytes_eq (take 4 data') elf_magic)
      then raised (bad_format not_elf)
      else if not (ident data' 4 == 1 || ident data' 4 == 2)
      then raised (bad_format unsupported_elf_class)
      else if not (ident data' 5 == 1 || ident data' 5 == 2)
      then raised (bad_format unsupported_elf_data_encoding)
      else parse_header (image_of data')
          (unpack (image_of data') (header_format (image_of data')) 16)
