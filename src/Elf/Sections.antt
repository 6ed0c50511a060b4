-- ===== src/Elf/Sections.antt =====
-- The section table: `_sections`. A dictionary of a section is a record; what later methods add
-- to it has its first value here.
use zaynor.Prelude.{
  ℕ, zero, suc, ◌+◌, ◌*◌, ◌-◌, ◌/◌, String, Bool, false, ◌&&◌, ◌||◌, not, Option, none, some, List,
  [], ◌∷◌, ◌++◌, if◌then◌else◌, ltb, ◌==◌, length, get_elem?, get_or,
}
use zaynor.Elf.Image.{
  Elf, M, ◌>>=◌, ◌>>◌, return, issue, issue_if, header, section_at, Name, absent, size, in_bounds,
  unpack, cstring,
}
use Prim.Native.Nat.{min}

pub record Measurement : Type 0 where
  pub sha256 : String
  pub histogram : List ℕ

pub record Section : Type 0 where
  pub index : ℕ
  pub name_offset : ℕ
  pub kind : ℕ
  pub flags : ℕ
  pub addr : ℕ
  pub offset : ℕ
  pub size : ℕ
  pub link : ℕ
  pub info : ℕ
  pub addralign : ℕ
  pub entsize : ℕ
  pub name : Name
  pub in_file : Bool
  pub measurement : Option Measurement
  pub matches_load_segment : Option Bool

-- What `_sections` returns, with the names that it appends to `extended`.
pub record Table : Type 0 where
  pub sections : List Section
  pub shnum : ℕ
  pub shstrndx : ℕ
  pub phnum : ℕ
  pub extended : List String

abbrev pub max_sections : ℕ
max_sections = 4096

abbrev pub sht_null : ℕ
sht_null = 0

abbrev pub sht_strtab : ℕ
sht_strtab = 3

abbrev pub sht_nobits : ℕ
sht_nobits = 8

-- The dictionary of one row.
unfoldable pub section_of : ℕ → List ℕ → Section
section_of index raw = record {
  index = index;
  name_offset = get_or raw 0 0;
  kind = get_or raw 1 0;
  flags = get_or raw 2 0;
  addr = get_or raw 3 0;
  offset = get_or raw 4 0;
  size = get_or raw 5 0;
  link = get_or raw 6 0;
  info = get_or raw 7 0;
  addralign = get_or raw 8 0;
  entsize = get_or raw 9 0;
  name = absent;
  in_file = false;
  measurement = none;
  matches_load_segment = none;
}

abbrev pub has_file_data : Section → Bool
has_file_data s = not (s.kind == sht_null || s.kind == sht_nobits)

module _ (e : Elf) where
  abbrev pub section_format : String
  section_format = if e.is64 then "IIQQQQIIQQ" else "IIIIIIIIII"

  abbrev pub section_entsize : ℕ
  section_entsize = if e.is64 then 64 else 40

  -- The loop over `range(count)`, by the rounds that are left.
  unfoldable pub section_rows : ℕ → ℕ → ℕ → ℕ → M (List Section)
  section_rows shoff entsize zero index = return []
  section_rows shoff entsize (suc n) index =
      elim (unpack e section_format (shoff + index * entsize)) [
        | none ↦ issue "section_header_unreadable" (section_at index) >> return []
        | some raw ↦ section_rows shoff entsize n (suc index) >>= λ rest.
            return (section_of index raw ∷ rest)
      ]

  -- The table of the names: its offset and size.
  unfoldable pub names_of : ℕ → Section → M (Option (ℕ × ℕ))
  names_of shstrndx table = do
    issue_if (not (table.kind == sht_strtab)) "section_name_table_not_strtab" (section_at shstrndx)
    if in_bounds e table.offset table.size
        then return (some (table.offset, table.size))
        else (issue "section_name_table_out_of_bounds" (section_at shstrndx) >> return none)

  unfoldable pub names_at : ℕ → Option Section → M (Option (ℕ × ℕ))
  unfolding names_of
  names_at shstrndx none = issue "section_name_table_index_out_of_range" header >> return none
  names_at shstrndx (some table) = names_of shstrndx table

  unfoldable pub names_table : List Section → ℕ → M (Option (ℕ × ℕ))
  unfolding names_at
  names_table sections shstrndx =
      if (length sections == 0) || (shstrndx == 0)
      then return none
      else names_at shstrndx (get_elem? sections shstrndx)

  unfoldable pub section_name : Option (ℕ × ℕ) → Section → M Name
  section_name none s = return absent
  section_name (some t) s = cstring e t.0 t.1 s.name_offset (section_at s.index)

  -- The body of the last loop: `name` and `in_file`.
  unfoldable pub finish_section : Option (ℕ × ℕ) → Section → M Section
  unfolding section_name
  finish_section names s = do
    name ← section_name names s
    let here = has_file_data s && in_bounds e s.offset s.size
    issue_if (has_file_data s && not (s.size == 0) && not here) "section_data_out_of_bounds"
        (section_at s.index)
    return (record s { name = name; in_file = here })

  unfoldable pub finish_sections : Option (ℕ × ℕ) → List Section → M (List Section)
  finish_sections names [] = return []
  finish_sections names (s ∷ ss) =
      finish_section names s >>= λ s'. finish_sections names ss >>= λ ss'. return (s' ∷ ss')

  -- How many rows are read: no more than the table declares, the file holds, and the limit allows.
  unfoldable pub row_count : ℕ → ℕ → M ℕ
  row_count shnum available = do
    issue_if (ltb available shnum) "section_table_truncated_by_eof" header
    issue_if (ltb max_sections (min shnum available)) "section_listing_capped" header
    return (min (min shnum available) max_sections)

  -- From the first row on: the counts that stand in it, the rows and the names.
  unfoldable pub read_table : ℕ → ℕ → ℕ → ℕ → ℕ → List ℕ → M Table
  unfolding names_table row_count
  read_table shoff entsize e_shnum e_shstrndx e_phnum first = do
    let shnum = if e_shnum == 0 then get_or first 5 0 else e_shnum
    let shstrndx = if e_shstrndx == 0xffff then get_or first 6 0 else e_shstrndx
    let phnum = if e_phnum == 0xffff then get_or first 7 0 else e_phnum
    let extended =
        (if e_shnum == 0 then "shnum" ∷ [] else [])
        ++ ((if e_shstrndx == 0xffff then "shstrndx" ∷ [] else [])
            ++ (if e_phnum == 0xffff then "phnum" ∷ [] else []))
    count ← row_count shnum ((size e - shoff) / entsize)
    rows ← section_rows shoff entsize count 0
    names ← names_table rows shstrndx
    sections ← finish_sections names rows
    return (record {
      sections = sections;
      shnum = shnum;
      shstrndx = shstrndx;
      phnum = phnum;
      extended = extended;
    })

  -- The early returns: no sections, and the numbers of the header.
  abbrev pub no_table : ℕ → ℕ → ℕ → Table
  no_table shnum shstrndx phnum = record {
    sections = [];
    shnum = shnum;
    shstrndx = shstrndx;
    phnum = phnum;
    extended = [];
  }

  unfoldable pub first_row : ℕ → ℕ → ℕ → ℕ → ℕ → M Table
  unfolding read_table
  first_row shoff entsize shnum shstrndx phnum = elim (unpack e section_format shoff) [
    | none ↦ issue "section_table_out_of_bounds" header >> return (no_table shnum shstrndx phnum)
    | some first ↦ read_table shoff entsize shnum shstrndx phnum first
  ]

  -- `_sections`
  unfoldable pub parse_sections : ℕ → ℕ → ℕ → ℕ → ℕ → M Table
  unfolding first_row
  parse_sections shoff entsize shnum shstrndx phnum =
      if shoff == 0
      then (issue_if (not (shnum == 0)) "section_count_without_table" header
          >> return (no_table shnum shstrndx phnum))
      else if ltb entsize section_entsize
      then (issue "section_header_entsize_too_small" header
          >> return (no_table shnum shstrndx phnum))
      else (issue_if (not (entsize == section_entsize)) "nonstandard_section_header_entsize" header
          >> first_row shoff entsize shnum shstrndx phnum)
