-- ===== src/Elf/Layout.antt =====
-- What the loader maps against what the section table says: `_layout_checks`, `_entry_point` and
-- `_interpreter`. A bit of a number is written with `/` and `%`.
use zaynor.Prelude.{
  ℕ, ◌+◌, ◌-◌, ◌/◌, ◌%◌, String, Bool, ◌&&◌, ◌||◌, not, Option, none, some, List, [], ◌∷◌,
  if◌then◌else◌, leb, ltb, ◌==◌, length, take, slice, any, filter, map,
}
use zaynor.Elf.Image.{
  Elf, M, ◌>>=◌, ◌>>◌, return, issue, issue_if, header, all_segments, section_at, segment_at, Name,
  absent, named, find_nul, max_name_bytes,
}
use zaynor.Elf.Sections.{Section, sht_nobits}
use zaynor.Elf.Segments.{Segment, pt_load}
use Prim.Native.Nat.{min}

-- value & bit, for a power of two
abbrev pub has_bit : ℕ → ℕ → Bool
has_bit value bit = value / bit % 2 == 1

abbrev pub is_alloc : Section → Bool
is_alloc s = has_bit s.flags 2

abbrev pub is_tls : Section → Bool
is_tls s = has_bit s.flags 0x400

pub record FlagNames : Type 0 where
  pub names : List String
  pub unknown_bits : ℕ

-- value & ~known
unknown_of : ℕ → List (ℕ × String) → ℕ
unknown_of value [] = value
unknown_of value (b ∷ table) = unknown_of (if has_bit value b.0 then value - b.0 else value) table

-- `_flag_names`; no unknown bits are the number zero.
unfoldable pub flag_names : ℕ → List (ℕ × String) → FlagNames
unfolding unknown_of
flag_names value table = record {
  names = map (λ b. b.1) (filter (λ b. has_bit value b.0) table);
  unknown_bits = unknown_of value table;
}

abbrev pub segment_flags : List (ℕ × String)
segment_flags = (4, "R") ∷ (2, "W") ∷ (1, "X") ∷ []

-- Whether a PT_LOAD segment maps the section where the section header puts it.
unfoldable pub maps_section : Section → Segment → Bool
maps_section s g =
    leb g.vaddr s.addr
    && leb (s.addr + s.size) (g.vaddr + g.memsz)
    && (s.kind == sht_nobits || s.offset == g.offset + (s.addr - g.vaddr))

-- The sections that the loop compares with the segments.
unfoldable pub is_compared : List Segment → Section → Bool
is_compared loads s =
    not (length loads == 0)
    && is_alloc s
    && not (s.size == 0)
    && not (s.kind == sht_nobits && is_tls s)

abbrev pub mapped : List Segment → Section → Bool
mapped loads s = any (maps_section s) loads

unfoldable pub check_section : List Segment → Section → M Section
check_section loads s = do
  issue_if (s.in_file && ltb 1 s.addralign && not (s.offset % s.addralign == 0))
      "section_offset_misaligned" (section_at s.index)
  if is_compared loads s
      then (issue_if (not (mapped loads s)) "section_not_mapped_as_declared" (section_at s.index)
          >> return (record s { matches_load_segment = some (mapped loads s) }))
      else return (record s { matches_load_segment = none })

unfoldable pub check_sections : List Segment → List Section → M (List Section)
check_sections loads [] = return []
check_sections loads (s ∷ ss) =
    check_section loads s >>= λ s'. check_sections loads ss >>= λ ss'. return (s' ∷ ss')

abbrev pub loads_of : List Segment → List Segment
loads_of gs = filter (λ g. g.kind == pt_load) gs

-- `_layout_checks`
unfoldable pub layout_checks : Elf → ℕ → ℕ → List Section → List Segment → M (List Section)
layout_checks e shoff phoff sections segments = do
  let word = if e.is64 then 8 else 4
  issue_if (not (shoff % word == 0)) "section_table_misaligned" header
  issue_if (not (phoff % word == 0)) "program_header_table_misaligned" header
  check_sections (loads_of segments) sections

module _ {A : Type 0} where
  -- next((x for x in xs if p(x)), None)
  unfoldable pub first_with : (A → Bool) → List A → Option A
  first_with p [] = none
  first_with p (x ∷ xs) = if p x then some x else first_with p xs

abbrev pub map_option : {A B : Type 0} → (A → B) → Option A → Option B
map_option f none = none
map_option f (some x) = some (f x)

pub record EntryPoint : Type 0 where
  pub vaddr : ℕ
  pub segment_index : Option ℕ
  pub segment_flag_names : Option (List String)
  pub section_index : Option ℕ
  pub section_name : Option Name

abbrev pub holds_address : ℕ → Segment → Bool
holds_address entry g = g.kind == pt_load && leb g.vaddr entry && ltb entry (g.vaddr + g.memsz)

abbrev pub covers_address : ℕ → Section → Bool
covers_address entry s =
    is_alloc s && not (s.size == 0) && leb s.addr entry && ltb entry (s.addr + s.size)

-- `_entry_point`
unfoldable pub entry_point : ℕ → ℕ → List Section → List Segment → Option EntryPoint
unfolding flag_names
entry_point e_type entry sections segments =
    if not (e_type == 2 || e_type == 3) || entry == 0
    then none
    else (let g = first_with (holds_address entry) segments in
        let s = first_with (covers_address entry) sections in
        some (record {
          vaddr = entry;
          segment_index = map_option (λ x. x.index) g;
          segment_flag_names = map_option (λ x. (flag_names x.flags segment_flags).names) g;
          section_index = map_option (λ x. x.index) s;
          section_name = map_option (λ x. x.name) s;
        }))

abbrev pub pt_interp : ℕ
pt_interp = 3

-- The path up to its NUL byte, cut at the limit.
unfoldable pub interpreter_name : Segment → List ℕ → Option ℕ → M Name
interpreter_name g raw none = do
  issue "unterminated_interpreter" (segment_at g.index)
  issue_if (ltb max_name_bytes (length raw)) "name_truncated" (segment_at g.index)
  return (named (take (min (length raw) max_name_bytes) raw) (ltb max_name_bytes (length raw)))
interpreter_name g raw (some n) = do
  issue_if (ltb max_name_bytes n) "name_truncated" (segment_at g.index)
  return (named (take (min n max_name_bytes) raw) (ltb max_name_bytes n))

unfoldable pub interpreter_of : Elf → List Segment → M (Option Name)
unfolding interpreter_name find_nul
interpreter_of e [] = return none
interpreter_of e (g ∷ gs) = do
  issue_if (not (length gs == 0)) "multiple_interpreter_segments" all_segments
  if g.in_file
      then (let raw = slice g.offset (g.offset + g.filesz) e.bytes in
          interpreter_name g raw (find_nul raw) >>= λ name. return (some name))
      else return (some absent)

-- `_interpreter`
unfoldable pub interpreter : Elf → List Segment → M (Option Name)
unfolding interpreter_of
interpreter e segments = interpreter_of e (filter (λ g. g.kind == pt_interp) segments)
