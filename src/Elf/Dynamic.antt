-- ===== src/Elf/Dynamic.antt =====
-- The dynamic table: `_dynamic`. The tags that it looks for are below 2³¹, so that it makes no
-- difference to them that the code reads a tag with its sign: it is read here as an unsigned number.
use zaynor.Prelude.{
  ℕ, zero, suc, ◌+◌, ◌*◌, ◌/◌, String, Bool, true, false, ◌&&◌, ◌||◌, not, Option, none, some, List,
  [], ◌∷◌, if◌then◌else◌, ltb, ◌==◌, length, get_elem?, get_or, filter, map, take, any,
}
use zaynor.Elf.Image.{
  Elf, M, ◌>>=◌, ◌>>◌, return, issue_if, Place, all_segments, section_at, segment_at, Name, absent,
  in_bounds, unpack, cstring,
}
use zaynor.Elf.Sections.{Section}
use zaynor.Elf.Segments.{Segment, vaddr_to_offset}
use Prim.Native.Nat.{min}

abbrev pub max_dynamic_entries : ℕ
max_dynamic_entries = 4096

abbrev pub max_dynamic_strings : ℕ
max_dynamic_strings = 256

-- The table's place in the file, and where its strings are looked for: by the segments, or at the
-- section that `link` names.
pub record Container : Type 0 where
  pub place : Place
  pub offset : ℕ
  pub size : ℕ
  pub in_file : Bool
  pub link : Option ℕ

of_segment : Segment → Container
of_segment g = record {
  place = segment_at g.index;
  offset = g.offset;
  size = g.filesz;
  in_file = g.in_file;
  link = none;
}

of_section : Section → Container
of_section s = record {
  place = section_at s.index;
  offset = s.offset;
  size = s.size;
  in_file = s.in_file;
  link = some s.link;
}

-- The first dynamic segment, else the first dynamic section.
unfoldable pub container : List Segment → List Section → Option Container
unfolding of_segment of_section
container (g ∷ gs) ss = some (of_segment g)
container [] (s ∷ ss) = some (of_section s)
container [] [] = none

abbrev pub strings_section : List Section → ℕ → Option (ℕ × ℕ)
strings_section sections link = elim (get_elem? sections link) [
  | none ↦ none
  | some s ↦ if s.in_file then some (s.offset, s.size) else none
]

-- values[tag]
unfoldable pub values_of : ℕ → List (ℕ × ℕ) → List ℕ
values_of tag entries = map (λ v. v.1) (filter (λ v. v.0 == tag) entries)

abbrev pub head_of : List ℕ → Option ℕ
head_of [] = none
head_of (x ∷ xs) = some x

pub record Dynamic : Type 0 where
  pub source : Place
  pub entry_count : ℕ
  pub needed : List Name
  pub soname : List Name
  pub rpath : List Name
  pub runpath : List Name
  pub flags : Option ℕ
  pub flags_1 : Option ℕ

-- No dynamic table, one that the file does not hold, or its content.
pub data DynamicResult : Type 0 where
  no_dynamic : DynamicResult
  unreadable : Place → DynamicResult
  dynamic : Dynamic → DynamicResult

module _ (e : Elf) where
  abbrev pub dynamic_format : String
  dynamic_format = if e.is64 then "qQ" else "iI"

  abbrev pub dynamic_entsize : ℕ
  dynamic_entsize = if e.is64 then 16 else 8

  -- The loop over the entries: those before DT_NULL, and whether it was met.
  unfoldable pub dynamic_entries : ℕ → ℕ → ℕ → List (ℕ × ℕ) × Bool
  dynamic_entries offset zero index = ([], false)
  dynamic_entries offset (suc n) index =
      elim (unpack e dynamic_format (offset + index * dynamic_entsize)) [
        | none ↦ ([], false)
        | some raw ↦
            let rest = dynamic_entries offset n (suc index) in
            if get_or raw 0 0 == 0
            then ([], true)
            else ((get_or raw 0 0, get_or raw 1 0) ∷ rest.0, rest.1)
      ]

  unfoldable pub strings_by_segment : List Segment → Option ℕ → Option ℕ → Option (ℕ × ℕ)
  strings_by_segment segments (some vaddr) (some table_size) =
      elim (vaddr_to_offset segments vaddr) [
        | none ↦ none
        | some offset ↦ if in_bounds e offset table_size then some (offset, table_size) else none
      ]
  strings_by_segment segments _ _ = none

  unfoldable pub dynamic_strtab :
      List Section → List Segment → Container → List (ℕ × ℕ) → Option (ℕ × ℕ)
  unfolding strings_by_segment
  dynamic_strtab sections segments k entries = elim k.link [
    | some link ↦ strings_section sections link
    | none ↦
        strings_by_segment segments (head_of (values_of 5 entries)) (head_of (values_of 10 entries))
  ]

  unfoldable pub read_names : ℕ × ℕ → Place → List ℕ → M (List Name)
  read_names t place [] = return []
  read_names t place (v ∷ vs) =
      cstring e t.0 t.1 v place >>= λ name. read_names t place vs >>= λ names. return (name ∷ names)

  unfoldable pub names_in : Option (ℕ × ℕ) → Place → List ℕ → M (List Name)
  unfolding read_names
  names_in none place vs = return (map (λ v. absent) vs)
  names_in (some t) place vs = read_names t place vs

  -- `strings(tag)`
  unfoldable pub strings : Option (ℕ × ℕ) → Place → List ℕ → M (List Name)
  unfolding names_in
  strings strtab place found = do
    issue_if (ltb max_dynamic_strings (length found)) "dynamic_string_listing_capped" place
    names_in strtab place (take max_dynamic_strings found)

  unfoldable pub wants_strings : List (ℕ × ℕ) → Bool
  wants_strings entries = any (λ v. v.0 == 1 || v.0 == 14 || v.0 == 15 || v.0 == 29) entries

  no_strings : Option (ℕ × ℕ) → Bool
  no_strings none = true
  no_strings (some t) = false

  unfoldable pub read_dynamic : List Section → List Segment → Container → M DynamicResult
  unfolding no_strings
  read_dynamic sections segments k = do
    let r = dynamic_entries k.offset (min (k.size / dynamic_entsize) max_dynamic_entries) 0
    let entries = r.0
    issue_if (not r.1) "dynamic_table_without_terminator" k.place
    let strtab = dynamic_strtab sections segments k entries
    issue_if (no_strings strtab && wants_strings entries) "dynamic_string_table_unavailable" k.place
    needed ← strings strtab k.place (values_of 1 entries)
    soname ← strings strtab k.place (values_of 14 entries)
    rpath ← strings strtab k.place (values_of 15 entries)
    runpath ← strings strtab k.place (values_of 29 entries)
    return (
        dynamic (record {
          source = k.place;
          entry_count = length entries;
          needed = needed;
          soname = soname;
          rpath = rpath;
          runpath = runpath;
          flags = head_of (values_of 30 entries);
          flags_1 = head_of (values_of 0x6ffffffb entries);
        }))

  unfoldable pub dynamic_in : List Section → List Segment → Option Container → M DynamicResult
  dynamic_in sections segments none = return no_dynamic
  dynamic_in sections segments (some k) =
      if k.in_file then read_dynamic sections segments k else return (unreadable k.place)

  -- `_dynamic`
  unfoldable pub parse_dynamic : List Section → List Segment → M DynamicResult
  unfolding dynamic_in
  parse_dynamic sections segments = do
    let dynamic_segments = filter (λ g. g.kind == 2) segments
    let dynamic_sections = filter (λ s. s.kind == 6) sections
    issue_if (ltb 1 (length dynamic_segments)) "multiple_dynamic_segments" all_segments
    dynamic_in sections segments (container dynamic_segments dynamic_sections)
