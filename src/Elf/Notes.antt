-- ===== src/Elf/Notes.antt =====
-- The notes: `_notes`. The loop over the positions of a container takes fuel.
use zaynor.Prelude.{
  ℕ, zero, suc, ◌+◌, ◌*◌, ◌-◌, ◌/◌, String, Bool, true, false, ◌&&◌, none, some, List, [], ◌∷◌,
  ◌++◌, if◌then◌else◌, leb, ltb, ◌==◌, length, get_or, filter, map, take, slice,
}
use zaynor.Elf.Image.{
  Elf, M, ◌>>=◌, ◌>>◌, return, raise, struct_error, issue, Place, section_at, segment_at, unpack,
  uint,
}
use zaynor.Elf.Sections.{Section}
use zaynor.Elf.Segments.{Segment}
use Prim.Native.Char.{code}

abbrev pub max_notes : ℕ
max_notes = 64

abbrev pub max_note_owner_bytes : ℕ
max_note_owner_bytes = 64

abbrev pub max_note_desc_bytes : ℕ
max_note_desc_bytes = 256

-- `_align`: the low bits of a power of two are cleared by division.
unfoldable pub align : ℕ → ℕ → ℕ
align value step = (value + step - 1) / step * step

-- The tags that are decoded: FreeBSD's version, GNU's system with its version, a build id.
pub data NoteTag : Type 0 where
  plain : NoteTag
  freebsd_abi : ℕ → NoteTag
  gnu_abi : ℕ → ℕ → ℕ → ℕ → NoteTag
  build_id : List ℕ → NoteTag

pub record Note : Type 0 where
  pub place : Place
  pub owner : List ℕ
  pub owner_truncated : Bool
  pub kind : ℕ
  pub desc_size : ℕ
  pub desc : List ℕ
  pub desc_truncated : Bool
  pub tag : NoteTag

pub record NoteContainer : Type 0 where
  pub place : Place
  pub offset : ℕ
  pub size : ℕ
  pub align : ℕ
  pub in_file : Bool

unfoldable pub until_nul : List ℕ → List ℕ
until_nul [] = []
until_nul (b ∷ bs) = if b == 0 then [] else b ∷ until_nul bs

abbrev pub codes : String → List ℕ
codes String.[] = []
codes (String.◌∷◌ c s) = code c ∷ codes s

unfoldable pub bytes_eq : List ℕ → List ℕ → Bool
bytes_eq [] [] = true
bytes_eq [] (y ∷ ys) = false
bytes_eq (x ∷ xs) [] = false
bytes_eq (x ∷ xs) (y ∷ ys) = x == y && bytes_eq xs ys

-- What a container's loop ends with: the end of the container or a malformed note, the cap, which
-- ends the whole method, or no fuel.
pub data NoteScan : Type 0 where
  scanned capped unfinished : List Note → NoteScan

-- The row of `containers` for a section, or for a segment.
abbrev pub section_container : Section → NoteContainer
section_container t = record {
  place = section_at t.index;
  offset = t.offset;
  size = t.size;
  align = t.addralign;
  in_file = t.in_file;
}

abbrev pub segment_container : Segment → NoteContainer
segment_container g = record {
  place = segment_at g.index;
  offset = g.offset;
  size = g.filesz;
  align = g.align;
  in_file = g.in_file;
}

unfoldable pub note_containers : List Section → List Segment → List NoteContainer
note_containers [] segments = map segment_container (filter (λ g. g.kind == 4) segments)
note_containers (s ∷ ss) segments = map section_container (filter (λ t. t.kind == 7) (s ∷ ss))

unfoldable pub notes_of : NoteScan → List Note
notes_of (scanned notes) = notes
notes_of (capped notes) = notes
notes_of (unfinished notes) = notes

-- unpack(endian + fmt, desc), which is only given bytes of just the length of the format.
unfoldable pub exactly : ℕ → List ℕ → NoteTag → M NoteTag
exactly n desc tag = if length desc == n then return tag else raise struct_error

module _ (e : Elf) where
  unfoldable pub note_tag : List ℕ → ℕ → ℕ → List ℕ → M NoteTag
  unfolding exactly
  note_tag owner kind descsz desc =
      let word = λ (i : ℕ). uint e.endian (slice (4 * i) (4 * i + 4) desc) in
      if bytes_eq owner (codes "FreeBSD") && kind == 1 && descsz == 4
      then exactly 4 desc (freebsd_abi (word 0))
      else if bytes_eq owner (codes "GNU") && kind == 1 && descsz == 16
      then exactly 16 desc (gnu_abi (word 0) (word 1) (word 2) (word 3))
      else if bytes_eq owner (codes "GNU") && kind == 3
      then return (build_id desc)
      else return plain

  unfoldable pub note_of : Place → ℕ → ℕ → ℕ → ℕ → ℕ → M Note
  unfolding note_tag until_nul bytes_eq
  note_of place kind name_start name_end desc_start descsz =
      let owner_raw = until_nul (slice name_start name_end e.bytes) in
      let desc = slice desc_start (desc_start + descsz) e.bytes in
      note_tag (take max_note_owner_bytes owner_raw) kind descsz desc >>= λ tag. return (record {
        place = place;
        owner = take max_note_owner_bytes owner_raw;
        owner_truncated = ltb max_note_owner_bytes (length owner_raw);
        kind = kind;
        desc_size = descsz;
        desc = take max_note_desc_bytes desc;
        desc_truncated = ltb max_note_desc_bytes descsz;
        tag = tag;
      })

  abbrev pub step_of : NoteContainer → ℕ
  step_of k = if k.align == 8 then 8 else 4

  -- Where the parts of the note at a position end: the name, the start of the descriptor, and it.
  abbrev pub name_end : ℕ → List ℕ → ℕ
  name_end position raw = position + 12 + get_or raw 0 0

  abbrev pub desc_start : NoteContainer → ℕ → List ℕ → ℕ
  desc_start k position raw = k.offset + align (name_end position raw - k.offset) (step_of k)

  abbrev pub desc_end : NoteContainer → ℕ → List ℕ → ℕ
  desc_end k position raw = desc_start k position raw + get_or raw 1 0

  abbrev pub next_position : NoteContainer → ℕ → List ℕ → ℕ
  next_position k position raw = k.offset + align (desc_end k position raw - k.offset) (step_of k)

  abbrev pub fits : NoteContainer → ℕ → List ℕ → Bool
  fits k position raw =
      leb (name_end position raw) (k.offset + k.size)
      && leb (desc_end k position raw) (k.offset + k.size)

  -- `while position + 12 <= end`
  unfoldable pub note_loop : ℕ → NoteContainer → ℕ → List Note → M NoteScan
  note_loop zero k position notes = return (unfinished notes)
  note_loop (suc fuel) k position notes = elim (leb (position + 12) (k.offset + k.size)) [
    | false ↦ return (scanned notes)
    | true ↦ elim (leb max_notes (length notes)) [
      | true ↦ issue "note_listing_capped" k.place >> return (capped notes)
      | false ↦ elim (unpack e "III" position) [
        | none ↦ return (scanned notes)
        | some raw ↦ elim (fits k position raw) [
          | false ↦ issue "note_malformed" k.place >> return (scanned notes)
          | true ↦
              note_of k.place (get_or raw 2 0) (position + 12) (name_end position raw)
                (desc_start k position raw) (get_or raw 1 0)
              >>= λ note. note_loop fuel k (next_position k position raw) (notes ++ note ∷ [])
        ]
      ]
    ]
  ]

  -- Each round moves by 12 bytes at least: that many rounds are enough.
  unfoldable pub scan_container : NoteContainer → List Note → M NoteScan
  unfolding note_loop
  scan_container k notes =
      if k.in_file then note_loop (suc k.size) k k.offset notes else return (scanned notes)

  -- The loop over the containers.
  unfoldable pub scan_containers : List NoteContainer → List Note → M NoteScan
  scan_containers [] notes = return (scanned notes)
  scan_containers (k ∷ ks) notes = scan_container k notes >>= λ r. elim r [
    | scanned found ↦ scan_containers ks found
    | capped found ↦ return (capped found)
    | unfinished found ↦ return (unfinished found)
  ]

  -- `_notes`
  unfoldable pub parse_notes : List Section → List Segment → M (List Note)
  unfolding note_containers notes_of
  parse_notes sections segments =
      scan_containers (note_containers sections segments) [] >>= λ r. return (notes_of r)
