-- ===== src/Elf/Segments.antt =====
-- The program headers: `_segments`, and `_vaddr_to_offset`.
use zaynor.Prelude.{
  ℕ, zero, suc, ◌+◌, ◌*◌, ◌-◌, ◌/◌, String, Bool, ◌&&◌, ◌||◌, not, Option, none, some, List, [],
  ◌∷◌, if◌then◌else◌, leb, ltb, ◌==◌, get_or,
}
use zaynor.Elf.Image.{
  Elf, M, ◌>>=◌, ◌>>◌, return, issue, issue_if, header, segment_at, size, in_bounds, unpack,
}
use zaynor.Elf.Sections.{Measurement}
use Prim.Native.Nat.{min}

pub record Segment : Type 0 where
  pub index : ℕ
  pub kind : ℕ
  pub flags : ℕ
  pub offset : ℕ
  pub vaddr : ℕ
  pub paddr : ℕ
  pub filesz : ℕ
  pub memsz : ℕ
  pub align : ℕ
  pub in_file : Bool
  pub measurement : Option Measurement

abbrev pub max_segments : ℕ
max_segments = 512

abbrev pub pt_load : ℕ
pt_load = 1

module _ (e : Elf) where
  abbrev pub segment_format : String
  segment_format = if e.is64 then "IIQQQQQQ" else "IIIIIIII"

  abbrev pub segment_entsize : ℕ
  segment_entsize = if e.is64 then 56 else 32

  -- The two orders of the fields.
  unfoldable pub segment_of : ℕ → List ℕ → Segment
  segment_of index raw =
      let at = λ (i : ℕ). get_or raw i 0 in
      if e.is64
      then record {
        index = index;
        kind = at 0;
        flags = at 1;
        offset = at 2;
        vaddr = at 3;
        paddr = at 4;
        filesz = at 5;
        memsz = at 6;
        align = at 7;
        in_file = in_bounds e (at 2) (at 5);
        measurement = none;
      }
      else record {
        index = index;
        kind = at 0;
        flags = at 6;
        offset = at 1;
        vaddr = at 2;
        paddr = at 3;
        filesz = at 4;
        memsz = at 5;
        align = at 7;
        in_file = in_bounds e (at 1) (at 4);
        measurement = none;
      }

  unfoldable pub segment_rows : ℕ → ℕ → ℕ → ℕ → M (List Segment)
  segment_rows phoff entsize zero index = return []
  segment_rows phoff entsize (suc n) index =
      elim (unpack e segment_format (phoff + index * entsize)) [
        | none ↦ return []
        | some raw ↦ do
          let s = segment_of index raw
          issue_if (not (s.filesz == 0) && not s.in_file) "segment_data_out_of_bounds"
              (segment_at index)
          rest ← segment_rows phoff entsize n (suc index)
          return (s ∷ rest)
      ]

  unfoldable pub segment_count : ℕ → ℕ → M ℕ
  segment_count phnum available = do
    issue_if (ltb available phnum) "program_header_table_truncated_by_eof" header
    issue_if (ltb max_segments (min phnum available)) "segment_listing_capped" header
    return (min (min phnum available) max_segments)

  unfoldable pub read_segments : ℕ → ℕ → ℕ → M (List Segment)
  unfolding segment_count
  read_segments phoff entsize phnum = do
    issue_if (not (entsize == segment_entsize)) "nonstandard_program_header_entsize" header
    if leb (size e) phoff
        then (issue "program_header_table_out_of_bounds" header >> return [])
        else (segment_count phnum ((size e - phoff) / entsize) >>= λ count.
            segment_rows phoff entsize count 0)

  -- `_segments`
  unfoldable pub parse_segments : ℕ → ℕ → ℕ → M (List Segment)
  unfolding read_segments
  parse_segments phoff entsize phnum =
      if phoff == 0 || phnum == 0
      then (issue_if (not (phnum == 0) && phoff == 0) "segment_count_without_table" header
          >> return [])
      else if ltb entsize segment_entsize
      then (issue "program_header_entsize_too_small" header >> return [])
      else read_segments phoff entsize phnum

-- `_vaddr_to_offset`
unfoldable pub vaddr_to_offset : List Segment → ℕ → Option ℕ
vaddr_to_offset [] vaddr = none
vaddr_to_offset (s ∷ ss) vaddr =
    if s.kind == pt_load && s.in_file && leb s.vaddr vaddr && ltb vaddr (s.vaddr + s.filesz)
    then some (s.offset + (vaddr - s.vaddr))
    else vaddr_to_offset ss vaddr
