-- ===== src/Elf/Fields.antt =====
-- What `parse_elf` is to report of an image: the layout of the tables in the ELF specification, with
-- the numbers at the places of the fields, by place value, in the encoding that the image declares.
use zaynor.Prelude.{
  ℕ, suc, ◌+◌, ◌*◌, ◌≤◌, ◌≡◌, Bool, true, List, [], ◌∷◌, if◌then◌else◌, ◌==◌, length, get_or, All,
  ◌↔◌, ◌≢◌,
}
use zaynor.Elf.Image.{Endian, little, big}
use zaynor.Elf.Sections.{Section}
use zaynor.Elf.Segments.{Segment}
use zaynor.Elf.Parse.{Parsed}
use zaynor.Elf.Bytes.{word}

module _ (bytes : List ℕ) where
  -- The encoding and the class that the image declares, and the size of an address in that class.
  abbrev pub encoding : Endian
  encoding = if get_or bytes 5 0 == 1 then little else big

  abbrev pub is_64 : Bool
  is_64 = get_or bytes 4 0 == 2

  module _ (en : Endian) (wide : Bool) where
    abbrev pub address : ℕ
    address = if wide then 8 else 4

    -- The section header at `row`: Elf32_Shdr or Elf64_Shdr.
    pub record SectionRow (row : ℕ) (s : Section) : Type 0 where
      pub name_offset : s.name_offset ≡ word en bytes (row + 0) 4
      pub kind : s.kind ≡ word en bytes (row + 4) 4
      pub flags : s.flags ≡ word en bytes (row + 8) address
      pub addr : s.addr ≡ word en bytes (row + (8 + address)) address
      pub offset : s.offset ≡ word en bytes (row + (8 + 2 * address)) address
      pub size : s.size ≡ word en bytes (row + (8 + 3 * address)) address
      pub link : s.link ≡ word en bytes (row + (8 + 4 * address)) 4
      pub info : s.info ≡ word en bytes (row + (12 + 4 * address)) 4
      pub addralign : s.addralign ≡ word en bytes (row + (16 + 4 * address)) address
      pub entsize : s.entsize ≡ word en bytes (row + (16 + 5 * address)) address

    -- The program header at `row`: Elf32_Phdr or Elf64_Phdr, which place the flags differently.
    pub record SegmentRow (row : ℕ) (g : Segment) : Type 0 where
      pub kind : g.kind ≡ word en bytes (row + 0) 4
      pub flags : g.flags ≡ word en bytes (row + (if wide then 4 else 24)) 4
      pub offset : g.offset ≡ word en bytes (row + address) address
      pub vaddr : g.vaddr ≡ word en bytes (row + 2 * address) address
      pub paddr : g.paddr ≡ word en bytes (row + 3 * address) address
      pub filesz : g.filesz ≡ word en bytes (row + 4 * address) address
      pub memsz : g.memsz ≡ word en bytes (row + 5 * address) address
      pub align : g.align ≡ word en bytes (row + (if wide then 48 else 28)) address

  -- A section has bytes in the image when it is neither SHT_NULL nor SHT_NOBITS and they end there.
  abbrev pub SectionHeld : Section → Type 0
  SectionHeld s =
      (s.in_file ≡ true) ↔ ((s.kind ≢ 0) × (s.kind ≢ 8) × (s.offset + s.size ≤ length bytes))

  abbrev pub SegmentHeld : Segment → Type 0
  SegmentHeld g = (g.in_file ≡ true) ↔ (g.offset + g.filesz ≤ length bytes)

  -- The sections from number `i` on of a table at `table` whose rows are `stride` bytes apart.
  abbrev pub SectionTable : ℕ → ℕ → ℕ → List Section → Type 0
  SectionTable table stride i [] = Unit {0}
  SectionTable table stride i (s ∷ ss) =
      (s.index ≡ i)
      × SectionRow encoding is_64 (table + i * stride) s
      × SectionTable table stride (suc i) ss

  abbrev pub SegmentTable : ℕ → ℕ → ℕ → List Segment → Type 0
  SegmentTable table stride i [] = Unit {0}
  SegmentTable table stride i (g ∷ gs) =
      (g.index ≡ i)
      × SegmentRow encoding is_64 (table + i * stride) g
      × SegmentTable table stride (suc i) gs

  -- e_phoff, e_shoff, e_phentsize and e_shentsize.
  abbrev pub phoff : Endian → Bool → ℕ
  phoff en wide = word en bytes (16 + (if wide then 16 else 12)) (if wide then 8 else 4)

  abbrev pub shoff : Endian → Bool → ℕ
  shoff en wide = word en bytes (16 + (if wide then 24 else 16)) (if wide then 8 else 4)

  abbrev pub phentsize : Endian → Bool → ℕ
  phentsize en wide = word en bytes (16 + (if wide then 38 else 26)) 2

  abbrev pub shentsize : Endian → Bool → ℕ
  shentsize en wide = word en bytes (16 + (if wide then 42 else 30)) 2

  -- Every section and segment that is reported has the numbers of its own row of the table that the
  -- header names, and its `in_file` tells whether the image holds its bytes.
  pub record ReportsImage (p : Parsed) : Type 0 where
    pub sections : SectionTable (shoff encoding is_64) (shentsize encoding is_64) 0 p.sections
    pub sections_held : All SectionHeld p.sections
    pub segments : SegmentTable (phoff encoding is_64) (phentsize encoding is_64) 0 p.segments
    pub segments_held : All SegmentHeld p.segments
