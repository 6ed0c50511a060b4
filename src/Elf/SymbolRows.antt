-- ===== src/Elf/SymbolRows.antt =====
-- The records and the rows of the symbol tables: the two ways in which `_symbol_tables` reads its
-- rows, and their fields. A dictionary of counts is a list of keys with their counts.
use zaynor.Prelude.{
  ℕ, zero, suc, ◌+◌, ◌*◌, String, Bool, Option, List, [], ◌∷◌, if◌then◌else◌, ◌==◌, ◌%◌, ◌/◌, none,
  some, length, Outcome, ok, raised, str_eq, get_or, take, drop, slice,
}
use zaynor.Elf.Image.{Elf, Name, fields, widths, unpack, StructError, struct_error}

pub record Symbol : Type 0 where
  pub index : ℕ
  pub name : Name
  pub value : ℕ
  pub size : ℕ
  pub bind : ℕ
  pub kind : ℕ
  pub visibility : ℕ
  pub shndx : ℕ
  pub undefined : Bool

pub record SymbolTable : Type 0 where
  pub section_index : ℕ
  pub is_symtab : Bool
  pub entry_count : Option ℕ
  pub scanned_count : ℕ
  pub bind_counts : List (String × ℕ)
  pub type_counts : List (String × ℕ)
  pub undefined_count : ℕ
  pub listed_count : ℕ
  pub symbols : List Symbol

abbrev pub max_symbol_tables : ℕ
max_symbol_tables = 8

abbrev pub max_symbols_listed : ℕ
max_symbols_listed = 4096

abbrev pub max_symbol_entries_scanned : ℕ
max_symbol_entries_scanned = 2_000_000

-- counts[key] = counts.get(key, 0) + 1
unfoldable pub count_key : String → List (String × ℕ) → List (String × ℕ)
count_key k [] = (k, 1) ∷ []
count_key k (c ∷ cs) = if str_eq c.0 k then (c.0, c.1 + 1) ∷ cs else c ∷ count_key k cs

-- _SYMBOL_BINDS.get(bind, "OTHER") and _SYMBOL_TYPES.get(sym_type, "OTHER")
unfoldable pub bind_key : ℕ → String
bind_key b =
    if b == 0
    then "LOCAL"
    else if b == 1
    then "GLOBAL"
    else if b == 2
    then "WEAK"
    else if b == 10
    then "GNU_UNIQUE"
    else "OTHER"

unfoldable pub type_key : ℕ → String
type_key t =
    if t == 0
    then "NOTYPE"
    else if t == 1
    then "OBJECT"
    else if t == 2
    then "FUNC"
    else if t == 3
    then "SECTION"
    else if t == 4
    then "FILE"
    else if t == 5
    then "COMMON"
    else if t == 6
    then "TLS"
    else if t == 10
    then "GNU_IFUNC"
    else "OTHER"

module _ (e : Elf) where
  abbrev pub symbol_format : String
  symbol_format = if e.is64 then "IBBHQQ" else "IIIBBH"

  abbrev pub symbol_entsize : ℕ
  symbol_entsize = if e.is64 then 24 else 16

  -- The first `n` rows of a buffer.
  unfoldable pub chunks : ℕ → List ℕ → List (List ℕ)
  chunks zero buffer = []
  chunks (suc n) buffer =
      fields e.endian (widths symbol_format) (take symbol_entsize buffer)
      ∷ chunks n (drop symbol_entsize buffer)

  -- packer.iter_unpack: as many rows as the buffer holds, and nothing may be left over.
  unfoldable pub iter_unpack : List ℕ → Outcome StructError (List (List ℕ))
  iter_unpack buffer =
      if length buffer % symbol_entsize == 0
      then ok (chunks (length buffer / symbol_entsize) buffer)
      else raised struct_error

  unfoldable pub row_before :
      Option (List ℕ) → Outcome StructError (List (List ℕ)) → Outcome StructError (List (List ℕ))
  row_before none rest = raised struct_error
  row_before (some raw) (raised x) = raised x
  row_before (some raw) (ok rows) = ok (raw ∷ rows)

  -- packer.unpack_from(self.data, base + i * stride) for i in range(scanned), from `i` on.
  unfoldable pub strided_rows : ℕ → ℕ → ℕ → ℕ → Outcome StructError (List (List ℕ))
  unfolding row_before
  strided_rows base stride zero i = ok []
  strided_rows base stride (suc n) i =
      row_before (unpack e symbol_format (base + i * stride)) (strided_rows base stride n (suc i))

  -- The two paths.
  unfoldable pub symbol_rows : ℕ → ℕ → ℕ → Outcome StructError (List (List ℕ))
  symbol_rows base stride scanned =
      if stride == symbol_entsize
      then iter_unpack (slice base (base + scanned * stride) e.bytes)
      else strided_rows base stride scanned 0

  -- The fields of a row: st_name, st_info, st_other, st_shndx, st_value and st_size.
  abbrev pub st_name : List ℕ → ℕ
  st_name raw = get_or raw 0 0

  abbrev pub st_info : List ℕ → ℕ
  st_info raw = get_or raw (if e.is64 then 1 else 3) 0

  abbrev pub st_other : List ℕ → ℕ
  st_other raw = get_or raw (if e.is64 then 2 else 4) 0

  abbrev pub st_shndx : List ℕ → ℕ
  st_shndx raw = get_or raw (if e.is64 then 3 else 5) 0

  abbrev pub st_value : List ℕ → ℕ
  st_value raw = get_or raw (if e.is64 then 4 else 1) 0

  abbrev pub st_size : List ℕ → ℕ
  st_size raw = get_or raw (if e.is64 then 5 else 2) 0
